-- ===== src/SessionPool/Safety.antt =====
-- What holds after any history of internal/sessionpool/pool.go, whatever the callers, the dials and
-- the clock do.
use argos.Base.{
  ◌⊎◌, ◌↔◌, ℕ, ◌+◌, ◌≤◌, ◌<◌, ◌≡◌, refl, ap, ◌∙◌, Bool, true, false, [], some, arith, length, count,
  if_rule,
}
use argos.Base.Int.{ℤ, pos, negsuc, is_neg}
use argos.SessionPool.State.{Config, Entry, Pool, new, bucket, find_entry}
use argos.SessionPool.Reclaim.{tick, close}
use argos.SessionPool.Entries.{flagged-le-held, find_entry-All, find_entry-sess, flagged-eq-flag}
use argos.SessionPool.Invariant.{Carries, EntryInv, BucketInv, IdleRoom}
use argos.SessionPool.Preserve.{
  PoolInv, new-PoolInv, bucket-BucketInv, enter-PoolInv, woken-PoolInv, dial_failed-PoolInv,
  dial_done-PoolInv, release-PoolInv, reclaim-PoolInv,
}
use argos.SessionPool.Frame.{release-Same}
use argos.SessionPool.Ledger.{
  Ledger, Same-Ledger, enter-Ledger, woken-Ledger, dial_failed-Ledger, dial_done-Ledger,
  close-Ledger, tick-Ledger,
}
use mathlib.Core.Path.{subst₂}
use argos.SessionPool.Limits.{Reach-Settled}
use argos.SessionPool.System.{
  Sys, start, Step, enters, fails, connects, wakes, releases, ticks, closes, Reach, here, next,
}

pub record SysInv (σ : Sys) : Type 0 where
  pub pool_inv : PoolInv σ.pool
  pub ledger : Ledger σ.pool σ.dials

close-PoolInv : (p : Pool) → PoolInv p → PoolInv (close p)
unfolding close
close-PoolInv p v =
    if_rule PoolInv p.closed _ _ (λ _. v) λ _. record { one_call = v.one_call; each = tt }

tick-PoolInv :
    (p : Pool) (reusable : ℕ → Bool) (now : ℕ) → PoolInv p → PoolInv (tick p reusable now)
unfolding tick
tick-PoolInv p reusable now v =
    if_rule PoolInv p.closed _ _ (λ _. v) λ _. reclaim-PoolInv p reusable now v

Step-SysInv : {σ τ : Sys} → Step σ τ → SysInv σ → SysInv τ
Step-SysInv {σ} (enters ep now reusable skip) v = record {
  pool_inv = enter-PoolInv σ.pool ep now reusable skip v.pool_inv;
  ledger = enter-Ledger σ.pool ep σ.dials v.ledger now reusable skip;
}
Step-SysInv {σ} (fails ep h) v = record {
  pool_inv = dial_failed-PoolInv σ.pool ep v.pool_inv;
  ledger = dial_failed-Ledger σ.pool ep σ.dials v.ledger h;
}
Step-SysInv {σ} (connects ep s now h fresh) v = record {
  pool_inv = dial_done-PoolInv σ.pool ep s now v.pool_inv (fresh ep);
  ledger = dial_done-Ledger σ.pool ep σ.dials v.ledger s now h;
}
Step-SysInv {σ} (wakes ep failed now reusable skip) v = record {
  pool_inv = woken-PoolInv σ.pool ep failed now reusable skip v.pool_inv;
  ledger = woken-Ledger σ.pool ep σ.dials v.ledger failed now reusable skip;
}
Step-SysInv {σ} (releases s now reusable) v = record {
  pool_inv = release-PoolInv σ.pool s now reusable v.pool_inv;
  ledger = Same-Ledger (release-Same σ.pool s now reusable) v.ledger;
}
Step-SysInv {σ} (ticks reusable now) v = record {
  pool_inv = tick-PoolInv σ.pool reusable now v.pool_inv;
  ledger = tick-Ledger σ.pool reusable now σ.dials v.ledger;
}
Step-SysInv {σ} closes v = record {
  pool_inv = close-PoolInv σ.pool v.pool_inv;
  ledger = close-Ledger σ.pool σ.dials v.ledger;
}

start-SysInv : (cfg : Config) → SysInv (start cfg)
start-SysInv cfg = record { pool_inv = new-PoolInv cfg; ledger = new-Ledger cfg }
  where
    new-Ledger : (cfg : Config) → Ledger (new cfg) []
    new-Ledger cfg =
        unfold new in
        record { reserved = λ c ep. refl; flown = λ c m ep. refl; single = λ c m ep. omega arith }

pub Reach-SysInv : {cfg : Config} {σ : Sys} → Reach cfg σ → SysInv σ
Reach-SysInv {cfg} here = start-SysInv cfg
Reach-SysInv (next r s) = Step-SysInv s (Reach-SysInv r)

module _ {cfg : Config} {σ : Sys} (r : Reach cfg σ) where
  private_bucket : (ep : ℕ) → BucketInv cfg (new cfg).cap_per (bucket σ.pool ep)
  private_bucket ep =
      let t = Reach-Settled r in
      subst₂ (λ c k. BucketInv c k (bucket σ.pool ep)) t.limits t.per_conn
        (bucket-BucketInv σ.pool ep (Reach-SysInv r).pool_inv)

  -- While the pool is open, the connections of an endpoint and the dials in flight to it together
  -- never exceed MaxSessionsPerEndpoint, if that is positive.
  pub reach_within_cap :
      σ.pool.closed ≡ false
      → 0 < cfg.max_sessions_per_endpoint
      → (ep : ℕ)
      → length (bucket σ.pool ep).entries + count ep σ.dials ≤ cfg.max_sessions_per_endpoint
  reach_within_cap c h ep =
      let room = (private_bucket ep).room h in
      ground (arith, room, (Reach-SysInv r).ledger.reserved c ep)

  -- While a pool with negative MaxCallsPerConn is open, at most one dial to an endpoint is in flight.
  pub reach_singleflight :
      σ.pool.closed ≡ false → is_neg cfg.max_calls_per_conn ≡ true → (ep : ℕ) → count ep σ.dials ≤ 1
  unfolding new
  reach_singleflight c h =
      let t = Reach-Settled r in
      (Reach-SysInv r).ledger.single c (ap is_neg t.per_conn ∙ negative cfg.max_calls_per_conn h)
    where
      negative :
          (n : ℤ)
          → is_neg n ≡ true
          → is_neg (new (record cfg { max_calls_per_conn = n })).cap_per ≡ true
      negative (pos n) k = cc
      negative (negsuc n) k = refl

  -- A connection of a pool with MaxCallsPerConn 0 or 1 never has more than one call on it.
  pub reach_exclusive :
      (n ep s : ℕ) (e : Entry)
      → n ≤ 1
      → cfg.max_calls_per_conn ≡ pos n
      → find_entry s (bucket σ.pool ep).entries ≡ some e
      → e.refcount ≤ 1
  unfolding new
  reach_exclusive n ep s e h m f =
      at_most cfg.max_calls_per_conn m
        (find_entry-All (EntryInv (new cfg).cap_per) s _ e (private_bucket ep).entries_inv
          f).carries
    where
      at_most :
          (k : ℤ)
          → k ≡ pos n
          → Carries (new (record cfg { max_calls_per_conn = k })).cap_per e.refcount
          → e.refcount ≤ 1
      at_most (pos k) eq c = ground arith
      at_most (negsuc k) eq c = cc

  -- The idle queue of an endpoint names each connection at most once, and fits MaxIdleSessions
  -- where that is not negative. A connection is named there exactly if its entry is marked idle,
  -- and the entry is not marked idle or carries no call.
  pub reach_idle :
      (ep s : ℕ) (e : Entry)
      → find_entry s (bucket σ.pool ep).entries ≡ some e
      → (count s (bucket σ.pool ep).idle ≤ 1)
        × IdleRoom cfg.max_idle_sessions (length (bucket σ.pool ep).idle)
        × (0 < count s (bucket σ.pool ep).idle ↔ e.in_idle ≡ true)
        × ((e.in_idle ≡ false) ⊎ (e.refcount ≡ 0))
  reach_idle ep s e f =
      let v = private_bucket ep in
      let es = (bucket σ.pool ep).entries in
      let own = flagged-eq-flag s es e f (v.distinct s) in
      let ei = find_entry-All (EntryInv (new cfg).cap_per) s es e v.entries_inv f in
      (
        omega (arith, v.marked s, v.distinct s, flagged-le-held s es),
        v.idle_room,
        (
          (λ h. ground (arith, own, v.marked s, find_entry-sess s es e f)),
          λ h. ground (arith, own, v.marked s, find_entry-sess s es e f),
        ),
        ground (arith, ei.at_rest),
      )
