-- ===== src/SessionPool/Reclaim.antt =====
-- `reclaimLocked` and `Close` of internal/sessionpool/pool.go.
use argos.Base.{
  ℕ, ◌-◌, Bool, true, not, ◌&&◌, ◌||◌, ◌==◌, leb, ltb, if◌then◌else◌, List, [], ◌∷◌, ◌++◌, none,
  some, map,
}
use argos.SessionPool.State.{
  Config, Entry, Bucket, Pool, bucket, find_entry, lifetime_expired, discard,
}

-- The three grounds on which the first loop drops an idle entry.
unfoldable pub idle_dead : Config → (ℕ → Bool) → ℕ → Entry → Bool
unfolding lifetime_expired
idle_dead cfg reusable now e =
    lifetime_expired cfg e now
    || (ltb 0 cfg.session_idle_timeout
        && e.in_idle
        && leb cfg.session_idle_timeout (now - e.idle_since))
    || not (reusable e.sess)

-- One round of the first loop, over a copy of the idle queue.
unfoldable pub reclaim_one : Pool → ℕ → (ℕ → Bool) → ℕ → ℕ → Pool
reclaim_one p ep reusable now s = elim (find_entry s (bucket p ep).entries) [
  | none ↦ p
  | some e ↦
      if ltb 0 e.refcount then p else if idle_dead p.cfg reusable now e then discard p ep e else p
]

unfoldable pub reclaim_idle : List ℕ → ℕ → (ℕ → Bool) → ℕ → Pool → Pool
reclaim_idle [] ep reusable now p = p
reclaim_idle (s ∷ rest) ep reusable now p =
    reclaim_idle rest ep reusable now (reclaim_one p ep reusable now s)

-- One round of the second loop, over a copy of the entries.
unfoldable pub sweep_one : Pool → ℕ → (ℕ → Bool) → ℕ → ℕ → Pool
sweep_one p ep reusable now s = elim (find_entry s (bucket p ep).entries) [
  | none ↦ p
  | some e ↦
      if e.refcount == 0 && not e.in_idle
      then (if lifetime_expired p.cfg e now || not (reusable e.sess) then discard p ep e else p)
      else p
]

unfoldable pub sweep : List ℕ → ℕ → (ℕ → Bool) → ℕ → Pool → Pool
sweep [] ep reusable now p = p
sweep (s ∷ rest) ep reusable now p = sweep rest ep reusable now (sweep_one p ep reusable now s)

abbrev pub conns : List Entry → List ℕ
conns = map λ e. e.sess

unfoldable pub reclaim_bucket : Pool → ℕ → (ℕ → Bool) → ℕ → Pool
reclaim_bucket p ep reusable now =
    let q = reclaim_idle (bucket p ep).idle ep reusable now p in
    sweep (conns (bucket q ep).entries) ep reusable now q

-- `for _, b := range p.buckets`. The order is Go's choice; here it is that of the list.
unfoldable pub reclaim_from : List (ℕ × Bucket) → (ℕ → Bool) → ℕ → Pool → Pool
reclaim_from [] reusable now p = p
reclaim_from ((ep, _) ∷ bs) reusable now p =
    reclaim_from bs reusable now (reclaim_bucket p ep reusable now)

unfoldable pub reclaim : Pool → (ℕ → Bool) → ℕ → Pool
reclaim p reusable now = reclaim_from p.buckets reusable now p

-- A tick of `reclaimLoop`.
unfoldable pub tick : Pool → (ℕ → Bool) → ℕ → Pool
tick p reusable now = if p.closed then p else reclaim p reusable now

-- `Close`: the connections that it closes behind the lock are logged in the same step.
unfoldable pub close : Pool → Pool
close p = if p.closed then p else record p {
  closed = true;
  buckets = [];
  by_sess = [];
  closed_conns = p.closed_conns ++ map (λ m. m.0) p.by_sess;
}
