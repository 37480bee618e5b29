-- ===== src/SessionPool/Lend.antt =====
-- Lending and returning: `lendableLocked`, `tryLendLocked`, `returnLocked` and `Release`.
-- `reusable` is the answer of `Reusable()` for each connection while the lock is held.
use argos.Base.{
  ℕ, suc, ◌-◌, Bool, true, false, not, ◌&&◌, ◌==◌, leb, ltb, if◌then◌else◌, List, [], ◌∷◌, ◌++◌,
  Option, none, some, length, contains,
}
use argos.Base.Int.{ℤ, pos, negsuc}
use argos.SessionPool.State.{
  Config, Entry, Bucket, Pool, bucket, set_bucket, find_entry, put_entry, endpoint_of,
  lifetime_expired, remove_idle, discard,
}

-- `p.capPer > 0 && n >= p.capPer`.
abbrev pub cap_reached : ℤ → ℕ → Bool
cap_reached (pos c) n = ltb 0 c && leb c n
cap_reached (negsuc c) n = false

unfoldable pub lendable : Config → ℤ → (ℕ → Bool) → ℕ → Entry → Bool
lendable cfg cap reusable now e =
    if lifetime_expired cfg e now
    then false
    else if not (reusable e.sess)
    then false
    else if cap_reached cap e.refcount
    then false
    else true

-- The loop of `tryLendLocked`: the first entry that is neither skipped nor refused.
unfoldable pub first_lendable : Config → ℤ → (ℕ → Bool) → ℕ → List ℕ → List Entry → Option Entry
first_lendable cfg cap reusable now skip [] = none
first_lendable cfg cap reusable now skip (e ∷ es) =
    if contains e.sess skip
    then first_lendable cfg cap reusable now skip es
    else if lendable cfg cap reusable now e
    then some e
    else first_lendable cfg cap reusable now skip es

-- What the loop does with that entry.
unfoldable pub lend_entry : Bucket → Entry → Bucket
unfolding remove_idle
lend_entry b e =
    let out = remove_idle b e in
    record out {
      entries = put_entry (record e { in_idle = false; refcount = suc e.refcount }) out.entries;
    }

unfoldable pub try_lend : Pool → ℕ → ℕ → (ℕ → Bool) → List ℕ → Option (ℕ × Pool)
try_lend p ep now reusable skip =
    elim (first_lendable p.cfg p.cap_per reusable now skip (bucket p ep).entries) [
      | none ↦ none
      | some e ↦ some (e.sess, set_bucket p ep (lend_entry (bucket p ep) e))
    ]

-- `p.cfg.MaxIdleSessions >= 0 && n >= p.cfg.MaxIdleSessions`.
abbrev pub idle_full : ℤ → ℕ → Bool
idle_full (pos m) n = leb m n
idle_full (negsuc m) n = false

-- The end of `returnLocked`: the entry joins the idle queue.
unfoldable pub park : Bucket → Entry → ℕ → Bucket
park b e now = record b {
  entries = put_entry (record e { in_idle = true; idle_since = now }) b.entries;
  idle = b.idle ++ (e.sess ∷ []);
}

-- `returnLocked`, on an entry whose count has been taken down already.
unfoldable pub return_entry : Pool → ℕ → Entry → ℕ → (ℕ → Bool) → Pool
return_entry p ep e now reusable =
    if ltb 0 e.refcount
    then p
    else if not (reusable e.sess && not (lifetime_expired p.cfg e now))
    then discard p ep e
    else if idle_full p.cfg.max_idle_sessions (length (bucket p ep).idle)
    then discard p ep e
    else set_bucket p ep (park (bucket p ep) e now)

-- The rest of `Release`, on the entry that `bySess` has: the count goes down, which the bucket
-- sees, and the entry is returned.
unfoldable pub release_entry : Pool → ℕ → Entry → ℕ → (ℕ → Bool) → Pool
release_entry p ep e now reusable =
    if e.refcount == 0
    then p
    else (let e' = record e { refcount = e.refcount - 1 } in
        let b = bucket p ep in
        return_entry (set_bucket p ep (record b { entries = put_entry e' b.entries })) ep e' now
          reusable)

-- `p.bySess[sess]`.
unfoldable pub lookup_sess : Pool → ℕ → Option (ℕ × Entry)
lookup_sess p s = elim (endpoint_of s p.by_sess) [
  | none ↦ none
  | some ep ↦ elim (find_entry s (bucket p ep).entries) [ none ↦ none | some e ↦ some (ep, e) ]
]

unfoldable pub release : Pool → ℕ → ℕ → (ℕ → Bool) → Pool
release p s now reusable = elim (lookup_sess p s) [
  | none ↦ p
  | some (ep, e) ↦ release_entry p ep e now reusable
]
