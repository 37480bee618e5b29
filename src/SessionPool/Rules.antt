-- ===== src/SessionPool/Rules.antt =====
-- Rules by which a property of the pool goes through the loops and branches of
-- internal/sessionpool/pool.go: the code stays shut where these are used.
use argos.Base.{
  ◌<◌, ℕ, ◌-◌, ◌≡◌, Bool, false, not, ◌&&◌, ◌||◌, ◌==◌, ltb, if◌then◌else◌, List, [], ◌∷◌, Option,
  none, some, length, arith, Bool-cases, Option-cases, inl, inr,
}
use argos.SessionPool.State.{
  Entry, Bucket, Pool, bucket, set_bucket, find_entry, put_entry, lifetime_expired, discard,
}
use argos.SessionPool.Lend.{
  first_lendable, lend_entry, try_lend, park, return_entry, release_entry, lookup_sess, release,
  idle_full,
}
use argos.SessionPool.Reclaim.{
  reclaim_one, reclaim_idle, sweep_one, sweep, reclaim_bucket, reclaim_from, reclaim, idle_dead,
  conns,
}
use argos.SessionPool.Entries.{find_entry_self}

-- Reclaiming is a sequence of discards, each of an entry that carries no call.
module _ {ℓ} (P : Pool → Type ℓ)
    (gone : (p : Pool) (ep : ℕ) (e : Entry)
      → P p
      → find_entry e.sess (bucket p ep).entries ≡ some e
      → e.refcount ≡ 0
      → P (discard p ep e))
    (ep : ℕ) (reusable : ℕ → Bool) (now : ℕ) where
  reclaim_one_rule : (p : Pool) (s : ℕ) → P p → P (reclaim_one p ep reusable now s)
  unfolding reclaim_one
  reclaim_one_rule p s h = elim (Option-cases (find_entry s (bucket p ep).entries)) [
    | inl f ↦ rw (reclaim_one, f) h
    | inr (e, f) ↦ rw (reclaim_one, f) (branch e (find_entry_self s (bucket p ep).entries e f))
  ]
    where
      branch :
          (e : Entry)
          → find_entry e.sess (bucket p ep).entries ≡ some e
          → P (
              if ltb 0 e.refcount
              then p
              else if idle_dead p.cfg reusable now e
              then discard p ep e
              else p)
      branch e f = elim (Bool-cases (ltb 0 e.refcount)) [
        | inl busy ↦ rw busy h
        | inr rest ↦ elim (Bool-cases (idle_dead p.cfg reusable now e)) [
          | inl dead ↦ rw (rest, dead) (gone p ep e h f (ground arith))
          | inr live ↦ rw (rest, live) h
        ]
      ]

  reclaim_idle_rule : (ss : List ℕ) (p : Pool) → P p → P (reclaim_idle ss ep reusable now p)
  unfolding reclaim_idle
  reclaim_idle_rule [] p h = h
  reclaim_idle_rule (s ∷ ss) p h =
      reclaim_idle_rule ss (reclaim_one p ep reusable now s) (reclaim_one_rule p s h)

  sweep_one_rule : (p : Pool) (s : ℕ) → P p → P (sweep_one p ep reusable now s)
  unfolding sweep_one
  sweep_one_rule p s h = elim (Option-cases (find_entry s (bucket p ep).entries)) [
    | inl f ↦ rw (sweep_one, f) h
    | inr (e, f) ↦ rw (sweep_one, f) (branch e (find_entry_self s (bucket p ep).entries e f))
  ]
    where
      branch :
          (e : Entry)
          → find_entry e.sess (bucket p ep).entries ≡ some e
          → P (
              if e.refcount == 0 && not e.in_idle
              then (if lifetime_expired p.cfg e now || not (reusable e.sess)
                  then discard p ep e
                  else p)
              else p)
      branch e f = elim (Bool-cases (e.refcount == 0 && not e.in_idle)) [
        | inr rest ↦ rw rest h
        | inl free ↦ elim (Bool-cases (lifetime_expired p.cfg e now || not (reusable e.sess))) [
          | inl dead ↦ rw (free, dead) (gone p ep e h f (ground arith))
          | inr live ↦ rw (free, live) h
        ]
      ]

  sweep_rule : (ss : List ℕ) (p : Pool) → P p → P (sweep ss ep reusable now p)
  unfolding sweep
  sweep_rule [] p h = h
  sweep_rule (s ∷ ss) p h = sweep_rule ss (sweep_one p ep reusable now s) (sweep_one_rule p s h)

  pub reclaim_bucket_rule : (p : Pool) → P p → P (reclaim_bucket p ep reusable now)
  unfolding reclaim_bucket
  reclaim_bucket_rule p h =
      sweep_rule (conns (bucket (reclaim_idle (bucket p ep).idle ep reusable now p) ep).entries) _
        (reclaim_idle_rule (bucket p ep).idle p h)

module _ {ℓ} (P : Pool → Type ℓ)
    (gone : (p : Pool) (ep : ℕ) (e : Entry)
      → P p
      → find_entry e.sess (bucket p ep).entries ≡ some e
      → e.refcount ≡ 0
      → P (discard p ep e))
    (reusable : ℕ → Bool) (now : ℕ) where
  reclaim_from_rule : (bs : List (ℕ × Bucket)) (p : Pool) → P p → P (reclaim_from bs reusable now p)
  unfolding reclaim_from
  reclaim_from_rule [] p h = h
  reclaim_from_rule ((ep, b) ∷ bs) p h =
      reclaim_from_rule bs (reclaim_bucket p ep reusable now)
        (reclaim_bucket_rule P gone ep reusable now p h)

  pub reclaim_rule : (p : Pool) → P p → P (reclaim p reusable now)
  unfolding reclaim
  reclaim_rule p h = reclaim_from_rule p.buckets p h

-- What `tryLendLocked` found when it lends.
pub try_lend-eq-some :
    (p : Pool) (ep now : ℕ) (reusable : ℕ → Bool) (skip : List ℕ) (s : ℕ) (q : Pool)
    → try_lend p ep now reusable skip ≡ some (s, q)
    → (e : Entry) × (first_lendable p.cfg p.cap_per reusable now skip (bucket p ep).entries
        ≡ some e)
      × (s ≡ e.sess)
      × (q ≡ set_bucket p ep (lend_entry (bucket p ep) e))
unfolding try_lend
try_lend-eq-some p ep now reusable skip s q h =
    elim (Option-cases (first_lendable p.cfg p.cap_per reusable now skip (bucket p ep).entries)) [
      | inl e ↦ absurd (none_case (rw (try_lend, e) at h))
      | inr (e, f) ↦
          (e, f, ground (arith, rw (try_lend, f) at h), ground (arith, rw (try_lend, f) at h))
    ]
  where
    none_case : ◌≡◌ {A = Option (ℕ × Pool)} none (some (s, q)) → ⊥
    none_case k = cc

-- The four outcomes of `returnLocked`.
pub return_entry_rule {ℓ} :
    (P : Pool → Type ℓ) (p : Pool) (ep : ℕ) (e : Entry) (now : ℕ) (reusable : ℕ → Bool)
    → (0 < e.refcount → P p)
    → (e.refcount ≡ 0 → P (discard p ep e))
    → (e.refcount ≡ 0
        → idle_full p.cfg.max_idle_sessions (length (bucket p ep).idle) ≡ false
        → P (set_bucket p ep (park (bucket p ep) e now)))
    → P (return_entry p ep e now reusable)
unfolding return_entry
return_entry_rule P p ep e now reusable busy dead idle = elim (Bool-cases (ltb 0 e.refcount)) [
  | inl b ↦ rw b (busy (ground arith))
  | inr r ↦ elim (Bool-cases (not (reusable e.sess && not (lifetime_expired p.cfg e now)))) [
    | inl d ↦ rw (r, d) (dead (ground arith))
    | inr g ↦ elim (Bool-cases (idle_full p.cfg.max_idle_sessions (length (bucket p ep).idle))) [
      | inl f ↦ rw (r, g, f) (dead (ground arith))
      | inr f ↦ rw (r, g, f) (idle (ground arith) f)
    ]
  ]
]

-- The state in which `Release` calls `returnLocked`.
abbrev pub unref_entry : Entry → Entry
unref_entry e = record e { refcount = e.refcount - 1 }

abbrev pub unref : Pool → ℕ → Entry → Pool
unref p ep e =
    let b = bucket p ep in
    set_bucket p ep (record b { entries = put_entry (unref_entry e) b.entries })

lookup_sess-find_entry :
    (p : Pool) (s ep : ℕ) (e : Entry)
    → lookup_sess p s ≡ some (ep, e)
    → find_entry e.sess (bucket p ep).entries ≡ some e
unfolding lookup_sess
lookup_sess-find_entry p s ep e h = ground (arith, find_entry_self s (bucket p ep).entries e)

pub release_rule {ℓ} :
    (P : Pool → Type ℓ) (p : Pool) (s now : ℕ) (reusable : ℕ → Bool)
    → P p
    → ((ep : ℕ) (e : Entry)
        → find_entry e.sess (bucket p ep).entries ≡ some e
        → 0 < e.refcount
        → P (return_entry (unref p ep e) ep (unref_entry e) now reusable))
    → P (release p s now reusable)
unfolding release
release_rule P p s now reusable same step = elim (Option-cases (lookup_sess p s)) [
  | inl n ↦ rw (n, release) same
  | inr ((ep, e), f) ↦ rw (f, release) (branch ep e (lookup_sess-find_entry p s ep e f))
]
  where
    branch :
        (ep : ℕ) (e : Entry)
        → find_entry e.sess (bucket p ep).entries ≡ some e
        → P (release_entry p ep e now reusable)
    branch ep e f = elim (Bool-cases (e.refcount == 0)) [
      | inl z ↦ unfold release_entry in rw z same
      | inr z ↦ unfold release_entry in rw z (step ep e f (ground arith))
    ]
