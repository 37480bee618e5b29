-- ===== src/SessionPool/Lending.antt =====
-- What internal/sessionpool/pool.go lends, and what a reclaim keeps.
use argos.Base.{
  ℕ, suc, ◌<◌, ◌≡◌, ◌≢◌, refl, sym, ap, ◌∙◌, Bool, true, false, ◌==◌, List, [], ◌∷◌, none, some,
  arith, All, contains, if_rule, Option-cases, Bool-cases, inl, inr,
}
use argos.Base.Int.{is_neg}
use argos.SessionPool.State.{
  Entry, Bucket, Pool, bucket, find_entry, put_entry, lifetime_expired, at_cap, discard,
  discard_from, remove_idle,
}
use argos.SessionPool.Lend.{first_lendable, lendable, cap_reached, try_lend, lend_entry}
use argos.SessionPool.Reclaim.{reclaim}
use argos.SessionPool.Acquire.{
  Outcome, lent, exhausted, pool_closed, dial, wait, enter_empty, enter,
}
use mathlib.Core.Path.{subst, subst₂}
use argos.SessionPool.Preserve.{PoolInv, bucket-BucketInv, reclaim-PoolInv}
use argos.SessionPool.Entries.{
  find_entry-drop_entry_ne, find_entry-put_entry_ne, find_entry-put_entry,
  first_lendable-find_entry, bucket_of-put_bucket, bucket-set_bucket,
}
use argos.SessionPool.Rules.{try_lend-eq-some, reclaim_rule}

-- The entry may be lent: not asked to be skipped, not too old, reusable, with a call to spare.
pub record MayLend (p : Pool) (now : ℕ) (reusable : ℕ → Bool) (skip : List ℕ) (e : Entry)
    : Type 0 where
  pub unskipped : contains e.sess skip ≡ false
  pub young : lifetime_expired p.cfg e now ≡ false
  pub fit : reusable e.sess ≡ true
  pub spare : cap_reached p.cap_per e.refcount ≡ false

first_lendable-MayLend :
    (p : Pool) (now : ℕ) (reusable : ℕ → Bool) (skip : List ℕ) (es : List Entry) (e : Entry)
    → first_lendable p.cfg p.cap_per reusable now skip es ≡ some e
    → MayLend p now reusable skip e
unfolding first_lendable lendable
first_lendable-MayLend p now reusable skip [] e h = cc
first_lendable-MayLend p now reusable skip (x ∷ es) e h =
    ground (arith, first_lendable-MayLend p now reusable skip es e)

-- Every entry is refused.
abbrev pub Refuses : Pool → ℕ → (ℕ → Bool) → List ℕ → Entry → Type 0
Refuses p now reusable skip e = ¬ MayLend p now reusable skip e

discard_from_ne :
    (s : ℕ) (d : Entry) (b : Bucket)
    → d.sess ≢ s
    → find_entry s (discard_from b d).entries ≡ find_entry s b.entries
unfolding discard_from remove_idle
discard_from_ne s d b n =
    let quiet = record d { in_idle = false } in
    ground (
      arith,
      find_entry-drop_entry_ne s d.sess b.entries n,
      find_entry-drop_entry_ne s d.sess (put_entry quiet b.entries) n,
      find_entry-put_entry_ne s quiet b.entries n,
    )

discard_keeps :
    (p : Pool) (ep k s : ℕ) (d e : Entry)
    → find_entry s (bucket p ep).entries ≡ some e
    → 0 < e.refcount
    → find_entry d.sess (bucket p k).entries ≡ some d
    → d.refcount ≡ 0
    → find_entry s (bucket (discard p k d) ep).entries ≡ some e
discard_keeps p ep k s d e f busy g rest = elim (Bool-cases (k == ep)) [
  | inr other ↦
      unfold discard in
      ground (arith, f, bucket_of-put_bucket k ep (discard_from (bucket p k) d) p.buckets)
  | inl same ↦
      let place : k ≡ ep = ground arith in
      let g' : find_entry d.sess (bucket p ep).entries ≡ some d =
        subst (λ j. find_entry d.sess (bucket p j).entries ≡ some d) place g in
      let differ : d.sess ≢ s =
        λ eq. different (subst (λ t. find_entry t (bucket p ep).entries ≡ some d) eq g') in
      let kept = discard_from_ne s d (bucket p k) differ in
      unfold discard in
      ground (arith, f, kept, bucket_of-put_bucket k ep (discard_from (bucket p k) d) p.buckets)
]
  where
    different : find_entry s (bucket p ep).entries ≡ some d → ⊥
    different h = ground arith

-- A connection with a call on it stays in its bucket, with the same entry, through any reclaim.
pub reclaim_keeps_busy :
    (p : Pool) (reusable : ℕ → Bool) (now ep s : ℕ) (e : Entry)
    → find_entry s (bucket p ep).entries ≡ some e
    → 0 < e.refcount
    → find_entry s (bucket (reclaim p reusable now) ep).entries ≡ some e
reclaim_keeps_busy p reusable now ep s e f busy =
    reclaim_rule (λ q. find_entry s (bucket q ep).entries ≡ some e)
      (λ q k d g h z. discard_keeps q ep k s d e g busy h z) reusable now p f

first_lendable-none :
    (p : Pool) (now : ℕ) (reusable : ℕ → Bool) (skip : List ℕ) (es : List Entry)
    → first_lendable p.cfg p.cap_per reusable now skip es ≡ none
    → All (Refuses p now reusable skip) es
unfolding first_lendable lendable
first_lendable-none p now reusable skip [] h = tt
first_lendable-none p now reusable skip (x ∷ es) h = (
  (λ m. ground (arith, m.unskipped, m.young, m.fit, m.spare)),
  first_lendable-none p now reusable skip es (ground arith),
)

lend_entry_found :
    (b : Bucket) (e : Entry)
    → find_entry e.sess b.entries ≡ some e
    → find_entry e.sess (lend_entry b e).entries
      ≡ some (record e { in_idle = false; refcount = suc e.refcount })
unfolding lend_entry remove_idle
lend_entry_found b e f =
    let quiet = record e { in_idle = false } in
    let lent_e = record e { in_idle = false; refcount = suc e.refcount } in
    ground (
      arith,
      f,
      find_entry-put_entry e quiet b.entries refl f,
      find_entry-put_entry quiet lent_e (put_entry quiet b.entries) refl,
      find_entry-put_entry e lent_e b.entries refl f,
    )

module _ (p : Pool) (ep now : ℕ) (reusable : ℕ → Bool) (skip : List ℕ) where
  -- What the first locked section tells the caller, in terms of the pool `r` left by the reclaim:
  -- a connection that it lends is one that may be lent, and carries one call more from then on;
  -- it refuses only where no entry may be lent and the endpoint is at its limit; it says that the
  -- pool is closed only if it is.
  abbrev pub Answers : Pool → Pool → Outcome → Type 0
  Answers r q (lent s) =
      (e : Entry) × (find_entry s (bucket r ep).entries ≡ some e)
      × MayLend r now reusable skip e
      × (find_entry s (bucket q ep).entries
          ≡ some (record e { in_idle = false; refcount = suc e.refcount }))
  Answers r q exhausted =
      All (Refuses r now reusable skip) (bucket r ep).entries × (at_cap r ep ≡ true)
  Answers r q pool_closed = p.closed ≡ true
  Answers r q dial = All (Refuses r now reusable skip) (bucket r ep).entries × (at_cap r ep ≡ false)
  Answers r q wait =
      All (Refuses r now reusable skip) (bucket r ep).entries × (contains ep r.flights ≡ true)
  Answers r q _ = ⊥

  try_lend-eq-none :
      (r : Pool)
      → try_lend r ep now reusable skip ≡ none
      → All (Refuses r now reusable skip) (bucket r ep).entries
  try_lend-eq-none r n =
      first_lendable-none r now reusable skip (bucket r ep).entries
        (unfold try_lend in ground arith)

  enter_empty-Answers :
      (r : Pool)
      → All (Refuses r now reusable skip) (bucket r ep).entries
      → Answers r (enter_empty r ep).0 (enter_empty r ep).1
  unfolding enter_empty
  enter_empty-Answers r a =
      let P = λ (x : Pool × Outcome). Answers r x.0 x.1 in
      if_rule P (is_neg r.cap_per) _ _
        (λ _.
          if_rule P (contains ep r.flights) _ _ (λ f. (a, f))
            (λ _. if_rule P (at_cap r ep) _ _ (λ f. (a, f)) (λ f. (a, f))))
        (λ _. if_rule P (at_cap r ep) _ _ (λ f. (a, f)) (λ f. (a, f)))

  try_lend-Answers :
      (r : Pool) (s : ℕ) (q : Pool)
      → PoolInv r
      → try_lend r ep now reusable skip ≡ some (s, q)
      → Answers r q (lent s)
  try_lend-Answers r s q w h =
      let (e, found, named, after) = try_lend-eq-some r ep now reusable skip s q h in
      let b = bucket r ep in
      let f =
        first_lendable-find_entry r.cfg r.cap_per reusable now skip b.entries e
          (bucket-BucketInv r ep w).distinct found in
      (
        e,
        rw named f,
        first_lendable-MayLend r now reusable skip b.entries e found,
        subst₂
            (λ t c.
              find_entry t c.entries
              ≡ some (record e { in_idle = false; refcount = suc e.refcount }))
            (sym named)
            (sym (ap (λ (x : Pool). bucket x ep) after ∙ bucket-set_bucket r ep (lend_entry b e)))
            (lend_entry_found b e f),
      )

  -- If the pool is well formed, what the first locked section of `acquire` answers is true of the
  -- pool that its reclaim leaves: a connection that it lends may be lent, and carries one call more
  -- from then on; a refusal, a dial or a wait means that no entry of the endpoint may be lent, and
  -- that the endpoint is at its limit, is below it, or has a flight; it says that the pool is
  -- closed only if it is.
  pub enter-Answers :
      PoolInv p
      → let r = reclaim p reusable now in let a = enter p ep now reusable skip in Answers r a.0 a.1
  unfolding enter
  enter-Answers v =
      let r = reclaim p reusable now in
      let w : PoolInv r = reclaim-PoolInv p reusable now v in
      if_rule (λ (a : Pool × Outcome). Answers r a.0 a.1) p.closed _ _ (λ c. c)
        λ _. elim (Option-cases (try_lend r ep now reusable skip)) [
          | inl n ↦ rw n (enter_empty-Answers r (try_lend-eq-none r n))
          | inr ((s, q), e) ↦ rw e (try_lend-Answers r s q w e)
        ]
