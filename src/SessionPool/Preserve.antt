-- ===== src/SessionPool/Preserve.antt =====
-- The invariant of the pool, kept by each locked section of internal/sessionpool/pool.go.
use mathlib.Core.Path.{subst}
use argos.Base.{
  ℕ, ◌<◌, ◌≡◌, refl, sym, Bool, true, false, List, [], ◌∷◌, ◌++◌, some, arith, Bool-cases, if_rule,
  Option-cases, inl, inr,
}
use argos.Base.Int.{ℤ, pos, negsuc, dec, is_neg}
use argos.SessionPool.State.{
  Config, Entry, Bucket, Pool, new, bucket_of, put_bucket, bucket, set_bucket, find_entry,
  put_entry, discard_from, discard, add_entry, new_entry, reserve, unreserve, at_cap,
}
use argos.SessionPool.Lend.{
  first_lendable, lendable, cap_reached, try_lend, release, lend_entry, return_entry,
}
use argos.SessionPool.Reclaim.{reclaim}
use argos.SessionPool.Acquire.{Outcome, enter_empty, enter, retire, dial_failed, dial_done, woken}
use argos.SessionPool.Entries.{
  held, put_bucket-put_bucket, Each, bucket_of-Each, put_bucket-Each, first_lendable-find_entry,
  find_entry-All, find_entry-put_entry, bucket-set_bucket,
}
use argos.SessionPool.Invariant.{
  Carries, Carries-le, EntryInv, BucketInv, empty_bucket-BucketInv, put_entry-BucketInv,
  discard_from-BucketInv, lend_entry-BucketInv, park-BucketInv, admit-BucketInv, reserve-BucketInv,
  unreserve-BucketInv,
}
use argos.SessionPool.Rules.{
  try_lend-eq-some, reclaim_rule, return_entry_rule, release_rule, unref, unref_entry,
}

pub record PoolInv (p : Pool) : Type 0 where
  pub one_call : Carries p.cap_per 1
  pub each : Each (BucketInv p.cfg p.cap_per) p.buckets

pub new-PoolInv : (cfg : Config) → PoolInv (new cfg)
unfolding new
new-PoolInv cfg = record { one_call = cap cfg.max_calls_per_conn; each = tt }
  where
    cap : (n : ℤ) → Carries (new (record cfg { max_calls_per_conn = n })).cap_per 1
    cap (pos n) = ground arith
    cap (negsuc n) = tt

pub bucket-BucketInv : (p : Pool) (ep : ℕ) → PoolInv p → BucketInv p.cfg p.cap_per (bucket p ep)
bucket-BucketInv p ep v =
    bucket_of-Each (BucketInv p.cfg p.cap_per) ep p.buckets (empty_bucket-BucketInv _ _) v.each

pub set_bucket-PoolInv :
    (p : Pool) (ep : ℕ) (b : Bucket)
    → PoolInv p
    → BucketInv p.cfg p.cap_per b
    → PoolInv (set_bucket p ep b)
set_bucket-PoolInv p ep b v w = record {
  one_call = v.one_call;
  each = put_bucket-Each (BucketInv p.cfg p.cap_per) ep b p.buckets w v.each;
}

pub discard-PoolInv :
    (p : Pool) (ep : ℕ) (e : Entry)
    → PoolInv p
    → find_entry e.sess (bucket p ep).entries ≡ some e
    → PoolInv (discard p ep e)
unfolding discard
discard-PoolInv p ep e v f =
    let w =
      set_bucket-PoolInv p ep (discard_from (bucket p ep) e) v
        (discard_from-BucketInv p.cfg p.cap_per (bucket p ep) e (bucket-BucketInv p ep v) f) in
    record { one_call = v.one_call; each = w.each }

pub reclaim-PoolInv :
    (p : Pool) (reusable : ℕ → Bool) (now : ℕ) → PoolInv p → PoolInv (reclaim p reusable now)
reclaim-PoolInv p reusable now =
    reclaim_rule PoolInv (λ q ep e v f z. discard-PoolInv q ep e v f) reusable now p

first_lendable-free :
    (cfg : Config) (cap : ℤ) (reusable : ℕ → Bool) (now : ℕ) (skip : List ℕ) (es : List Entry)
    (e : Entry)
    → first_lendable cfg cap reusable now skip es ≡ some e
    → cap_reached cap e.refcount ≡ false
unfolding first_lendable lendable
first_lendable-free cfg cap reusable now skip [] e h = cc
first_lendable-free cfg cap reusable now skip (x ∷ es) e h =
    ground (arith, first_lendable-free cfg cap reusable now skip es e)

pub try_lend-PoolInv :
    (p : Pool) (ep now : ℕ) (reusable : ℕ → Bool) (skip : List ℕ) (s : ℕ) (q : Pool)
    → PoolInv p
    → try_lend p ep now reusable skip ≡ some (s, q)
    → PoolInv q
try_lend-PoolInv p ep now reusable skip s q v h =
    let (e, found, _, after) = try_lend-eq-some p ep now reusable skip s q h in
    let b = bucket p ep in
    let w = bucket-BucketInv p ep v in
    rw after (
      set_bucket-PoolInv p ep (lend_entry b e) v (
        lend_entry-BucketInv p.cfg p.cap_per b e w
          (first_lendable-find_entry p.cfg p.cap_per reusable now skip b.entries e w.distinct found)
          v.one_call (first_lendable-free p.cfg p.cap_per reusable now skip b.entries e found)))

module _ (p : Pool) (ep : ℕ) (e : Entry) (v : PoolInv p)
    (f : find_entry e.sess (bucket p ep).entries ≡ some e) (busy : 0 < e.refcount) where
  entry_inv : EntryInv p.cap_per e
  entry_inv =
      find_entry-All (EntryInv p.cap_per) e.sess (bucket p ep).entries e
        (bucket-BucketInv p ep v).entries_inv f

  not_idle : e.in_idle ≡ false
  not_idle = ground (arith, entry_inv.at_rest)

  unref-PoolInv : PoolInv (unref p ep e)
  unref-PoolInv = set_bucket-PoolInv p ep _ v (
      put_entry-BucketInv p.cfg p.cap_per (bucket p ep) e (unref_entry e) (bucket-BucketInv p ep v)
        f refl refl
        (record {
          carries = Carries-le p.cap_per _ _ (omega arith) entry_inv.carries;
          at_rest = λ h. ground (arith, entry_inv.at_rest);
        }))

  unref_found : find_entry e.sess (bucket (unref p ep e) ep).entries ≡ some (unref_entry e)
  unref_found =
      let b = bucket p ep in
      subst (λ c. find_entry e.sess c.entries ≡ some (unref_entry e))
        (sym (bucket-set_bucket p ep (record b { entries = put_entry (unref_entry e) b.entries })))
        (find_entry-put_entry e (unref_entry e) b.entries refl f)

  return_entry-PoolInv :
      (now : ℕ) (reusable : ℕ → Bool)
      → PoolInv (return_entry (unref p ep e) ep (unref_entry e) now reusable)
  return_entry-PoolInv now reusable =
      return_entry_rule PoolInv (unref p ep e) ep (unref_entry e) now reusable (λ _. unref-PoolInv)
        (λ _. discard-PoolInv (unref p ep e) ep (unref_entry e) unref-PoolInv unref_found)
        λ rest room. set_bucket-PoolInv (unref p ep e) ep _ unref-PoolInv (
          park-BucketInv p.cfg p.cap_per (bucket (unref p ep e) ep) (unref_entry e) now
            (bucket-BucketInv (unref p ep e) ep unref-PoolInv) unref_found rest not_idle room)

pub release-PoolInv :
    (p : Pool) (s now : ℕ) (reusable : ℕ → Bool) → PoolInv p → PoolInv (release p s now reusable)
release-PoolInv p s now reusable v =
    release_rule PoolInv p s now reusable v
      λ ep e f busy. return_entry-PoolInv p ep e v f busy now reusable

pub reserve-PoolInv : (p : Pool) (ep : ℕ) → PoolInv p → at_cap p ep ≡ false → PoolInv (reserve p ep)
unfolding reserve at_cap
reserve-PoolInv p ep v free =
    set_bucket-PoolInv p ep _ v
      (reserve-BucketInv p.cfg p.cap_per (bucket p ep) (bucket-BucketInv p ep v) free)

pub retire-PoolInv : (p : Pool) (ep : ℕ) → PoolInv p → PoolInv (retire p ep)
unfolding retire unreserve
retire-PoolInv p ep v =
    let w =
      set_bucket-PoolInv p ep _ v
        (unreserve-BucketInv p.cfg p.cap_per (bucket p ep) (bucket-BucketInv p ep v)) in
    elim (Bool-cases (is_neg p.cap_per)) [
      | inl m ↦ rw m (record { one_call = w.one_call; each = w.each })
      | inr m ↦ rw m w
    ]

pub enter_empty-PoolInv : (p : Pool) (ep : ℕ) → PoolInv p → PoolInv (enter_empty p ep).0
unfolding enter_empty
enter_empty-PoolInv p ep v = elim (Bool-cases (at_cap p ep)) [
  | inl full ↦ ground (arith, v)
  | inr free ↦
      let w = reserve-PoolInv p ep v free in
      let w' : PoolInv (record (reserve p ep) { flights = ep ∷ p.flights }) = record {
        one_call = w.one_call;
        each = w.each;
      } in
      ground (arith, v, w, w')
]

pub enter-PoolInv :
    (p : Pool) (ep now : ℕ) (reusable : ℕ → Bool) (skip : List ℕ)
    → PoolInv p
    → PoolInv (enter p ep now reusable skip).0
unfolding enter
enter-PoolInv p ep now reusable skip v =
    if_rule (λ (r : Pool × Outcome). PoolInv r.0) p.closed _ _ (λ _. v)
      λ _.
        let q = reclaim p reusable now in
        let w = reclaim-PoolInv p reusable now v in
        elim (Option-cases (try_lend q ep now reusable skip)) [
          | inl n ↦ rw n (enter_empty-PoolInv q ep w)
          | inr ((s, q'), e) ↦ rw e (try_lend-PoolInv q ep now reusable skip s q' w e)
        ]

pub woken-PoolInv :
    (p : Pool) (ep : ℕ) (failed : Bool) (now : ℕ) (reusable : ℕ → Bool) (skip : List ℕ)
    → PoolInv p
    → PoolInv (woken p ep failed now reusable skip).0
unfolding woken
woken-PoolInv p ep true now reusable skip v = v
woken-PoolInv p ep false now reusable skip v =
    if_rule (λ (r : Pool × Outcome). PoolInv r.0) p.closed _ _ (λ _. v)
      λ _. elim (Option-cases (try_lend p ep now reusable skip)) [
        | inl n ↦ rw n (ground (arith, v))
        | inr ((s, q), e) ↦ rw e (try_lend-PoolInv p ep now reusable skip s q v e)
      ]

pub dial_failed-PoolInv : (p : Pool) (ep : ℕ) → PoolInv p → PoolInv (dial_failed p ep).0
unfolding dial_failed
dial_failed-PoolInv p ep v = retire-PoolInv p ep v

abbrev unreserved : Bucket → Bucket
unreserved b = record b { pending_dial = dec b.pending_dial }

-- The new entry and the end of its reservation, which come in one locked section.
retire-add_entry-PoolInv :
    (p : Pool) (ep s now : ℕ)
    → PoolInv p
    → held s (bucket p ep).entries ≡ 0
    → PoolInv (retire (add_entry p ep s now) ep)
unfolding retire unreserve add_entry
retire-add_entry-PoolInv p ep s now v fresh =
    let b = bucket p ep in
    let c = record b { entries = b.entries ++ (new_entry s now ∷ []) } in
    let d = record c { pending_dial = dec b.pending_dial } in
    let w =
      set_bucket-PoolInv p ep d v
        (admit-BucketInv p.cfg p.cap_per b s now (bucket-BucketInv p ep v) v.one_call fresh) in
    let all = Each (BucketInv p.cfg p.cap_per) in
    let below = put_bucket ep c p.buckets in
    let placed : all (put_bucket ep d below) =
      subst all (sym (put_bucket-put_bucket ep d c p.buckets)) w.each in
    let each' : all (put_bucket ep (unreserved (bucket_of ep below)) below) =
      subst (λ k. all (put_bucket ep (unreserved k) below)) (sym (bucket-set_bucket p ep c))
        placed in
    if_rule PoolInv (is_neg p.cap_per) _ _ (λ _. record { one_call = v.one_call; each = each' })
      (λ _. record { one_call = v.one_call; each = each' })

pub dial_done-PoolInv :
    (p : Pool) (ep s now : ℕ)
    → PoolInv p
    → held s (bucket p ep).entries ≡ 0
    → PoolInv (dial_done p ep s now).0
unfolding dial_done
dial_done-PoolInv p ep s now v fresh =
    if_rule (λ (r : Pool × Outcome). PoolInv r.0) p.closed _ _
      (λ _. let w = retire-PoolInv p ep v in record { one_call = w.one_call; each = w.each })
      λ _. retire-add_entry-PoolInv p ep s now v fresh
