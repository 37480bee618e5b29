-- ===== src/SessionPool/Frame.antt =====
-- What lending, returning and reclaiming in internal/sessionpool/pool.go leave alone: the limits,
-- the closed flag, the flights and every reservation.
use argos.Base.{ℕ, ◌≡◌, refl, ◌∙◌, Bool, List, [], ◌∷◌, ◌++◌, some, arith}
use argos.SessionPool.State.{
  Entry, Bucket, Pool, bucket, set_bucket, add_entry, new_entry, remove_idle, discard_from, discard,
}
use argos.SessionPool.Lend.{lend_entry, try_lend, park, release}
use argos.SessionPool.Reclaim.{reclaim}
use argos.SessionPool.Rules.{
  try_lend-eq-some, reclaim_rule, return_entry_rule, release_rule, unref, unref_entry,
}
use argos.SessionPool.Entries.{bucket_of-put_bucket}

pub record Same (p q : Pool) : Type 0 where
  pub cfg : q.cfg ≡ p.cfg
  pub cap_per : q.cap_per ≡ p.cap_per
  pub closed : q.closed ≡ p.closed
  pub flights : q.flights ≡ p.flights
  pub pending : (ep : ℕ) → (bucket q ep).pending_dial ≡ (bucket p ep).pending_dial

pub Same-refl : (p : Pool) → Same p p
Same-refl p = record {
  cfg = refl;
  cap_per = refl;
  closed = refl;
  flights = refl;
  pending = λ ep. refl;
}

pub Same-trans : {p q r : Pool} → Same p q → Same q r → Same p r
Same-trans a b = record {
  cfg = b.cfg ∙ a.cfg;
  cap_per = b.cap_per ∙ a.cap_per;
  closed = b.closed ∙ a.closed;
  flights = b.flights ∙ a.flights;
  pending = λ ep. b.pending ep ∙ a.pending ep;
}

-- A write to a bucket that keeps its reservations.
pub set_bucket-Same :
    (p : Pool) (ep : ℕ) (b : Bucket)
    → b.pending_dial ≡ (bucket p ep).pending_dial
    → Same p (set_bucket p ep b)
set_bucket-Same p ep b h = record {
  cfg = refl;
  cap_per = refl;
  closed = refl;
  flights = refl;
  pending = λ k. ground (arith, bucket_of-put_bucket ep k b p.buckets);
}

pub discard-Same : (p : Pool) (ep : ℕ) (e : Entry) → Same p (discard p ep e)
unfolding discard
discard-Same p ep e =
    let s = set_bucket-Same p ep (discard_from (bucket p ep) e) (kept (bucket p ep)) in
    record { cfg = refl; cap_per = refl; closed = refl; flights = refl; pending = s.pending }
  where
    kept : (b : Bucket) → (discard_from b e).pending_dial ≡ b.pending_dial
    kept b = unfold discard_from remove_idle in ground arith

pub try_lend-Same :
    (p : Pool) (ep now : ℕ) (reusable : ℕ → Bool) (skip : List ℕ) (s : ℕ) (q : Pool)
    → try_lend p ep now reusable skip ≡ some (s, q)
    → Same p q
try_lend-Same p ep now reusable skip s q h =
    let (e, found, _, after) = try_lend-eq-some p ep now reusable skip s q h in
    rw after (set_bucket-Same p ep (lend_entry (bucket p ep) e) (kept (bucket p ep) e))
  where
    kept : (b : Bucket) (e : Entry) → (lend_entry b e).pending_dial ≡ b.pending_dial
    kept b e = unfold lend_entry remove_idle in ground arith

pub reclaim-Same : (p : Pool) (reusable : ℕ → Bool) (now : ℕ) → Same p (reclaim p reusable now)
reclaim-Same p reusable now =
    reclaim_rule (Same p) (λ q ep e s f z. Same-trans s (discard-Same q ep e)) reusable now p
      (Same-refl p)

pub release-Same : (p : Pool) (s now : ℕ) (reusable : ℕ → Bool) → Same p (release p s now reusable)
release-Same p s now reusable = release_rule (Same p) p s now reusable (Same-refl p) λ ep e f busy.
    let q = unref p ep e in
    let moved : Same p q = set_bucket-Same p ep _ refl in
    return_entry_rule (Same p) q ep (unref_entry e) now reusable (λ _. moved)
      (λ _. Same-trans moved (discard-Same q ep (unref_entry e)))
      (λ _ _. Same-trans moved (set_bucket-Same q ep _ (parked (bucket q ep) (unref_entry e))))
  where
    parked : (b : Bucket) (e : Entry) → (park b e now).pending_dial ≡ b.pending_dial
    parked b e = unfold park in refl

pub add_entry-Same : (p : Pool) (ep s now : ℕ) → Same p (add_entry p ep s now)
unfolding add_entry
add_entry-Same p ep s now =
    let b = bucket p ep in
    let w =
      set_bucket-Same p ep (record b { entries = b.entries ++ (new_entry s now ∷ []) }) refl in
    record { cfg = refl; cap_per = refl; closed = refl; flights = refl; pending = w.pending }
