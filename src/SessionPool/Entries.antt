-- ===== src/SessionPool/Entries.antt =====
-- The entry lists and the bucket map of internal/sessionpool/pool.go: what a write through a
-- pointer changes, and what it leaves alone.
use mathlib.Core.Path.{subst}
use argos.Base.{
  ◌≢◌, sym, Bool-cases, inl, inr, ℕ, ◌+◌, ◌≤◌, ◌<◌, ◌≡◌, refl, Bool, ◌&&◌, ◌==◌, if◌then◌else◌,
  List, [], ◌∷◌, ◌++◌, some, arith, length, All,
}
use argos.Base.Int.{ℤ}
use argos.SessionPool.State.{
  Config, Entry, Bucket, Pool, bucket, set_bucket, bucket_of, put_bucket, empty_bucket, find_entry,
  put_entry, drop_entry,
}
use argos.SessionPool.Lend.{first_lendable}

-- How many entries hold the connection `s`, and how many of them are marked idle.
abbrev pub held : ℕ → List Entry → ℕ
held s [] = 0
held s (e ∷ es) = (if e.sess == s then 1 else 0) + held s es

abbrev pub flag : ℕ → Entry → ℕ
flag s e = if e.sess == s && e.in_idle then 1 else 0

abbrev pub flagged : ℕ → List Entry → ℕ
flagged s [] = 0
flagged s (e ∷ es) = flag s e + flagged s es

pub flagged-le-held : (s : ℕ) (es : List Entry) → flagged s es ≤ held s es
flagged-le-held s [] = omega arith
flagged-le-held s (e ∷ es) = ground (arith, flagged-le-held s es)

pub find_entry-sess : (s : ℕ) (es : List Entry) (e : Entry) → find_entry s es ≡ some e → e.sess ≡ s
find_entry-sess s [] e h = cc
find_entry-sess s (x ∷ es) e h = ground (arith, find_entry-sess s es e)

pub find_entry_self :
    (s : ℕ) (es : List Entry) (e : Entry) → find_entry s es ≡ some e → find_entry e.sess es ≡ some e
find_entry_self s es e f = subst (λ k. find_entry k es ≡ some e) (sym (find_entry-sess s es e f)) f

pub find_entry-held :
    (s : ℕ) (es : List Entry) (e : Entry) → find_entry s es ≡ some e → 0 < held s es
find_entry-held s [] e h = cc
find_entry-held s (x ∷ es) e h = ground (arith, find_entry-held s es e)

pub find_entry-flagged :
    (s : ℕ) (es : List Entry) (e : Entry) → find_entry s es ≡ some e → flag s e ≤ flagged s es
find_entry-flagged s [] e h = cc
find_entry-flagged s (x ∷ es) e h = ground (arith, find_entry-flagged s es e)

pub flagged-eq-flag :
    (s : ℕ) (es : List Entry) (e : Entry)
    → find_entry s es ≡ some e
    → held s es ≤ 1
    → flagged s es ≡ flag s e
flagged-eq-flag s [] e f h = cc
flagged-eq-flag s (x ∷ es) e f h =
    ground (arith, flagged-le-held s es, flagged-eq-flag s es e, find_entry-held s es e)

pub find_entry-put_entry :
    (e e' : Entry) (es : List Entry)
    → e'.sess ≡ e.sess
    → find_entry e.sess es ≡ some e
    → find_entry e.sess (put_entry e' es) ≡ some e'
find_entry-put_entry e e' [] k h = cc
find_entry-put_entry e e' (x ∷ es) k h = ground (arith, find_entry-put_entry e e' es)

pub find_entry-put_entry_ne :
    (s : ℕ) (e : Entry) (es : List Entry)
    → e.sess ≢ s
    → find_entry s (put_entry e es) ≡ find_entry s es
find_entry-put_entry_ne s e [] n = refl
find_entry-put_entry_ne s e (x ∷ es) n = ground (arith, find_entry-put_entry_ne s e es n)

pub find_entry-drop_entry_ne :
    (s t : ℕ) (es : List Entry) → t ≢ s → find_entry s (drop_entry t es) ≡ find_entry s es
find_entry-drop_entry_ne s t [] n = refl
find_entry-drop_entry_ne s t (x ∷ es) n = ground (arith, find_entry-drop_entry_ne s t es n)

pub length-put_entry : (e : Entry) (es : List Entry) → length (put_entry e es) ≡ length es
length-put_entry e [] = refl
length-put_entry e (x ∷ es) = ground (arith, length-put_entry e es)

pub held-put_entry : (s : ℕ) (e : Entry) (es : List Entry) → held s (put_entry e es) ≡ held s es
held-put_entry s e [] = refl
held-put_entry s e (x ∷ es) = ground (arith, held-put_entry s e es)

pub flagged-put_entry :
    (s : ℕ) (e e' : Entry) (es : List Entry)
    → e'.sess ≡ e.sess
    → find_entry e.sess es ≡ some e
    → flagged s (put_entry e' es) + flag s e ≡ flagged s es + flag s e'
flagged-put_entry s e e' [] k h = cc
flagged-put_entry s e e' (x ∷ es) k h = ground (arith, flagged-put_entry s e e' es)

pub length-drop_entry :
    (e : Entry) (es : List Entry)
    → find_entry e.sess es ≡ some e
    → length (drop_entry e.sess es) + 1 ≡ length es
length-drop_entry e [] h = cc
length-drop_entry e (x ∷ es) h = ground (arith, length-drop_entry e es)

pub held-drop_entry : (s t : ℕ) (es : List Entry) → held s (drop_entry t es) ≤ held s es
held-drop_entry s t [] = omega arith
held-drop_entry s t (x ∷ es) = ground (arith, held-drop_entry s t es)

pub flagged-drop_entry :
    (s : ℕ) (e : Entry) (es : List Entry)
    → find_entry e.sess es ≡ some e
    → flagged s (drop_entry e.sess es) + flag s e ≡ flagged s es
flagged-drop_entry s e [] h = cc
flagged-drop_entry s e (x ∷ es) h = ground (arith, flagged-drop_entry s e es)

module _ {ℓ} (P : Entry → Type ℓ) where
  pub find_entry-All :
      (s : ℕ) (es : List Entry) (e : Entry) → All P es → find_entry s es ≡ some e → P e
  find_entry-All s [] e a h = cc
  find_entry-All s (x ∷ es) e a h = elim (Bool-cases (x.sess == s)) [
    | inl hit ↦ let same : x ≡ e = ground arith in subst P same a.0
    | inr miss ↦ find_entry-All s es e a.1 (rw miss at h)
  ]

  pub put_entry-All : (e : Entry) (es : List Entry) → P e → All P es → All P (put_entry e es)
  put_entry-All e [] k a = a
  put_entry-All e (x ∷ es) k a = ground (arith, put_entry-All e es k a.1)

  pub drop_entry-All : (s : ℕ) (es : List Entry) → All P es → All P (drop_entry s es)
  drop_entry-All s [] a = a
  drop_entry-All s (x ∷ es) a = ground (arith, drop_entry-All s es a.1)

pub held-append : (s : ℕ) (es fs : List Entry) → held s (es ++ fs) ≡ held s es + held s fs
held-append s [] fs = omega arith
held-append s (x ∷ es) fs = ground (arith, held-append s es fs)

pub flagged-append :
    (s : ℕ) (es fs : List Entry) → flagged s (es ++ fs) ≡ flagged s es + flagged s fs
flagged-append s [] fs = omega arith
flagged-append s (x ∷ es) fs = ground (arith, flagged-append s es fs)

-- The loop of `tryLendLocked` stops at an entry of the bucket, the one that its connection has.
pub first_lendable-held :
    (cfg : Config) (cap : ℤ) (reusable : ℕ → Bool) (now : ℕ) (skip : List ℕ) (es : List Entry)
    (e : Entry)
    → first_lendable cfg cap reusable now skip es ≡ some e
    → 0 < held e.sess es
unfolding first_lendable
first_lendable-held cfg cap reusable now skip [] e h = cc
first_lendable-held cfg cap reusable now skip (x ∷ es) e h =
    ground (arith, first_lendable-held cfg cap reusable now skip es e)

pub first_lendable-find_entry :
    (cfg : Config) (cap : ℤ) (reusable : ℕ → Bool) (now : ℕ) (skip : List ℕ) (es : List Entry)
    (e : Entry)
    → ((s : ℕ) → held s es ≤ 1)
    → first_lendable cfg cap reusable now skip es ≡ some e
    → find_entry e.sess es ≡ some e
unfolding first_lendable
first_lendable-find_entry cfg cap reusable now skip [] e d h = cc
first_lendable-find_entry cfg cap reusable now skip (x ∷ es) e d h = ground (
  arith,
  d e.sess,
  first_lendable-held cfg cap reusable now skip es e,
  first_lendable-find_entry cfg cap reusable now skip es e λ s. ground (arith, d s),
)

pub bucket_of-put_bucket :
    (ep k : ℕ) (b : Bucket) (bs : List (ℕ × Bucket))
    → bucket_of k (put_bucket ep b bs) ≡ (if ep == k then b else bucket_of k bs)
bucket_of-put_bucket ep k b [] = refl
bucket_of-put_bucket ep k b ((j, c) ∷ bs) = ground (arith, bucket_of-put_bucket ep k b bs)

pub bucket-set_bucket : (p : Pool) (ep : ℕ) (b : Bucket) → bucket (set_bucket p ep b) ep ≡ b
bucket-set_bucket p ep b = ground (arith, bucket_of-put_bucket ep ep b p.buckets)

pub put_bucket-put_bucket :
    (ep : ℕ) (b c : Bucket) (bs : List (ℕ × Bucket))
    → put_bucket ep b (put_bucket ep c bs) ≡ put_bucket ep b bs
put_bucket-put_bucket ep b c [] = ground arith
put_bucket-put_bucket ep b c ((j, d) ∷ bs) = ground (arith, put_bucket-put_bucket ep b c bs)

-- A property that the empty bucket has, and every bucket of the map.
module _ {ℓ} (P : Bucket → Type ℓ) where
  abbrev pub Each : List (ℕ × Bucket) → Type ℓ
  Each bs = All (λ kb. P kb.1) bs

  pub bucket_of-Each :
      (ep : ℕ) (bs : List (ℕ × Bucket)) → P empty_bucket → Each bs → P (bucket_of ep bs)
  bucket_of-Each ep [] z a = z
  bucket_of-Each ep ((j, c) ∷ bs) z a = ground (arith, bucket_of-Each ep bs z a.1)

  pub put_bucket-Each :
      (ep : ℕ) (b : Bucket) (bs : List (ℕ × Bucket)) → P b → Each bs → Each (put_bucket ep b bs)
  put_bucket-Each ep b [] k a = (k, tt)
  put_bucket-Each ep b ((j, c) ∷ bs) k a = ground (arith, put_bucket-Each ep b bs k a.1)
