-- ===== src/Descriptor/Names.antt =====
-- Names of methods and services of descriptor/descriptor.go.
use argos.Base.{
  ℕ, ◌≤◌, ◌<◌, ◌≡◌, refl, sym, ◌∙◌, false, List, [], ◌∷◌, ◌++◌, length, arith, count, All, inl, inr,
}
use mathlib.Core.Path.{subst}
use argos.Base.Bytes.{Bytes, ===_iff}
use argos.Base.Split.{
  split, join, init, last, join-split, split-Lacks, join-init-last, last-Lacks, Lacks,
}
use argos.Base.Result.{ok, Result-cases}
use argos.Status.{is_empty}
use argos.Descriptor.{Method, new_method, any_empty, Service, has_name, copy_methods, new_service}

-- What every method that `NewMethod` builds is: its full name is the one given, the service, a dot
-- and the name, none of them empty, and the name holds no dot.
pub record IsMethod (full : Bytes) (shape : ℕ) (m : Method) : Type 0 where
  pub named : m.full_name ≡ full
  pub shaped : m.shape ≡ shape
  pub parts : full ≡ m.service ++ (b'.' ∷ m.name)
  pub short : count b'.' m.name ≡ 0
  pub some_name : is_empty m.name ≡ false
  pub some_service : is_empty m.service ≡ false

last_some :
    (p : Bytes) (ps : List Bytes) → any_empty (p ∷ ps) ≡ false → is_empty (last (p ∷ ps)) ≡ false
last_some p [] h = ground arith
last_some p (q ∷ ps) h = last_some q ps (ground arith)

join_some :
    (c : ℕ) (p q : Bytes) (ps : List Bytes)
    → is_empty p ≡ false
    → is_empty (join c (init (p ∷ (q ∷ ps)))) ≡ false
join_some c p q [] h = h
join_some c [] q (r ∷ ps) h = cc
join_some c (x ∷ p) q (r ∷ ps) h = refl

from_parts :
    (full : Bytes) (shape : ℕ) (ps : List Bytes) (m : Method)
    → join b'.' ps ≡ full
    → All (Lacks b'.') ps
    → 1 < length ps
    → any_empty ps ≡ false
    → m ≡ record { full_name = full; service = join b'.' (init ps); name = last ps; shape = shape }
    → IsMethod full shape m
from_parts full shape [] m j a h n e = absurd (omega arith)
from_parts full shape (p ∷ []) m j a h n e = absurd (omega arith)
from_parts full shape (p ∷ (q ∷ ps)) m j a h n e = rw e (record {
  named = refl;
  shaped = refl;
  parts = sym j ∙ join-init-last b'.' p q ps;
  short = last-Lacks b'.' (p ∷ (q ∷ ps)) a;
  some_name = last_some p (q ∷ ps) n;
  some_service = join_some b'.' p q ps (ground arith);
})

-- `NewMethod` builds only such methods, and only with a valid shape and no empty segment.
pub new_method-IsMethod :
    (full : Bytes) (shape : ℕ) (m : Method)
    → new_method full shape ≡ ok m
    → IsMethod full shape m × (shape ≤ 3) × (any_empty (split b'.' full) ≡ false)
unfolding new_method
new_method-IsMethod full shape m h = (
  from_parts full shape (split b'.' full) m (join-split b'.' full) (split-Lacks b'.' full)
      (ground arith) (ground arith) (ground arith),
  ground arith,
  ground arith,
)

-- No method has a name that is in `seen`, and no two have one name.
abbrev pub Fresh : List Bytes → List Method → Type 0
Fresh seen [] = Unit
Fresh seen (m ∷ ms) = (has_name m.name seen ≡ false) × Fresh (m.name ∷ seen) ms

copy_methods-ok :
    (full : Bytes) (seen : List Bytes) (ms out : List Method)
    → copy_methods full seen ms ≡ ok out
    → (out ≡ ms) × All (λ m. m.service ≡ full) ms × Fresh seen ms
unfolding copy_methods
copy_methods-ok full seen [] out h = (ground arith, tt, tt)
copy_methods-ok full seen (m ∷ ms) out h =
    elim (Result-cases (copy_methods full (m.name ∷ seen) ms)) [
      | inl (e, f) ↦ absurd (ground (arith, f))
      | inr (rest, f) ↦
          let later = copy_methods-ok full (m.name ∷ seen) ms rest f in
          (
            ground (arith, f, later.0),
            (ground (arith, f, ===_iff m.service full), later.1),
            (ground (arith, f), later.2),
          )
    ]

-- `NewService` keeps the methods that it is given, in order, where it succeeds; then each of them
-- belongs to the service, no two have one name, and the service's name is not empty.
pub new_service-ok :
    (full : Bytes) (ms : List Method) (s : Service)
    → new_service full ms ≡ ok s
    → (s.full_name ≡ full)
      × (s.methods ≡ ms)
      × All (λ m. m.service ≡ full) s.methods
      × Fresh [] s.methods
      × (is_empty full ≡ false)
unfolding new_service
new_service-ok full ms s h = elim (Result-cases (copy_methods full [] ms)) [
  | inl (e, f) ↦ absurd (ground (arith, f))
  | inr (out, f) ↦
      let got = copy_methods-ok full [] ms out f in
      let same : s.methods ≡ ms = ground (arith, f, got.0) in
      (
        ground (arith, f),
        same,
        subst (All (λ m. m.service ≡ full)) (sym same) got.1,
        subst (Fresh []) (sym same) got.2,
        ground (arith, f),
      )
]
