-- ===== src/Base/Split.antt =====
-- `strings.Split` and `strings.Join` at one byte.
use Prim.Native.Nat.{ℕ, ◌<◌, ◌≤◌}
use mathlib.Core.Path.{◌≡◌, refl, sym}
use mathlib.Core.Bool.{false}
use mathlib.Core.List.{List, [], ◌∷◌, ◌++◌, append_assoc}
use native.Mathlib.Omega.{arith}
use package.argos.Base.Tests.{◌==◌, if◌then◌else◌, Bool-cases}
use package.argos.Base.Lists.{count, length, All}
use package.argos.Base.Bytes.{Bytes}
use mathlib.Core.Logic.{inl, inr}

-- The first part, and the parts behind it.
abbrev pub head_onto : ℕ → List Bytes → List Bytes
head_onto c [] = (c ∷ []) ∷ []
head_onto c (p ∷ ps) = (c ∷ p) ∷ ps

abbrev pub split : ℕ → Bytes → List Bytes
split c [] = [] ∷ []
split c (x ∷ xs) = if x == c then [] ∷ split c xs else head_onto x (split c xs)

abbrev pub join : ℕ → List Bytes → Bytes
join c [] = []
join c (p ∷ []) = p
join c (p ∷ (q ∷ ps)) = p ++ (c ∷ join c (q ∷ ps))

-- The last part, and the parts before it.
abbrev pub init : List Bytes → List Bytes
init [] = []
init (p ∷ []) = []
init (p ∷ (q ∷ ps)) = p ∷ init (q ∷ ps)

abbrev pub last : List Bytes → Bytes
last [] = []
last (p ∷ []) = p
last (p ∷ (q ∷ ps)) = last (q ∷ ps)

length-head_onto-le : (x : ℕ) (ps : List Bytes) → length ps ≤ length (head_onto x ps)
length-head_onto-le x [] = omega arith
length-head_onto-le x (p ∷ ps) = omega arith

pub split-pos : (c : ℕ) (s : Bytes) → 0 < length (split c s)
split-pos c [] = omega arith
split-pos c (x ∷ s) = ground (arith, split-pos c s, length-head_onto-le x (split c s))

join-nil : (c : ℕ) (ps : List Bytes) → 0 < length ps → join c ([] ∷ ps) ≡ c ∷ join c ps
join-nil c [] h = elim h [ ]
join-nil c (p ∷ ps) h = refl

join-head_onto : (c x : ℕ) (ps : List Bytes) → join c (head_onto x ps) ≡ x ∷ join c ps
join-head_onto c x [] = refl
join-head_onto c x (p ∷ []) = refl
join-head_onto c x (p ∷ (q ∷ ps)) = refl

pub join-split : (c : ℕ) (s : Bytes) → join c (split c s) ≡ s
join-split c [] = refl
join-split c (x ∷ s) =
    ground (
      arith,
      join-split c s,
      join-nil c (split c s) (split-pos c s),
      join-head_onto c x (split c s),
    )

-- No part holds the separator.
abbrev pub Lacks : ℕ → Bytes → Type 0
Lacks c p = count c p ≡ 0

Lacks-head_onto :
    (c x : ℕ) (ps : List Bytes) → x == c ≡ false → All (Lacks c) ps → All (Lacks c) (head_onto x ps)
Lacks-head_onto c x [] h a = (ground arith, tt)
Lacks-head_onto c x (p ∷ ps) h a = (ground arith, a.1)

pub split-Lacks : (c : ℕ) (s : Bytes) → All (Lacks c) (split c s)
split-Lacks c [] = (refl, tt)
split-Lacks c (x ∷ s) = elim (Bool-cases (x == c)) [
  | inl e ↦ rw e (refl, split-Lacks c s)
  | inr e ↦ rw e (Lacks-head_onto c x (split c s) e (split-Lacks c s))
]

pub join-init-last :
    (c : ℕ) (p q : Bytes) (ps : List Bytes)
    → join c (p ∷ (q ∷ ps)) ≡ join c (init (p ∷ (q ∷ ps))) ++ (c ∷ last (p ∷ (q ∷ ps)))
join-init-last c p q [] = refl
join-init-last c p q (r ∷ ps) =
    rw (join-init-last c q r ps) (sym (append_assoc p (c ∷ join c (init (q ∷ (r ∷ ps)))) _))

pub last-Lacks : (c : ℕ) (ps : List Bytes) → All (Lacks c) ps → Lacks c (last ps)
last-Lacks c [] a = refl
last-Lacks c (p ∷ []) a = a.0
last-Lacks c (p ∷ (q ∷ ps)) a = last-Lacks c (q ∷ ps) a.1

-- A text without the separator is one part.
pub split-Lacks_self : (c : ℕ) (s : Bytes) → Lacks c s → split c s ≡ s ∷ []
split-Lacks_self c [] h = refl
split-Lacks_self c (x ∷ s) h = ground (arith, split-Lacks_self c s)
