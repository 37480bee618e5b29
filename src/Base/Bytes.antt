-- ===== src/Base/Bytes.antt =====
-- Go strings as lists of bytes: literals, equality, and the functions of the package `strings` that
-- the program calls.
use Prim.Native.Char.{code}
use Prim.Native.String.{String}
use Prim.Native.Nat.{ℕ, ◌+◌, ◌<◌}
use mathlib.Core.Path.{◌≡◌, refl}
use mathlib.Core.Logic.{◌↔◌, inl, inr}
use mathlib.Core.Bool.{Bool, true, false, ◌&&◌, ◌||◌}
use mathlib.Core.Option.{Option, none, some}
use mathlib.Core.List.{List, [], ◌∷◌, ◌++◌, map, reverse}
use native.Mathlib.Omega.{arith}
use package.argos.Base.Tests.{Option-cases, ◌==◌, leb, if◌then◌else◌}
use package.argos.Base.Lists.{count}

abbrev pub Bytes : Type 0
Bytes = List ℕ

abbrev pub IsByte : ℕ → Type 0
IsByte c = c < 256

-- The bytes of an ASCII literal.
abbrev pub codes : String → Bytes
codes String.[] = []
codes (String.◌∷◌ c s) = code c ∷ codes s

infix 50 ◌===◌
abbrev pub ◌===◌ : Bytes → Bytes → Bool
[] === [] = true
[] === (y ∷ ys) = false
(x ∷ xs) === [] = false
(x ∷ xs) === (y ∷ ys) = x == y && xs === ys

pub ===_iff : (a b : Bytes) → (a === b ≡ true) ↔ (a ≡ b)
===_iff [] [] = ground arith
===_iff [] (y ∷ b) = ground arith
===_iff (x ∷ a) [] = ground arith
===_iff (x ∷ a) (y ∷ b) = ground (arith, ===_iff a b)

pub ===_refl : (a : Bytes) → a === a ≡ true
===_refl a = (===_iff a a).1 refl

-- `strings.ToLower` of an ASCII text.
abbrev pub lower : ℕ → ℕ
lower c = if leb 65 c && leb c 90 then c + 32 else c

abbrev pub to_lower : Bytes → Bytes
to_lower = map lower

-- `strings.HasPrefix`, and what is left behind the prefix.
abbrev pub strip_prefix : Bytes → Bytes → Option Bytes
strip_prefix [] s = some s
strip_prefix (p ∷ ps) [] = none
strip_prefix (p ∷ ps) (c ∷ s) = if p == c then strip_prefix ps s else none

-- `strings.HasSuffix`.
abbrev pub has_suffix : Bytes → Bytes → Bool
has_suffix suffix [] = [] === suffix
has_suffix suffix (c ∷ s) = (c ∷ s) === suffix || has_suffix suffix s

-- `strings.TrimSpace` of an ASCII text.
abbrev pub is_space : ℕ → Bool
is_space c = c == 32 || (leb 9 c && leb c 13)

abbrev pub trim_left : Bytes → Bytes
trim_left [] = []
trim_left (c ∷ s) = if is_space c then trim_left s else c ∷ s

abbrev pub trim_space : Bytes → Bytes
trim_space s = reverse (trim_left (reverse (trim_left s)))

-- `strings.LastIndex` at one byte: what stands before its last occurrence, and behind it.
abbrev pub split_last : ℕ → Bytes → Option (Bytes × Bytes)
split_last c [] = none
split_last c (x ∷ xs) = elim (split_last c xs) [
  | some (a, b) ↦ some (x ∷ a, b)
  | none ↦ if x == c then some ([], xs) else none
]

-- `strings.IndexByte`: what stands before the first occurrence, and behind it.
abbrev pub split_first : ℕ → Bytes → Option (Bytes × Bytes)
split_first c [] = none
split_first c (x ∷ xs) =
    if x == c
    then some ([], xs)
    else elim (split_first c xs) [ some (a, b) ↦ some (x ∷ a, b) | none ↦ none ]

pub split_last-none : (c : ℕ) (s : Bytes) → count c s ≡ 0 → split_last c s ≡ none
split_last-none c [] h = refl
split_last-none c (x ∷ s) h = ground (arith, split_last-none c s)

pub split_first-none : (c : ℕ) (s : Bytes) → count c s ≡ 0 → split_first c s ≡ none
split_first-none c [] h = refl
split_first-none c (x ∷ s) h = ground (arith, split_first-none c s)

pub split_last-append :
    (c : ℕ) (a b : Bytes) → count c b ≡ 0 → split_last c (a ++ (c ∷ b)) ≡ some (a, b)
split_last-append c [] b h = ground (arith, split_last-none c b h)
split_last-append c (x ∷ a) b h = ground (arith, split_last-append c a b h)

pub split_first-append :
    (c : ℕ) (a b : Bytes) → count c a ≡ 0 → split_first c (a ++ (c ∷ b)) ≡ some (a, b)
split_first-append c [] b h = ground arith
split_first-append c (x ∷ a) b h = ground (arith, split_first-append c a b)

split_last_absent : (c : ℕ) (s : Bytes) → split_last c s ≡ none → count c s ≡ 0
split_last_absent c [] h = refl
split_last_absent c (x ∷ s) h = elim (Option-cases (split_last c s)) [
  | inl n ↦ ground (arith, split_last_absent c s n)
  | inr ((a, b), e) ↦ ground (arith, e)
]

-- The parts joined give the text back.
pub split_last_join :
    (c : ℕ) (s a b : Bytes) → split_last c s ≡ some (a, b) → (s ≡ a ++ (c ∷ b)) × (count c b ≡ 0)
split_last_join c [] a b h = cc
split_last_join c (x ∷ s) a b h = elim (Option-cases (split_last c s)) [
  | inl n ↦ ground (arith, split_last_absent c s n)
  | inr ((a', b'), e) ↦ ground (arith, e, split_last_join c s a' b' e)
]
