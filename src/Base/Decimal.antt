-- ===== src/Base/Decimal.antt =====
-- `strconv.FormatInt` and `strconv.ParseUint` in base 10.
use Prim.Native.Nat.{ℕ, zero, suc, ◌+◌, ◌-◌, ◌*◌, ◌/◌, ◌%◌, ◌^◌, ◌<◌, ◌≤◌}
use native.Mathlib.Nat.{pow-suc}
use mathlib.Core.Path.{◌≡◌, ap, ◌∙◌}
use mathlib.Core.Bool.{Bool, ◌&&◌}
use mathlib.Core.Option.{Option, none, some}
use mathlib.Core.List.{[], ◌∷◌, ◌++◌}
use mathlib.Core.Logic.{inl, inr}
use native.Mathlib.Omega.{arith}
use package.argos.Base.Tests.{if◌then◌else◌, ltb, leb, Bool-cases}
use package.argos.Base.Lists.{length, length-append}
use package.argos.Base.Bytes.{Bytes}

-- The digits, on fuel of which any number over `n` is enough.
unfoldable pub digits : ℕ → ℕ → Bytes
digits zero n = []
digits (suc f) n =
    let more = digits f (n / 10) ++ ((b'0' + n % 10) ∷ []) in
    if ltb n 10 then (b'0' + n) ∷ [] else more

unfoldable pub decimal : ℕ → Bytes
unfolding digits
decimal n = digits (suc n) n

abbrev pub is_digit : ℕ → Bool
is_digit c = leb b'0' c && leb c b'9'

unfoldable pub parse_onto : ℕ → Bytes → Option ℕ
parse_onto acc [] = some acc
parse_onto acc (c ∷ s) =
    let rest = parse_onto (acc * 10 + (c - b'0')) s in if is_digit c then rest else none

-- No digits are an error, and so is a value over 64 bits.
unfoldable pub parse_uint : Bytes → Option ℕ
unfolding parse_onto
parse_uint [] = none
parse_uint (c ∷ s) = elim (parse_onto 0 (c ∷ s)) [
  | none ↦ none
  | some n ↦ if ltb n 18446744073709551616 then some n else none
]

parse_onto-concat :
    (acc m d : ℕ) (s : Bytes)
    → parse_onto acc s ≡ some m
    → d < 10
    → parse_onto acc (s ++ ((b'0' + d) ∷ [])) ≡ some (m * 10 + d)
unfolding parse_onto
parse_onto-concat acc m d [] h k = ground arith
parse_onto-concat acc m d (c ∷ s) h k =
    ground (arith, parse_onto-concat (acc * 10 + (c - b'0')) m d s)

parse_onto-digits : (f n : ℕ) → n < f → parse_onto 0 (digits f n) ≡ some n
unfolding digits parse_onto
parse_onto-digits zero n h = elim h [ ]
parse_onto-digits (suc f) n h = elim (Bool-cases (ltb n 10)) [
  | inl small ↦ rw small (ground arith)
  | inr big ↦ rw big (
      parse_onto-concat 0 (n / 10) (n % 10) (digits f (n / 10))
        (parse_onto-digits f (n / 10) (ground arith)) (omega arith)
      ∙ ap some (omega arith))
]

digits-pos : (f n : ℕ) → n < f → 0 < length (digits f n)
unfolding digits
digits-pos zero n h = elim h [ ]
digits-pos (suc f) n h = ground (arith, length-append (digits f (n / 10)) ((b'0' + n % 10) ∷ []))

digits-length : (k f n : ℕ) → n < f → n < 10 ^ suc k → length (digits f n) ≤ suc k
unfolding digits
digits-length k zero n h b = elim h [ ]
digits-length zero (suc f) n h b = ground arith
digits-length (suc k) (suc f) n h b = ground (
  arith,
  length-append (digits f (n / 10)) ((b'0' + n % 10) ∷ []),
  pow-suc 10 (suc k),
  digits-length k f (n / 10),
)

pub decimal-pos : (n : ℕ) → 0 < length (decimal n)
unfolding decimal
decimal-pos n = digits-pos (suc n) n (omega arith)

pub decimal-length : (k n : ℕ) → n < 10 ^ suc k → length (decimal n) ≤ suc k
unfolding decimal
decimal-length k n h = digits-length k (suc n) n (omega arith) h

from_onto :
    (n : ℕ) (s : Bytes)
    → 0 < length s
    → parse_onto 0 s ≡ some n
    → n < 18446744073709551616
    → parse_uint s ≡ some n
unfolding parse_uint
from_onto n [] p h b = elim p [ ]
from_onto n (c ∷ s) p h b = ground (arith, h)

-- A number of 64 bits is read back from its digits.
pub parse_uint-decimal : (n : ℕ) → n < 18446744073709551616 → parse_uint (decimal n) ≡ some n
parse_uint-decimal n h =
    from_onto n (decimal n) (decimal-pos n)
      (unfold decimal in parse_onto-digits (suc n) n (omega arith)) h

one_more : (acc d n x : ℕ) → d ≤ 9 → n < suc (acc * 10 + d) * x → n < suc acc * (x * 10)
one_more acc d n x h k = grind arith

-- What is read has as many digits as its size allows.
parse_onto-bound : (acc n : ℕ) (s : Bytes) → parse_onto acc s ≡ some n → n < suc acc * 10 ^ length s
unfolding parse_onto
parse_onto-bound acc n [] h = ground arith
parse_onto-bound acc n (c ∷ s) h =
    let rest = parse_onto-bound (acc * 10 + (c - b'0')) n s (ground arith) in
    rw pow-suc (one_more acc (c - b'0') n (10 ^ length s) (ground arith) rest)

pub parse_uint-bound : (n : ℕ) (s : Bytes) → parse_uint s ≡ some n → n < 10 ^ length s
unfolding parse_uint
parse_uint-bound n [] h = cc
parse_uint-bound n (c ∷ s) h = omega (arith, parse_onto-bound 0 n (c ∷ s) (ground arith))
