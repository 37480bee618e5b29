-- ===== src/Base/Wire.antt =====
-- Readers and big-endian numbers. A reader is the bytes that it will still give, then `io.EOF`.
use Prim.Native.Nat.{ℕ, zero, suc, ◌+◌, ◌*◌, ◌/◌, ◌%◌, ◌<◌, ◌≤◌, ◌-◌}
use mathlib.Core.Path.{◌≡◌, refl, ap}
use mathlib.Core.List.{List, [], ◌∷◌, ◌++◌}
use native.Mathlib.Omega.{arith}
use package.argos.Base.Tests.{if◌then◌else◌, ltb}
use package.argos.Base.Lists.{length, take, drop}
use package.argos.Base.Bytes.{Bytes}
use package.argos.Base.Result.{Result, ok, err}

-- `binary.BigEndian.PutUint16`, `PutUint32`; the number is cut to its width first.
abbrev pub put_uint16 : ℕ → Bytes
put_uint16 n = (n / 256 % 256) ∷ (n % 256) ∷ []

abbrev pub put_uint32 : ℕ → Bytes
put_uint32 n = (n / 16777216 % 256) ∷ (n / 65536 % 256) ∷ (n / 256 % 256) ∷ (n % 256) ∷ []

abbrev pub uint16 : ℕ → ℕ → ℕ
uint16 a b = a * 256 + b

abbrev pub uint32 : ℕ → ℕ → ℕ → ℕ → ℕ
uint32 a b c d = a * 16777216 + b * 65536 + c * 256 + d

pub uint16-put : (n : ℕ) → n < 65536 → uint16 (n / 256 % 256) (n % 256) ≡ n
uint16-put n h = omega arith

pub uint32-put :
    (n : ℕ)
    → n < 4294967296
    → uint32 (n / 16777216 % 256) (n / 65536 % 256) (n / 256 % 256) (n % 256) ≡ n
uint32-put n h = omega arith

pub data ReadError : Type 0 where
  eof unexpected_eof : ReadError

-- `io.ReadFull` into a buffer of `n` bytes, with what the reader still holds.
unfoldable pub read_full : ℕ → Bytes → Result ReadError Bytes × Bytes
read_full zero s = (ok [], s)
read_full (suc n) [] = (err eof, [])
read_full (suc n) (c ∷ s) =
    if ltb (length (c ∷ s)) (suc n)
    then (err unexpected_eof, [])
    else (ok (take (suc n) (c ∷ s)), drop (suc n) (c ∷ s))

module _ {ℓ} {A : Type ℓ} where
  pub take-length : (xs ys : List A) → take (length xs) (xs ++ ys) ≡ xs
  take-length [] ys = refl
  take-length (x ∷ xs) ys = ap (◌∷◌ x) (take-length xs ys)

  pub drop-length : (xs ys : List A) → drop (length xs) (xs ++ ys) ≡ ys
  drop-length [] ys = refl
  drop-length (x ∷ xs) ys = drop-length xs ys

  pub length-drop : (n : ℕ) (xs : List A) → length (drop n xs) ≡ length xs - n
  length-drop zero xs = omega arith
  length-drop (suc n) [] = omega arith
  length-drop (suc n) (x ∷ xs) = omega (arith, length-drop n xs)

  pub length-append' : (xs ys : List A) → length (xs ++ ys) ≡ length xs + length ys
  length-append' [] ys = omega arith
  length-append' (x ∷ xs) ys = omega (arith, length-append' xs ys)

-- A reader that begins with `p` gives it.
pub read_full-append : (p rest : Bytes) → read_full (length p) (p ++ rest) ≡ (ok p, rest)
unfolding read_full
read_full-append [] rest = refl
read_full-append (c ∷ p) rest =
    ground (arith, take-length p rest, drop-length p rest, length-append' p rest)

-- A read takes its bytes, or all that is left.
pub read_full_takes : (n : ℕ) (s : Bytes) → length s ≤ length (read_full n s).1 + n
unfolding read_full
read_full_takes zero s = omega arith
read_full_takes (suc n) [] = omega arith
read_full_takes (suc n) (c ∷ s) = ground (arith, length-drop n s)
