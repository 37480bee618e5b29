-- ===== src/Base/Int.antt =====
-- Go's `int` where a program value may be negative. `negsuc n` is -(n + 1).
use Prim.Native.Nat.{ℕ, zero, suc, ◌+◌}
use mathlib.Core.Path.{◌≡◌}
use mathlib.Core.Bool.{Bool, true, false}
use native.Mathlib.Omega.{arith}
use package.argos.Base.Tests.{leb}

pub data ℤ : Type 0 where
  pos : ℕ → ℤ
  negsuc : ℕ → ℤ

abbrev pub pos_part : ℤ → ℕ
pos_part (pos n) = n
pos_part (negsuc n) = 0

abbrev pub neg_part : ℤ → ℕ
neg_part (pos n) = 0
neg_part (negsuc n) = suc n

-- `i++` and `i--`.
abbrev pub inc : ℤ → ℤ
inc (pos n) = pos (suc n)
inc (negsuc zero) = pos 0
inc (negsuc (suc n)) = negsuc n

abbrev pub dec : ℤ → ℤ
dec (pos zero) = negsuc 0
dec (pos (suc n)) = pos n
dec (negsuc n) = negsuc (suc n)

abbrev pub is_neg : ℤ → Bool
is_neg (pos n) = false
is_neg (negsuc n) = true

-- `n + i >= m`.
abbrev pub sum_geb : ℕ → ℤ → ℕ → Bool
sum_geb n i m = leb (m + neg_part i) (n + pos_part i)

pub inc_parts : (i : ℤ) → pos_part (inc i) + neg_part i ≡ neg_part (inc i) + pos_part i + 1
inc_parts (pos n) = omega arith
inc_parts (negsuc zero) = omega arith
inc_parts (negsuc (suc n)) = omega arith

pub dec_parts : (i : ℤ) → pos_part (dec i) + neg_part i + 1 ≡ neg_part (dec i) + pos_part i
dec_parts (pos zero) = omega arith
dec_parts (pos (suc n)) = omega arith
dec_parts (negsuc n) = omega arith
