-- ===== src/Base/Base64.antt =====
-- `base64.StdEncoding` and `base64.RawStdEncoding`.
use Prim.Native.Nat.{ℕ, ◌+◌, ◌-◌, ◌*◌, ◌/◌, ◌%◌, ◌<◌}
use mathlib.Core.Path.{◌≡◌, refl, ap, ◌∙◌}
use mathlib.Core.Bool.{Bool, true, false, ◌&&◌, ◌||◌}
use mathlib.Core.Option.{Option, none, some}
use mathlib.Core.List.{[], ◌∷◌}
use native.Mathlib.Omega.{arith}
use package.argos.Base.Tests.{ltb, leb, ◌==◌, if◌then◌else◌}
use package.argos.Base.Lists.{length, count, All}
use package.argos.Base.Bytes.{Bytes, IsByte}

-- The character of six bits, and the six bits of a character.
pub digit : ℕ → ℕ
digit n =
    if ltb n 26
    then n + 65
    else if ltb n 52
    then n + 71
    else if ltb n 62
    then n - 4
    else if n == 62
    then b'+'
    else b'/'

pub sextet : ℕ → Option ℕ
sextet c =
    if leb b'A' c && leb c b'Z'
    then some (c - 65)
    else if leb b'a' c && leb c b'z'
    then some (c - 71)
    else if leb b'0' c && leb c b'9'
    then some (c + 4)
    else if c == b'+'
    then some 62
    else if c == b'/'
    then some 63
    else none

-- `RawStdEncoding.EncodeToString`.
unfoldable pub raw_encode : Bytes → Bytes
raw_encode [] = []
raw_encode (a ∷ []) = digit (a / 4) ∷ (digit (a % 4 * 16) ∷ [])
raw_encode (a ∷ (b ∷ [])) =
    digit (a / 4) ∷ (digit (a % 4 * 16 + b / 16) ∷ (digit (b % 16 * 4) ∷ []))
raw_encode (a ∷ (b ∷ (c ∷ s))) =
    digit (a / 4)
    ∷ (digit (a % 4 * 16 + b / 16)
        ∷ (digit (b % 16 * 4 + c / 64) ∷ (digit (c % 64) ∷ raw_encode s)))

-- The bytes of two, three and four characters.
one_byte : Option ℕ → Option ℕ → Option Bytes
one_byte (some w) (some x) = some ((w * 4 + x / 16) ∷ [])
one_byte _ _ = none

two_bytes : Option ℕ → Option ℕ → Option ℕ → Option Bytes
two_bytes (some w) (some x) (some y) = some ((w * 4 + x / 16) ∷ ((x % 16 * 16 + y / 4) ∷ []))
two_bytes _ _ _ = none

three_bytes : Option ℕ → Option ℕ → Option ℕ → Option ℕ → Option Bytes → Option Bytes
three_bytes (some w) (some x) (some y) (some z) (some s) =
    some ((w * 4 + x / 16) ∷ ((x % 16 * 16 + y / 4) ∷ ((y % 4 * 64 + z) ∷ s)))
three_bytes _ _ _ _ _ = none

-- Padding ends a text.
ends : Bytes → Option Bytes → Option Bytes
ends [] r = r
ends (c ∷ s) r = none

-- The flag asks for padding.
unfoldable pub quads : Bool → Bytes → Option Bytes
unfolding one_byte two_bytes three_bytes ends
quads padded [] = some []
quads padded (w ∷ []) = none
quads padded (w ∷ (x ∷ [])) = if padded then none else one_byte (sextet w) (sextet x)
quads padded (w ∷ (x ∷ (y ∷ []))) =
    if padded then none else two_bytes (sextet w) (sextet x) (sextet y)
quads padded (w ∷ (x ∷ (y ∷ (z ∷ s)))) =
    let more = three_bytes (sextet w) (sextet x) (sextet y) (sextet z) (quads padded s) in
    if padded && z == b'='
    then (if y == b'='
        then ends s (one_byte (sextet w) (sextet x))
        else ends s (two_bytes (sextet w) (sextet x) (sextet y)))
    else more

-- A decoder passes line ends by.
unfoldable pub without_line_ends : Bytes → Bytes
without_line_ends [] = []
without_line_ends (c ∷ s) =
    let rest = without_line_ends s in if c == 10 || c == 13 then rest else c ∷ rest

-- `StdEncoding.DecodeString` and `RawStdEncoding.DecodeString`.
unfoldable pub std_decode : Bytes → Option Bytes
std_decode s = quads true (without_line_ends s)

unfoldable pub raw_decode : Bytes → Option Bytes
raw_decode s = quads false (without_line_ends s)

sextet-digit : (n : ℕ) → n < 64 → sextet (digit n) ≡ some n
unfolding sextet digit
sextet-digit n h = ground arith

-- Letters, digits, `+` and `/`.
IsText : ℕ → Type 0
IsText c = (c == b'=' ≡ false) × (c == b',' ≡ false) × (c == 10 || c == 13 ≡ false)

digit-IsText : (n : ℕ) → n < 64 → IsText (digit n)
unfolding digit IsText
digit-IsText n h = ground arith

raw_encode-IsText : (s : Bytes) → All IsByte s → All IsText (raw_encode s)
unfolding raw_encode
raw_encode-IsText [] h = tt
raw_encode-IsText (a ∷ []) h = (digit-IsText _ (omega arith), (digit-IsText _ (omega arith), tt))
raw_encode-IsText (a ∷ (b ∷ [])) h = (
  digit-IsText _ (omega arith),
  (digit-IsText _ (omega arith), (digit-IsText _ (omega arith), tt)),
)
raw_encode-IsText (a ∷ (b ∷ (c ∷ s))) h = (
  digit-IsText _ (omega arith),
  (
    digit-IsText _ (omega arith),
    (digit-IsText _ (omega arith), (digit-IsText _ (omega arith), raw_encode-IsText s h.1.1.1)),
  ),
)

without_line_ends-IsText : (s : Bytes) → All IsText s → without_line_ends s ≡ s
unfolding without_line_ends IsText
without_line_ends-IsText [] h = refl
without_line_ends-IsText (c ∷ s) h = ground (arith, without_line_ends-IsText s)

count-IsText : (s : Bytes) → All IsText s → count b',' s ≡ 0
unfolding IsText
count-IsText [] h = refl
count-IsText (c ∷ s) h = ground (arith, count-IsText s)

-- An encoded text holds no comma.
pub count-raw_encode : (s : Bytes) → All IsByte s → count b',' (raw_encode s) ≡ 0
count-raw_encode s h = count-IsText (raw_encode s) (raw_encode-IsText s h)

quads-raw_encode :
    (padded : Bool) (s : Bytes)
    → All IsByte s
    → (padded ≡ true → length (raw_encode s) % 4 ≡ 0)
    → quads padded (raw_encode s) ≡ some s
unfolding quads raw_encode IsText
quads-raw_encode padded [] h k = refl
quads-raw_encode true (a ∷ []) h k = absurd (omega (arith, k refl))
quads-raw_encode false (a ∷ []) h k =
    ground (arith, sextet-digit (a / 4) (omega arith), sextet-digit (a % 4 * 16) (omega arith))
quads-raw_encode true (a ∷ (b ∷ [])) h k = absurd (omega (arith, k refl))
quads-raw_encode false (a ∷ (b ∷ [])) h k = ground (
  arith,
  sextet-digit (a / 4) (omega arith),
  sextet-digit (a % 4 * 16 + b / 16) (omega arith),
  sextet-digit (b % 16 * 4) (omega arith),
)
quads-raw_encode padded (a ∷ (b ∷ (c ∷ s))) h k = ground (
  arith,
  sextet-digit (a / 4) (omega arith),
  sextet-digit (a % 4 * 16 + b / 16) (omega arith),
  sextet-digit (b % 16 * 4 + c / 64) (omega arith),
  sextet-digit (c % 64) (omega arith),
  (digit-IsText (c % 64) (omega arith)).0,
  quads-raw_encode padded s h.1.1.1 (λ p. omega (arith, k p)),
)

-- A text that is encoded without padding is decoded by the decoder for its length: the one with
-- padding where the length is a multiple of four, and the other where it is not.
pub std_decode-raw_encode :
    (s : Bytes) → All IsByte s → length (raw_encode s) % 4 ≡ 0 → std_decode (raw_encode s) ≡ some s
unfolding std_decode
std_decode-raw_encode s h k =
    ap (quads true) (without_line_ends-IsText (raw_encode s) (raw_encode-IsText s h))
    ∙ quads-raw_encode true s h (λ _. k)

pub raw_decode-raw_encode : (s : Bytes) → All IsByte s → raw_decode (raw_encode s) ≡ some s
unfolding raw_decode
raw_decode-raw_encode s h =
    ap (quads false) (without_line_ends-IsText (raw_encode s) (raw_encode-IsText s h))
    ∙ quads-raw_encode false s h (λ e. cc)
