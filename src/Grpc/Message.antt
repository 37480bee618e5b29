-- ===== src/Grpc/Message.antt =====
-- transport/grpc/message.go: percent-encoding of grpc-message.
pub mod RoundTrip
use argos.Base.{
  ℕ, zero, suc, ◌+◌, ◌-◌, ◌*◌, ◌/◌, ◌%◌, ◌==◌, Bool, true, false, ◌&&◌, ◌||◌, not, ltb, leb,
  if◌then◌else◌, List, [], ◌∷◌, ◌++◌, Option, none, some,
}
use argos.Base.Bytes.{Bytes}

abbrev pub between : ℕ → ℕ → ℕ → Bool
between lo hi c = leb lo c && leb c hi

abbrev pub is_printable : ℕ → Bool
is_printable c = between b' ' b'~' c && not (c == b'%')

-- A continuation byte of UTF-8.
abbrev pub is_cont : ℕ → Bool
is_cont c = between 0x80 0xbf c

-- `utf8.DecodeRuneInString`: how many bytes the rune at the front has, and 0 where they are not
-- UTF-8 (it returns RuneError, of size 1).
pub rune_size_two : ℕ → ℕ → ℕ
rune_size_two a b = if between 0xc2 0xdf a && is_cont b then 2 else 0

pub rune_size_three : ℕ → ℕ → ℕ → ℕ
unfolding rune_size_two
rune_size_three a b c =
    if is_cont c
      && ((a == 0xe0 && between 0xa0 0xbf b)
          || (a == 0xed && between 0x80 0x9f b)
          || (between 0xe1 0xef a && not (a == 0xed) && is_cont b))
    then 3
    else rune_size_two a b

pub rune_size_four : ℕ → ℕ → ℕ → ℕ → ℕ
unfolding rune_size_three
rune_size_four a b c d =
    if is_cont c
      && is_cont d
      && ((a == 0xf0 && between 0x90 0xbf b)
          || (a == 0xf4 && between 0x80 0x8f b)
          || (between 0xf1 0xf3 a && is_cont b))
    then 4
    else rune_size_three a b c

pub rune_size_multi : ℕ → Bytes → ℕ
unfolding rune_size_four
rune_size_multi a [] = 0
rune_size_multi a (b ∷ []) = rune_size_two a b
rune_size_multi a (b ∷ (c ∷ [])) = rune_size_three a b c
rune_size_multi a (b ∷ (c ∷ (d ∷ s))) = rune_size_four a b c d

pub rune_size : ℕ → Bytes → ℕ
unfolding rune_size_multi
rune_size a s = if ltb a 0x80 then 1 else rune_size_multi a s

-- `%02X`.
abbrev pub hex : ℕ → ℕ
hex n = if ltb n 10 then b'0' + n else (n + 55)

abbrev pub percent : ℕ → Bytes
percent c = b'%' ∷ hex (c / 16) ∷ hex (c % 16) ∷ []

abbrev pub encode_byte : ℕ → Bytes
encode_byte c = if is_printable c then c ∷ [] else percent c

-- RuneError, which `string(r)` writes as these three bytes.
abbrev pub rune_error : Bytes
rune_error = 0xef ∷ 0xbf ∷ 0xbd ∷ []

-- `encodeGrpcMessageUnchecked`. The number is how many bytes of the current rune are left.
pub encode_unchecked : ℕ → Bytes → Bytes
encode_unchecked k [] = []
encode_unchecked (suc k) (c ∷ s) = percent c ++ encode_unchecked k s
encode_unchecked zero (c ∷ s) =
    let n = rune_size c s in
    let bad = percent 0xef ++ (percent 0xbf ++ (percent 0xbd ++ encode_unchecked zero s)) in
    let one = encode_byte c ++ encode_unchecked zero s in
    let more = percent c ++ encode_unchecked (n - 1) s in
    if n == 0 then bad else if n == 1 then one else more

pub all_printable : Bytes → Bool
all_printable [] = true
all_printable (c ∷ s) = is_printable c && all_printable s

-- `EncodeGrpcMessage`.
pub encode_message : Bytes → Bytes
encode_message msg = if all_printable msg then msg else encode_unchecked zero msg

-- `strconv.ParseUint(s, 16, 8)` of two bytes.
abbrev pub unhex : ℕ → Option ℕ
unhex c =
    if between b'0' b'9' c
    then some (c - b'0')
    else if between b'A' b'F' c
    then some (c - 55)
    else if between b'a' b'f' c
    then some (c - 87)
    else none

abbrev pub unhex_two : ℕ → ℕ → Option ℕ
unhex_two a b = elim (unhex a) [
  | none ↦ none
  | some m ↦ elim (unhex b) [ none ↦ none | some n ↦ some (m * 16 + n) ]
]

-- `decodeGrpcMessageUnchecked`.
pub decode_unchecked : Bytes → Bytes
decode_unchecked [] = []
decode_unchecked (c ∷ []) = c ∷ []
decode_unchecked (c ∷ (a ∷ [])) = c ∷ a ∷ []
decode_unchecked (c ∷ (a ∷ (b ∷ s))) =
    let plain = c ∷ decode_unchecked (a ∷ (b ∷ s)) in
    let escaped : Bytes = elim (unhex_two a b) [ none ↦ plain | some n ↦ n ∷ decode_unchecked s ] in
    if c == b'%' then escaped else plain

-- `msg[i] == '%' && i+2 < len(msg)` for some i.
unfoldable pub has_escape : Bytes → Bool
has_escape [] = false
has_escape (c ∷ []) = false
has_escape (c ∷ (a ∷ [])) = false
has_escape (c ∷ (a ∷ (b ∷ s))) = c == b'%' || has_escape (a ∷ (b ∷ s))

-- `DecodeGrpcMessage`.
unfoldable pub decode_message : Bytes → Bytes
decode_message msg = if has_escape msg then decode_unchecked msg else msg
