-- ===== src/Grpc/Message/RoundTrip.antt =====
-- Encoding and decoding of transport/grpc/message.go undo one another.
use argos.Base.{
  if_rule, ℕ, zero, suc, ◌-◌, ◌/◌, ◌%◌, ◌<◌, ◌==◌, ◌≡◌, refl, sym, ap, ◌∙◌, true, false,
  if◌then◌else◌, [], ◌∷◌, ◌++◌, some, All, arith, Bool-cases, inl, inr,
}
use argos.Base.Bytes.{IsByte, Bytes}
use argos.Grpc.Message.{
  between, is_printable, rune_size, hex, percent, encode_byte, rune_error, encode_unchecked,
  all_printable, encode_message, unhex, decode_unchecked, has_escape, decode_message,
}

-- The text with each byte that is not part of a UTF-8 rune replaced by RuneError; the number is how
-- many bytes of the current rune are left.
unfoldable pub sanitize : ℕ → Bytes → Bytes
sanitize k [] = []
sanitize (suc k) (c ∷ s) = c ∷ sanitize k s
sanitize zero (c ∷ s) =
    let n = rune_size c s in
    let bad = rune_error ++ sanitize zero s in
    let good = c ∷ sanitize (n - 1) s in if n == 0 then bad else good

unhex-hex : (n : ℕ) → n < 16 → unhex (hex n) ≡ some n
unhex-hex n h = ground arith

decode-percent :
    (c : ℕ) (s : Bytes) → c < 256 → decode_unchecked (percent c ++ s) ≡ c ∷ decode_unchecked s
unfolding decode_unchecked
decode-percent c s h = ground (arith, unhex-hex (c / 16), unhex-hex (c % 16))

decode_plain :
    (c : ℕ) (s : Bytes) → c == b'%' ≡ false → decode_unchecked (c ∷ s) ≡ c ∷ decode_unchecked s
unfolding decode_unchecked
decode_plain c [] h = refl
decode_plain c (a ∷ []) h = refl
decode_plain c (a ∷ (b ∷ s)) h = rw h

decode-encode_byte :
    (c : ℕ) (s : Bytes) → c < 256 → decode_unchecked (encode_byte c ++ s) ≡ c ∷ decode_unchecked s
decode-encode_byte c s h = ground (arith, decode_plain c s, decode-percent c s)

decode-encode_unchecked :
    (k : ℕ) (s : Bytes) → All IsByte s → decode_unchecked (encode_unchecked k s) ≡ sanitize k s
unfolding encode_unchecked sanitize
decode-encode_unchecked k [] a = unfold decode_unchecked in ground arith
decode-encode_unchecked (suc k) (c ∷ s) a =
    decode-percent c (encode_unchecked k s) a.0 ∙ ap (◌∷◌ c) (decode-encode_unchecked k s a.1)
decode-encode_unchecked zero (c ∷ s) a =
    let rest = encode_unchecked zero s in
    ground (
      arith,
      decode-percent 0xef (percent 0xbf ++ (percent 0xbd ++ rest)) (omega arith),
      decode-percent 0xbf (percent 0xbd ++ rest) (omega arith),
      decode-percent 0xbd rest (omega arith),
      decode-encode_byte c rest a.0,
      decode-percent c (encode_unchecked (rune_size c s - 1) s) a.0,
      decode-encode_unchecked zero s a.1,
      decode-encode_unchecked (rune_size c s - 1) s a.1,
    )

decode_unchecked_unescaped : (msg : Bytes) → has_escape msg ≡ false → decode_unchecked msg ≡ msg
unfolding has_escape decode_unchecked
decode_unchecked_unescaped [] h = refl
decode_unchecked_unescaped (c ∷ []) h = refl
decode_unchecked_unescaped (c ∷ (a ∷ [])) h = refl
decode_unchecked_unescaped (c ∷ (a ∷ (b ∷ s))) h =
    ground (arith, decode_unchecked_unescaped (a ∷ (b ∷ s)))

decode_message_lem : (msg : Bytes) → decode_message msg ≡ decode_unchecked msg
unfolding decode_message
decode_message_lem msg = elim (Bool-cases (has_escape msg)) [
  | inl h ↦ rw h
  | inr h ↦ rw h (sym (decode_unchecked_unescaped msg h))
]

printable_plain :
    (msg : Bytes)
    → all_printable msg ≡ true
    → (decode_unchecked msg ≡ msg) × (sanitize zero msg ≡ msg)
unfolding all_printable sanitize rune_size
printable_plain [] h = (unfold decode_unchecked in refl, refl)
printable_plain (c ∷ s) h = ground (arith, decode_plain c s, printable_plain s)

-- Decoding an encoded message gives the message back, with each byte that is not part of a UTF-8
-- rune replaced by RuneError.
pub decode_message-encode_message :
    (msg : Bytes) → All IsByte msg → decode_message (encode_message msg) ≡ sanitize zero msg
unfolding encode_message
decode_message-encode_message msg a = elim (Bool-cases (all_printable msg)) [
  | inl p ↦
      rw p (decode_message_lem msg ∙ (printable_plain msg p).0 ∙ sym (printable_plain msg p).1)
  | inr p ↦
      rw p (decode_message_lem (encode_unchecked zero msg) ∙ decode-encode_unchecked zero msg a)
]

abbrev pub IsVisible : ℕ → Type 0
IsVisible c = between b' ' b'~' c ≡ true

percent-IsVisible : (c : ℕ) (s : Bytes) → c < 256 → All IsVisible s → All IsVisible (percent c ++ s)
percent-IsVisible c s h a = (refl, (ground arith, (ground arith, a)))

encode_byte-IsVisible :
    (c : ℕ) (s : Bytes) → c < 256 → All IsVisible s → All IsVisible (encode_byte c ++ s)
encode_byte-IsVisible c s h a = elim (Bool-cases (is_printable c)) [
  | inl p ↦ rw p (ground arith, a)
  | inr p ↦ rw p (percent-IsVisible c s h a)
]

encode_unchecked-IsVisible :
    (k : ℕ) (msg : Bytes) → All IsByte msg → All IsVisible (encode_unchecked k msg)
unfolding encode_unchecked
encode_unchecked-IsVisible k [] a = tt
encode_unchecked-IsVisible (suc k) (c ∷ s) a =
    percent-IsVisible c (encode_unchecked k s) a.0 (encode_unchecked-IsVisible k s a.1)
encode_unchecked-IsVisible zero (c ∷ s) a =
    let n = rune_size c s in
    let rest = encode_unchecked-IsVisible zero s a.1 in
    if_rule (All IsVisible) (n == 0) _ _
      (λ _.
        percent-IsVisible 0xef (percent 0xbf ++ (percent 0xbd ++ encode_unchecked zero s))
          (omega arith)
          (percent-IsVisible 0xbf (percent 0xbd ++ encode_unchecked zero s) (omega arith)
            (percent-IsVisible 0xbd (encode_unchecked zero s) (omega arith) rest)))
      λ _.
        if_rule (All IsVisible) (n == 1) _ _
          (λ _. encode_byte-IsVisible c (encode_unchecked zero s) a.0 rest)
          λ _.
            percent-IsVisible c (encode_unchecked (n - 1) s) a.0
              (encode_unchecked-IsVisible (n - 1) s a.1)

printable-All : (msg : Bytes) → all_printable msg ≡ true → All IsVisible msg
unfolding all_printable
printable-All [] h = tt
printable-All (c ∷ s) h = (ground arith, printable-All s (ground arith))

-- An encoded message is printable ASCII, whatever bytes the message has.
pub encode_message_printable : (msg : Bytes) → All IsByte msg → All IsVisible (encode_message msg)
unfolding encode_message
encode_message_printable msg a = elim (Bool-cases (all_printable msg)) [
  | inl p ↦ rw p (printable-All msg p)
  | inr p ↦ rw p (encode_unchecked-IsVisible zero msg a)
]
