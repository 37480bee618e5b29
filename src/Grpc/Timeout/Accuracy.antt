-- ===== src/Grpc/Timeout/Accuracy.antt =====
-- What a deadline of transport/grpc/timeout.go loses on the wire.
use argos.Base.{
  ℕ, ◌-◌, ◌*◌, ◌≤◌, ◌≡◌, refl, ◌∙◌, ap, leb, if◌then◌else◌, if_both, if_rule, [], ◌∷◌, ◌++◌, some,
  length, length-append, arith,
}
use argos.Base.Bytes.{Bytes}
use argos.Base.Decimal.{decimal, parse_uint, parse_uint-decimal, decimal-length, decimal-pos}
use argos.Base.Result.{ok}
use argos.Grpc.Timeout.{
  max_timeout_value, max_int64, unit_duration, div_up, in_unit, encode_timeout, last_byte, but_last,
  scale, decode_timeout,
}

last_byte-concat : (s : Bytes) (u : ℕ) → last_byte (s ++ (u ∷ [])) ≡ u
last_byte-concat [] u = refl
last_byte-concat (c ∷ []) u = refl
last_byte-concat (c ∷ (d ∷ s)) u = last_byte-concat (d ∷ s) u

but_last-concat : (s : Bytes) (u : ℕ) → but_last (s ++ (u ∷ [])) ≡ s
but_last-concat [] u = refl
but_last-concat (c ∷ []) u = refl
but_last-concat (c ∷ (d ∷ s)) u = ap (◌∷◌ c) (but_last-concat (d ∷ s) u)

length-but_last : (s : Bytes) → length (but_last s) ≡ length s - 1
length-but_last [] = refl
length-but_last (c ∷ []) = refl
length-but_last (c ∷ (d ∷ s)) = omega (arith, length-but_last (d ∷ s))

-- A value of up to eight digits in a known unit decodes to its multiple of the unit.
decode-in_unit :
    (n u d : ℕ)
    → n ≤ max_timeout_value
    → unit_duration u ≡ some d
    → decode_timeout (in_unit n u) ≡ ok (scale d n)
unfolding decode_timeout
decode-in_unit n u d h k = ground (
  arith,
  k,
  length-append (decimal n) (u ∷ []),
  decimal-pos n,
  decimal-length 7 n (omega arith),
  last_byte-concat (decimal n) u,
  but_last-concat (decimal n) u,
  parse_uint-decimal n (omega arith),
)

-- What is decoded from an encoded duration.
received : ℕ → ℕ
received d =
    if leb d 0
    then 0
    else if leb (div_up d 1) max_timeout_value
    then scale 1 (div_up d 1)
    else if leb (div_up d 1000) max_timeout_value
    then scale 1000 (div_up d 1000)
    else if leb (div_up d 1000000) max_timeout_value
    then scale 1000000 (div_up d 1000000)
    else if leb (div_up d 1000000000) max_timeout_value
    then scale 1000000000 (div_up d 1000000000)
    else if leb (div_up d 60000000000) max_timeout_value
    then scale 60000000000 (div_up d 60000000000)
    else scale 3600000000000 (div_up d 3600000000000)

hours_fit : (d : ℕ) → d ≤ max_int64 → div_up d 3600000000000 ≤ max_timeout_value
unfolding div_up
hours_fit d h = ground arith

decode-encode_received :
    (d : ℕ) → d ≤ max_int64 → decode_timeout (encode_timeout d) ≡ ok (received d)
unfolding encode_timeout received
decode-encode_received d h =
    let R = λ (s : Bytes) (r : ℕ). decode_timeout s ≡ ok r in
    let fits = λ (r : ℕ). leb (div_up d r) max_timeout_value in
    if_both R (leb d 0) _ _ _ _ (λ _. zero_decodes)
      λ _.
        if_both R (fits 1) _ _ _ _ (λ f. decode-in_unit (div_up d 1) b'n' 1 (ground arith) refl)
          λ _.
            if_both R (fits 1000) _ _ _ _
              (λ f. decode-in_unit (div_up d 1000) b'u' 1000 (ground arith) refl)
              λ _.
                if_both R (fits 1000000) _ _ _ _
                  (λ f. decode-in_unit (div_up d 1000000) b'm' 1000000 (ground arith) refl)
                  λ _.
                    if_both R (fits 1000000000) _ _ _ _
                      (λ f.
                        decode-in_unit (div_up d 1000000000) b'S' 1000000000 (ground arith) refl)
                      λ _.
                        if_both R (fits 60000000000) _ _ _ _
                          (λ f.
                            decode-in_unit (div_up d 60000000000) b'M' 60000000000 (ground arith)
                              refl)
                          λ _.
                            decode-in_unit (div_up d 3600000000000) b'H' 3600000000000
                              (hours_fit d h) refl
  where
    zero_decodes : decode_timeout (b'0' ∷ b'n' ∷ []) ≡ ok 0
    zero_decodes = unfold decode_timeout scale parse_uint in refl

abbrev Close : ℕ → ℕ → Type 0
Close d r = (d ≤ r) × (r ≤ max_int64) × ((r - d) * 99999 ≤ d) × (d ≤ max_timeout_value → r ≡ d)

received-Close : (d : ℕ) → d ≤ max_int64 → Close d (received d)
unfolding received div_up scale
received-Close d h =
    let fits = λ (r : ℕ). leb (div_up d r) max_timeout_value in
    if_rule (Close d) (leb d 0) _ _ (λ z. ground arith)
      λ _.
        if_rule (Close d) (fits 1) _ _ (λ f. ground arith)
          λ a.
            if_rule (Close d) (fits 1000) _ _ (λ f. ground arith)
              λ b.
                if_rule (Close d) (fits 1000000) _ _ (λ f. ground arith)
                  λ c.
                    if_rule (Close d) (fits 1000000000) _ _ (λ f. ground arith)
                      λ e.
                        if_rule (Close d) (fits 60000000000) _ _ (λ f. ground arith)
                          (λ f. ground arith)

-- A duration of up to 2^63 - 1 nanoseconds that is encoded decodes to one that is no shorter, that
-- overflows no int64, and that is longer by one part in 99999 at most.
pub decode_timeout-encode_timeout :
    (d : ℕ)
    → d ≤ max_int64
    → (r : ℕ) × (decode_timeout (encode_timeout d) ≡ ok r)
      × (d ≤ r)
      × (r ≤ max_int64)
      × ((r - d) * 99999 ≤ d)
decode_timeout-encode_timeout d h =
    let c = received-Close d h in (received d, decode-encode_received d h, c.0, c.1, c.2)

-- A duration of at most eight digits of nanoseconds decodes to itself.
pub decode_timeout_exact :
    (d : ℕ) → d ≤ max_timeout_value → decode_timeout (encode_timeout d) ≡ ok d
decode_timeout_exact d h =
    let small : d ≤ max_int64 = omega arith in
    decode-encode_received d small ∙ ap ok ((received-Close d small).3 h)
