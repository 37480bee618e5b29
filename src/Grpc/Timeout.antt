-- ===== src/Grpc/Timeout.antt =====
-- transport/grpc/timeout.go. A duration is its number of nanoseconds, cut to 64 bits; one that is
-- not positive is encoded as 0 is.
pub mod Accuracy
use argos.Base.{
  ℕ, zero, suc, ◌+◌, ◌-◌, ◌*◌, ◌/◌, ◌%◌, ◌==◌, Bool, true, false, ◌&&◌, ltb, leb, if◌then◌else◌,
  List, [], ◌∷◌, ◌++◌, Option, none, some, length,
}
use argos.Base.Bytes.{Bytes}
use argos.Base.Decimal.{decimal, parse_uint}
use argos.Base.Split.{init}
use argos.Base.Result.{Result, ok, err}

abbrev pub max_timeout_value : ℕ
max_timeout_value = 99999999

abbrev pub max_int64 : ℕ
max_int64 = 9223372036854775807

-- `timeoutUnitToDuration`.
abbrev pub unit_duration : ℕ → Option ℕ
unit_duration u =
    if u == b'H'
    then some 3600000000000
    else if u == b'M'
    then some 60000000000
    else if u == b'S'
    then some 1000000000
    else if u == b'm'
    then some 1000000
    else if u == b'u'
    then some 1000
    else if u == b'n'
    then some 1
    else none

-- `div`, which rounds up.
unfoldable pub div_up : ℕ → ℕ → ℕ
div_up d r = if ltb 0 (d % r) then d / r + 1 else d / r

abbrev pub in_unit : ℕ → ℕ → Bytes
in_unit n u = decimal n ++ (u ∷ [])

-- `EncodeTimeout`.
unfoldable pub encode_timeout : ℕ → Bytes
encode_timeout d =
    if leb d 0
    then b'0' ∷ b'n' ∷ []
    else if leb (div_up d 1) max_timeout_value
    then in_unit (div_up d 1) b'n'
    else if leb (div_up d 1000) max_timeout_value
    then in_unit (div_up d 1000) b'u'
    else if leb (div_up d 1000000) max_timeout_value
    then in_unit (div_up d 1000000) b'm'
    else if leb (div_up d 1000000000) max_timeout_value
    then in_unit (div_up d 1000000000) b'S'
    else if leb (div_up d 60000000000) max_timeout_value
    then in_unit (div_up d 60000000000) b'M'
    else in_unit (div_up d 3600000000000) b'H'

pub data BadTimeout : Type 0 where
  too_short too_long bad_unit malformed : BadTimeout

-- The last byte, and those before it.
abbrev pub last_byte : Bytes → ℕ
last_byte [] = 0
last_byte (c ∷ []) = c
last_byte (c ∷ (d ∷ s)) = last_byte (d ∷ s)

abbrev pub but_last : Bytes → Bytes
but_last [] = []
but_last (c ∷ []) = []
but_last (c ∷ (d ∷ s)) = c ∷ but_last (d ∷ s)

abbrev pub max_hours : ℕ
max_hours = 2562047

-- The end of `DecodeTimeout`: the product is cut to 64 bits.
unfoldable pub scale : ℕ → ℕ → ℕ
scale d t =
    if d == 3600000000000 && ltb max_hours t then max_int64 else d * t % 18446744073709551616

-- `DecodeTimeout`.
unfoldable pub decode_timeout : Bytes → Result BadTimeout ℕ
decode_timeout s =
    if ltb (length s) 2
    then err too_short
    else if ltb 9 (length s)
    then err too_long
    else elim (unit_duration (last_byte s)) [
      | none ↦ err bad_unit
      | some d ↦ elim (parse_uint (but_last s)) [ none ↦ err malformed | some t ↦ ok (scale d t) ]
    ]
