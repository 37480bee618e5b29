-- ===== src/Synth/Wire.antt =====
-- example/synth/wire.go: greetings and frames. A writer is the bytes that it is given; it does not
-- fail. A reader ends with `io.EOF` and fails in no other way. `maxFrame` is a natural number: a
-- limit that is not positive is read as 0, no limit.
use argos.Base.{
  ℕ, ◌+◌, ◌==◌, Bool, ltb, ◌&&◌, if◌then◌else◌, List, [], ◌∷◌, ◌++◌, length, take, drop, Option,
  none, some,
}
use argos.Base.Bytes.{Bytes, codes, ◌===◌}
use argos.Base.Result.{Result, ok, err}
use argos.Base.Wire.{put_uint16, put_uint32, uint16, uint32, ReadError, read_full}
pub mod RoundTrip

-- The errors: of the reader, then of the protocol.
pub data WireError : Type 0 where
  read_error : ReadError → WireError
  bad_magic truncated unknown_type frame_too_large : WireError
  greeting_too_long method_too_long message_too_long : WireError

abbrev pub magic_greeting : Bytes
magic_greeting = codes "SYN1"

abbrev pub magic_ack : Bytes
magic_ack = codes "ACK1"

unfoldable pub write_greeting : Bytes → Result WireError Bytes
write_greeting greeting =
    if ltb 65535 (length greeting)
    then err greeting_too_long
    else ok (magic_greeting ++ (put_uint16 (length greeting) ++ greeting))

-- A read, and what is done with its bytes.
abbrev pub after {ℓ} :
    {A : Type ℓ}
    → Result ReadError Bytes × Bytes
    → (Bytes → Bytes → Result WireError A × Bytes)
    → Result WireError A × Bytes
after (ok s, rest) f = f s rest
after (err e, rest) f = (err (read_error e), rest)

-- The six bytes of the header, then the text that they announce.
unfoldable pub greeting_header : Bytes → Bytes → Result WireError Bytes × Bytes
greeting_header (m ∷ (n ∷ (o ∷ (p ∷ (a ∷ (b ∷ [])))))) s =
    if (m ∷ (n ∷ (o ∷ (p ∷ [])))) === magic_greeting
    then after (read_full (uint16 a b) s) (λ buf rest. (ok buf, rest))
    else (err bad_magic, s)
greeting_header _ s = (err bad_magic, s)

unfoldable pub read_greeting : Bytes → Result WireError Bytes × Bytes
read_greeting s = after (read_full 6 s) greeting_header

-- `writeAck` and `readAck`; the error of the latter, if any.
abbrev pub write_ack : Bytes
write_ack = magic_ack

unfoldable pub read_ack : Bytes → Option WireError × Bytes
read_ack s =
    let r = read_full 4 s in
    elim r.0 [
      | ok buf ↦ if buf === magic_ack then (none, r.1) else (some bad_magic, r.1)
      | err e ↦ (some (read_error e), r.1)
    ]

pub record Frame : Type 0 where
  pub typ : ℕ
  pub method : Bytes
  pub flags : ℕ
  pub data_bytes : Bytes
  pub code : ℕ
  pub message : Bytes

abbrev pub type_open : ℕ
type_open = 1

abbrev pub type_data : ℕ
type_data = 2

abbrev pub type_end : ℕ
type_end = 3

abbrev pub type_status : ℕ
type_status = 4

-- `frame{typ: t}`.
abbrev pub blank : ℕ → Frame
blank t = record { typ = t; method = []; flags = 0; data_bytes = []; code = 0; message = [] }

unfoldable pub marshal_body : Frame → Result WireError Bytes
marshal_body f =
    if f.typ == type_open
    then (if ltb 65535 (length f.method)
        then err method_too_long
        else ok (type_open ∷ (put_uint16 (length f.method) ++ (f.method ++ (f.flags ∷ [])))))
    else if f.typ == type_data
    then ok (type_data ∷ f.data_bytes)
    else if f.typ == type_end
    then ok (type_end ∷ [])
    else if f.typ == type_status
    then (if ltb 65535 (length f.message)
        then err message_too_long
        else ok (type_status ∷ (put_uint32 f.code ++ (put_uint16 (length f.message) ++ f.message))))
    else err unknown_type

-- `writeFrame`: the length of the body is cut to 32 bits.
unfoldable pub write_frame : Frame → Result WireError Bytes
write_frame f = elim (marshal_body f) [
  | ok body ↦ ok (put_uint32 (length body) ++ body)
  | err e ↦ err e
]

-- The byte at a place that the caller has checked.
abbrev pub byte_at : ℕ → Bytes → ℕ
byte_at n s = elim (drop n s) [ [] ↦ 0 | c ∷ rest ↦ c ]

-- `parseBody` behind the type byte of an OPEN frame.
unfoldable pub parse_open : Bytes → Result WireError Frame
parse_open (a ∷ (b ∷ (c ∷ s))) =
    if ltb (length (c ∷ s)) (uint16 a b + 1)
    then err truncated
    else ok (record (blank type_open) {
      method = take (uint16 a b) (c ∷ s);
      flags = byte_at (uint16 a b) (c ∷ s);
    })
parse_open _ = err truncated

-- `parseBody` behind the type byte of a STATUS frame.
unfoldable pub parse_status : Bytes → Result WireError Frame
parse_status (a ∷ (b ∷ (c ∷ (d ∷ (m ∷ (n ∷ s)))))) =
    if ltb (length s) (uint16 m n)
    then err truncated
    else ok (record (blank type_status) { code = uint32 a b c d; message = take (uint16 m n) s })
parse_status _ = err truncated

unfoldable pub parse_body : Bytes → Result WireError Frame
parse_body [] = err truncated
parse_body (t ∷ s) =
    if t == type_open
    then parse_open s
    else if t == type_data
    then ok (record (blank type_data) { data_bytes = s })
    else if t == type_end
    then ok (blank type_end)
    else if t == type_status
    then parse_status s
    else err unknown_type

-- `readFrame` behind the four bytes of the length.
unfoldable pub read_frame_body : ℕ → ℕ → Bytes → Result WireError Frame × Bytes
read_frame_body n max_frame s =
    if ltb n 1
    then (err truncated, s)
    else if ltb 0 max_frame && ltb max_frame n
    then (err frame_too_large, s)
    else after (read_full n s) (λ body rest. (parse_body body, rest))

unfoldable pub frame_header : ℕ → Bytes → Bytes → Result WireError Frame × Bytes
frame_header max_frame (a ∷ (b ∷ (c ∷ (d ∷ [])))) s = read_frame_body (uint32 a b c d) max_frame s
frame_header max_frame _ s = (err truncated, s)

unfoldable pub read_frame : Bytes → ℕ → Result WireError Frame × Bytes
read_frame s max_frame = after (read_full 4 s) (frame_header max_frame)
