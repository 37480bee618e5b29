-- ===== src/Grpc/StatusWire.antt =====
-- transport/grpc/statuswire.go: the status in the headers. Names of headers are ASCII. The user's
-- metadata and the status details of `EncodeStatusTrailers` are headers before and behind these.
use argos.Base.{
  ℕ, ◌<◌, ◌==◌, ◌≡◌, ◌≢◌, refl, ap, ◌∙◌, false, ltb, if◌then◌else◌, if_rule, List, [], ◌∷◌, ◌++◌,
  Option, none, some, arith, All,
}
use argos.Base.Bytes.{IsByte, Bytes, codes, ◌===◌, to_lower}
use argos.Base.Decimal.{decimal, parse_uint, parse_uint-decimal}
use argos.Status.{Code, Error, ok, unknown, error, code_of, is_empty, as_status}
use argos.HttpStatus.{from_http}
use argos.Grpc.Message.{encode_message, decode_message, has_escape}
use argos.Grpc.Message.RoundTrip.{sanitize, decode_message-encode_message}

abbrev pub Header : Type 0
Header = Bytes × Bytes

-- `grpc-status`, and `grpc-message` if there is a message.
unfoldable pub status_headers : Code → Bytes → List Header
status_headers code msg =
    (codes "grpc-status", decimal code)
    ∷ (if is_empty msg then [] else (codes "grpc-message", encode_message msg) ∷ [])

-- The variables of the loop in `statusFromHeaders`.
pub record Scan : Type 0 where
  pub status_val : Option Bytes
  pub message_val : Bytes
  pub details : List Bytes

-- One round of the loop.
abbrev pub note_key : Scan → Bytes → Bytes → Scan
note_key a key v =
    if key === codes "grpc-status"
    then record a { status_val = some v }
    else if key === codes "grpc-message"
    then record a { message_val = v }
    else if key === codes "grpc-status-details-bin"
    then record a { details = a.details ++ (v ∷ []) }
    else a

unfoldable pub note : Scan → Header → Scan
note a (name, v) = note_key a (to_lower name) v

unfoldable pub scan : Scan → List Header → Scan
scan a [] = a
scan a (h ∷ hs) = scan (note a h) hs

-- `strconv.ParseUint(s, 10, 32)`.
abbrev pub parse_uint32 : Bytes → Option ℕ
parse_uint32 s = elim (parse_uint s) [
  | none ↦ none
  | some n ↦ if ltb n 4294967296 then some n else none
]

unfoldable pub code_or_unknown : Bytes → Code
code_or_unknown s = elim (parse_uint32 s) [ none ↦ unknown | some n ↦ n ]

-- `statusFromHeaders`, with `none` for `found` false.
unfoldable pub status_from_headers : List Header → Option (Code × Bytes × List Bytes)
status_from_headers hs =
    let a = scan (record { status_val = none; message_val = []; details = [] }) hs in
    elim a.status_val [
      | none ↦ none
      | some s ↦ some (code_or_unknown s, decode_message a.message_val, a.details)
    ]

-- `httpFallbackStatus`.
unfoldable pub http_fallback_status : ℕ → Error
http_fallback_status http_status =
    let h = if http_status == 0 then 200 else http_status in
    if h == 200
    then error unknown (codes "grpc: missing grpc-status in response")
    else error (from_http h) (codes "grpc: missing grpc-status; HTTP " ++ decimal h)

from_http-ne-ok : (s : ℕ) → s == 200 ≡ false → from_http s ≢ ok
unfolding from_http
from_http-ne-ok s h = ground arith

-- A response without a gRPC status is an error, whatever its HTTP status is, 200 included.
pub http_fallback_status_fails : (h : ℕ) → code_of (some (http_fallback_status h)) ≢ ok
unfolding http_fallback_status code_of as_status
http_fallback_status_fails h =
    let s = if h == 0 then 200 else h in
    if_rule (λ (e : Error). code_of (some e) ≢ ok) (s == 200) _ _ (λ _. ground arith)
      λ other. from_http-ne-ok s other

-- A header of the user's, which the loop passes by.
abbrev pub IsKey : Bytes → Type 0
IsKey key =
    (key === codes "grpc-status" ≡ false)
    × (key === codes "grpc-message" ≡ false)
    × (key === codes "grpc-status-details-bin" ≡ false)

abbrev pub IsUser : Header → Type 0
IsUser h = IsKey (to_lower h.0)

pub scan-user :
    (user hs : List Header) (a : Scan) → All IsUser user → scan a (user ++ hs) ≡ scan a hs
unfolding scan note
scan-user [] hs a u = refl
scan-user ((name, v) ∷ user) hs a u =
    ap (λ b. scan b (user ++ hs)) (passed (to_lower name) u.0) ∙ scan-user user hs a u.1
  where
    passed : (key : Bytes) → IsKey key → note_key a key v ≡ a
    passed key k = ground arith

pub code_or_unknown-decimal : (n : ℕ) → n < 4294967296 → code_or_unknown (decimal n) ≡ n
unfolding code_or_unknown
code_or_unknown-decimal n h = ground (arith, parse_uint-decimal n (omega arith))

decode_message-nil : decode_message [] ≡ []
unfolding decode_message has_escape
decode_message-nil = refl

-- What the loop begins with, and what is made of what it ends with.
abbrev pub start : Scan
start = record { status_val = none; message_val = []; details = [] }

abbrev pub result : Scan → Option (Code × Bytes × List Bytes)
result a = elim a.status_val [
  | none ↦ none
  | some s ↦ some (code_or_unknown s, decode_message a.message_val, a.details)
]

abbrev pub wire_message : Bytes → Bytes
wire_message [] = []
wire_message (c ∷ m) = encode_message (c ∷ m)

scan-status_headers :
    (code : Code) (msg : Bytes)
    → scan start (status_headers code msg)
      ≡ record start { status_val = some (decimal code); message_val = wire_message msg }
unfolding scan note status_headers
scan-status_headers code [] = refl
scan-status_headers code (c ∷ m) = refl

pub wire_message_decoded :
    (msg : Bytes) → All IsByte msg → decode_message (wire_message msg) ≡ sanitize 0 msg
unfolding sanitize
wire_message_decoded [] a = decode_message-nil
wire_message_decoded (c ∷ m) a = decode_message-encode_message (c ∷ m) a

-- A status of 32 bits whose headers come behind a user's is found again, its message with each byte
-- that is not part of a UTF-8 rune replaced by RuneError.
pub status_from_headers-status_headers :
    (user : List Header) (code : Code) (msg : Bytes)
    → All IsUser user
    → code < 4294967296
    → All IsByte msg
    → status_from_headers (user ++ status_headers code msg) ≡ some (code, sanitize 0 msg, [])
unfolding status_from_headers
status_from_headers-status_headers user code msg u c a =
    ap result (scan-user user (status_headers code msg) start u)
    ∙ (ap result (scan-status_headers code msg)
        ∙ (ap (λ n. some (n, decode_message (wire_message msg), []))
              (code_or_unknown-decimal code c)
            ∙ ap (λ m. some (code, m, [])) (wire_message_decoded msg a)))
