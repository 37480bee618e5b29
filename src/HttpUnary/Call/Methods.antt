-- ===== src/HttpUnary/Call/Methods.antt =====
-- The methods of `call` in transport/httpunary/call.go that write.
use argos.Base.{
  ℕ, Bool, true, false, ◌&&◌, not, ltb, if◌then◌else◌, [], ◌∷◌, ◌++◌, Option, none, some, length,
}
use argos.Base.Bytes.{Bytes, codes}
use argos.Base.Decimal.{decimal}
use argos.Status.{Error, error, code_of, resource_exhausted, internal, unimplemented, is_empty}
use argos.Metadata.{Metadata, CallMd, freeze_outgoing_headers, freeze_outgoing_trailers}
use argos.HttpStatus.{to_http}
use argos.Grpc.Call.{Fault, local, Answer, missing, answers}
use argos.HttpUnary.Headers.{Headers, content_type, encode_metadata}
use argos.HttpUnary.ErrorBody.{Json, encode_error_body}
use argos.HttpUnary.Call.{
  err_send_finished, err_call_closed, Call, State, wrote_body, closed_send, wrote_response,
  failed_body, failed_close_send, failed_response, logged, send_failed,
}

abbrev pub is_some {ℓ} : {A : Type ℓ} → Option A → Bool
is_some none = false
is_some (some a) = true

abbrev pub refuse : State → Error → State × Option Fault
refuse st e = (st, some (local e))

-- `SendHeaders`.
abbrev pub send_headers : State → State × Option Fault
send_headers st =
    if st.call.initiator
    then refuse st (error unimplemented (codes "httpunary: SendHeaders unsupported for initiator"))
    else refuse st (
        error unimplemented
          (codes "httpunary: SendHeaders unsupported (UnaryResponseWriter commits at Finish)"))

-- `append([]byte(nil), data...)`, which is nil where `data` is empty.
abbrev pub copied : Bytes → Option Bytes
copied [] = none
copied (x ∷ xs) = some (x ∷ xs)

abbrev pub buffered : State → Bytes → State
buffered st payload =
    if st.call.initiator
    then record st { call = record st.call { req_buf = copied payload } }
    else record st { call = record st.call { resp_buf = copied payload } }

-- `Send`.
unfoldable pub send : State → Bytes → State × Option Fault
send st payload =
    let c = st.call in
    if c.closed
    then refuse st err_call_closed
    else if c.initiator && c.half_closed
    then refuse st err_send_finished
    else if not c.initiator && c.finished
    then refuse st err_send_finished
    else if c.initiator && is_some c.req_buf
    then refuse st (error internal (codes "httpunary: unary allows one request message"))
    else if not c.initiator && is_some c.resp_buf
    then refuse st (error internal (codes "httpunary: unary allows one response message"))
    else if ltb 0 c.max_msg && ltb c.max_msg (length payload)
    then refuse st (
        error resource_exhausted (
          codes "httpunary: Send payload "
          ++ (decimal (length payload) ++ (codes " > max " ++ decimal c.max_msg))))
    else (buffered st payload, none)

-- The end of `HalfClose`, behind the body.
abbrev pub close_send : State → Answer → State × Option Fault
close_send st missing = (
  logged failed_close_send st,
  some (local (error unimplemented (codes "httpunary: carrier has no CloseSend"))),
)
close_send st (answers none) = (logged closed_send st, none)
close_send st (answers (some f)) = send_failed (logged failed_close_send st) f

abbrev pub write_body : State → Option Fault → Bytes → Answer → State × Option Fault
write_body st none buf closing = close_send (logged (wrote_body buf) st) closing
write_body st (some f) buf closing = send_failed (logged failed_body st) f

abbrev pub flush : State → Option Bytes → Option Fault → Answer → State × Option Fault
flush st none writing closing = close_send st closing
flush st (some buf) writing closing =
    if is_empty buf then close_send st closing else write_body st writing buf closing

abbrev pub half_close_fresh : State → Option Fault → Answer → State × Option Fault
half_close_fresh st writing closing =
    flush (record st { call = record st.call { half_closed = true } }) st.call.req_buf writing
      closing

-- `HalfClose`, if `Write` and `CloseSend` answer `writing` and `closing`.
unfoldable pub half_close : State → Option Fault → Answer → State × Option Fault
half_close st writing closing =
    if not st.call.initiator
    then refuse st (error unimplemented (codes "httpunary: HalfClose unsupported for responder"))
    else if st.call.closed
    then refuse st err_call_closed
    else elim st.call.send_err [
      | some f ↦ (st, some f)
      | none ↦ if st.call.half_closed then (st, none) else half_close_fresh st writing closing
    ]

abbrev pub frozen : Option CallMd → Option CallMd
frozen none = none
frozen (some md) = some (freeze_outgoing_trailers (freeze_outgoing_headers md))

abbrev pub outgoing : Option CallMd → Metadata
outgoing none = []
outgoing (some md) = md.outgoing_headers

abbrev pub or_empty : Option Bytes → Bytes
or_empty none = []
or_empty (some b) = b

abbrev pub typed : Option (Bytes → Bytes) → Bytes → Bytes
typed none codec = content_type codec
typed (some hook) codec = hook codec

-- What a responder writes: the status, the content type and the body.
pub record Response : Type 0 where
  pub status : ℕ
  pub content_type : Bytes
  pub body : Bytes

module _ (json : Json) (shows : ℕ → Bytes) where
  abbrev pub error_response : Option (Error → Bytes × Bytes) → Error → Response
  error_response none e = record {
    status = to_http (code_of (some e));
    content_type = codes "application/json";
    body = encode_error_body json shows e;
  }
  error_response (some hook) e = record {
    status = to_http (code_of (some e));
    content_type = (hook e).0;
    body = (hook e).1;
  }

  abbrev pub response_of : Call → Option Error → Response
  response_of c none = record {
    status = 200;
    content_type = typed c.content_type_hook c.codec;
    body = or_empty c.resp_buf;
  }
  response_of c (some e) = error_response c.encode_error_hook e

  abbrev pub write_response : State → Headers → Response → Answer → State × Option Fault
  write_response st hs r missing =
      refuse st (error unimplemented (codes "httpunary: carrier has no UnaryResponseWriter"))
  write_response st hs r (answers (some f)) =
      send_failed
        (logged failed_response (record st { call = record st.call { md = frozen st.call.md } })) f
  write_response st hs r (answers none) = (
    logged (wrote_response r.status hs r.body) (record st {
      call = record st.call { md = frozen st.call.md; finished = true; saw_terminal = true };
    }),
    none,
  )

  -- `Finish`, if `WriteResponse` answers `writing`.
  unfoldable pub finish : State → Option Error → Answer → State × Option Fault
  finish st e writing =
      if st.call.initiator
      then refuse st (error unimplemented (codes "httpunary: Finish unsupported for initiator"))
      else if st.call.closed
      then refuse st err_call_closed
      else if st.call.finished
      then refuse st err_send_finished
      else let r = response_of st.call e in
        write_response st
          ((codes "content-type", r.content_type) ∷ encode_metadata (outgoing st.call.md)) r writing
