-- ===== src/HttpUnary/Call/Receiving.antt =====
-- `Recv` and `Close` of transport/httpunary/call.go. `wakeRead` is left out: it moves a deadline of the
-- carrier.
use argos.Base.{ℕ, Bool, true, ◌||◌, ◌&&◌, not, ltb, ◌==◌, if◌then◌else◌, Option, none, some}
use argos.Base.Bytes.{Bytes, codes}
use argos.Base.Result.{Result, ok, err}
use argos.Status.{Error, plain}
use argos.Metadata.{Metadata, CallMd, set_incoming_headers}
use argos.HttpStatus.{from_http}
use argos.Grpc.Call.{Fault, local}
use argos.HttpUnary.Headers.{Headers, decode_metadata}
use argos.HttpUnary.ErrorBody.{Json, decode_error_body, max_error_body}
use argos.HttpUnary.Call.{
  err_call_closed, eof_error, State, aborted, logged, check_inbound_meta, mark_bad,
  mark_bad_unless_limit, end_flight, read_all_limited, read_limit,
}

abbrev pub incoming : Option CallMd → Metadata → Option CallMd
incoming none md = none
incoming (some c) md = some (set_incoming_headers c (some md))

-- What the carrier has for a receiver: the status and the headers of a response, the body and how
-- it ends.
pub record Inbound : Type 0 where
  pub reads_headers : Bool
  pub status : Result Fault ℕ
  pub headers : Result Fault Headers
  pub body : Bytes
  pub ends : Option Fault

abbrev pub Received : Type 0
Received = State × Result Fault Bytes

module _ (json : Json) (shows : ℕ → Bytes) where
  abbrev pub take_request : State → Result Fault Bytes → Received
  take_request st (ok b) = (record st { call = record st.call { req_sent = true } }, ok b)
  take_request st (err f) = (mark_bad st, err f)

  abbrev pub recv_server : State → Inbound → Received
  recv_server st i = take_request st (read_all_limited i.body i.ends (read_limit st.call.max_msg))

  abbrev pub seen : State → State
  seen st = record st { call = record st.call { resp_seen = true; saw_terminal = true } }

  abbrev pub take_response : State → Result Fault Bytes → Received
  take_response st (ok b) = (seen st, ok b)
  take_response st (err f) = (mark_bad_unless_limit st f.error, err f)

  -- The body of an error, read as far as 16 KiB.
  abbrev pub take_error : State → ℕ → Result Fault Bytes → Received
  take_error st code (ok b) = (seen st, err (local (decode_error_body json b (from_http code))))
  take_error st code (err f) = (mark_bad_unless_limit st f.error, err f)

  abbrev pub read_response : State → Inbound → ℕ → Received
  read_response st i code =
      let limit = read_limit st.call.max_msg in
      if code == 200
      then take_response st (read_all_limited i.body i.ends limit)
      else take_error st code (
          read_all_limited i.body i.ends
            (if ltb max_error_body limit then max_error_body else limit))

  abbrev pub checked : State → Inbound → ℕ → Metadata → Option Error → Received
  checked st i code md (some e) = (mark_bad_unless_limit st e, err (local e))
  checked st i code md none =
      read_response (record st { call = record st.call { md = incoming st.call.md md } }) i code

  abbrev pub with_headers : State → Inbound → ℕ → Result Fault Headers → Received
  with_headers st i code (err f) = (mark_bad st, err f)
  with_headers st i code (ok hs) =
      let md = decode_metadata hs in
      checked st i code md (check_inbound_meta st.call.max_inbound_metadata_size md)

  abbrev pub with_status : State → Inbound → Result Fault ℕ → Received
  with_status st i (err f) = (mark_bad st, err f)
  with_status st i (ok code) = with_headers st i code i.headers

  abbrev pub recv_client : State → Inbound → Received
  recv_client st i =
      if i.reads_headers
      then with_status st i i.status
      else (st, err (local (plain 33 (codes "httpunary: carrier missing ResponseHeaderReader"))))

  -- `Recv`.
  unfoldable pub recv : State → Inbound → Received
  recv st i =
      if st.call.closed
      then (st, err (local err_call_closed))
      else if st.call.initiator && st.call.resp_seen
      then (st, err (local eof_error))
      else if not st.call.initiator && st.call.req_sent
      then (st, err (local eof_error))
      else if st.call.initiator
      then recv_client st i
      else recv_server st i

abbrev pub dropped : State → State
dropped st = if st.call.saw_terminal || st.call.finished then st else mark_bad st

-- `Close`.
unfoldable pub close : State → State
close st =
    let st' = record (dropped st) { call = record st.call { closed = true } } in
    let left : State = record st' { session = end_flight st'.session } in
    if st.call.closed then st else if st.call.initiator then logged aborted left else st'
