-- ===== src/Grpc/Call/Receiving.antt =====
-- The methods of `call` in transport/grpc/call.go that read, and `Close`.
use argos.Base.{
  ℕ, Bool, true, false, ◌&&◌, ◌||◌, not, ltb, ◌==◌, if◌then◌else◌, List, [], ◌∷◌, ◌++◌, Option,
  none, some, length, drop,
}
use argos.Base.Bytes.{Bytes, codes, ◌===◌}
use argos.Base.Decimal.{decimal}
use argos.Base.Result.{Result, ok, err}
use argos.Base.Wire.{eof, unexpected_eof}
use argos.Status.{Code, Error, plain, wraps, wraps_two, text, code_of, resource_exhausted, is_empty}
use argos.Metadata.{Metadata, CallMd, set_incoming_headers, set_incoming_trailers}
use argos.Grpc.Lpm.{
  LpmError, Message, read_error, invalid_flag, too_large, unsynced, drained_short, read_lpm,
}
use argos.Grpc.StatusWire.{Header}
use argos.Grpc.Metadata.{decode_metadata}
use argos.Grpc.Details.{Proto, ProtoStatus, resolve_call_status}
use argos.Grpc.Compress.{
  Compressor, identity_name, find_compressor, decompress_message, over_limit, unsupported_encoding,
}
use argos.Grpc.Preface.{BadRequest, decode_response_headers}
use argos.Grpc.Call.{
  Fault, local, eof_error, unexpected_eof_error, err_call_closed, Call, State, mark_bad, end_flight,
  check_inbound_meta,
}

-- What `ResponseHeaderReader` and `ResponseTrailerReader` answer, of a carrier that has the first if
-- `reads_headers`; `none` for the errors that the code drops.
pub record Response : Type 0 where
  pub reads_headers : Bool
  pub headers : Result Fault (List Header)
  pub status : Option ℕ
  pub trailers : Option (List Header)

-- `markBadUnlessLimit`.
unfoldable pub mark_bad_unless_limit : State → Error → State
mark_bad_unless_limit st e = if code_of (some e) == resource_exhausted then st else mark_bad st

abbrev pub incoming_headers : Option CallMd → Metadata → Option CallMd
incoming_headers none md = none
incoming_headers (some c) md = some (set_incoming_headers c (some md))

abbrev pub incoming_trailers : Option CallMd → Metadata → Option CallMd
incoming_trailers none md = none
incoming_trailers (some c) md = some (set_incoming_trailers c (some md))

abbrev pub names_algorithm : Bytes → Bool
names_algorithm enc = not (is_empty enc) && not (enc === identity_name)

abbrev pub note_encoding : State → Bytes → State
note_encoding st encoding =
    if names_algorithm encoding
    then record st { call = record st.call { peer_encoding = encoding } }
    else st

-- The metadata of a response, unless it is over the limit.
abbrev pub take_headers : State → Metadata → Option Error → State × Option Fault
take_headers st md (some e) = (st, some (local e))
take_headers st md none = (
  record st { call = record st.call { md = incoming_headers st.call.md md; headers_seen = true } },
  none,
)

-- `ensureResponseHeaders` on what `DecodeResponseHeaders` has returned: headers that do not decode
-- are passed over.
abbrev pub take_decoded :
    State → Result BadRequest (Metadata × Bytes × Bytes) → State × Option Fault
take_decoded st (err e) = (record st { call = record st.call { headers_seen = true } }, none)
take_decoded st (ok (md, subtype, encoding)) =
    take_headers (note_encoding st encoding) md (check_inbound_meta st.call.cfg md)

abbrev pub read_headers : State → Result Fault (List Header) → State × Option Fault
read_headers st (err f) = (st, some f)
read_headers st (ok hs) = take_decoded st (decode_response_headers hs)

-- `ensureResponseHeaders`.
unfoldable pub ensure_response_headers : State → Response → State × Option Fault
ensure_response_headers st resp =
    if st.call.headers_seen || not resp.reads_headers
    then (st, none)
    else read_headers st resp.headers

abbrev pub has_key : Bytes → Metadata → Bool
has_key k [] = false
has_key k ((j, vs) ∷ md) = j === k || has_key k md

-- The keys of the headers that the trailers do not have.
unfoldable pub merge_missing : Metadata → Metadata → Metadata
merge_missing own [] = own
merge_missing own ((k, vs) ∷ md) =
    merge_missing (if has_key k own then own else own ++ ((k, vs) ∷ [])) md

abbrev pub or_nil : Option (List Header) → List Header
or_nil none = []
or_nil (some hs) = hs

abbrev pub headers_or_nil : Response → List Header
headers_or_nil resp =
    if resp.reads_headers then elim resp.headers [ err _ ↦ [] | ok hs ↦ hs ] else []

abbrev pub status_or_ok : Response → ℕ
status_or_ok resp = if resp.reads_headers then elim resp.status [ none ↦ 200 | some n ↦ n ] else 200

-- What a `ReadLPMLimited` returns: a message; `io.EOF`; an error that is the invalid flag, or another.
pub data Arrival : Type 0 where
  message : Bool → Bytes → Arrival
  end_of_stream : Arrival
  failure : Bool → Fault → Arrival

abbrev pub ended_with : Option Fault → Error → Fault
ended_with none e = local e
ended_with (some f) e = f

abbrev pub out_of_sync : Error
out_of_sync = plain 25 (codes "grpc: LPM stream out of sync")

abbrev pub lpm_too_large : ℕ → ℕ → Error
lpm_too_large max n = over_limit (codes "grpc: LPM length ") n max

abbrev pub drain_failed : Option Fault → (ℕ → Bytes) → ℕ → ℕ → Fault
drain_failed none shows k n = local (
    wraps
      (codes "grpc: LPM stream out of sync: drained " ++ (decimal k ++ (codes " of " ++ decimal n)))
      out_of_sync)
drain_failed (some f) shows k n = record f {
  error =
      wraps_two (codes "grpc: LPM stream out of sync: " ++ text shows f.error) out_of_sync f.error;
}

module _ (shows : ℕ → Bytes) where
  -- The texts and the kinds of the errors of Grpc/Lpm, for a reader that ends with `ends` in place
  -- of `io.EOF`.
  unfoldable pub arrival : Option Fault → ℕ → Result LpmError Message → Arrival
  arrival ends max (ok (compressed, payload)) = message compressed payload
  arrival none max (err (read_error eof)) = end_of_stream
  arrival (some f) max (err (read_error eof)) = failure false f
  arrival ends max (err (read_error unexpected_eof)) =
      failure false (ended_with ends unexpected_eof_error)
  arrival ends max (err (invalid_flag n)) = failure true (
      local (
        wraps (codes "grpc: invalid LPM compressed flag " ++ decimal n)
          (plain 26 (codes "grpc: invalid LPM compressed flag"))))
  arrival ends max (err (too_large n)) = failure false (local (lpm_too_large max n))
  arrival ends max (err (unsynced n)) =
      let e = lpm_too_large max n in
      failure false
        (local (wraps_two (codes "grpc: LPM stream out of sync: " ++ text shows e) out_of_sync e))
  arrival ends max (err (drained_short k n)) = failure false (drain_failed ends shows k n)

abbrev pub max_wire : Call → ℕ
max_wire c = if c.cfg.max_frame_size == 0 then c.cfg.max_message_size else c.cfg.max_frame_size

-- `maxRecvDrain`.
abbrev pub max_recv_drain : Call → ℕ
max_recv_drain c = if ltb 0 c.cfg.max_drain_bytes then c.cfg.max_drain_bytes else 1048576

-- `drainResponseBody`.
unfoldable pub drain_response_body : State → State
drain_response_body st = record st { inbound = drop (max_recv_drain st.call) st.inbound }

abbrev pub terminal : State → State
terminal st = record st { call = record st.call { saw_terminal = true } }

-- The end of `Recv` for a message that is not compressed.
unfoldable pub plain_message : State → Bytes → State × Result Fault Bytes
plain_message st payload =
    let max = st.call.cfg.max_message_size in
    if ltb 0 max && ltb max (length payload)
    then (st, err (local (over_limit (codes "grpc: Recv payload ") (length payload) max)))
    else (record st { call = record st.call { messages_recv = true } }, ok payload)

-- What `decompressMessage` returns.
abbrev pub take_decompressed : State → Result Error Bytes → State × Result Fault Bytes
take_decompressed st (err e) = (mark_bad_unless_limit st e, err (local e))
take_decompressed st (ok out) =
    (record st { call = record st.call { messages_recv = true } }, ok out)

module _ (quote : Bytes → Bytes) where
  abbrev pub refuse_encoding : State → State × Result Fault Bytes
  refuse_encoding st = (mark_bad st, err (local (unsupported_encoding quote st.call.peer_encoding)))

  -- The end of `Recv` for a message of a peer that names an algorithm, on what `Find` returns.
  abbrev pub take_encoded : State → Option Compressor → Bool → Bytes → State × Result Fault Bytes
  take_encoded st none compressed payload = refuse_encoding st
  take_encoded st (some comp) false payload = plain_message st payload
  take_encoded st (some comp) true payload =
      take_decompressed st (decompress_message comp payload st.call.cfg.max_message_size)

  -- The end of `Recv`: a message that has been read, its encoding and its size.
  unfoldable pub accept_message : State → Bool → Bytes → State × Result Fault Bytes
  accept_message st compressed payload =
      let c = st.call in
      if names_algorithm c.peer_encoding
      then take_encoded st (find_compressor c.peer_encoding c.compressors) compressed payload
      else if compressed
      then refuse_encoding st
      else plain_message st payload

abbrev pub mark_unless_terminal : State → State
mark_unless_terminal st =
    if st.call.initiator && not (st.call.saw_terminal || st.call.finished) then mark_bad st else st

abbrev pub leave_session : State → State
leave_session st = if st.call.initiator then record st { session = end_flight st.session } else st

-- `Close`.
unfoldable pub close : State → State
close st =
    if st.call.closed
    then st
    else leave_session
        (mark_unless_terminal (record st { call = record st.call { closed = true } }))

module _ (proto : Proto) (shows : ℕ → Bytes) (mismatch : Code → Bytes → ProtoStatus → Bytes)
    (quote : Bytes → Bytes) where
  -- What `resolveCallStatus` has returned.
  abbrev pub end_with : State → Option Error → State × Result Fault Bytes
  end_with st none = (st, err (local eof_error))
  end_with st (some e) = (
    record st { call = record st.call { status_err = some e; status_returned = true } },
    err (local e),
  )

  -- The user's trailers, unless they are over the limit.
  abbrev pub take_trailers : State → Response → Metadata → Option Error → State × Result Fault Bytes
  take_trailers st resp user (some e) = (mark_bad_unless_limit st e, err (local e))
  take_trailers st resp user none =
      let all = merge_missing user (decode_metadata (headers_or_nil resp)).0 in
      end_with
        (record st {
          call = record st.call { md = incoming_trailers st.call.md all; saw_terminal = true };
        })
        (resolve_call_status proto shows mismatch (status_or_ok resp) (headers_or_nil resp)
          (or_nil resp.trailers))

  -- `finishClientRecv`.
  unfoldable pub finish_client_recv : State → Response → State × Result Fault Bytes
  finish_client_recv st resp =
      let st' = (ensure_response_headers st resp).0 in
      let user = (decode_metadata (or_nil resp.trailers)).0 in
      take_trailers st' resp user (check_inbound_meta st'.call.cfg user)

  -- `Recv` on what `ReadLPMLimited` has returned.
  unfoldable pub arrived : State → Response → Arrival → State × Result Fault Bytes
  arrived st resp (message compressed payload) = accept_message quote st compressed payload
  arrived st resp end_of_stream =
      if st.call.initiator then finish_client_recv st resp else (terminal st, err (local eof_error))
  arrived st resp (failure bad_flag f) =
      if code_of (some f.error) == resource_exhausted
      then (terminal st, err f)
      else if st.call.initiator && (not st.call.messages_recv && bad_flag)
      then finish_client_recv (drain_response_body st) resp
      else (mark_bad_unless_limit st f.error, err f)

  abbrev pub read_message : State → Response → State × Result Fault Bytes
  read_message st resp =
      let max = max_wire st.call in
      let r = read_lpm max st.inbound in
      arrived (record st { inbound = r.1 }) resp (arrival shows st.ends_with max r.0)

  abbrev pub behind_headers : State × Option Fault → Response → State × Result Fault Bytes
  behind_headers (st, some f) resp = (mark_bad_unless_limit st f.error, err f)
  behind_headers (st, none) resp = read_message st resp

  -- `Recv`: the payload, or the error, `io.EOF` among them.
  unfoldable pub recv : State → Response → State × Result Fault Bytes
  recv st resp =
      if st.call.closed
      then (st, err (local err_call_closed))
      else if st.call.status_returned
      then (st, err (local eof_error))
      else if st.call.initiator
      then behind_headers (ensure_response_headers st resp) resp
      else read_message st resp
