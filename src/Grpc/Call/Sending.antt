-- ===== src/Grpc/Call/Sending.antt =====
-- The methods of `call` in transport/grpc/call.go that write.
use argos.Base.{
  ℕ, Bool, true, ◌&&◌, not, ltb, if◌then◌else◌, List, [], ◌++◌, Option, none, some, length,
}
use argos.Base.Bytes.{Bytes, codes}
use argos.Base.Decimal.{decimal}
use argos.Base.Result.{Result, ok, err}
use argos.Status.{Code, Error, error, text, internal, resource_exhausted, unimplemented}
use argos.Metadata.{
  Metadata, CallMd, err_headers_already_sent, freeze_outgoing_headers, freeze_outgoing_trailers,
}
use argos.Grpc.StatusWire.{Header}
use argos.Grpc.Details.{Proto, ProtoStatus, encode_status_trailers}
use argos.Grpc.Compress.{compress_message, over_limit}
use argos.Grpc.Preface.{encode_response_headers}
use argos.Grpc.Call.{
  Fault, local, err_send_finished, err_call_closed, Call, wrote_headers, wrote_message, closed_send,
  finished_with, failed_headers, failed_message, failed_close_send, failed_finish, State, Answer,
  missing, answers, logged, send_failed, send_encoding_header,
}

abbrev pub freeze_headers : Option CallMd → Option CallMd
freeze_headers none = none
freeze_headers (some md) = some (freeze_outgoing_headers md)

abbrev pub freeze_trailers : Option CallMd → Option CallMd
freeze_trailers none = none
freeze_trailers (some md) = some (freeze_outgoing_trailers md)

abbrev pub outgoing_headers_of : Option CallMd → Metadata
outgoing_headers_of none = []
outgoing_headers_of (some md) = md.outgoing_headers

abbrev pub outgoing_trailers_of : Option CallMd → Metadata
outgoing_trailers_of none = []
outgoing_trailers_of (some md) = md.outgoing_trailers

abbrev pub initial_headers : Call → List Header
initial_headers c =
    encode_response_headers c.subtype (outgoing_headers_of c.md) (send_encoding_header c)

abbrev pub no_writer : Fault
no_writer = local (error unimplemented (codes "grpc: carrier has no ResponseWriter"))

-- What `headersOnce` runs.
unfoldable pub run_headers : State → Answer → State
run_headers st missing =
    logged failed_headers
      (record st { call = record st.call { headers_done = some (some no_writer) } })
run_headers st (answers (some f)) =
    logged failed_headers (record st { call = record st.call { headers_done = some (some f) } })
run_headers st (answers none) = logged (wrote_headers (initial_headers st.call)) (record st {
  call = record st.call {
    headers_done = some none;
    headers_sent = true;
    md = freeze_headers st.call.md;
  };
})

-- What `writeResponseHeadersOnce` returns behind it.
abbrev pub headers_outcome : State → Option (Option Fault) → State × Option Fault
headers_outcome st (some (some f)) = send_failed st f
headers_outcome st (some none) =
    if st.call.headers_sent then (st, none) else (st, some (local err_headers_already_sent))
headers_outcome st none =
    if st.call.headers_sent then (st, none) else (st, some (local err_headers_already_sent))

abbrev pub headers_once : State → Answer → Option (Option Fault) → State × Option Fault
headers_once st ans none = let st' = run_headers st ans in headers_outcome st' st'.call.headers_done
headers_once st ans (some e) = headers_outcome st (some e)

-- `writeResponseHeadersOnce`.
unfoldable pub write_response_headers_once : State → Answer → State × Option Fault
write_response_headers_once st ans = headers_once st ans st.call.headers_done

-- `SendHeaders`.
unfoldable pub send_headers : State → Answer → State × Option Fault
send_headers st ans =
    if st.call.initiator
    then (
      st,
      some (local (error unimplemented (codes "grpc: SendHeaders unsupported for initiator"))),
    )
    else if st.call.closed
    then (st, some (local err_call_closed))
    else if st.call.headers_sent
    then (st, some (local err_headers_already_sent))
    else if st.call.finished
    then (st, some (local err_send_finished))
    else write_response_headers_once st ans

-- `maybeAutoHeaders`.
unfoldable pub maybe_auto_headers : State → Answer → State × Option Fault
maybe_auto_headers st ans =
    if st.call.initiator
    then (st, none)
    else if st.call.headers_sent
    then (st, none)
    else send_headers st ans

-- `WriteLPM` and what follows it, with `none` for a message that was written.
unfoldable pub write_wire : State → Bool → Bytes → Option Fault → State × Option Fault
write_wire st compressed wire (some f) = send_failed (logged failed_message st) f
write_wire st compressed wire none = (
  logged (wrote_message compressed wire)
      (record st { call = record st.call { messages_sent = true } }),
  none,
)

abbrev pub over_frame : ℕ → ℕ → Error
over_frame n limit =
    error resource_exhausted
      (codes "grpc: Send wire payload " ++ (decimal n ++ (codes " > max frame " ++ decimal limit)))

-- A method that returns the error that ended the send direction, if there is one.
abbrev pub unless_failed : State → Option Fault → State × Option Fault → State × Option Fault
unless_failed st (some f) rest = (st, some f)
unless_failed st none rest = rest

module _ (shows : ℕ → Bytes) where
  -- `Send` on what `compressMessage` has returned.
  abbrev pub send_compressed :
      State → Result Error (Bool × Bytes) → Option Fault → State × Option Fault
  send_compressed st (err e) ans = (st, some (local (error internal (text shows e))))
  send_compressed st (ok (compressed, wire)) ans =
      let max = st.call.cfg.max_frame_size in
      if ltb 0 max && ltb max (length wire)
      then (st, some (local (over_frame (length wire) max)))
      else write_wire st compressed wire ans

  -- `Send` behind the headers.
  unfoldable pub send_message : State → Bytes → Option Fault → State × Option Fault
  send_message st payload ans =
      let max = st.call.cfg.max_message_size in
      if ltb 0 max && ltb max (length payload)
      then (st, some (local (over_limit (codes "grpc: Send payload ") (length payload) max)))
      else send_compressed st (compress_message st.call.send_comp payload) ans

  abbrev pub after_headers : State × Option Fault → Bytes → Option Fault → State × Option Fault
  after_headers (st, some f) payload ans = (st, some f)
  after_headers (st, none) payload ans = send_message st payload ans

  -- `Send`: the answers are those to the headers, if they are still to be sent, and to the message.
  unfoldable pub send : State → Bytes → Answer → Option Fault → State × Option Fault
  send st payload headers_ans ans =
      if st.call.closed
      then (st, some (local err_call_closed))
      else unless_failed st st.call.send_err (
          if st.call.initiator && st.call.half_closed
          then (st, some (local err_send_finished))
          else if not st.call.initiator && st.call.finished
          then (st, some (local err_send_finished))
          else after_headers (maybe_auto_headers st headers_ans) payload ans)

-- The end of `HalfClose`.
unfoldable pub close_send : State → Answer → State × Option Fault
close_send st missing =
    (st, some (local (error unimplemented (codes "grpc: carrier has no CloseSend"))))
close_send st (answers (some f)) = send_failed (logged failed_close_send st) f
close_send st (answers none) = (logged closed_send st, none)

-- `HalfClose`.
unfoldable pub half_close : State → Answer → State × Option Fault
half_close st ans =
    if not st.call.initiator
    then (
      st,
      some (local (error unimplemented (codes "grpc: HalfClose unsupported for responder"))),
    )
    else if st.call.closed
    then (st, some (local err_call_closed))
    else unless_failed st st.call.send_err (
        if st.call.half_closed
        then (st, none)
        else close_send (record st { call = record st.call { half_closed = true } }) ans)

module _ (proto : Proto) (shows : ℕ → Bytes) (mismatch : Code → Bytes → ProtoStatus → Bytes) where
  -- What `Finish` writes: the headers, if they are still to be sent, and the trailers.
  abbrev pub initial_of : Call → Option (List Header)
  initial_of c = if c.headers_sent then none else some (initial_headers c)

  abbrev pub trailers_of : Call → Option Error → List Header
  trailers_of c e = encode_status_trailers proto shows mismatch e (outgoing_trailers_of c.md)

  abbrev pub freeze_all : State → State
  freeze_all st = record st {
    call = record st.call { md = freeze_headers (freeze_trailers st.call.md) };
  }

  -- `Finish` once nothing refuses it.
  unfoldable pub write_finish : State → Option Error → Answer → State × Option Fault
  write_finish st e missing = (st, some no_writer)
  write_finish st e (answers (some f)) = send_failed (logged failed_finish (freeze_all st)) f
  write_finish st e (answers none) = (
    logged (finished_with (initial_of st.call) (trailers_of st.call e)) (record (freeze_all st) {
      call = record (freeze_all st).call {
        finished = true;
        headers_sent = true;
        saw_terminal = true;
      };
    }),
    none,
  )

  -- `Finish`.
  unfoldable pub finish : State → Option Error → Answer → State × Option Fault
  finish st e ans =
      if st.call.initiator
      then (st, some (local (error unimplemented (codes "grpc: Finish unsupported for initiator"))))
      else if st.call.closed
      then (st, some (local err_call_closed))
      else if st.call.finished
      then (st, some (local err_send_finished))
      else unless_failed st st.call.send_err (write_finish st e ans)
