-- ===== src/Grpc/Call.antt =====
-- transport/grpc/call.go: the state of a call and of the client session that it belongs to, and what
-- its methods share.
--
-- What the carrier answers is an argument of each method, and what the call makes of the wire is a
-- log. A method runs from its first line to its last with no other in between: of the guards of
-- `sending` and `recving`, which refuse a second `Send` or `Recv` at one time, there is nothing here.
-- Limits are natural numbers, 0 for none. `client` is set exactly for an initiator.
pub mod Sending
pub mod Receiving
pub mod Opening
pub mod Steps
pub mod Protocol
pub mod Limits
pub mod Gentle
pub mod Flights
pub mod Exchange
pub mod Outcome
mod Examples
use argos.Base.{
  ℕ, ◌-◌, Bool, true, false, ◌||◌, ltb, ◌==◌, if◌then◌else◌, List, [], ◌∷◌, ◌++◌, Option, none,
  some, length,
}
use argos.Base.Bytes.{Bytes, codes, ◌===◌}
use argos.Base.Decimal.{decimal}
use argos.Status.{Error, error, plain, resource_exhausted, is_empty}
use argos.Metadata.{Metadata, CallMd, wire_size}
use argos.Grpc.StatusWire.{Header}
use argos.Grpc.Compress.{Compressor, identity_name}

-- An error, and what `transport.AsSendError` finds in it: `ReceiveOpen` of a SendError.
pub record Fault : Type 0 where
  pub error : Error
  pub receive_open : Option Bool

abbrev pub local : Error → Fault
local e = record { error = e; receive_open = none }

abbrev pub eof_error : Error
eof_error = plain 21 (codes "EOF")

abbrev pub unexpected_eof_error : Error
unexpected_eof_error = plain 22 (codes "unexpected EOF")

abbrev pub err_send_finished : Error
err_send_finished = plain 23 (codes "grpc: send already finished")

abbrev pub err_call_closed : Error
err_call_closed = plain 24 (codes "grpc: call closed")

-- `clientSession`: what its calls share.
pub record Session : Type 0 where
  pub closed : Bool
  pub reusable : Bool
  pub in_flight : ℕ

-- `session.Options`, as far as a call uses them.
pub record Options : Type 0 where
  pub max_message_size : ℕ
  pub max_frame_size : ℕ
  pub max_inbound_metadata_size : ℕ
  pub max_drain_bytes : ℕ

-- `call`. `headers_done` is `headersOnce` and `headersErr`: `none` until the first run.
pub record Call : Type 0 where
  pub initiator : Bool
  pub method : Bytes
  pub md : Option CallMd
  pub subtype : Bytes
  pub cfg : Options
  pub compressors : List Compressor
  pub send_comp : Compressor
  pub peer_encoding : Bytes
  pub deadline : Option ℕ
  pub headers_sent : Bool
  pub headers_seen : Bool
  pub half_closed : Bool
  pub finished : Bool
  pub closed : Bool
  pub saw_terminal : Bool
  pub status_returned : Bool
  pub status_err : Option Error
  pub messages_sent : Bool
  pub messages_recv : Bool
  pub send_err : Option Fault
  pub headers_done : Option (Option Fault)

-- What a call has made of the wire; an attempt that failed, whether the transport was reached or not.
pub data Event : Type 0 where
  wrote_headers : List Header → Event
  wrote_message : Bool → Bytes → Event
  closed_send : Event
  finished_with : Option (List Header) → List Header → Event
  failed_headers failed_message failed_close_send failed_finish : Event

-- The call, its session, the bytes that the peer's body still has and the error that it ends with in
-- place of `io.EOF`, and the log, the last event first.
pub record State : Type 0 where
  pub call : Call
  pub session : Session
  pub inbound : Bytes
  pub ends_with : Option Fault
  pub log : List Event

-- What an optional interface of the carrier answers.
pub data Answer : Type 0 where
  missing : Answer
  answers : Option Fault → Answer

abbrev pub logged : Event → State → State
logged e st = record st { log = e ∷ st.log }

-- `markBad`.
unfoldable pub mark_bad : State → State
mark_bad st =
    if st.call.initiator then record st { session = record st.session { reusable = false } } else st

-- `endFlight`.
unfoldable pub end_flight : Session → Session
end_flight s = record s { in_flight = s.in_flight - 1 }

-- `sendFailure`.
unfoldable pub send_failure : Fault → Bool
send_failure f = elim f.receive_open [ none ↦ false | some b ↦ b ]

-- `sendFailed`.
abbrev pub first_fault : Option Fault → Fault → Fault
first_fault none f = f
first_fault (some g) f = g

unfoldable pub send_failed : State → Fault → State × Option Fault
send_failed st f =
    let kept = some (first_fault st.call.send_err f) in
    let st' : State = record st { call = record st.call { send_err = kept } } in
    (if send_failure f then st' else mark_bad st', some f)

-- `sendEncodingHeader`.
unfoldable pub send_encoding_header : Call → Bytes
send_encoding_header c = if c.send_comp.name === identity_name then [] else c.send_comp.name

-- `checkInboundMeta`.
unfoldable pub check_inbound_meta : Options → Metadata → Option Error
check_inbound_meta cfg md =
    let max = cfg.max_inbound_metadata_size in
    if max == 0 || is_empty md
    then none
    else if ltb max (wire_size md)
    then some (
        error resource_exhausted (
          codes "grpc: inbound metadata "
          ++ (decimal (wire_size md) ++ (codes " exceeds limit " ++ decimal max))))
    else none
