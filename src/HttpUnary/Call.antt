-- ===== src/HttpUnary/Call.antt =====
-- transport/httpunary/call.go: the state of a call and of the client session that it belongs to.
--
-- What the carrier answers is an argument of each method, and what the call makes of the wire is a
-- log. A method runs from its first line to its last with no other in between: of the guards of
-- `sending` and `recving` there is nothing here. Limits are natural numbers, 0 for none. `client` is
-- set exactly for an initiator, and so is `localCar`.
pub mod Methods
pub mod Receiving
pub mod Opening
pub mod Steps
pub mod Spent
pub mod Delivery
pub mod Exchange
mod Examples
use argos.Base.{
  ℕ, ◌-◌, ◌+◌, ◌^◌, Bool, true, false, ◌||◌, ◌&&◌, not, ltb, ◌==◌, if◌then◌else◌, List, [], ◌∷◌,
  ◌++◌, Option, none, some, length, take,
}
use argos.Base.Bytes.{Bytes, codes}
use argos.Base.Decimal.{decimal}
use argos.Base.Result.{Result, ok, err}
use argos.Status.{Error, Code, error, plain, code_of, resource_exhausted, internal, is_empty}
use argos.Metadata.{Metadata, CallMd, wire_size}
use argos.Grpc.Call.{Fault, local}
use argos.HttpUnary.Headers.{Headers}

abbrev pub err_send_finished : Error
err_send_finished = plain 31 (codes "httpunary: send already finished")

abbrev pub err_call_closed : Error
err_call_closed = plain 32 (codes "httpunary: call closed")

abbrev pub eof_error : Error
eof_error = plain 21 (codes "EOF")

-- `clientSession`: what its calls share.
pub record Session : Type 0 where
  pub closed : Bool
  pub reusable : Bool
  pub in_flight : ℕ

-- `call`. A buffer is `none` where the slice is nil. The hooks of the framing are `none` where they
-- are nil.
pub record Call : Type 0 where
  pub initiator : Bool
  pub method : Bytes
  pub md : Option CallMd
  pub max_inbound_metadata_size : ℕ
  pub max_msg : ℕ
  pub codec : Bytes
  pub content_type_hook : Option (Bytes → Bytes)
  pub encode_error_hook : Option (Error → Bytes × Bytes)
  pub req_buf : Option Bytes
  pub resp_buf : Option Bytes
  pub req_sent : Bool
  pub resp_seen : Bool
  pub half_closed : Bool
  pub finished : Bool
  pub closed : Bool
  pub saw_terminal : Bool
  pub send_err : Option Fault

-- What a call has made of the wire, attempts that failed included.
pub data Event : Type 0 where
  wrote_body : Bytes → Event
  closed_send aborted : Event
  wrote_response : ℕ → Headers → Bytes → Event
  failed_body failed_close_send failed_response : Event

pub record State : Type 0 where
  pub call : Call
  pub session : Session
  pub log : List Event

abbrev pub logged : Event → State → State
logged e st = record st { log = e ∷ st.log }

-- `checkInboundMeta`.
unfoldable pub check_inbound_meta : ℕ → Metadata → Option Error
check_inbound_meta max md =
    if max == 0 || is_empty md
    then none
    else if ltb max (wire_size md)
    then some (
        error resource_exhausted (
          codes "httpunary: inbound metadata "
          ++ (decimal (wire_size md) ++ (codes " exceeds limit " ++ decimal max))))
    else none

-- `markBad`, on the call and on its session.
unfoldable pub mark_bad : State → State
mark_bad st =
    if st.call.initiator then record st { session = record st.session { reusable = false } } else st

-- `markBadUnlessLimit`.
unfoldable pub mark_bad_unless_limit : State → Error → State
mark_bad_unless_limit st e = if code_of (some e) == resource_exhausted then st else mark_bad st

-- `endFlight`.
unfoldable pub end_flight : Session → Session
end_flight s = record s { in_flight = s.in_flight - 1 }

-- `sendFailure`.
unfoldable pub send_failure : Fault → Bool
send_failure f = elim f.receive_open [ none ↦ false | some b ↦ b ]

-- `sendFailed`.
abbrev pub first_fault : Option Fault → Fault → Fault
first_fault none f = f
first_fault (some g) f = g

unfoldable pub send_failed : State → Fault → State × Option Fault
send_failed st f =
    let st' : State = record st {
      call = record st.call { send_err = some (first_fault st.call.send_err f) };
    } in
    (if send_failure f then st' else mark_bad st', some f)

abbrev pub over_limit : ℕ → Error
over_limit max =
    error resource_exhausted (codes "httpunary: message exceeds max size " ++ decimal max)

-- `readAllLimited` of a body that ends with a fault in place of `io.EOF`, or with none. `limit+1` is
-- an int64: at the greatest limit it is negative, and `io.LimitReader` is at its end at once.
abbrev pub reader_limit : ℕ → ℕ
reader_limit limit = if ltb (limit + 1) (2 ^ 63) then limit + 1 else 0

abbrev pub within : ℕ → Bytes → Result Fault Bytes
within limit b = if ltb limit (length b) then err (local (over_limit limit)) else ok b

abbrev pub ended : ℕ → Bytes → Option Fault → Result Fault Bytes
ended limit b none = within limit b
ended limit b (some f) = err f

unfoldable pub read_all_limited : Bytes → Option Fault → ℕ → Result Fault Bytes
read_all_limited body ends limit =
    if ltb (length body) (reader_limit limit)
    then ended limit body ends
    else within limit (take (reader_limit limit) body)

-- The limit that a receiver reads with: 4 MiB if there is none.
abbrev pub read_limit : ℕ → ℕ
read_limit max = if max == 0 then 4194304 else max
