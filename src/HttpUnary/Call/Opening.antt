-- ===== src/HttpUnary/Call/Opening.antt =====
-- transport/httpunary/session.go, and the sessions of transport/httpunary/framing.go. Contexts are
-- not done, methods are not zero, and connections and server carriers have the interfaces that they
-- need. The router is an argument.
use argos.Base.{ℕ, ◌+◌, Bool, true, false, ◌||◌, not, ◌==◌, if◌then◌else◌, [], Option, none, some}
use argos.Base.Bytes.{Bytes, codes}
use argos.Base.Result.{Result, ok, err}
use argos.Status.{Error, error, unavailable, unimplemented}
use argos.Metadata.{Metadata, CallMd, freeze_outgoing_headers}
use argos.Descriptor.{Method}
use argos.Grpc.Call.{Fault, local}
use argos.HttpUnary.Headers.{Headers, decode_metadata}
use argos.HttpUnary.Call.{Session, Call, end_flight, check_inbound_meta}
use argos.HttpUnary.Call.Receiving.{incoming}

-- `clientSession` and `serverSession` but for what changes.
pub record Settings : Type 0 where
  pub max_message_size : ℕ
  pub max_inbound_metadata_size : ℕ
  pub codec : Bytes
  pub content_type_hook : Option (Bytes → Bytes)
  pub encode_error_hook : Option (Error → Bytes × Bytes)

abbrev pub new_client_session : Session
new_client_session = record { closed = false; reusable = true; in_flight = 0 }

-- `Reusable` and `Close`, whose result is the connection's.
unfoldable pub is_reusable : Session → Bool
is_reusable s = if s.closed then false else s.reusable

unfoldable pub close_session : Session → Session
close_session s = if s.closed then s else record s { closed = true; reusable = false }

abbrev pub new_call : Settings → Bool → Bytes → Option CallMd → Call
new_call set initiator name md = record {
  initiator = initiator;
  method = name;
  md = md;
  max_inbound_metadata_size = set.max_inbound_metadata_size;
  max_msg = set.max_message_size;
  codec = set.codec;
  content_type_hook = set.content_type_hook;
  encode_error_hook = set.encode_error_hook;
  req_buf = none;
  resp_buf = none;
  req_sent = false;
  resp_seen = false;
  half_closed = false;
  finished = false;
  closed = false;
  saw_terminal = false;
  send_err = none;
}

abbrev pub frozen_headers : Option CallMd → Option CallMd
frozen_headers none = none
frozen_headers (some md) = some (freeze_outgoing_headers md)

abbrev pub unsupported : Bytes → Fault
unsupported t = local (error unimplemented t)

-- What the router and then `OpenStream` answer: an error of the router, an error of the stream, of a
-- context or not, a carrier of another kind, or a stream.
pub data Stream : Type 0 where
  no_preface no_interface : Error → Stream
  interrupted refused : Fault → Stream
  opened : Stream

-- `Accept` of a method, and the guard of `OpenCall` that is the same.
unfoldable pub accept : Method → Option Fault
accept m =
    if m.shape == 0
    then none
    else some (unsupported (codes "httpunary: shape unsupported (only Unary)"))

abbrev pub open_stream :
    Settings → Session → Method → Option CallMd → Stream → Session × Result Fault Call
open_stream set s m md (no_preface e) = (end_flight s, err (local e))
open_stream set s m md (no_interface e) = (end_flight s, err (local e))
open_stream set s m md (interrupted f) = (end_flight s, err f)
open_stream set s m md (refused f) = (record (end_flight s) { reusable = false }, err f)
open_stream set s m md opened = (s, ok (new_call set true m.full_name (frozen_headers md)))

-- `OpenCall`.
unfoldable pub open_call :
    Settings → Session → Method → Option CallMd → Stream → Session × Result Fault Call
open_call set s m md ans = elim (accept m) [
  | some f ↦ (s, err f)
  | none ↦
      if s.closed || not s.reusable
      then (s, err (local (error unavailable (codes "httpunary: session not reusable"))))
      else open_stream set (record s { in_flight = s.in_flight + 1 }) m md ans
]

-- `serverSession`: whether it is closed, and whether it has accepted its call.
pub record ServerSession : Type 0 where
  pub closed : Bool
  pub accepted : Bool

-- What `AcceptCall` returns: `io.EOF`; a call with `session.ErrCallRejected` and why; a call.
pub data Accepted : Type 0 where
  no_more : Accepted
  rejected : Call → Error → Accepted
  accepts : Call → Accepted

abbrev pub accept_request : Settings → Option CallMd → Bytes → Metadata → Option Error → Accepted
accept_request set md name in_md (some e) = rejected (new_call set false name md) e
accept_request set md name in_md none = accepts (new_call set false name (incoming md in_md))

abbrev pub accept_named : Settings → Option CallMd → Metadata → Result Error Bytes → Accepted
accept_named set md in_md (err e) = rejected (new_call set false [] md) e
accept_named set md in_md (ok name) =
    accept_request set md name in_md (check_inbound_meta set.max_inbound_metadata_size in_md)

-- `AcceptCall`. The router's `ResolveAccept` returns a name or an error, and the metadata to which
-- it has added path variables.
unfoldable pub accept_call :
    Settings
    → (Metadata → Metadata × Result Error Bytes)
    → ServerSession
    → Option CallMd
    → Headers
    → ServerSession × Accepted
accept_call set resolve s md hs =
    if s.closed || s.accepted
    then (s, no_more)
    else let (in_md, name) = resolve (decode_metadata hs) in
      (record s { accepted = true }, accept_named set md in_md name)
