-- ===== src/Grpc/Call/Opening.antt =====
-- How the sessions of transport/grpc/call.go open calls and accept them, and `NewClientSession` and
-- `NewServerSession` of transport/grpc/framing.go, whose contexts are not done and whose connections
-- have the interfaces that they need.
use argos.Base.{
  ℕ, ◌+◌, Bool, true, false, ◌||◌, not, ltb, if◌then◌else◌, List, [], ◌∷◌, ◌++◌, Option, none, some,
}
use argos.Base.Bytes.{Bytes, codes, ◌===◌}
use argos.Base.Result.{Result, ok, err}
use argos.Status.{Error, error, plain, unavailable, invalid_argument, is_empty}
use argos.Metadata.{Metadata, CallMd, freeze_outgoing_headers, set_incoming_headers}
use argos.Descriptor.{Method}
use argos.Grpc.StatusWire.{Header}
use argos.Grpc.Compress.{
  Compressor, identity_name, accept_names, parse_accept_encoding, resolve_send_compressor,
}
use argos.Grpc.Preface.{
  BadRequest, RequestPreface, RequestInfo, build_request_preface, parse_request_headers,
}
use argos.Grpc.Call.{Fault, local, Session, Options, Call, end_flight, check_inbound_meta}

-- `clientSession` and `serverSession` but for what changes: the settings of a session.
pub record Settings : Type 0 where
  pub cfg : Options
  pub subtype : Bytes
  pub compressors : List Compressor
  pub send_name : Bytes

abbrev pub new_client_session : Session
new_client_session = record { closed = false; reusable = true; in_flight = 0 }

-- `Reusable` and `Close`, whose result is the connection's.
unfoldable pub is_reusable : Session → Bool
is_reusable s = if s.closed then false else s.reusable

unfoldable pub close_session : Session → Session
close_session s = if s.closed then s else record s { closed = true; reusable = false }

-- A call that has done nothing.
abbrev pub new_call :
    Settings → Bool → Bytes → Option CallMd → Bytes → Compressor → Bytes → Option ℕ → Call
new_call set initiator name md subtype send_comp peer_encoding deadline = record {
  initiator = initiator;
  method = name;
  md = md;
  subtype = subtype;
  cfg = set.cfg;
  compressors = set.compressors;
  send_comp = send_comp;
  peer_encoding = peer_encoding;
  deadline = deadline;
  headers_sent = false;
  headers_seen = false;
  half_closed = false;
  finished = false;
  closed = false;
  saw_terminal = false;
  status_returned = false;
  status_err = none;
  messages_sent = false;
  messages_recv = false;
  send_err = none;
  headers_done = none;
}

abbrev pub or_empty : Option CallMd → Metadata
or_empty none = []
or_empty (some md) = md.outgoing_headers

abbrev pub frozen : Option CallMd → Option CallMd
frozen none = none
frozen (some md) = some (freeze_outgoing_headers md)

-- The preface of `OpenCall`, with `timeout` what is left of the deadline, 0 for none.
unfoldable pub preface_of : Settings → Method → Option CallMd → ℕ → RequestPreface
preface_of set m md timeout =
    let comp = resolve_send_compressor set.compressors set.send_name [] false in
    build_request_preface (record {
      method = m;
      outgoing = or_empty md;
      timeout = timeout;
      content_subtype = set.subtype;
      send_compressor = if comp.name === identity_name then [] else comp.name;
      accept_compressors = accept_names set.compressors;
    })

-- What `OpenStream` answers: an error, a carrier of another kind, or a stream.
pub data Stream : Type 0 where
  refused : Fault → Stream
  no_byte_stream opened : Stream

-- `OpenCall` on a context that is not done and a method that is not zero, at the time `now`.
unfoldable pub open_call :
    Settings → Session → Method → Option CallMd → ℕ → ℕ → Stream → Session × Result Fault Call
open_call set s m md now timeout ans =
    if s.closed || not s.reusable
    then (s, err (local (error unavailable (codes "grpc: session not reusable"))))
    else let s' : Session = record s { in_flight = s.in_flight + 1 } in
      elim ans [
        | refused f ↦ (record (end_flight s') { reusable = false }, err f)
        | no_byte_stream ↦ (
          end_flight s',
          err (local (plain 27 (codes "grpc: OpenStream Carrier is not ByteStreamCarrier"))),
        )
        | opened ↦ (
          s',
          ok (
              new_call set true m.full_name (frozen md) set.subtype
                (resolve_send_compressor set.compressors set.send_name [] false) []
                (if ltb 0 timeout then some (now + timeout) else none)),
        )
      ]

-- `serverSession`: whether it is closed, and whether it has accepted its call.
pub record ServerSession : Type 0 where
  pub closed : Bool
  pub accepted : Bool

abbrev pub new_server_session : ServerSession
new_server_session = record { closed = false; accepted = false }

-- What `AcceptCall` returns: `io.EOF`; a call with `session.ErrCallRejected` and why; a call.
pub data Accepted : Type 0 where
  no_more : Accepted
  rejected : Call → Error → Accepted
  accepts : Call → Accepted

abbrev pub with_incoming : Option CallMd → Metadata → Option CallMd
with_incoming none md = none
with_incoming (some c) md = some (set_incoming_headers c (some md))

abbrev pub deadline_after : ℕ → Option ℕ → Option ℕ
deadline_after now none = none
deadline_after now (some t) = some (now + t)

-- The rest of `AcceptCall` on what the headers say.
unfoldable pub accept_request : Settings → Option CallMd → ℕ → RequestInfo → Accepted
accept_request set md now info =
    let full_name = info.service ++ (b'.' ∷ info.method) in
    elim (check_inbound_meta set.cfg info.metadata) [
      | some e ↦
          rejected
            (new_call set false full_name md set.subtype
              (resolve_send_compressor set.compressors set.send_name [] true) [] none)
            e
      | none ↦ accepts (
          new_call set false full_name (with_incoming md info.metadata)
            (if is_empty info.content_subtype then set.subtype else info.content_subtype)
            (resolve_send_compressor set.compressors set.send_name
              (parse_accept_encoding info.accept_encoding) true)
            (if info.encoding === identity_name then [] else info.encoding)
            (deadline_after now info.timeout))
    ]

-- `AcceptCall` on a context that is not done; the text of an error of the parser is `shows_bad`'s.
module _ (shows_bad : BadRequest → Bytes) where
  unfoldable pub accept_call :
      Settings → ServerSession → Option CallMd → ℕ → Bytes → List Header → ServerSession × Accepted
  accept_call set s md now target hs = if s.closed || s.accepted then (s, no_more) else (
    record s { accepted = true },
    elim (parse_request_headers target hs) [
      | err e ↦
          rejected
            (new_call set false [] md set.subtype
              (resolve_send_compressor set.compressors set.send_name [] true) [] none)
            (error invalid_argument (shows_bad e))
      | ok info ↦ accept_request set md now info
    ],
  )
