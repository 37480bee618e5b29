-- ===== src/Grpc/Call/Protocol.antt =====
-- What a call may make of the wire, as an automaton on the log of transport/grpc/call.go.
pub mod Headers
pub mod Sends
pub mod Held
pub mod Receives
pub mod Conforms
use argos.Base.{Bool, true, false, List, [], ◌∷◌, Option, none, some, ◌≡◌, ◌⊎◌}
use argos.Grpc.StatusWire.{Header}
use argos.Grpc.Call.{
  Fault, Call, Event, wrote_headers, wrote_message, closed_send, finished_with, failed_headers,
  failed_message, failed_close_send, failed_finish,
}

-- Before the headers; behind them, where messages may be written; behind a `Finish` that failed
-- before the headers; behind the last byte; behind a failure.
pub data Phase : Type 0 where
  idle streaming unfinished complete broken : Phase

unfoldable pub advance : Phase → Event → Option Phase
advance idle (wrote_headers hs) = some streaming
advance idle failed_headers = some broken
advance idle (finished_with (some hs) ts) = some complete
advance idle failed_finish = some unfinished
advance unfinished (wrote_headers hs) = some broken
advance unfinished failed_headers = some broken
advance streaming (wrote_message c p) = some streaming
advance streaming failed_message = some broken
advance streaming closed_send = some complete
advance streaming failed_close_send = some broken
advance streaming (finished_with none ts) = some complete
advance streaming failed_finish = some broken
advance p e = none

abbrev pub and_then : Option Phase → Event → Option Phase
and_then none e = none
and_then (some p) e = advance p e

-- The phase behind a log, whose last event is first, or `none` for a log that the protocol forbids.
unfoldable pub phase_of : Phase → List Event → Option Phase
phase_of p [] = some p
phase_of p (e ∷ es) = and_then (phase_of p es) e

-- The headers of an initiator are the preface's.
abbrev pub start : Bool → Phase
start true = streaming
start false = idle

-- What a call knows of its phase.
abbrev pub Consistent : Phase → Call → Type 0
Consistent idle c =
    (c.initiator ≡ false)
    × (c.headers_sent ≡ false)
    × (c.finished ≡ false)
    × (c.send_err ≡ none)
    × (c.headers_done ≡ none)
Consistent unfinished c =
    (c.initiator ≡ false)
    × (c.headers_sent ≡ false)
    × (c.finished ≡ false)
    × ((f : Fault) × (c.send_err ≡ some f))
    × (c.headers_done ≡ none)
Consistent streaming c =
    (c.send_err ≡ none)
    × ((c.initiator ≡ true)
        ⊎ ((c.initiator ≡ false) × (c.headers_sent ≡ true) × (c.finished ≡ false)))
Consistent complete c =
    ((c.initiator ≡ true) × (c.half_closed ≡ true))
    ⊎ ((c.initiator ≡ false) × (c.headers_sent ≡ true) × (c.finished ≡ true))
Consistent broken c =
    ((f : Fault) × (c.send_err ≡ some f))
    × ((c.initiator ≡ true)
        ⊎ ((c.headers_sent ≡ true) ⊎ ((f : Fault) × (c.headers_done ≡ some (some f)))))

-- The log is allowed, and the call knows where it stands.
abbrev pub Fits : Call → List Event → Type 0
Fits c log = (p : Phase) × (phase_of (start c.initiator) log ≡ some p) × Consistent p c
