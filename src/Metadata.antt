-- ===== src/Metadata.antt =====
-- metadata/metadata.go and metadata/call.go: headers and trailers of one call.
--
-- A Go map from keys to slices is an association list with each key once. Values are copied, never
-- shared, so a snapshot is a value here. A method that locks, does its work and unlocks is one
-- function; `SendHeaders` gives the lock up while it writes to the wire, and is two.
pub mod Lifecycle
pub mod Gathered
use argos.Base.{
  ℕ, zero, suc, ◌+◌, ◌==◌, ◌≡◌, refl, Bool, true, false, ◌&&◌, ◌||◌, not, if◌then◌else◌, List, [],
  ◌∷◌, ◌++◌, Option, none, some, map, length, arith,
}
use argos.Base.Bytes.{Bytes, ◌===◌, codes}
use argos.Status.{Error, Code, code_of, unimplemented, error, plain}

abbrev pub Metadata : Type 0
Metadata = List (Bytes × List Bytes)

-- `md[key]`.
unfoldable pub values : Bytes → Metadata → List Bytes
values k [] = []
values k ((j, vs) ∷ m) = if j === k then vs else values k m

-- `add`, and `md[key] = append(md[key], values...)`.
unfoldable pub append_values : Bytes → List Bytes → Metadata → Metadata
append_values k vs [] = (k, vs) ∷ []
append_values k vs ((j, ws) ∷ m) =
    if j === k then (j, ws ++ vs) ∷ m else (j, ws) ∷ append_values k vs m

unfoldable pub add : Metadata → Bytes → List Bytes → Metadata
add m k [] = m
add m k (v ∷ vs) = append_values k (v ∷ vs) m

-- `WireSize`.
unfoldable pub values_size : ℕ → List Bytes → ℕ
values_size k [] = 0
values_size k (v ∷ vs) = k + length v + 2 + values_size k vs

unfoldable pub wire_size : Metadata → ℕ
unfolding values_size
wire_size [] = 0
wire_size ((k, vs) ∷ m) = values_size (length k) vs + wire_size m

pub data Role : Type 0 where
  initiator responder : Role

-- `callMD`. `sends` is whether the carrier supports an explicit submit (`sendHeaders != nil`).
pub record CallMd : Type 0 where
  pub role : Role
  pub sends : Bool
  pub incoming_headers : Metadata
  pub incoming_trailers : Metadata
  pub outgoing_headers : Metadata
  pub outgoing_trailers : Metadata
  pub headers_frozen : Bool
  pub headers_sent : Bool
  pub trailers_frozen : Bool

pub new : Role → Bool → CallMd
new r s = record {
  role = r;
  sends = s;
  incoming_headers = [];
  incoming_trailers = [];
  outgoing_headers = [];
  outgoing_trailers = [];
  headers_frozen = false;
  headers_sent = false;
  trailers_frozen = false;
}

abbrev pub err_headers_already_sent : Error
err_headers_already_sent = plain 11 (codes "metadata: headers already sent")

abbrev pub err_outgoing_headers_frozen : Error
err_outgoing_headers_frozen = plain 12 (codes "metadata: outgoing headers frozen")

abbrev pub err_outgoing_trailers_frozen : Error
err_outgoing_trailers_frozen = plain 13 (codes "metadata: outgoing trailers frozen")

abbrev pub err_send_headers_unsupported : Error
err_send_headers_unsupported = error unimplemented (codes "metadata: SendHeaders unsupported")

abbrev pub err_trailers_initiator : Error
err_trailers_initiator =
    error unimplemented (codes "metadata: AddOutgoingTrailer unsupported for initiator")

abbrev pub is_initiator : Role → Bool
is_initiator initiator = true
is_initiator responder = false

unfoldable pub add_outgoing_header : CallMd → Bytes → List Bytes → CallMd × Option Error
add_outgoing_header c k vs =
    if c.headers_frozen
    then (c, some err_outgoing_headers_frozen)
    else (record c { outgoing_headers = add c.outgoing_headers k vs }, none)

unfoldable pub add_outgoing_trailer : CallMd → Bytes → List Bytes → CallMd × Option Error
add_outgoing_trailer c k vs =
    if is_initiator c.role
    then (c, some err_trailers_initiator)
    else if c.trailers_frozen
    then (c, some err_outgoing_trailers_frozen)
    else (record c { outgoing_trailers = add c.outgoing_trailers k vs }, none)

-- `SendHeaders` up to the wire: an error, or the snapshot to write.
pub data Submit : Type 0 where
  refused : Error → Submit
  submits : Metadata → Submit

unfoldable pub send_begin : CallMd → Submit
send_begin c =
    if is_initiator c.role
    then refused err_send_headers_unsupported
    else if c.headers_sent
    then refused err_headers_already_sent
    else if c.headers_frozen
    then refused err_headers_already_sent
    else if not c.sends
    then refused err_send_headers_unsupported
    else submits c.outgoing_headers

-- `SendHeaders` after the wire has answered.
unfoldable pub send_commit : CallMd → Option Error → CallMd × Option Error
send_commit c (some err) = (c, some err)
send_commit c none =
    if c.headers_sent
    then (c, some err_headers_already_sent)
    else (record c { headers_frozen = true; headers_sent = true }, none)

-- With no other goroutine in between.
unfoldable pub send_headers : CallMd → (Metadata → Option Error) → CallMd × Option Error
unfolding send_begin send_commit
send_headers c wire = elim (send_begin c) [
  | refused e ↦ (c, some e)
  | submits m ↦ send_commit c (wire m)
]

-- `SetIncomingHeaders` and `SetIncomingTrailers`: nil is an empty map.
unfoldable pub set_incoming_headers : CallMd → Option Metadata → CallMd
set_incoming_headers c none = record c { incoming_headers = [] }
set_incoming_headers c (some h) = record c { incoming_headers = h }

unfoldable pub set_incoming_trailers : CallMd → Option Metadata → CallMd
set_incoming_trailers c none = record c { incoming_trailers = [] }
set_incoming_trailers c (some t) = record c { incoming_trailers = t }

unfoldable pub freeze_outgoing_headers : CallMd → CallMd
freeze_outgoing_headers c = record c { headers_frozen = true }

unfoldable pub freeze_outgoing_trailers : CallMd → CallMd
freeze_outgoing_trailers c = record c { trailers_frozen = true }
