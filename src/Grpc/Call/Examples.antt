-- ===== src/Grpc/Call/Examples.antt =====
-- Small calls of transport/grpc/call.go.
use argos.Base.{
  ℕ, ◌≡◌, refl, sym, ap, Bool, true, false, ◌&&◌, ◌==◌, if◌then◌else◌, List, [], ◌∷◌, ◌++◌, none,
  some, arith, inl, inr, Bool-cases,
}
use argos.Base.Bytes.{Bytes, codes, ◌===◌, ===_iff}
use argos.Base.Result.{Result, ok, err, ◌>>=◌}
use argos.Status.{
  Code, Detail, Error, error, status, internal, plain, code_of, as_status, details_of, with_details,
}
use argos.Descriptor.{Method}
use argos.Grpc.Lpm.{write_lpm, read_lpm, read_body, reject, max_drain}
use argos.Grpc.Details.{Proto, ProtoStatus, IsProto, status_message}
use argos.Grpc.Compress.{
  over_limit, resolve_send_compressor, compress_message, find_compressor, Compressor, Content,
  IsLossless, identity,
}
use argos.Grpc.Call.{send_encoding_header, local, Options, Call, State, missing, answers}
use argos.Grpc.Call.Opening.{Settings, new_call, new_client_session, open_call, opened}
use argos.Grpc.Call.Sending.{
  send, finish, maybe_auto_headers, send_message, write_wire, write_finish,
}
use argos.Grpc.Call.Receiving.{
  lpm_too_large, ensure_response_headers, arrival, arrived, Response, recv,
}
use argos.Grpc.Call.Steps.{call_send, call_half_close, call_finish, call_close, steps}
use argos.Grpc.Call.Protocol.{Phase, start, phase_of}
use argos.Grpc.Call.Protocol.Conforms.{steps_conform}
use argos.Grpc.Call.Flights.{flights, open-steps_flights}
use argos.Grpc.Call.Limits.{recv_limit}
use argos.Grpc.Call.Exchange.{recv-send}
use argos.Grpc.Call.Outcome.{last_trailers, recv-finish}

abbrev no_limits : Options
no_limits = record {
  max_message_size = 0;
  max_frame_size = 0;
  max_inbound_metadata_size = 0;
  max_drain_bytes = 0;
}

-- A codec of one status.
abbrev one_detail : Detail
one_detail = record { type_url = codes "t"; value = codes "v" }

abbrev one_status : ProtoStatus
one_status = record { code = internal; message = codes "no"; details = one_detail ∷ [] }

abbrev same_details : List Detail → Bool
same_details [] = false
same_details (d ∷ []) = d.type_url === codes "t" && d.value === codes "v"
same_details (d ∷ (e ∷ ds)) = false

abbrev same_status : ProtoStatus → Bool
same_status st = st.code == internal && (st.message === codes "no" && same_details st.details)

abbrev one_proto : Proto
one_proto = record {
  marshal = λ st. if same_status st then some (7 ∷ []) else none;
  unmarshal = λ b. if b === (7 ∷ []) then some one_status else none;
}

same_details_one : (ds : List Detail) → same_details ds ≡ true → ds ≡ one_detail ∷ []
same_details_one [] h = cc
same_details_one (d ∷ []) h =
    ground (arith, ===_iff d.type_url (codes "t"), ===_iff d.value (codes "v"))
same_details_one (d ∷ (e ∷ ds)) h = cc

same_status_one : (st : ProtoStatus) → same_status st ≡ true → st ≡ one_status
same_status_one st h = ground (arith, ===_iff st.message (codes "no"), same_details_one st.details)

one_proto-IsProto : IsProto one_proto
one_proto-IsProto = record {
  reads_back = λ st raw h. elim (Bool-cases (same_status st)) [
    | inl y ↦ ground (arith, y, same_status_one st y)
    | inr n ↦ absurd (ground (arith, n))
  ];
  gives_bytes = λ st raw h. elim (Bool-cases (same_status st)) [
    | inl y ↦ let e : raw ≡ 7 ∷ [] = ground (arith, y) in rw e (omega arith, tt)
    | inr n ↦ absurd (ground (arith, n))
  ];
}

-- A compressor that puts a byte in front.
abbrev unmark : Bytes → Result Error Content
unmark [] = err (plain 99 [])
unmark (c ∷ s) = ok (record { bytes = s; fails = none })

abbrev mark : Compressor
mark = record { name = codes "mark"; compress = λ s. ok (7 ∷ s); decompress = unmark }

mark-IsLossless : IsLossless mark
mark-IsLossless s t h = ap (λ (r : Result Error Bytes). r >>= unmark) (sym h)

abbrev marking : Settings
marking = record {
  cfg = no_limits;
  subtype = [];
  compressors = identity ∷ (mark ∷ []);
  send_name = codes "mark";
}

abbrev sender : State
sender = record {
  call = new_call marking true (codes "a.B.Say") none [] mark [] none;
  session = new_client_session;
  inbound = [];
  ends_with = none;
  log = [];
}

abbrev receiver : State
receiver = record {
  call = new_call marking false (codes "a.B.Say") none [] mark (codes "mark") none;
  session = new_client_session;
  inbound = write_lpm true (7 ∷ codes "hi") ++ codes "rest";
  ends_with = none;
  log = [];
}

abbrev no_response : Response
no_response = record { reads_headers = false; headers = ok []; status = none; trailers = none }

abbrev shows_none : ℕ → Bytes
shows_none n = []

abbrev mismatch_none : Code → Bytes → ProtoStatus → Bytes
mismatch_none c m st = []

abbrev quote_plain : Bytes → Bytes
quote_plain s = s

recv-send_example : recv one_proto shows_none mismatch_none quote_plain receiver no_response ≡ (
  record receiver { call = record receiver.call { messages_recv = true }; inbound = codes "rest" },
  ok (codes "hi"),
)
unfolding send maybe_auto_headers send_message compress_message write_wire send_encoding_header
    find_compressor
recv-send_example =
    recv-send one_proto shows_none mismatch_none quote_plain sender
      (send shows_none sender (codes "hi") missing none).0 (codes "hi") (codes "rest") missing none
      receiver no_response refl refl mark-IsLossless refl (omega arith) (inl refl) (inl refl)
      (omega arith) refl refl refl refl refl

abbrev one_error : Error
one_error = status internal (codes "no") (one_detail ∷ [])

abbrev finisher : State
finisher = record sender { call = new_call marking false (codes "a.B.Say") none [] mark [] none }

abbrev finished : State
finished = (finish one_proto shows_none mismatch_none finisher (some one_error) (answers none)).0

abbrev reader : State
reader = record sender { call = record sender.call { headers_seen = true } }

recv-finish_example :
    (recv one_proto shows_none mismatch_none quote_plain reader (record {
      reads_headers = false;
      headers = ok [];
      status = none;
      trailers = some (last_trailers finished.log);
    })).1
    ≡ err (local (with_details shows_none (some (error internal (codes "no"))) (one_detail ∷ [])))
unfolding finish write_finish code_of as_status details_of status_message
recv-finish_example =
    recv-finish one_proto shows_none mismatch_none quote_plain finisher finished one_error
      (answers none) reader _ (7 ∷ []) one_detail [] refl refl one_proto-IsProto tt (ground arith)
      (omega arith) refl refl refl refl refl refl refl refl refl

steps_conform_example :
    (p : Phase) × (phase_of
        (start false)
        (steps one_proto shows_none mismatch_none quote_plain
          (call_send (codes "hi") (answers none) none ∷ (call_finish none (answers none) ∷ []))
          finisher).log
      ≡ some p)
steps_conform_example =
    steps_conform one_proto shows_none mismatch_none quote_plain marking false (codes "a.B.Say")
      none [] mark [] none new_client_session [] none
      (call_send (codes "hi") (answers none) none ∷ (call_finish none (answers none) ∷ []))

abbrev say : Method
say = record { full_name = codes "a.B.Say"; service = codes "a.B"; name = codes "Say"; shape = 0 }

abbrev opened_call : Call
opened_call = new_call marking true (codes "a.B.Say") none [] mark [] none

open-steps_flights_example :
    flights (
      steps one_proto shows_none mismatch_none quote_plain
        (call_half_close (answers none) ∷ (call_close ∷ (call_close ∷ [])))
        (record {
          call = opened_call;
          session = record new_client_session { in_flight = 1 };
          inbound = [];
          ends_with = none;
          log = [];
        }))
    ≡ 1
unfolding open_call resolve_send_compressor find_compressor
open-steps_flights_example =
    open-steps_flights one_proto shows_none mismatch_none quote_plain marking new_client_session
      (record new_client_session { in_flight = 1 }) say none 0 0 opened opened_call [] none
      (call_half_close (answers none) ∷ (call_close ∷ (call_close ∷ []))) refl

-- A message over a limit of two bytes.
abbrev strict : State
strict = record receiver {
  call =
      new_call (record marking { cfg = record no_limits { max_message_size = 2 } }) true [] none []
        mark [] none;
  inbound = write_lpm false (codes "abc");
}

recv_limit_example :
    (recv one_proto shows_none mismatch_none quote_plain strict no_response).0.session
    ≡ strict.session
unfolding recv ensure_response_headers read_lpm read_body reject max_drain arrival arrived write_lpm
    over_limit code_of as_status
recv_limit_example =
    recv_limit one_proto shows_none mismatch_none quote_plain strict no_response
      (local (lpm_too_large 2 3)) refl refl
