-- ===== src/Grpc/Call/Protocol/Receives.antt =====
-- `Recv` and `Close` of transport/grpc/call.go leave what is sent alone, and `Recv` leaves the
-- session alone unless it fails for a reason other than a limit.
use argos.Base.{
  ℕ, Bool, true, false, ◌&&◌, ◌||◌, not, ltb, ◌==◌, List, Option, none, some, length, ◌≡◌, ◌≢◌,
  refl, ◌∙◌, ◌⊎◌, inl, inr, arith, if_rule, Bool-cases,
}
use argos.Base.Bytes.{Bytes}
use argos.Base.Result.{Result, ok, err}
use argos.Status.{Code, Error, code_of, as_status, resource_exhausted}
use argos.Metadata.{Metadata}
use argos.Grpc.StatusWire.{Header}
use argos.Grpc.Details.{Proto, ProtoStatus}
use argos.Grpc.Compress.{Compressor, unsupported_encoding}
use argos.Grpc.Preface.{BadRequest, decode_response_headers}
use argos.Grpc.Call.{Fault, local, Call, State, mark_bad, end_flight, check_inbound_meta}
use argos.Grpc.Call.Receiving.{
  Response, mark_bad_unless_limit, names_algorithm, note_encoding, take_headers, take_decoded,
  read_headers, ensure_response_headers, plain_message, take_decompressed, refuse_encoding,
  take_encoded, end_with, behind_headers, accept_message, drain_response_body, close, take_trailers,
  finish_client_recv, Arrival, message, end_of_stream, failure, arrived, read_message, recv,
}

-- The part of a call that its writing methods look at.
abbrev pub sending : Call → Bool × Bool × Bool × Bool × Option Fault × Option (Option Fault)
sending c = (c.initiator, c.headers_sent, c.half_closed, c.finished, c.send_err, c.headers_done)

-- That, whether the call is closed, and how many calls the session has.
abbrev pub kept_of :
    State → (Bool × Bool × Bool × Bool × Option Fault × Option (Option Fault)) × Bool × ℕ
kept_of st = (sending st.call, st.call.closed, st.session.in_flight)

abbrev pub SameSends : State → State → Type 0
SameSends st st' = (st'.log ≡ st.log) × (kept_of st' ≡ kept_of st)

-- Why a session may be marked: not for a message, nor for a limit.
abbrev pub Poisons : Result Fault Bytes → Type 0
Poisons (ok p) = ⊥
Poisons (err f) = code_of (some f.error) ≢ resource_exhausted

unfoldable pub Fair : State → State × Result Fault Bytes → Type 0
Fair st r = SameSends st r.0 × ((r.0.session ≡ st.session) ⊎ Poisons r.1)

-- A result that leaves the session alone.
quiet :
    (st st' : State) (r : Result Fault Bytes)
    → SameSends st st'
    → st'.session ≡ st.session
    → Fair st (st', r)
quiet st st' r s e = unfold Fair in (s, inl e)

pub mark_bad-SameSends : (st : State) → SameSends st (mark_bad st)
unfolding mark_bad
mark_bad-SameSends st =
    if_rule (SameSends st) st.call.initiator _ _ (λ _. (refl, refl)) (λ _. (refl, refl))

-- A session that is marked unless the error is a limit.
limit-Fair :
    (st st' : State) (f : Fault)
    → SameSends st st'
    → st'.session ≡ st.session
    → Fair st (mark_bad_unless_limit st' f.error, err f)
unfolding mark_bad_unless_limit Fair
limit-Fair st st' f s e =
    let m = mark_bad-SameSends st' in
    elim (Bool-cases (code_of (some f.error) == resource_exhausted)) [
      | inl y ↦ rw y (s, inl e)
      | inr n ↦ rw n ((m.0 ∙ s.0, m.1 ∙ s.1), inr (ground (arith, n)))
    ]

-- `Fair` along a step that is quiet.
Fair-after :
    (st st' : State) (r : State × Result Fault Bytes)
    → SameSends st st'
    → st'.session ≡ st.session
    → Fair st' r
    → Fair st r
unfolding Fair
Fair-after st st' r s e (t, w) =
    ((t.0 ∙ s.0, t.1 ∙ s.1), elim w [ inl f ↦ inl (f ∙ e) | inr p ↦ inr p ])

-- The headers of a response change neither.
Calm : State → State → Type 0
Calm st st' = SameSends st st' × (st'.session ≡ st.session)

take_headers-Calm :
    (st : State) (md : Metadata) (e : Option Error) → Calm st (take_headers st md e).0
unfolding Calm
take_headers-Calm st md none = ((refl, refl), refl)
take_headers-Calm st md (some e) = ((refl, refl), refl)

Calm-trans : (a b c : State) → Calm a b → Calm b c → Calm a c
unfolding Calm
Calm-trans a b c h k = ((k.0.0 ∙ h.0.0, k.0.1 ∙ h.0.1), k.1 ∙ h.1)

take_decoded-Calm :
    (st : State) (r : Result BadRequest (Metadata × Bytes × Bytes)) → Calm st (take_decoded st r).0
take_decoded-Calm st (err e) = unfold Calm in ((refl, refl), refl)
take_decoded-Calm st (ok (md, subtype, enc)) =
    let st' = note_encoding st enc in
    Calm-trans st st' _
      (unfold Calm in
        if_rule (λ (s : State). SameSends st s × (s.session ≡ st.session)) (names_algorithm enc) _ _
          (λ _. ((refl, refl), refl)) (λ _. ((refl, refl), refl)))
      (take_headers-Calm st' md (check_inbound_meta st.call.cfg md))

read_headers-Calm : (st : State) (r : Result Fault (List Header)) → Calm st (read_headers st r).0
read_headers-Calm st (err f) = unfold Calm in ((refl, refl), refl)
read_headers-Calm st (ok hs) = take_decoded-Calm st (decode_response_headers hs)

ensure-Calm : (st : State) (resp : Response) → Calm st (ensure_response_headers st resp).0
unfolding ensure_response_headers
ensure-Calm st resp =
    if_rule (λ (r : State × Option Fault). Calm st r.0)
      (st.call.headers_seen || not resp.reads_headers) _ _
      (λ _. unfold Calm in ((refl, refl), refl)) (λ _. read_headers-Calm st resp.headers)

plain_message-Fair : (st : State) (payload : Bytes) → Fair st (plain_message st payload)
unfolding plain_message
plain_message-Fair st payload =
    let max = st.call.cfg.max_message_size in
    if_rule (Fair st) (ltb 0 max && ltb max (length payload)) _ _
      (λ _. quiet st _ _ (refl, refl) refl) (λ _. quiet st _ _ (refl, refl) refl)

take_decompressed-Fair : (st : State) (r : Result Error Bytes) → Fair st (take_decompressed st r)
take_decompressed-Fair st (err e) = limit-Fair st st (local e) (refl, refl) refl
take_decompressed-Fair st (ok out) = quiet st _ _ (refl, refl) refl

module _ (quote : Bytes → Bytes) where
  refuse_encoding-Fair : (st : State) → Fair st (refuse_encoding quote st)
  unfolding Fair unsupported_encoding code_of as_status
  refuse_encoding-Fair st = (mark_bad-SameSends st, inr (ground arith))

  take_encoded-Fair :
      (st : State) (o : Option Compressor) (c : Bool) (payload : Bytes)
      → Fair st (take_encoded quote st o c payload)
  take_encoded-Fair st none c payload = refuse_encoding-Fair st
  take_encoded-Fair st (some comp) false payload = plain_message-Fair st payload
  take_encoded-Fair st (some comp) true payload = take_decompressed-Fair st _

  accept_message-Fair :
      (st : State) (c : Bool) (payload : Bytes) → Fair st (accept_message quote st c payload)
  unfolding accept_message
  accept_message-Fair st c payload =
      if_rule (Fair st) (names_algorithm st.call.peer_encoding) _ _
        (λ _. take_encoded-Fair st _ c payload)
        λ _.
          if_rule (Fair st) c _ _ (λ _. refuse_encoding-Fair st)
            (λ _. plain_message-Fair st payload)

module _ (proto : Proto) (shows : ℕ → Bytes) (mismatch : Code → Bytes → ProtoStatus → Bytes)
    (quote : Bytes → Bytes) where
  end_with-Fair :
      (st : State) (e : Option Error) → Fair st (end_with proto shows mismatch quote st e)
  end_with-Fair st none = quiet st _ _ (refl, refl) refl
  end_with-Fair st (some e) = quiet st _ _ (refl, refl) refl

  take_trailers-Fair :
      (st : State) (resp : Response) (user : Metadata) (e : Option Error)
      → Fair st (take_trailers proto shows mismatch quote st resp user e)
  take_trailers-Fair st resp user (some e) = limit-Fair st st (local e) (refl, refl) refl
  take_trailers-Fair st resp user none = Fair-after st _ _ (refl, refl) refl (end_with-Fair _ _)

  finish_client_recv-Fair :
      (st : State) (resp : Response)
      → Fair st (finish_client_recv proto shows mismatch quote st resp)
  unfolding finish_client_recv
  finish_client_recv-Fair st resp =
      let c = ensure-Calm st resp in
      unfold Calm in Fair-after st _ _ c.0 c.1 (take_trailers-Fair _ resp _ _)

  arrived-Fair :
      (st : State) (resp : Response) (a : Arrival)
      → Fair st (arrived proto shows mismatch quote st resp a)
  unfolding arrived
  arrived-Fair st resp (message c payload) = accept_message-Fair quote st c payload
  arrived-Fair st resp end_of_stream =
      if_rule (Fair st) st.call.initiator _ _ (λ _. finish_client_recv-Fair st resp)
        (λ _. quiet st _ _ (refl, refl) refl)
  arrived-Fair st resp (failure flag f) =
      if_rule (Fair st) (code_of (some f.error) == resource_exhausted) _ _
        (λ _. quiet st _ _ (refl, refl) refl)
        λ _.
          if_rule (Fair st) (st.call.initiator && (not st.call.messages_recv && flag)) _ _
            (λ _.
              Fair-after st (drain_response_body st) _ (unfold drain_response_body in (refl, refl))
                (unfold drain_response_body in refl)
                (finish_client_recv-Fair (drain_response_body st) resp))
            (λ _. limit-Fair st st f (refl, refl) refl)

  read_message-Fair :
      (st : State) (resp : Response) → Fair st (read_message proto shows mismatch quote st resp)
  read_message-Fair st resp = Fair-after st _ _ (refl, refl) refl (arrived-Fair _ resp _)

  behind_headers-Fair :
      (st : State) (r : State × Option Fault) (resp : Response)
      → Calm st r.0
      → Fair st (behind_headers proto shows mismatch quote r resp)
  unfolding Calm
  behind_headers-Fair st (st', some f) resp c = limit-Fair st st' f c.0 c.1
  behind_headers-Fair st (st', none) resp c =
      Fair-after st st' _ c.0 c.1 (read_message-Fair st' resp)

  pub recv-Fair : (st : State) (resp : Response) → Fair st (recv proto shows mismatch quote st resp)
  unfolding recv
  recv-Fair st resp =
      if_rule (Fair st) st.call.closed _ _ (λ _. quiet st _ _ (refl, refl) refl)
        λ _.
          if_rule (Fair st) st.call.status_returned _ _ (λ _. quiet st _ _ (refl, refl) refl)
            λ _.
              if_rule (Fair st) st.call.initiator _ _
                (λ _. behind_headers-Fair st _ resp (ensure-Calm st resp))
                (λ _. read_message-Fair st resp)

-- `Close` writes nothing.
abbrev pub SameLog : State → State → Type 0
SameLog st st' = (st'.log ≡ st.log) × (sending st'.call ≡ sending st.call)

pub close-SameLog : (st : State) → SameLog st (close st)
unfolding close mark_bad end_flight
close-SameLog st = if_rule (SameLog st) st.call.closed _ _ (λ _. (refl, refl)) (λ _. ground arith)
