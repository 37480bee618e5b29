-- ===== src/Grpc/Call/Protocol/Held.antt =====
-- What the writing methods of transport/grpc/call.go never change: which side the call is, whether it
-- is closed, how many calls its session has, and the compressor.
use argos.Base.{
  ℕ, Bool, not, ◌&&◌, ltb, Option, none, some, length, ◌≡◌, refl, ◌∙◌, if_rule, inl, inr, ◌⊎◌,
  false,
}
use argos.Base.Bytes.{Bytes}
use argos.Base.Result.{Result, ok, err}
use argos.Status.{Code, Error}
use argos.Grpc.Compress.{Compressor, compress_message}
use argos.Grpc.Details.{Proto, ProtoStatus}
use argos.Grpc.Call.{Fault, State, Answer, missing, answers, send_failed, send_failure, mark_bad}
use argos.Grpc.Call.Sending.{
  run_headers, headers_outcome, headers_once, write_response_headers_once, send_headers,
  maybe_auto_headers, write_wire, send_compressed, send_message, after_headers, send, close_send,
  half_close, write_finish, finish,
}
use argos.Grpc.Call.Protocol.Sends.{unless_failed-rule}

abbrev pub held : State → Bool × Bool × ℕ × Compressor
held st = (st.call.initiator, st.call.closed, st.session.in_flight, st.call.send_comp)

-- Nothing of that and nothing of the session has changed.
abbrev pub Quiet : State → State → Type 0
Quiet st st' = (held st' ≡ held st) × (st'.session ≡ st.session)

-- A method that has not failed is quiet; one that has changes the session only if the error ends the
-- receive direction too.
unfoldable pub Holds : State → State × Option Fault → Type 0
Holds st (st', none) = Quiet st st'
Holds st (st', some f) =
    (held st' ≡ held st) × ((st'.session ≡ st.session) ⊎ (send_failure f ≡ false))

pub Holds-held : (st : State) (r : State × Option Fault) → Holds st r → held r.0 ≡ held st
unfolding Holds
Holds-held st (st', none) h = h.0
Holds-held st (st', some f) h = h.0

same : (st : State) (f : Option Fault) → Holds st (st, f)
unfolding Holds
same st none = (refl, refl)
same st (some f) = (refl, inl refl)

Holds-after : (st st' : State) (r : State × Option Fault) → Quiet st st' → Holds st' r → Holds st r
unfolding Holds
Holds-after st st' (q, none) h k = (k.0 ∙ h.0, k.1 ∙ h.1)
Holds-after st st' (q, some f) h k = (k.0 ∙ h.0, elim k.1 [ inl e ↦ inl (e ∙ h.1) | inr n ↦ inr n ])

send_failed-Holds : (st : State) (f : Fault) → Holds st (send_failed st f)
unfolding Holds send_failed mark_bad
send_failed-Holds st f =
    if_rule
      (λ (s : State). (held s ≡ held st) × ((s.session ≡ st.session) ⊎ (send_failure f ≡ false)))
      (send_failure f) _ _ (λ _. (refl, inl refl))
      λ n. (
        if_rule (λ (s : State). held s ≡ held st) st.call.initiator _ _ (λ _. refl) (λ _. refl),
        inr n,
      )

headers_outcome-Holds : (st : State) (o : Option (Option Fault)) → Holds st (headers_outcome st o)
headers_outcome-Holds st none =
    if_rule (Holds st) st.call.headers_sent _ _ (λ _. same st _) (λ _. same st _)
headers_outcome-Holds st (some none) =
    if_rule (Holds st) st.call.headers_sent _ _ (λ _. same st _) (λ _. same st _)
headers_outcome-Holds st (some (some f)) = send_failed-Holds st f

run_headers-Quiet : (st : State) (ans : Answer) → Quiet st (run_headers st ans)
unfolding run_headers
run_headers-Quiet st missing = (refl, refl)
run_headers-Quiet st (answers none) = (refl, refl)
run_headers-Quiet st (answers (some f)) = (refl, refl)

headers_once-Holds :
    (st : State) (ans : Answer) (o : Option (Option Fault)) → Holds st (headers_once st ans o)
headers_once-Holds st ans none =
    Holds-after st (run_headers st ans) _ (run_headers-Quiet st ans) (headers_outcome-Holds _ _)
headers_once-Holds st ans (some e) = headers_outcome-Holds st (some e)

pub send_headers-Holds : (st : State) (ans : Answer) → Holds st (send_headers st ans)
unfolding send_headers write_response_headers_once
send_headers-Holds st ans =
    if_rule (Holds st) st.call.initiator _ _ (λ _. same st _)
      λ _.
        if_rule (Holds st) st.call.closed _ _ (λ _. same st _)
          λ _.
            if_rule (Holds st) st.call.headers_sent _ _ (λ _. same st _)
              λ _.
                if_rule (Holds st) st.call.finished _ _ (λ _. same st _)
                  (λ _. headers_once-Holds st ans st.call.headers_done)

pub maybe_auto_headers-Holds : (st : State) (ans : Answer) → Holds st (maybe_auto_headers st ans)
unfolding maybe_auto_headers
maybe_auto_headers-Holds st ans =
    if_rule (Holds st) st.call.initiator _ _ (λ _. same st _)
      λ _.
        if_rule (Holds st) st.call.headers_sent _ _ (λ _. same st _)
          (λ _. send_headers-Holds st ans)

write_wire-Holds :
    (st : State) (c : Bool) (wire : Bytes) (ans : Option Fault)
    → Holds st (write_wire st c wire ans)
unfolding write_wire
write_wire-Holds st c wire none = Holds-after st _ _ (refl, refl) (same _ none)
write_wire-Holds st c wire (some f) = Holds-after st _ _ (refl, refl) (send_failed-Holds _ f)

module _ (shows : ℕ → Bytes) where
  send_compressed-Holds :
      (st : State) (r : Result Error (Bool × Bytes)) (ans : Option Fault)
      → Holds st (send_compressed shows st r ans)
  send_compressed-Holds st (err e) ans = same st _
  send_compressed-Holds st (ok (c, wire)) ans =
      let max = st.call.cfg.max_frame_size in
      if_rule (Holds st) (ltb 0 max && ltb max (length wire)) _ _ (λ _. same st _)
        (λ _. write_wire-Holds st c wire ans)

  after_headers-Holds :
      (st : State) (r : State × Option Fault) (payload : Bytes) (ans : Option Fault)
      → Holds st r
      → Holds st (after_headers shows r payload ans)
  unfolding send_message
  after_headers-Holds st (st', some f) payload ans h = h
  after_headers-Holds st (st', none) payload ans h =
      let max = st'.call.cfg.max_message_size in
      Holds-after st st' _ (unfold Holds in h) (
        if_rule (Holds st') (ltb 0 max && ltb max (length payload)) _ _ (λ _. same st' _)
          (λ _. send_compressed-Holds st' (compress_message st'.call.send_comp payload) ans))

  pub send-Holds :
      (st : State) (payload : Bytes) (a : Answer) (b : Option Fault)
      → Holds st (send shows st payload a b)
  unfolding send
  send-Holds st payload a b =
      if_rule (Holds st) st.call.closed _ _ (λ _. same st _)
        λ _.
          unless_failed-rule (Holds st) st st.call.send_err _ (λ _. same st _)
            λ _.
              if_rule (Holds st) (st.call.initiator && st.call.half_closed) _ _ (λ _. same st _)
                λ _.
                  if_rule (Holds st) (not st.call.initiator && st.call.finished) _ _
                    (λ _. same st _)
                    λ _.
                      after_headers-Holds st (maybe_auto_headers st a) payload b
                        (maybe_auto_headers-Holds st a)

close_send-Holds : (st st' : State) (ans : Answer) → Quiet st st' → Holds st (close_send st' ans)
unfolding close_send
close_send-Holds st st' missing h = Holds-after st st' _ h (same st' _)
close_send-Holds st st' (answers none) h =
    Holds-after st st' _ h (Holds-after st' _ _ (refl, refl) (same _ none))
close_send-Holds st st' (answers (some f)) h =
    Holds-after st st' _ h (Holds-after st' _ _ (refl, refl) (send_failed-Holds _ f))

pub half_close-Holds : (st : State) (ans : Answer) → Holds st (half_close st ans)
unfolding half_close
half_close-Holds st ans =
    if_rule (Holds st) (not st.call.initiator) _ _ (λ _. same st _)
      λ _.
        if_rule (Holds st) st.call.closed _ _ (λ _. same st _)
          λ _.
            unless_failed-rule (Holds st) st st.call.send_err _ (λ _. same st _)
              λ _.
                if_rule (Holds st) st.call.half_closed _ _ (λ _. same st _)
                  (λ _. close_send-Holds st _ ans (refl, refl))

module _ (proto : Proto) (shows : ℕ → Bytes) (mismatch : Code → Bytes → ProtoStatus → Bytes) where
  write_finish-Holds :
      (st : State) (e : Option Error) (ans : Answer)
      → Holds st (write_finish proto shows mismatch st e ans)
  unfolding write_finish
  write_finish-Holds st e missing = same st _
  write_finish-Holds st e (answers none) = Holds-after st _ _ (refl, refl) (same _ none)
  write_finish-Holds st e (answers (some f)) =
      Holds-after st _ _ (refl, refl) (send_failed-Holds _ f)

  pub finish-Holds :
      (st : State) (e : Option Error) (ans : Answer)
      → Holds st (finish proto shows mismatch st e ans)
  unfolding finish
  finish-Holds st e ans =
      if_rule (Holds st) st.call.initiator _ _ (λ _. same st _)
        λ _.
          if_rule (Holds st) st.call.closed _ _ (λ _. same st _)
            λ _.
              if_rule (Holds st) st.call.finished _ _ (λ _. same st _)
                λ _.
                  unless_failed-rule (Holds st) st st.call.send_err _ (λ _. same st _)
                    (λ _. write_finish-Holds st e ans)
