-- ===== src/Grpc/Call/Protocol/Conforms.antt =====
-- A call keeps to the protocol, whatever is called on it and whatever the transport answers.
use argos.Base.{
  ℕ, Bool, true, false, List, [], ◌∷◌, Option, some, ◌≡◌, refl, sym, ap, ◌∙◌, inl, inr,
}
use argos.Base.Bytes.{Bytes}
use argos.Status.{Code}
use argos.Metadata.{CallMd}
use argos.Grpc.Compress.{Compressor}
use argos.Grpc.Details.{Proto, ProtoStatus}
use argos.Grpc.Call.{Fault, Call, Session, State}
use argos.Grpc.Call.Opening.{Settings, new_call}
use argos.Grpc.Call.Receiving.{Response, recv, close}
use argos.Grpc.Call.Steps.{
  Op, call_send_headers, call_send, call_half_close, call_finish, call_recv, call_close, step,
  steps,
}
use argos.Grpc.Call.Flights.{steps-initiator}
use argos.Grpc.Call.Protocol.{
  Phase, idle, streaming, unfinished, complete, broken, start, phase_of, Consistent, Fits,
}
use argos.Grpc.Call.Protocol.Headers.{Sound, Safe, send_headers-Safe}
use argos.Grpc.Call.Protocol.Sends.{send-Safe, half_close-Safe, finish-Safe}
use argos.Grpc.Call.Protocol.Receives.{SameSends, SameLog, Fair, recv-Fair, close-SameLog}

new_call-Fits :
    (set : Settings) (initiator : Bool) (name : Bytes) (md : Option CallMd) (subtype : Bytes)
    (comp : Compressor) (enc : Bytes) (deadline : Option ℕ)
    → Fits (new_call set initiator name md subtype comp enc deadline) []
unfolding phase_of
new_call-Fits set true name md subtype comp enc deadline = (streaming, refl, (refl, inl refl))
new_call-Fits set false name md subtype comp enc deadline =
    (idle, refl, (refl, refl, refl, refl, refl))

-- What a call knows of its phase is in what its writing methods look at.
Consistent-same :
    (p : Phase) (c d : Call)
    → d.initiator ≡ c.initiator
    → d.headers_sent ≡ c.headers_sent
    → d.half_closed ≡ c.half_closed
    → d.finished ≡ c.finished
    → d.send_err ≡ c.send_err
    → d.headers_done ≡ c.headers_done
    → Consistent p c
    → Consistent p d
Consistent-same idle c d i s h f e o k = (i ∙ k.0, s ∙ k.1, f ∙ k.2, e ∙ k.3, o ∙ k.4)
Consistent-same unfinished c d i s h f e o k =
    (i ∙ k.0, s ∙ k.1, f ∙ k.2, (k.3.0, e ∙ k.3.1), o ∙ k.4)
Consistent-same streaming c d i s h f e o k =
    (e ∙ k.0, elim k.1 [ inl x ↦ inl (i ∙ x) | inr x ↦ inr (i ∙ x.0, s ∙ x.1, f ∙ x.2) ])
Consistent-same complete c d i s h f e o k = elim k [
  | inl x ↦ inl (i ∙ x.0, h ∙ x.1)
  | inr x ↦ inr (i ∙ x.0, s ∙ x.1, f ∙ x.2)
]
Consistent-same broken c d i s h f e o k = (
  (k.0.0, e ∙ k.0.1),
  elim k.1 [
    | inl x ↦ inl (i ∙ x)
    | inr (inl x) ↦ inr (inl (s ∙ x))
    | inr (inr x) ↦ inr (inr (x.0, o ∙ x.1))
  ],
)

same_Sound : (a b : State) → SameLog a b → Sound a → Sound b
same_Sound a b (l, t) (p, h, k) =
    let i = ap (λ x. x.0) t in
    (
      p,
      ap (λ e. phase_of (start b.call.initiator) e) l ∙ (ap (λ x. phase_of (start x) a.log) i ∙ h),
      Consistent-same p a.call b.call i (ap (λ x. x.1) t) (ap (λ x. x.2) t) (ap (λ x. x.3) t)
          (ap (λ x. x.4) t) (ap (λ x. x.5) t) k,
    )

module _ (proto : Proto) (shows : ℕ → Bytes) (mismatch : Code → Bytes → ProtoStatus → Bytes)
    (quote : Bytes → Bytes) where
  recv-SameLog : (st : State) (r : Response) → SameLog st (recv proto shows mismatch quote st r).0
  recv-SameLog st r =
      let f : SameSends st (recv proto shows mismatch quote st r).0 =
        unfold Fair in (recv-Fair proto shows mismatch quote st r).0 in
      (f.0, ap (λ x. x.0) f.1)

  step-Sound : (op : Op) (st : State) → Sound st → Sound (step proto shows mismatch quote op st)
  unfolding step Safe
  step-Sound (call_send_headers a) st o = send_headers-Safe st a o
  step-Sound (call_send p a b) st o = send-Safe shows st p a b o
  step-Sound (call_half_close a) st o = half_close-Safe st a o
  step-Sound (call_finish e a) st o = finish-Safe proto shows mismatch st e a o
  step-Sound (call_recv r) st o =
      same_Sound st (recv proto shows mismatch quote st r).0 (recv-SameLog st r) o
  step-Sound call_close st o = same_Sound st (close st) (close-SameLog st) o

  steps-Sound :
      (ops : List Op) (st : State) → Sound st → Sound (steps proto shows mismatch quote ops st)
  unfolding steps
  steps-Sound [] st o = o
  steps-Sound (op ∷ ops) st o =
      steps-Sound ops (step proto shows mismatch quote op st) (step-Sound op st o)

  -- Whatever is called on a new call, in whatever order and whatever the carrier answers, what it
  -- makes of the wire is allowed by the protocol: the headers come once and before all messages, and
  -- nothing follows the end of what is sent nor a message that failed.
  pub steps_conform :
      (set : Settings) (initiator : Bool) (name : Bytes) (md : Option CallMd) (subtype : Bytes)
      (comp : Compressor) (enc : Bytes) (deadline : Option ℕ) (session : Session) (inbound : Bytes)
      (ends : Option Fault) (ops : List Op)
      → (p : Phase) × (phase_of
            (start initiator)
            (steps proto shows mismatch quote ops (record {
              call = new_call set initiator name md subtype comp enc deadline;
              session = session;
              inbound = inbound;
              ends_with = ends;
              log = [];
            })).log
          ≡ some p)
  steps_conform set initiator name md subtype comp enc deadline session inbound ends ops =
      let st : State = record {
        call = new_call set initiator name md subtype comp enc deadline;
        session = session;
        inbound = inbound;
        ends_with = ends;
        log = [];
      } in
      let (p, h, _) =
        steps-Sound ops st (new_call-Fits set initiator name md subtype comp enc deadline) in
      (
        p,
        ap (λ i. phase_of (start i) (steps proto shows mismatch quote ops st).log)
              (sym (steps-initiator proto shows mismatch quote ops st))
            ∙ h,
      )
