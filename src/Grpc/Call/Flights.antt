-- ===== src/Grpc/Call/Flights.antt =====
-- How the calls of transport/grpc/call.go count themselves in their session.
use argos.Base.{
  ℕ, ◌+◌, ◌≤◌, true, false, List, [], ◌∷◌, Option, ◌≡◌, refl, ap, ◌∙◌, arith, if◌then◌else◌,
}
use argos.Base.Bytes.{Bytes}
use argos.Base.Result.{ok}
use argos.Status.{Code}
use argos.Metadata.{CallMd}
use argos.Descriptor.{Method}
use argos.Grpc.Details.{Proto, ProtoStatus}
use argos.Grpc.Call.{Fault, Call, Session, State, mark_bad, end_flight}
use argos.Grpc.Call.Opening.{Settings, Stream, open_call}
use argos.Grpc.Call.Receiving.{Response, recv, close}
use argos.Grpc.Call.Steps.{
  Op, call_send_headers, call_send, call_half_close, call_finish, call_recv, call_close, step,
  steps,
}
use argos.Grpc.Call.Protocol.Held.{
  Holds, Holds-held, send_headers-Holds, send-Holds, half_close-Holds, finish-Holds,
}
use argos.Grpc.Call.Protocol.Receives.{Fair, SameSends, recv-Fair}

-- The calls that a session has, and this one if it has left.
abbrev pub flights : State → ℕ
flights st = st.session.in_flight + (if st.call.closed then 1 else 0)

-- What a step keeps on the call's own side.
abbrev Counts : State → State → Type 0
Counts st st' = (st'.call.initiator ≡ st.call.initiator) × (flights st' ≡ flights st)

Holds-Counts : (st : State) (r : State × Option Fault) → Holds st r → Counts st r.0
Holds-Counts st r k =
    let h = Holds-held st r k in (ap (λ x. x.0) h, ap (λ x. x.2 + (if x.1 then 1 else 0)) h)

close-initiator : (st : State) → (close st).call.initiator ≡ st.call.initiator
unfolding close mark_bad end_flight
close-initiator st = ground arith

close-flights :
    (st : State) → st.call.initiator ≡ true → 1 ≤ flights st → flights (close st) ≡ flights st
unfolding close mark_bad end_flight
close-flights st i h = ground arith

opened_counts :
    (set : Settings) (s s' : Session) (m : Method) (md : Option CallMd) (now timeout : ℕ)
    (ans : Stream) (c : Call)
    → open_call set s m md now timeout ans ≡ (s', ok c)
    → (c.initiator ≡ true) × (c.closed ≡ false) × (s'.in_flight ≡ s.in_flight + 1)
unfolding open_call end_flight
opened_counts set s s' m md now timeout ans c h = ground arith

module _ (proto : Proto) (shows : ℕ → Bytes) (mismatch : Code → Bytes → ProtoStatus → Bytes)
    (quote : Bytes → Bytes) where
  recv-Counts : (st : State) (r : Response) → Counts st (recv proto shows mismatch quote st r).0
  recv-Counts st r =
      let f : SameSends st (recv proto shows mismatch quote st r).0 =
        unfold Fair in (recv-Fair proto shows mismatch quote st r).0 in
      (ap (λ x. x.0.0) f.1, ap (λ x. x.2 + (if x.1 then 1 else 0)) f.1)

  -- Every step but `Close` keeps both.
  step-initiator :
      (op : Op) (st : State)
      → (step proto shows mismatch quote op st).call.initiator ≡ st.call.initiator
  unfolding step
  step-initiator (call_send_headers a) st = (Holds-Counts st _ (send_headers-Holds st a)).0
  step-initiator (call_send p a b) st = (Holds-Counts st _ (send-Holds shows st p a b)).0
  step-initiator (call_half_close a) st = (Holds-Counts st _ (half_close-Holds st a)).0
  step-initiator (call_finish e a) st =
      (Holds-Counts st _ (finish-Holds proto shows mismatch st e a)).0
  step-initiator (call_recv r) st = (recv-Counts st r).0
  step-initiator call_close st = close-initiator st

  step-flights :
      (op : Op) (st : State)
      → st.call.initiator ≡ true
      → 1 ≤ flights st
      → flights (step proto shows mismatch quote op st) ≡ flights st
  unfolding step
  step-flights (call_send_headers a) st i h = (Holds-Counts st _ (send_headers-Holds st a)).1
  step-flights (call_send p a b) st i h = (Holds-Counts st _ (send-Holds shows st p a b)).1
  step-flights (call_half_close a) st i h = (Holds-Counts st _ (half_close-Holds st a)).1
  step-flights (call_finish e a) st i h =
      (Holds-Counts st _ (finish-Holds proto shows mismatch st e a)).1
  step-flights (call_recv r) st i h = (recv-Counts st r).1
  step-flights call_close st i h = close-flights st i h

  pub steps-initiator :
      (ops : List Op) (st : State)
      → (steps proto shows mismatch quote ops st).call.initiator ≡ st.call.initiator
  unfolding steps
  steps-initiator [] st = refl
  steps-initiator (op ∷ ops) st =
      steps-initiator ops (step proto shows mismatch quote op st) ∙ step-initiator op st

  steps-flights :
      (ops : List Op) (st : State)
      → st.call.initiator ≡ true
      → 1 ≤ flights st
      → flights (steps proto shows mismatch quote ops st) ≡ flights st
  unfolding steps
  steps-flights [] st i h = refl
  steps-flights (op ∷ ops) st i h =
      let e = step-flights op st i h in
      steps-flights ops (step proto shows mismatch quote op st) (step-initiator op st ∙ i)
        (omega (arith, h, e))
      ∙ e

  -- A call that a session opens is counted in it until it is closed and, however often it is closed
  -- and whatever else is called on it, is taken off once: nothing else that is done with the call
  -- changes the count.
  pub open-steps_flights :
      (set : Settings) (s s' : Session) (m : Method) (md : Option CallMd) (now timeout : ℕ)
      (ans : Stream) (c : Call) (inbound : Bytes) (ends : Option Fault) (ops : List Op)
      → open_call set s m md now timeout ans ≡ (s', ok c)
      → (let st =
            steps proto shows mismatch quote ops
              (record { call = c; session = s'; inbound = inbound; ends_with = ends; log = [] }) in
          flights st ≡ s.in_flight + 1)
  open-steps_flights set s s' m md now timeout ans c inbound ends ops h =
      let o = opened_counts set s s' m md now timeout ans c h in
      let st : State = record {
        call = c;
        session = s';
        inbound = inbound;
        ends_with = ends;
        log = [];
      } in
      let e : flights st ≡ s.in_flight + 1 = ground (arith, o.1, o.2) in
      steps-flights ops st o.0 (omega (arith, e)) ∙ e
