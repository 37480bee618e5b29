-- ===== src/HttpUnary/Call/Steps.antt =====
-- Sequences of the methods of one call of transport/httpunary/call.go, with what the carrier answers
-- to each, and what they write in all.
use argos.Base.{
  ℕ, ◌+◌, ◌≤◌, Bool, true, false, if◌then◌else◌, List, [], ◌∷◌, Option, ◌≡◌, refl, ap, ◌∙◌, arith,
}
use argos.Base.Bytes.{Bytes}
use argos.Base.Result.{ok}
use argos.Status.{Error}
use argos.Metadata.{CallMd}
use argos.Descriptor.{Method}
use argos.Grpc.Call.{Fault, Answer}
use argos.HttpUnary.ErrorBody.{Json}
use argos.HttpUnary.Call.{
  Session, Call, Event, wrote_body, closed_send, aborted, wrote_response, failed_body,
  failed_close_send, failed_response, State, mark_bad, mark_bad_unless_limit, end_flight,
  send_failed,
}
use argos.HttpUnary.Call.Methods.{send_headers, send, half_close, finish}
use argos.HttpUnary.Call.Receiving.{Inbound, recv, close}
use argos.HttpUnary.Call.Opening.{Settings, Stream, open_call}

pub data Op : Type 0 where
  call_send_headers call_close : Op
  call_send : Bytes → Op
  call_half_close : Option Fault → Answer → Op
  call_finish : Option Error → Answer → Op
  call_recv : Inbound → Op

abbrev pub bodies : List Event → ℕ
bodies [] = 0
bodies (wrote_body b ∷ es) = 1 + bodies es
bodies (failed_body ∷ es) = 1 + bodies es
bodies (closed_send ∷ es) = bodies es
bodies (aborted ∷ es) = bodies es
bodies (wrote_response c h b ∷ es) = bodies es
bodies (failed_close_send ∷ es) = bodies es
bodies (failed_response ∷ es) = bodies es

abbrev pub ends : List Event → ℕ
ends [] = 0
ends (closed_send ∷ es) = 1 + ends es
ends (failed_close_send ∷ es) = 1 + ends es
ends (wrote_body b ∷ es) = ends es
ends (failed_body ∷ es) = ends es
ends (aborted ∷ es) = ends es
ends (wrote_response c h b ∷ es) = ends es
ends (failed_response ∷ es) = ends es

abbrev pub responses : List Event → ℕ
responses [] = 0
responses (wrote_response c h b ∷ es) = 1 + responses es
responses (wrote_body b ∷ es) = responses es
responses (failed_body ∷ es) = responses es
responses (closed_send ∷ es) = responses es
responses (aborted ∷ es) = responses es
responses (failed_close_send ∷ es) = responses es
responses (failed_response ∷ es) = responses es

abbrev pub one_if : Bool → ℕ
one_if b = if b then 1 else 0

-- What a call has written, by its flags; and its place in the session.
pub record Kept (b : Bool) (n : ℕ) (st : State) : Type 0 where
  pub side : st.call.initiator ≡ b
  pub body : bodies st.log ≤ one_if st.call.half_closed
  pub end : ends st.log ≤ one_if st.call.half_closed
  pub response : responses st.log ≡ one_if st.call.finished
  pub flight : b ≡ true → st.session.in_flight + one_if st.call.closed ≡ n
  pub placed : b ≡ true → 1 ≤ n
  pub sends : b ≡ true → st.call.finished ≡ false
  pub responds : b ≡ false → st.call.half_closed ≡ false

-- The parts of a state that `Kept` speaks of are the same.
abbrev Alike : State → State → Type 0
Alike st st' =
    (st'.log ≡ st.log)
    × (st'.call.half_closed ≡ st.call.half_closed)
    × (st'.call.finished ≡ st.call.finished)
    × (st'.call.closed ≡ st.call.closed)
    × (st'.call.initiator ≡ st.call.initiator)
    × (st'.session.in_flight ≡ st.session.in_flight)

send-Alike : (st : State) (p : Bytes) → Alike st (send st p).0
unfolding send
send-Alike st p = ground arith

half_close-Kept :
    (b : Bool) (n : ℕ) (st : State) (w : Option Fault) (a : Answer)
    → Kept b n st
    → Kept b n (half_close st w a).0
unfolding half_close send_failed mark_bad
half_close-Kept b n st w a k = ground arith

close-Kept : (b : Bool) (n : ℕ) (st : State) → Kept b n st → Kept b n (close st)
unfolding close mark_bad end_flight
close-Kept b n st k = ground arith

module _ (json : Json) (shows : ℕ → Bytes) where
  recv-Alike : (st : State) (i : Inbound) → Alike st (recv json shows st i).0
  unfolding recv mark_bad mark_bad_unless_limit
  recv-Alike st i = ground arith

  finish-Kept :
      (b : Bool) (n : ℕ) (st : State) (e : Option Error) (a : Answer)
      → Kept b n st
      → Kept b n (finish json shows st e a).0
  unfolding finish send_failed mark_bad
  finish-Kept b n st e a k = ground arith

  Alike-Kept : (b : Bool) (n : ℕ) (st st' : State) → Alike st st' → Kept b n st → Kept b n st'
  Alike-Kept b n st st' a k = ground arith

  unfoldable pub step : Op → State → State
  step call_send_headers st = (send_headers st).0
  step call_close st = close st
  step (call_send p) st = (send st p).0
  step (call_half_close w a) st = (half_close st w a).0
  step (call_finish e a) st = (finish json shows st e a).0
  step (call_recv i) st = (recv json shows st i).0

  unfoldable pub steps : List Op → State → State
  steps [] st = st
  steps (op ∷ ops) st = steps ops (step op st)

  step-Kept : (b : Bool) (n : ℕ) (op : Op) (st : State) → Kept b n st → Kept b n (step op st)
  unfolding step
  step-Kept b n call_send_headers st k = ground arith
  step-Kept b n call_close st k = close-Kept b n st k
  step-Kept b n (call_send p) st k = Alike-Kept b n st (send st p).0 (send-Alike st p) k
  step-Kept b n (call_half_close w a) st k = half_close-Kept b n st w a k
  step-Kept b n (call_finish e a) st k = finish-Kept b n st e a k
  step-Kept b n (call_recv i) st k = Alike-Kept b n st (recv json shows st i).0 (recv-Alike st i) k

  steps-Kept :
      (b : Bool) (n : ℕ) (ops : List Op) (st : State) → Kept b n st → Kept b n (steps ops st)
  unfolding steps
  steps-Kept b n [] st k = k
  steps-Kept b n (op ∷ ops) st k = steps-Kept b n ops (step op st) (step-Kept b n op st k)

  opened_counts :
      (set : Settings) (s s' : Session) (m : Method) (md : Option CallMd) (ans : Stream) (c : Call)
      → open_call set s m md ans ≡ (s', ok c)
      → (c.initiator ≡ true)
        × (c.closed ≡ false)
        × (c.half_closed ≡ false)
        × (c.finished ≡ false)
        × (s'.in_flight ≡ s.in_flight + 1)
  unfolding open_call end_flight
  opened_counts set s s' m md ans c h = ground arith

  fresh-Kept :
      (b : Bool) (n : ℕ) (c : Call) (s : Session)
      → c.initiator ≡ b
      → c.half_closed ≡ false
      → c.finished ≡ false
      → c.closed ≡ false
      → (b ≡ true → s.in_flight ≡ n)
      → (b ≡ true → 1 ≤ n)
      → Kept b n (record { call = c; session = s; log = [] })
  fresh-Kept b n c s i h f o e p = ground arith

  one_if-le : (b : Bool) → one_if b ≤ 1
  one_if-le b = ground arith

  -- Whatever is called on a call that a session opens, in whatever order and whatever the carrier
  -- answers, the call writes its request once at most, ends the stream once at most, and never
  -- writes a response; it is counted in the session until it is closed, and taken off once.
  pub open-steps_once :
      (set : Settings) (s s' : Session) (m : Method) (md : Option CallMd) (ans : Stream) (c : Call)
      (ops : List Op)
      → open_call set s m md ans ≡ (s', ok c)
      → let st = steps ops (record { call = c; session = s'; log = [] }) in
        (bodies st.log ≤ 1)
        × (ends st.log ≤ 1)
        × (responses st.log ≡ 0)
        × (st.session.in_flight + one_if st.call.closed ≡ s.in_flight + 1)
  open-steps_once set s s' m md ans c ops h =
      let o = opened_counts set s s' m md ans c h in
      let st = steps ops (record { call = c; session = s'; log = [] }) in
      let k =
        steps-Kept true (s.in_flight + 1) ops _
          (fresh-Kept true (s.in_flight + 1) c s' o.0 o.2 o.3 o.1 (λ _. o.4) (λ _. omega arith)) in
      (
        omega (arith, k.body, one_if-le st.call.half_closed),
        omega (arith, k.end, one_if-le st.call.half_closed),
        k.response ∙ ap one_if (k.sends refl),
        k.flight refl,
      )
