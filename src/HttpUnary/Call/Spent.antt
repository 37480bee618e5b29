-- ===== src/HttpUnary/Call/Spent.antt =====
-- A call of transport/httpunary/call.go that has taken its one message to send.
use argos.Base.{ℕ, true, if◌then◌else◌, List, [], ◌∷◌, none, ◌≢◌, ◌≡◌, arith}
use argos.Base.Bytes.{Bytes}
use argos.HttpUnary.ErrorBody.{Json}
use argos.HttpUnary.Call.{State, mark_bad, mark_bad_unless_limit, end_flight, send_failed}
use argos.HttpUnary.Call.Methods.{is_some, send, half_close, finish}
use argos.HttpUnary.Call.Receiving.{recv, close}
use argos.HttpUnary.Call.Steps.{
  Op, call_send_headers, call_close, call_send, call_half_close, call_finish, call_recv, step,
  steps,
}

-- A call whose one message has been taken.
abbrev pub Spent : State → Type 0
Spent st = (if st.call.initiator then is_some st.call.req_buf else is_some st.call.resp_buf) ≡ true

pub send-Spent : (st : State) (q : Bytes) → Spent st → (send st q).1 ≢ none
unfolding send
send-Spent st q v = ground (arith, v)

module _ (json : Json) (shows : ℕ → Bytes) where
  step-Spent : (op : Op) (st : State) → Spent st → Spent (step json shows op st)
  unfolding step send half_close close finish recv send_failed mark_bad mark_bad_unless_limit
      end_flight
  step-Spent call_send_headers st v = ground (arith, v)
  step-Spent call_close st v = ground (arith, v)
  step-Spent (call_send p) st v = ground (arith, v)
  step-Spent (call_half_close w a) st v = ground (arith, v)
  step-Spent (call_finish e a) st v = ground (arith, v)
  step-Spent (call_recv i) st v = ground (arith, v)

  pub steps-Spent : (ops : List Op) (st : State) → Spent st → Spent (steps json shows ops st)
  unfolding steps
  steps-Spent [] st v = v
  steps-Spent (op ∷ ops) st v = steps-Spent ops (step json shows op st) (step-Spent op st v)
