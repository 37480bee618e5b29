-- ===== src/HttpUnary/Call/Examples.antt =====
-- Small calls of transport/httpunary/call.go.
use argos.Base.{◌⊎◌, ℕ, ◌+◌, ◌≤◌, ◌≡◌, ◌≢◌, refl, true, false, [], ◌∷◌, none, some, arith}
use argos.Base.Bytes.{Bytes, codes}
use argos.Base.Result.{Result, ok, err}
use argos.Status.{error, not_found, as_status, is_empty}
use argos.Descriptor.{Method}
use argos.Grpc.Call.{Fault, local, answers}
use argos.HttpUnary.ErrorBody.{Json, Carries}
use argos.HttpUnary.Call.{Session, State, check_inbound_meta, read_all_limited}
use argos.HttpUnary.Call.Methods.{send, half_close, finish}
use argos.HttpUnary.Call.Receiving.{recv}
use argos.HttpUnary.Call.Opening.{Settings, new_client_session, new_call, open_call, accept, opened}
use argos.HttpUnary.Call.Steps.{
  call_send, call_half_close, call_close, steps, bodies, ends, responses, one_if, open-steps_once,
}
use argos.HttpUnary.Call.Delivery.{start, carried, sent_reply}
use argos.HttpUnary.Call.Exchange.{asking, asked, recv-send-finish, recv-finish_error, send_twice}

abbrev plain_settings : Settings
plain_settings = record {
  max_message_size = 100;
  max_inbound_metadata_size = 0;
  codec = [];
  content_type_hook = none;
  encode_error_hook = none;
}

-- A codec of one error.
abbrev one_error : Json
one_error = record { marshal = λ c m. some (codes "{5,no}"); unmarshal = λ b. some (5, codes "no") }

abbrev shows_none : ℕ → Bytes
shows_none n = []

abbrev say_method : Method
say_method = record {
  full_name = codes "a.B.Say";
  service = codes "a.B";
  name = codes "Say";
  shape = 0;
}

abbrev opened_session : Session
opened_session = record { closed = false; reusable = true; in_flight = 1 }

open-steps_once_example :
    let st =
      steps one_error shows_none
        (call_send (codes "hi")
          ∷ (call_half_close none (answers none) ∷ (call_close ∷ (call_close ∷ []))))
        (record {
          call = new_call plain_settings true (codes "a.B.Say") none;
          session = opened_session;
          log = [];
        }) in
    (bodies st.log ≤ 1)
    × (ends st.log ≤ 1)
    × (responses st.log ≡ 0)
    × (st.session.in_flight + one_if st.call.closed ≡ 1)
unfolding open_call accept
open-steps_once_example =
    open-steps_once one_error shows_none plain_settings new_client_session opened_session say_method
      none opened (new_call plain_settings true (codes "a.B.Say") none)
      (call_send (codes "hi")
        ∷ (call_half_close none (answers none) ∷ (call_close ∷ (call_close ∷ []))))
      refl

abbrev question : State
question =
    asking one_error shows_none plain_settings plain_settings (codes "a.B.Say") (codes "a.B.Say")
      none none new_client_session new_client_session (codes "hi")

abbrev answer : State × Result Fault Bytes
answer =
    asked one_error shows_none plain_settings plain_settings (codes "a.B.Say") (codes "a.B.Say")
      none none new_client_session new_client_session (codes "hi")

recv-send-finish_example :
    (answer.1 ≡ ok (codes "hi"))
    × ((recv one_error shows_none question (
          carried (
            sent_reply
              (finish one_error shows_none
                (send answer.0 (codes "ho")).0
                none
                (answers none)).0.log))).1
        ≡ ok (codes "ho"))
unfolding send half_close recv check_inbound_meta read_all_limited
recv-send-finish_example =
    recv-send-finish one_error shows_none plain_settings plain_settings (codes "a.B.Say")
      (codes "a.B.Say") none none new_client_session new_client_session (codes "hi") (codes "ho")
      refl refl (omega arith) (omega arith) refl

no_route : Carries one_error not_found (codes "no") (codes "{5,no}")
no_route = record { encodes = refl; decodes = refl; nonempty = omega arith; fits = omega arith }

recv-finish_error_example :
    (recv one_error shows_none question (
      carried (
        sent_reply
          (finish one_error shows_none answer.0
            (some (error not_found (codes "no")))
            (answers none)).0.log))).1
    ≡ err (local (error not_found (codes "no")))
unfolding send check_inbound_meta as_status
recv-finish_error_example =
    recv-finish_error one_error shows_none plain_settings plain_settings (codes "a.B.Say")
      (codes "a.B.Say") none none new_client_session new_client_session (codes "hi")
      (error not_found (codes "no")) _ (codes "{5,no}") refl (omega arith) refl refl (omega arith)
      (omega arith) no_route (omega arith) refl

send_twice_example :
    let st = start plain_settings true [] none new_client_session in
    let sent = (send st (codes "x")).0 in
    ((is_empty (codes "x") ≡ true) × (sent ≡ st))
    ⊎ ((is_empty (codes "x") ≡ false)
        × ((send
              (steps one_error shows_none (call_half_close none (answers none) ∷ []) sent)
              (codes "y")).1
            ≢ none))
unfolding send
send_twice_example =
    send_twice one_error shows_none (start plain_settings true [] none new_client_session)
      (codes "x") (codes "y") (call_half_close none (answers none) ∷ []) refl refl refl
