-- ===== src/HttpUnary/Call/Exchange.antt =====
-- Calls of transport/httpunary/call.go, from one side to the other.
use argos.Base.{
  List, ◌⊎◌, ℕ, ◌≤◌, true, false, [], ◌∷◌, Option, none, some, ◌≡◌, ◌≢◌, refl, ap, ◌∙◌, sym, arith,
  length, inl, inr,
}
use mathlib.Core.Path.{subst}
use argos.Base.Bytes.{Bytes}
use argos.Base.Result.{Result, ok, err}
use argos.Status.{Error, Code, StatusError, as_status, error, code_of, is_empty}
use argos.Status
use argos.Metadata.{CallMd}
use argos.HttpStatus.{to_http}
use argos.Grpc.Call.{Fault, local, answers}
use argos.HttpUnary.Headers.{decode_metadata}
use argos.HttpUnary.ErrorBody.{Json, Carries, encode_error_body-Carries, decode_error_body-Carries}
use argos.HttpUnary.Call.{Session, State, check_inbound_meta}
use argos.HttpUnary.Call.Receiving.{recv}
use argos.HttpUnary.Call.Methods.{send, half_close, finish}
use argos.HttpUnary.Call.Opening.{Settings}
use argos.HttpUnary.Call.Steps.{Op, steps}
use argos.HttpUnary.Call.Spent.{send-Spent, steps-Spent}
use argos.HttpUnary.Call.Delivery.{
  start, sent_body, reply, sent_reply, carried, request, Fits, sent_body-half_close, Serves,
  half_close-Awaits, not_200, reply_headers, recv-request, recv-Serves, sent_reply-finish,
  sent_reply-finish_error, recv-reply, recv-error,
}

-- One unary call between an initiator and a responder that have done nothing yet, over carriers that
-- lose nothing: the request is sent and the stream ended, and the responder has received it.
module _ (json : Json) (shows : ℕ → Bytes) (cset sset : Settings) (cname sname : Bytes)
    (cmd smd : Option CallMd) (cs ss : Session) (p : Bytes) where
  abbrev pub asking : State
  asking = (half_close (send (start cset true cname cmd cs) p).0 none (answers none)).0

  abbrev pub asked : State × Result Fault Bytes
  asked = recv json shows (start sset false sname smd ss) (request (sent_body asking.log))

  asked-request :
      (send (start cset true cname cmd cs) p).1 ≡ none
      → asked ≡ recv json shows (start sset false sname smd ss) (request p)
  asked-request sends =
      ap (λ b. recv json shows (start sset false sname smd ss) (request b))
        (sent_body-half_close cset cname cmd cs p sends)

  asked-Serves :
      (send (start cset true cname cmd cs) p).1 ≡ none
      → Fits sset.max_message_size p
      → Serves sset asked.0
  asked-Serves sends f =
      subst (λ (r : State × Result Fault Bytes). Serves sset r.0) (sym (asked-request sends))
        (recv-Serves json shows sset sname smd ss p f)

  -- A unary call: the responder receives the request that the initiator has sent, and the initiator
  -- then receives the response that the responder has sent and finished with, if both Sends succeed,
  -- both messages are within the receiver's limit, which is below 2^63 - 1, and the response's
  -- metadata is within the initiator's.
  pub recv-send-finish :
      (r : Bytes)
      → (send (start cset true cname cmd cs) p).1 ≡ none
      → (send asked.0 r).1 ≡ none
      → Fits sset.max_message_size p
      → Fits cset.max_message_size r
      → check_inbound_meta cset.max_inbound_metadata_size
          (decode_metadata (reply_headers json shows asked.0.call none))
        ≡ none
      → (asked.1 ≡ ok p)
        × ((recv json shows asking (
              carried
                (sent_reply (finish json shows (send asked.0 r).0 none (answers none)).0.log))).1
            ≡ ok r)
  recv-send-finish r sends responds fp fr m = (
    ap (λ x. x.1) (asked-request sends) ∙ recv-request json shows sset sname smd ss p fp,
    ap (λ x. (recv json shows asking (carried x)).1)
          (sent_reply-finish json shows sset asked.0 r (asked-Serves sends fp) responds)
        ∙ recv-reply json shows cset asking _ r (half_close-Awaits cset cname cmd cs p) m fr,
  )

  -- When the Send of the request has succeeded and the request is within the responder's limit: a
  -- Finish, by a responder with no hook for the encoding of errors, of a status that is not OK makes
  -- the Recv of the initiator return an error with that code and that message, if the message is
  -- within 8 KiB and survives encoding/json, its encoding is within 16 KiB and the initiator's limit,
  -- its metadata within the initiator's limit, and both limits on messages are below 2^63 - 1.
  pub recv-finish_error :
      (e : Error) (se : StatusError) (body : Bytes)
      → (send (start cset true cname cmd cs) p).1 ≡ none
      → Fits sset.max_message_size p
      → sset.encode_error_hook ≡ none
      → as_status e ≡ some se
      → se.code ≢ Status.ok
      → length se.msg ≤ 8192
      → Carries json se.code se.msg body
      → Fits cset.max_message_size body
      → check_inbound_meta cset.max_inbound_metadata_size
          (decode_metadata (reply_headers json shows asked.0.call (some e)))
        ≡ none
      → (recv json shows asking
          (carried (sent_reply (finish json shows asked.0 (some e) (answers none)).0.log))).1
        ≡ err (local (error se.code se.msg))
  recv-finish_error e se body sends fp unhooked is bad short v fb m =
      ap (λ x. (recv json shows asking (carried x)).1)
        (sent_reply-finish_error json shows sset asked.0 e (asked-Serves sends fp) unhooked
          ∙ ap (reply (to_http (code_of (some e))) (reply_headers json shows asked.0.call (some e)))
              (encode_error_body-Carries json shows e se body is short v))
      ∙ recv-error json shows cset asking _ _ body (half_close-Awaits cset cname cmd cs p) m fb
          v.fits (not_200 e se is bad)
      ∙ ap (λ x. err (local x)) (decode_error_body-Carries json se.code _ se.msg body bad v)

-- An initiator or a responder that has sent a message, other than an empty one, sends no other,
-- whatever is called in between; an empty one leaves no trace, so that the next is taken as if it
-- were the first.
pub send_twice :
    (json : Json) (shows : ℕ → Bytes) (st : State) (p q : Bytes) (ops : List Op)
    → st.call.req_buf ≡ none
    → st.call.resp_buf ≡ none
    → (send st p).1 ≡ none
    → ((is_empty p ≡ true) × ((send st p).0 ≡ st))
      ⊎ ((is_empty p ≡ false) × ((send (steps json shows ops (send st p).0) q).1 ≢ none))
send_twice json shows st [] q ops a b h = inl (refl, unfold send in ground arith)
send_twice json shows st (x ∷ p) q ops a b h = inr (
  refl,
  send-Spent (steps json shows ops (send st (x ∷ p)).0) q
      (steps-Spent json shows ops (send st (x ∷ p)).0 (unfold send in ground arith)),
)
