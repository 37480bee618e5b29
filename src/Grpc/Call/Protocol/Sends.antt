-- ===== src/Grpc/Call/Protocol/Sends.antt =====
-- The methods that write keep to the protocol.
use argos.Base.{
  ℕ, Bool, true, false, ◌&&◌, not, ltb, Option, none, some, ◌≡◌, refl, ap, ◌∙◌, inl, inr, arith,
  length, if_rule,
}
use argos.Base.Bytes.{Bytes}
use argos.Base.Result.{Result, ok, err}
use argos.Status.{Code, Error}
use argos.Grpc.Details.{Proto, ProtoStatus}
use argos.Grpc.Compress.{compress_message}
use argos.Grpc.Call.{
  Fault, State, Answer, logged, missing, answers, closed_send, failed_message, failed_close_send,
  failed_finish,
}
use argos.Grpc.Call.Sending.{
  freeze_all, maybe_auto_headers, write_wire, unless_failed, send_compressed, after_headers,
  send_message, send, close_send, half_close, write_finish, finish,
}
use argos.Grpc.Call.Protocol.{
  idle, streaming, unfinished, complete, broken, advance, phase_of, start, Fits,
}
use argos.Grpc.Call.Protocol.Headers.{
  Sound, Safe, safe, send_failed-rule, IsStreaming, streaming_phase, logs, streaming_Consistent,
  streaming_started, Ready, maybe_auto_headers-Ready, maybe_auto_headers-Safe,
}

write_wire-Sound :
    (st : State) (c : Bool) (wire : Bytes) (ans : Option Fault)
    → IsStreaming st.call
    → Sound st
    → Sound (write_wire st c wire ans).0
unfolding write_wire
write_wire-Sound st c wire none s (p, h, k) = (
  streaming,
  logs _ streaming _ st.log _ (h ∙ ap some (streaming_phase st.call p k s))
      (unfold advance in refl),
  streaming_Consistent st.call s,
)
write_wire-Sound st c wire (some f) s (p, h, k) =
    let at =
      logs _ streaming broken st.log failed_message (h ∙ ap some (streaming_phase st.call p k s))
        (unfold advance in refl) in
    send_failed-rule Fits _ f (
      broken,
      at,
      ((_, refl), elim (streaming_started st.call s) [ inl i ↦ inl i | inr sent ↦ inr (inl sent) ]),
    )

pub unless_failed-rule :
    (P : State × Option Fault → Type 0) (st : State) (e : Option Fault)
    (rest : State × Option Fault)
    → ((f : Fault) → P (st, some f))
    → (e ≡ none → P rest)
    → P (unless_failed st e rest)
unless_failed-rule P st none rest f g = g refl
unless_failed-rule P st (some e) rest f g = f e

module _ (shows : ℕ → Bytes) where
  send_compressed-Safe :
      (st : State) (r : Result Error (Bool × Bytes)) (ans : Option Fault)
      → IsStreaming st.call
      → Sound st
      → Safe (send_compressed shows st r ans)
  send_compressed-Safe st (err e) ans s o = safe _ o
  send_compressed-Safe st (ok (c, wire)) ans s o =
      let max = st.call.cfg.max_frame_size in
      if_rule Safe (ltb 0 max && ltb max (length wire)) _ _ (λ _. safe _ o)
        (λ _. safe _ (write_wire-Sound st c wire ans s o))

  send_message-Safe :
      (st : State) (payload : Bytes) (ans : Option Fault)
      → IsStreaming st.call
      → Sound st
      → Safe (send_message shows st payload ans)
  unfolding send_message
  send_message-Safe st payload ans s o =
      let max = st.call.cfg.max_message_size in
      if_rule Safe (ltb 0 max && ltb max (length payload)) _ _ (λ _. safe _ o)
        (λ _. send_compressed-Safe st (compress_message st.call.send_comp payload) ans s o)

  after_headers-Safe :
      (r : State × Option Fault) (payload : Bytes) (ans : Option Fault)
      → Ready r
      → Sound r.0
      → Safe (after_headers shows r payload ans)
  unfolding Ready
  after_headers-Safe (st, none) payload ans s o = send_message-Safe st payload ans s o
  after_headers-Safe (st, some f) payload ans s o = safe _ o

  pub send-Safe :
      (st : State) (payload : Bytes) (a : Answer) (b : Option Fault)
      → Sound st
      → Safe (send shows st payload a b)
  unfolding send
  send-Safe st payload a b o =
      if_rule Safe st.call.closed _ _ (λ _. safe _ o)
        λ _.
          unless_failed-rule Safe st st.call.send_err _ (λ _. safe _ o)
            λ e.
              if_rule Safe (st.call.initiator && st.call.half_closed) _ _ (λ _. safe _ o)
                λ h.
                  if_rule Safe (not st.call.initiator && st.call.finished) _ _ (λ _. safe _ o)
                    λ f.
                      after_headers-Safe (maybe_auto_headers st a) payload b
                        (maybe_auto_headers-Ready st a e h f)
                        (unfold Safe in maybe_auto_headers-Safe st a o)

-- The last byte of an initiator.
close_send-Sound :
    (st : State) (ans : Answer)
    → Sound st
    → st.call.initiator ≡ true
    → st.call.send_err ≡ none
    → st.call.half_closed ≡ false
    → Sound (close_send (record st { call = record st.call { half_closed = true } }) ans).0
unfolding close_send
close_send-Sound st ans (p, h, k) i e c = close st.call.initiator refl ans
  where
    now : phase_of (start st.call.initiator) st.log ≡ some streaming
    now = h ∙ ap some (streaming_phase st.call p k (unfold IsStreaming in (e, inl (i, c))))

    close :
        (b : Bool)
        → st.call.initiator ≡ b
        → (ans : Answer)
        → Sound (close_send (record st { call = record st.call { half_closed = true } }) ans).0
    close b q missing = (streaming, now, (e, inl i))
    close b q (answers none) = (
      complete,
      logs _ streaming complete st.log closed_send now (unfold advance in refl),
      inl (i, refl),
    )
    close b q (answers (some f)) = send_failed-rule Fits _ f (
      broken,
      logs _ streaming broken st.log failed_close_send now (unfold advance in refl),
      ((_, refl), inl i),
    )

pub half_close-Safe : (st : State) (ans : Answer) → Sound st → Safe (half_close st ans)
unfolding half_close
half_close-Safe st ans o =
    if_rule Safe (not st.call.initiator) _ _ (λ _. safe _ o)
      λ i.
        if_rule Safe st.call.closed _ _ (λ _. safe _ o)
          λ _.
            unless_failed-rule Safe st st.call.send_err _ (λ _. safe _ o)
              λ e.
                if_rule Safe st.call.half_closed _ _ (λ _. safe _ o)
                  λ h. safe _ (close_send-Sound st ans o (ground (arith, i)) e h)

module _ (proto : Proto) (shows : ℕ → Bytes) (mismatch : Code → Bytes → ProtoStatus → Bytes) where
  write_finish-Sound :
      (st : State) (e : Option Error) (ans : Answer)
      → Sound st
      → st.call.initiator ≡ false
      → st.call.finished ≡ false
      → st.call.send_err ≡ none
      → Sound (write_finish proto shows mismatch st e ans).0
  unfolding write_finish
  write_finish-Sound st e missing o i f n = o
  write_finish-Sound st e (answers (some g)) (idle, h, k) i f n =
      send_failed-rule Fits (logged failed_finish (freeze_all proto shows mismatch st)) g (
        unfinished,
        logs _ idle unfinished st.log failed_finish h (unfold advance in refl),
        (k.0, k.1, k.2, (_, refl), k.4),
      )
  write_finish-Sound st e (answers (some g)) (unfinished, h, k) i f n = absurd (ground (arith, k))
  write_finish-Sound st e (answers (some g)) (streaming, h, k) i f n =
      send_failed-rule Fits (logged failed_finish (freeze_all proto shows mismatch st)) g (
        broken,
        logs _ streaming broken st.log failed_finish h (unfold advance in refl),
        ((_, refl), inr (inl (ground (arith, k)))),
      )
  write_finish-Sound st e (answers (some g)) (complete, h, k) i f n = absurd (ground (arith, k))
  write_finish-Sound st e (answers (some g)) (broken, h, k) i f n = absurd (ground (arith, k))
  write_finish-Sound st e (answers none) (idle, h, k) i f n = (
    complete,
    logs _ idle complete st.log _ h (rw k.1 (unfold advance in refl)),
    inr (i, refl, refl),
  )
  write_finish-Sound st e (answers none) (unfinished, h, k) i f n = absurd (ground (arith, k))
  write_finish-Sound st e (answers none) (streaming, h, k) i f n =
      let sent : st.call.headers_sent ≡ true = ground (arith, k) in
      (
        complete,
        logs _ streaming complete st.log _ h (rw sent (unfold advance in refl)),
        inr (i, refl, refl),
      )
  write_finish-Sound st e (answers none) (complete, h, k) i f n = absurd (ground (arith, k))
  write_finish-Sound st e (answers none) (broken, h, k) i f n = absurd (ground (arith, k))

  pub finish-Safe :
      (st : State) (e : Option Error) (ans : Answer)
      → Sound st
      → Safe (finish proto shows mismatch st e ans)
  unfolding finish
  finish-Safe st e ans o =
      if_rule Safe st.call.initiator _ _ (λ _. safe _ o)
        λ i.
          if_rule Safe st.call.closed _ _ (λ _. safe _ o)
            λ _.
              if_rule Safe st.call.finished _ _ (λ _. safe _ o)
                λ f.
                  unless_failed-rule Safe st st.call.send_err _ (λ _. safe _ o)
                    λ n. safe _ (write_finish-Sound st e ans o i f n)
