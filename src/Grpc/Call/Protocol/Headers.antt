-- ===== src/Grpc/Call/Protocol/Headers.antt =====
-- The headers of a response keep to the protocol.
use argos.Base.{
  true, false, ◌&&◌, not, List, ◌∷◌, Option, none, some, ◌≡◌, refl, ap, ◌∙◌, ◌⊎◌, inl, inr, arith,
  if_rule,
}
use argos.Grpc.Call.{
  Fault, Call, Event, State, Answer, missing, answers, first_fault, send_failed, send_failure,
  mark_bad, failed_headers,
}
use argos.Grpc.Call.Sending.{
  run_headers, headers_outcome, headers_once, write_response_headers_once, send_headers,
  maybe_auto_headers,
}
use argos.Grpc.Call.Protocol.{
  Phase, idle, streaming, unfinished, complete, broken, advance, and_then, phase_of, start,
  Consistent, Fits,
}

-- A state in which nothing is wrong so far.
abbrev pub Sound : State → Type 0
Sound st = Fits st.call st.log

-- A result whose state is sound.
unfoldable pub Safe : State × Option Fault → Type 0
Safe r = Fits r.0.call r.0.log

pub safe : (r : State × Option Fault) → Sound r.0 → Safe r
safe r o = unfold Safe in o

mark_bad-call : (st : State) → (mark_bad st).call ≡ st.call
unfolding mark_bad
mark_bad-call st = ground arith

mark_bad-log : (st : State) → (mark_bad st).log ≡ st.log
unfolding mark_bad
mark_bad-log st = ground arith

-- A failure that is recorded.
abbrev kept : State → Fault → Call
kept st f = record st.call { send_err = some (first_fault st.call.send_err f) }

pub send_failed-rule :
    (P : Call → List Event → Type 0) (st : State) (f : Fault)
    → P (kept st f) st.log
    → P (send_failed st f).0.call (send_failed st f).0.log
unfolding send_failed
send_failed-rule P st f h =
    if_rule (λ (s : State). P s.call s.log) (send_failure f) _ _ (λ _. h)
      λ _. rw (mark_bad-call _, mark_bad-log _) h

-- The phase that a call must be in, from what it knows.
unfoldable pub IsStreaming : Call → Type 0
IsStreaming c =
    (c.send_err ≡ none)
    × (((c.initiator ≡ true) × (c.half_closed ≡ false))
        ⊎ ((c.initiator ≡ false) × (c.headers_sent ≡ true) × (c.finished ≡ false)))

pub streaming_phase : (c : Call) (p : Phase) → Consistent p c → IsStreaming c → p ≡ streaming
unfolding IsStreaming
streaming_phase c idle k s = absurd (ground (arith, k, s))
streaming_phase c unfinished k s = absurd (ground (arith, k, s))
streaming_phase c streaming k s = refl
streaming_phase c complete k s = absurd (ground (arith, k, s))
streaming_phase c broken k s = absurd (ground (arith, k, s))

-- A call that has not sent its headers.
before_headers :
    (c : Call) (p : Phase)
    → Consistent p c
    → c.initiator ≡ false
    → c.headers_sent ≡ false
    → c.headers_done ≡ none
    → (p ≡ idle) ⊎ (p ≡ unfinished)
before_headers c idle k i h d = inl refl
before_headers c unfinished k i h d = inr refl
before_headers c streaming k i h d = absurd (ground (arith, k))
before_headers c complete k i h d = absurd (ground (arith, k))
before_headers c broken k i h d = absurd (ground (arith, k))

-- An event that the phase allows.
pub logs :
    (s p q : Phase) (log : List Event) (e : Event)
    → phase_of s log ≡ some p
    → advance p e ≡ some q
    → phase_of s (e ∷ log) ≡ some q
unfolding phase_of
logs s p q log e h a = ap (λ o. and_then o e) h ∙ a

pub streaming_Consistent : (c : Call) → IsStreaming c → Consistent streaming c
unfolding IsStreaming
streaming_Consistent c s = ground (arith, s)

pub streaming_started : (c : Call) → IsStreaming c → (c.initiator ≡ true) ⊎ (c.headers_sent ≡ true)
unfolding IsStreaming
streaming_started c s = ground (arith, s)

-- Headers that are attempted.
failed_headers-Sound :
    (st : State) (f g : Fault)
    → (p : Phase) → (p ≡ idle) ⊎ (p ≡ unfinished)
    → phase_of (start st.call.initiator) st.log ≡ some p
    → Sound
        (send_failed
          (record st {
            call = record st.call { headers_done = some (some f) };
            log = failed_headers ∷ st.log;
          })
          g).0
failed_headers-Sound st f g p o h = send_failed-rule Fits _ g (
  broken,
  logs _ p broken st.log failed_headers h
      (elim o [ inl i ↦ rw i (unfold advance in refl) | inr u ↦ rw u (unfold advance in refl) ]),
  ((_, refl), inr (inr (f, refl))),
)

run_headers-Sound :
    (st : State) (ans : Answer)
    → Sound st
    → st.call.initiator ≡ false
    → st.call.headers_sent ≡ false
    → st.call.headers_done ≡ none
    → (let st' = run_headers st ans in Sound (headers_outcome st' st'.call.headers_done).0)
unfolding run_headers
run_headers-Sound st missing (p, h, k) i s d =
    failed_headers-Sound st _ _ p (before_headers st.call p k i s d) h
run_headers-Sound st (answers (some f)) (p, h, k) i s d =
    failed_headers-Sound st f f p (before_headers st.call p k i s d) h
run_headers-Sound st (answers none) (idle, h, k) i s d =
    (streaming, logs _ idle _ st.log _ h (unfold advance in refl), (k.3, inr (i, refl, k.2)))
run_headers-Sound st (answers none) (unfinished, h, k) i s d =
    (broken, logs _ unfinished _ st.log _ h (unfold advance in refl), (k.3, inr (inl refl)))
run_headers-Sound st (answers none) (streaming, h, k) i s d = absurd (ground (arith, k))
run_headers-Sound st (answers none) (complete, h, k) i s d = absurd (ground (arith, k))
run_headers-Sound st (answers none) (broken, h, k) i s d = absurd (ground (arith, k))

-- A call whose headers have failed before.
again-Sound :
    (st : State) (f : Fault)
    → Sound st
    → st.call.initiator ≡ false
    → st.call.headers_sent ≡ false
    → st.call.headers_done ≡ some (some f)
    → Sound (send_failed st f).0
again-Sound st f (idle, h, k) i s d = absurd (ground (arith, k))
again-Sound st f (unfinished, h, k) i s d = absurd (ground (arith, k))
again-Sound st f (streaming, h, k) i s d = absurd (ground (arith, k))
again-Sound st f (complete, h, k) i s d = absurd (ground (arith, k))
again-Sound st f (broken, h, k) i s d =
    send_failed-rule Fits st f (broken, h, ((_, refl), inr (inr (f, d))))

once-Sound :
    (st : State) (ans : Answer) (o : Option (Option Fault))
    → Sound st
    → st.call.initiator ≡ false
    → st.call.headers_sent ≡ false
    → st.call.headers_done ≡ o
    → Sound (headers_once st ans o).0
once-Sound st ans none o i s d = run_headers-Sound st ans o i s d
once-Sound st ans (some none) o i s d =
    if_rule (λ (r : State × Option Fault). Sound r.0) st.call.headers_sent _ _ (λ _. o) (λ _. o)
once-Sound st ans (some (some f)) o i s d = again-Sound st f o i s d

pub send_headers-Safe : (st : State) (ans : Answer) → Sound st → Safe (send_headers st ans)
unfolding send_headers write_response_headers_once
send_headers-Safe st ans o =
    if_rule Safe st.call.initiator _ _ (λ _. safe _ o)
      λ i.
        if_rule Safe st.call.closed _ _ (λ _. safe _ o)
          λ _.
            if_rule Safe st.call.headers_sent _ _ (λ _. safe _ o)
              λ s.
                if_rule Safe st.call.finished _ _ (λ _. safe _ o)
                  (λ _. safe _ (once-Sound st ans st.call.headers_done o i s refl))

-- What is known behind `maybeAutoHeaders` if it has not failed.
unfoldable pub Ready : State × Option Fault → Type 0
Ready (st, none) = IsStreaming st.call
Ready (st, some f) = Unit

run_headers-Ready :
    (st : State) (ans : Answer)
    → st.call.initiator ≡ false
    → st.call.send_err ≡ none
    → st.call.finished ≡ false
    → (let st' = run_headers st ans in Ready (headers_outcome st' st'.call.headers_done))
unfolding run_headers Ready IsStreaming send_failed
run_headers-Ready st missing i e f = tt
run_headers-Ready st (answers (some g)) i e f = tt
run_headers-Ready st (answers none) i e f = (e, inr (i, refl, f))

once-Ready :
    (st : State) (ans : Answer) (o : Option (Option Fault))
    → st.call.initiator ≡ false
    → st.call.headers_sent ≡ false
    → st.call.send_err ≡ none
    → st.call.finished ≡ false
    → Ready (headers_once st ans o)
unfolding Ready send_failed
once-Ready st ans none i s e f = run_headers-Ready st ans i e f
once-Ready st ans (some none) i s e f = rw s tt
once-Ready st ans (some (some g)) i s e f = tt

send_headers-Ready :
    (st : State) (ans : Answer)
    → st.call.initiator ≡ false
    → st.call.headers_sent ≡ false
    → st.call.send_err ≡ none
    → st.call.finished ≡ false
    → Ready (send_headers st ans)
unfolding send_headers write_response_headers_once
send_headers-Ready st ans i s e f =
    if_rule Ready st.call.initiator _ _ (λ _. unfold Ready in tt)
      λ _.
        if_rule Ready st.call.closed _ _ (λ _. unfold Ready in tt)
          λ _.
            if_rule Ready st.call.headers_sent _ _ (λ _. unfold Ready in tt)
              λ _.
                if_rule Ready st.call.finished _ _ (λ _. unfold Ready in tt)
                  (λ _. once-Ready st ans st.call.headers_done i s e f)

pub maybe_auto_headers-Ready :
    (st : State) (ans : Answer)
    → st.call.send_err ≡ none
    → st.call.initiator && st.call.half_closed ≡ false
    → not st.call.initiator && st.call.finished ≡ false
    → Ready (maybe_auto_headers st ans)
unfolding maybe_auto_headers
maybe_auto_headers-Ready st ans e h f =
    if_rule Ready st.call.initiator _ _
      (λ i. unfold Ready IsStreaming in (e, inl (i, ground (arith, h, i))))
      λ i.
        if_rule Ready st.call.headers_sent _ _
          (λ s. unfold Ready IsStreaming in (e, inr (i, s, ground (arith, f, i))))
          λ s. send_headers-Ready st ans i s e (ground (arith, f, i))

pub maybe_auto_headers-Safe :
    (st : State) (ans : Answer) → Sound st → Safe (maybe_auto_headers st ans)
unfolding maybe_auto_headers
maybe_auto_headers-Safe st ans o =
    if_rule Safe st.call.initiator _ _ (λ _. safe _ o)
      λ _. if_rule Safe st.call.headers_sent _ _ (λ _. safe _ o) (λ _. send_headers-Safe st ans o)
