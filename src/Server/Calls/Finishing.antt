-- ===== src/Server/Calls/Finishing.antt =====
-- Every call that server/conn.go takes is finished once.
use argos.Base.{
  ℕ, ◌+◌, ◌≤◌, ◌≡◌, ◌≢◌, refl, Bool, true, false, ◌||◌, List, [], ◌∷◌, ◌++◌, Option, none, some,
  arith, inl, inr, if_rule, ◌⊎◌,
}
use argos.Base.Bytes.{Bytes}
use argos.Status.{Error, code_of, as_status, ok}
use argos.Server.{lookup}
use argos.Server.Calls.{
  is_sentinel, canceled_id, deadline_id, status_from_context, finish_error, Act, finishes, handles,
  releases, closes, Meets, accepted, dispatched, admitted, handle_call, handle_rejected, Answer,
  a_call, a_rejection, ends, fails, Ending, ending, err_session_expired, serve,
}

-- What a list of acts does, counted.
unfoldable pub finished : List Act → ℕ
finished [] = 0
finished (finishes e ∷ acts) = 1 + finished acts
finished (a ∷ acts) = finished acts

unfoldable pub released : List Act → ℕ
released [] = 0
released (releases ∷ acts) = 1 + released acts
released (a ∷ acts) = released acts

unfoldable pub handled : List Act → ℕ
handled [] = 0
handled (handles n ∷ acts) = 1 + handled acts
handled (a ∷ acts) = handled acts

-- The last act, and no other, closes.
unfoldable pub closes_last : List Act → Bool
closes_last [] = false
closes_last (closes ∷ []) = true
closes_last (closes ∷ (a ∷ acts)) = false
closes_last (a ∷ acts) = closes_last acts

abbrev pub slots : Option Error → ℕ
slots none = 1
slots (some e) = 0

-- One call: it is finished once, its close is the last act and the only one, the handler runs once at
-- most, and its slot is given back exactly if one was taken.
abbrev pub Complete : List Act → ℕ → Type 0
Complete acts n =
    (finished acts ≡ 1) × (closes_last acts ≡ true) × (handled acts ≤ 1) × (released acts ≡ n)

-- The closes of a list of acts, the calls that are offered before the connection ends, and the
-- finishes and closes of all that a connection has done.
unfoldable pub closed : List Act → ℕ
closed [] = 0
closed (closes ∷ acts) = 1 + closed acts
closed (a ∷ acts) = closed acts

unfoldable pub offered : List Answer → ℕ
offered [] = 0
offered (a_call name w ∷ answers) = 1 + offered answers
offered (a_rejection true e ∷ answers) = 1 + offered answers
offered (a_rejection false e ∷ answers) = offered answers
offered (a ∷ answers) = 0

abbrev pub total : (List Act → ℕ) → List (List Act) → ℕ
total f [] = 0
total f (acts ∷ rest) = f acts + total f rest

module _ {ℓ} (shows : ℕ → Bytes) {R : Type ℓ} (routes : List (Bytes × List (Bytes × R))) where
  accepted-Complete :
      (name : Bytes) (w : Meets) (a f : Option Error)
      → Complete
          ((accepted shows name (record w { finish = f }) a ++ (releases ∷ [])) ++ (closes ∷ []))
          1
  unfolding accepted finished released handled closes_last
  accepted-Complete name w none none = (refl, refl, omega arith, refl)
  accepted-Complete name w none (some e) = (refl, refl, omega arith, refl)
  accepted-Complete name w (some e) f = (refl, refl, omega arith, refl)

  dispatched-Complete :
      (name : Bytes) (w : Meets) (o : Option R)
      → Complete ((dispatched shows name w o ++ (releases ∷ [])) ++ (closes ∷ [])) 1
  unfolding dispatched finished released handled closes_last
  dispatched-Complete name w none = (refl, refl, omega arith, refl)
  dispatched-Complete name w (some r) = accepted-Complete name w w.accept w.finish

  admitted-Complete :
      (name : Bytes) (w : Meets) (a : Option Error)
      → Complete (admitted shows routes name w a ++ (closes ∷ [])) (slots a)
  unfolding admitted finished released handled closes_last
  admitted-Complete name w none = dispatched-Complete name w (lookup routes name)
  admitted-Complete name w (some e) = (refl, refl, omega arith, refl)

  -- Whatever a call meets, the server finishes it once, closes it as its last act and only then, runs
  -- the handler once at most, and gives a slot back exactly if the gate has admitted the call.
  pub handle_call-Complete :
      (name : Bytes) (w : Meets) → Complete (handle_call shows routes name w) (slots w.admit)
  unfolding handle_call
  handle_call-Complete name w = admitted-Complete name w w.admit

  accepted-closed :
      (name : Bytes) (w : Meets) (a f : Option Error)
      → closed
          ((accepted shows name (record w { finish = f }) a ++ (releases ∷ [])) ++ (closes ∷ []))
        ≡ 1
  unfolding accepted closed
  accepted-closed name w none none = refl
  accepted-closed name w none (some e) = refl
  accepted-closed name w (some e) f = refl

  dispatched-closed :
      (name : Bytes) (w : Meets) (o : Option R)
      → closed ((dispatched shows name w o ++ (releases ∷ [])) ++ (closes ∷ [])) ≡ 1
  unfolding dispatched closed
  dispatched-closed name w none = refl
  dispatched-closed name w (some r) = accepted-closed name w w.accept w.finish

  admitted-closed :
      (name : Bytes) (w : Meets) (a : Option Error)
      → closed (admitted shows routes name w a ++ (closes ∷ [])) ≡ 1
  unfolding admitted closed
  admitted-closed name w none = dispatched-closed name w (lookup routes name)
  admitted-closed name w (some e) = refl

  -- On a connection, whatever its peer does and however it ends, the server finishes each call that
  -- it is offered, admitted or rejected, once, and closes it once.
  pub serve_finishes_all :
      (answers : List Answer)
      → (total finished (serve shows routes answers).0 ≡ offered answers)
        × (total closed (serve shows routes answers).0 ≡ offered answers)
  unfolding serve handle_rejected handle_call offered finished closed
  serve_finishes_all [] = (refl, refl)
  serve_finishes_all (a_call name w ∷ answers) =
      let r = serve_finishes_all answers in
      let c = handle_call-Complete name w in
      let d = admitted-closed name w w.admit in (omega (arith, r.0, c.0), omega (arith, r.1, d))
  serve_finishes_all (a_rejection true e ∷ answers) =
      let r = serve_finishes_all answers in (omega (arith, r.0), omega (arith, r.1))
  serve_finishes_all (a_rejection false e ∷ answers) =
      let r = serve_finishes_all answers in (omega (arith, r.0), omega (arith, r.1))
  serve_finishes_all (ends ∷ answers) = (refl, refl)
  serve_finishes_all (fails e done aged ∷ answers) = (refl, refl)

-- How a connection may end.
abbrev pub Unnoticed : Option Ending → Type 0
Unnoticed none = Unit
Unnoticed (some e) = (e.tells ≡ none) × ((e.cause ≡ none) ⊎ (e.cause ≡ some err_session_expired))

module _ {ℓ} (shows : ℕ → Bytes) {R : Type ℓ} (routes : List (Bytes × List (Bytes × R))) where
  -- However AcceptCall fails, a connection that breaks included, the loop of onConn tells the observer
  -- nothing, and the cause that it cancels the connection's context with is none or that the
  -- connection is over its age: never that the peer has gone.
  pub serve-Unnoticed : (answers : List Answer) → Unnoticed (serve shows routes answers).1
  unfolding serve ending
  serve-Unnoticed [] = tt
  serve-Unnoticed (a_call name w ∷ answers) = serve-Unnoticed answers
  serve-Unnoticed (a_rejection has e ∷ answers) = serve-Unnoticed answers
  serve-Unnoticed (ends ∷ answers) = (refl, inl refl)
  serve-Unnoticed (fails e true true ∷ answers) = (refl, inr refl)
  serve-Unnoticed (fails e true false ∷ answers) = (refl, inl refl)
  serve-Unnoticed (fails e false true ∷ answers) = (refl, inr refl)
  serve-Unnoticed (fails e false false ∷ answers) = (refl, inl refl)

-- A handler that returns nil, or the error of a context.
abbrev pub NoOwnError : Option Error → Type 0
NoOwnError none = Unit
NoOwnError (some f) = is_sentinel canceled_id f || is_sentinel deadline_id f ≡ true

module _ (shows : ℕ → Bytes) where
  status_from_context_fails :
      (e cause : Error) → code_of (status_from_context shows (some (e, cause))) ≢ ok
  unfolding status_from_context code_of as_status
  status_from_context_fails e cause = ground arith

  -- A call whose context is done does not succeed: a handler that then returns nil, or the error of
  -- a context, finishes the call with a code that is not OK.
  pub finish_error_done :
      (e cause : Error) (h : Option Error)
      → NoOwnError h
      → code_of (finish_error shows (some (e, cause)) h) ≢ ok
  unfolding finish_error status_from_context
  finish_error_done e cause none d = status_from_context_fails e cause
  finish_error_done e cause (some f) d =
      if_rule (λ o. code_of o ≢ ok) (is_sentinel canceled_id f || is_sentinel deadline_id f) _ _
        (λ _. status_from_context_fails e cause) (λ n. absurd (ground (arith, d, n)))
