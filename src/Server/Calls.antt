-- ===== src/Server/Calls.antt =====
-- server/conn.go and server/statusmap.go: what the server does with one call and with a connection.
--
-- What the call, its handler and the carrier answer are arguments, and what the server does is a
-- list of acts in their order. Contexts are what `statusFromContext` reads of them. The calls of one
-- connection are handled one after another, as on a Sequential one.
pub mod Finishing
pub mod Connections
use argos.Base.{
  ℕ, suc, ◌-◌, ◌==◌, Bool, true, false, ◌&&◌, ◌||◌, not, ltb, if◌then◌else◌, List, [], ◌∷◌, ◌++◌,
  Option, none, some,
}
use argos.Base.Bytes.{Bytes, codes}
use argos.Base.Result.{Result, ok, err}
use argos.Status.{
  Code, Error, plain, status, caused, wraps, wraps_two, error, as_status, StatusError, code_of,
  text, unknown, canceled, unavailable, unimplemented, invalid_argument, deadline_exceeded,
  resource_exhausted,
}
use argos.Server.{lookup}

-- `errors.Is` for a target of `errors.New`, known by its identity.
unfoldable pub is_sentinel : ℕ → Error → Bool
is_sentinel n (plain i t) = i == n
is_sentinel n (status c m ds) = false
is_sentinel n (caused c m ds e) = is_sentinel n e
is_sentinel n (wraps t e) = is_sentinel n e
is_sentinel n (wraps_two t e f) = is_sentinel n e || is_sentinel n f

-- `context.Canceled`, `context.DeadlineExceeded`, and the causes of server/errors.go.
abbrev pub canceled_id : ℕ
canceled_id = 41

abbrev pub deadline_id : ℕ
deadline_id = 42

abbrev pub err_peer_gone : Error
err_peer_gone = plain 43 (codes "server: peer gone")

abbrev pub err_server_shutdown : Error
err_server_shutdown = plain 44 (codes "server: shutdown")

abbrev pub err_session_expired : Error
err_session_expired = plain 45 (codes "server: session expired")

-- A context: `none` while it is not done, and else its `Err` and its `Cause`.
abbrev pub Context : Type 0
Context = Option (Error × Error)

abbrev pub is_server_cause : Error → Bool
is_server_cause cause = is_sentinel 44 cause || (is_sentinel 43 cause || is_sentinel 45 cause)

module _ (shows : ℕ → Bytes) where
  -- `statusFromContext`.
  unfoldable pub status_from_context : Context → Option Error
  status_from_context none = none
  status_from_context (some (e, cause)) = some (
      error
        (if is_server_cause cause
          then unavailable
          else if is_sentinel deadline_id e
          then deadline_exceeded
          else if is_sentinel canceled_id e
          then canceled
          else unknown)
        (if is_server_cause cause then text shows cause else text shows e))

  abbrev pub or_handler : Option Error → Error → Option Error
  or_handler none e = some e
  or_handler (some mapped) e = some mapped

  -- `finishError`.
  unfoldable pub finish_error : Context → Option Error → Option Error
  finish_error ctx none = status_from_context ctx
  finish_error ctx (some e) =
      if is_sentinel canceled_id e || is_sentinel deadline_id e
      then or_handler (status_from_context ctx) e
      else some e

-- What the server does with a call. `NotifyCallError` is told the phase.
pub data Phase : Type 0 where
  phase_open phase_dispatch phase_finish : Phase

pub data Act : Type 0 where
  finishes : Option Error → Act
  notifies : Phase → Error → Act
  handles : Bytes → Act
  releases closes : Act

-- What a call meets: what `tryAdmit` answers, `Accept` of its method, the handler behind its filters
-- with the context as it stands then, and `Finish`.
pub record Meets : Type 0 where
  pub admit : Option Error
  pub accept : Option Error
  pub handler : Option Error
  pub context : Context
  pub finish : Option Error

abbrev pub told : Phase → Option Error → List Act
told p none = []
told p (some e) = notifies p e ∷ []

module _ (shows : ℕ → Bytes) where
  abbrev pub accept_error : Error → Error
  accept_error e = if code_of (some e) == unknown then error unimplemented (text shows e) else e

  -- `handleCall` behind `Accept`.
  unfoldable pub accepted : Bytes → Meets → Option Error → List Act
  accepted name w none =
      handles name
      ∷ (finishes (finish_error shows w.context w.handler) ∷ told phase_finish w.finish)
  accepted name w (some e) =
      finishes (some (accept_error e)) ∷ (notifies phase_dispatch (accept_error e) ∷ [])

  abbrev pub not_found_error : Bytes → Error
  not_found_error name = error unimplemented (codes "server: method not found: " ++ name)

  -- `handleCall` behind `lookup`.
  unfoldable pub dispatched {ℓ} : {R : Type ℓ} → Bytes → Meets → Option R → List Act
  dispatched name w none =
      finishes (some (not_found_error name)) ∷ (notifies phase_dispatch (not_found_error name) ∷ [])
  dispatched name w (some entry) = accepted name w w.accept

  -- `handleCall` once `tryAdmit` has answered, with the deferred `release`.
  unfoldable pub admitted {ℓ} :
      {R : Type ℓ} → List (Bytes × List (Bytes × R)) → Bytes → Meets → Option Error → List Act
  admitted routes name w (some e) = finishes (some e) ∷ (notifies phase_open e ∷ [])
  admitted routes name w none = dispatched name w (lookup routes name) ++ (releases ∷ [])

  -- `handleCall`, with the deferred `Close`.
  unfoldable pub handle_call {ℓ} :
      {R : Type ℓ} → List (Bytes × List (Bytes × R)) → Bytes → Meets → List Act
  handle_call routes name w = admitted routes name w w.admit ++ (closes ∷ [])

  -- The error that `handleRejected` finishes with.
  unfoldable pub rejected_error : Error → Error
  rejected_error e = elim (as_status e) [
    | none ↦ error invalid_argument (text shows e)
    | some se ↦ elim se.cause [
      | none ↦ status se.code se.msg se.details
      | some c ↦ caused se.code se.msg se.details c
    ]
  ]

  -- `handleRejected`, with or without a call.
  unfoldable pub handle_rejected : Bool → Error → List Act
  handle_rejected true e = finishes (some (rejected_error e)) ∷ (closes ∷ [])
  handle_rejected false e = []

-- What `AcceptCall` answers: a call; `ErrCallRejected`, with a call or without; `io.EOF`; another
-- error, by whether `acceptCtx` is done, and whether the connection is over its age.
pub data Answer : Type 0 where
  a_call : Bytes → Meets → Answer
  a_rejection : Bool → Error → Answer
  ends : Answer
  fails : Error → Bool → Bool → Answer

-- How the loop of `onConn` ends: the cause that it cancels the connection's context with, and the
-- error that it tells.
pub record Ending : Type 0 where
  pub cause : Option Error
  pub tells : Option Error

-- `waitCtx.Err() != nil`, behind `waitCancel()`.
abbrev pub wait_done : Bool
wait_done = true

-- The end of the loop for an error of its own.
unfoldable pub ending : Error → Bool → Bool → Ending
ending e accept_done aged =
    if accept_done || wait_done
    then record { cause = if aged then some err_session_expired else none; tells = none }
    else record { cause = some err_peer_gone; tells = some e }

module _ {ℓ} (shows : ℕ → Bytes) {R : Type ℓ} (routes : List (Bytes × List (Bytes × R))) where
  -- The loop of `onConn`, on the answers of `AcceptCall`; `none` if they run out.
  unfoldable pub serve : List Answer → List (List Act) × Option Ending
  serve [] = ([], none)
  serve (a_call name w ∷ acts) = let r = serve acts in (handle_call shows routes name w ∷ r.0, r.1)
  serve (a_rejection has e ∷ acts) = let r = serve acts in (handle_rejected shows has e ∷ r.0, r.1)
  serve (ends ∷ acts) = ([], some (record { cause = none; tells = none }))
  serve (fails e accept_done aged ∷ acts) = ([], some (ending e accept_done aged))

-- The count of `onConn`: a connection adds itself, looks at what it has added, and takes itself off
-- again, refused or served.
pub record Gauge : Type 0 where
  pub active : ℕ
  pub refused : ℕ
  pub served : ℕ

unfoldable pub arrive : ℕ → Gauge → Gauge
arrive max g =
    let n = suc g.active in
    if ltb 0 max && ltb max n
    then record { active = n; refused = suc g.refused; served = g.served }
    else record { active = n; refused = g.refused; served = suc g.served }

unfoldable pub leave_refused : Gauge → Gauge
leave_refused g =
    if g.refused == 0 then g else record g { active = g.active - 1; refused = g.refused - 1 }

unfoldable pub leave_served : Gauge → Gauge
leave_served g =
    if g.served == 0 then g else record g { active = g.active - 1; served = g.served - 1 }
