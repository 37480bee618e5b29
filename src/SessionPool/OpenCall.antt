-- ===== src/SessionPool/OpenCall.antt =====
-- `acquire` as one caller lives through it, and `OpenCall`, of internal/sessionpool/pool.go.
use argos.Base.{
  ◌≡◌, true, ap, Option-cases, inl, inr, ℕ, suc, ◌+◌, ◌≤◌, ◌<◌, ◌≢◌, refl, Bool, ◌&&◌, ltb, leb,
  if◌then◌else◌, List, [], ◌∷◌, ◌++◌, Option, none, some, arith, length, All, if_rule,
}
use argos.SessionPool.State.{Pool}
use argos.SessionPool.Lend.{release, try_lend}
use argos.SessionPool.Reclaim.{reclaim}
use argos.SessionPool.Acquire.{
  Outcome, lent, exhausted, pool_closed, dial_error, dial, wait, retry, enter, enter_empty,
  dial_failed, dial_done, woken,
}

-- One turn of the loop in `acquire`: what the caller finds at the lock, what the others do to the
-- pool while it has given the lock up, and how its dial, or the flight that it waits on, ends.
pub record Turn : Type 0 where
  pub now : ℕ
  pub reusable : ℕ → Bool
  pub others : Pool → Pool
  pub dialled : Option ℕ
  pub flight_failed : Bool
  pub cancelled : Bool
  pub later : ℕ

-- What the caller gets. `canceled` is `ctx.Err()`; `waiting` is a caller that has not come back
-- when the turns end.
pub data Acquired : Type 0 where
  session : ℕ → Acquired
  no_sessions shut dial_failure canceled waiting : Acquired

-- The turn's outcome, with `none` for another round of the loop.
settle : Outcome → Option Acquired
settle (lent s) = some (session s)
settle exhausted = some no_sessions
settle pool_closed = some shut
settle dial_error = some dial_failure
settle dial = none
settle wait = none
settle retry = none

-- What follows the first locked section.
after_enter : Turn → ℕ → List ℕ → Pool × Outcome → Pool × Option Acquired
unfolding settle
after_enter t ep skip (q, dial) = elim t.dialled [
  | none ↦ let r = dial_failed (t.others q) ep in (r.0, settle r.1)
  | some s ↦ let r = dial_done (t.others q) ep s t.later in (r.0, settle r.1)
]
after_enter t ep skip (q, wait) =
    if t.cancelled
    then (t.others q, some canceled)
    else (let r = woken (t.others q) ep t.flight_failed t.later t.reusable skip in
        (r.0, settle r.1))
after_enter t ep skip (q, o) = (q, settle o)

unfoldable pub acquire : List Turn → Pool → ℕ → List ℕ → Pool × Acquired
unfolding after_enter
acquire [] p ep skip = (p, waiting)
acquire (t ∷ ts) p ep skip =
    let r = after_enter t ep skip (enter p ep t.now t.reusable skip) in
    let again = acquire ts r.0 ep skip in elim r.1 [ some a ↦ (r.0, a) | none ↦ again ]

-- How `sess.OpenCall` ends: a call, `ErrConnBusy`, `ErrConnSpent`, or any other error.
pub data Opening : Type 0 where
  opens busy spent fails : Opening

-- One attempt of `OpenCall`: the turns of its `acquire`, the answer of the session that it gets,
-- and the time and state of the connections at the `Release` that follows a refusal.
pub record Attempt : Type 0 where
  pub turns : List Turn
  pub opening : Opening
  pub now : ℕ
  pub reusable : ℕ → Bool

-- What the caller of `OpenCall` gets. `unfinished` is a caller that has not come back when the
-- attempts end.
pub data Opened : Type 0 where
  call_on : ℕ → Opened
  sessions_exhausted closed_pool dial_refused context_done open_error unfinished : Opened

-- The sessions that this caller closes itself (the spent ones) go into the pool's log.
log_close : Pool → ℕ → Pool
log_close p s = record p { closed_conns = p.closed_conns ++ (s ∷ []) }

-- The loop, with the session skipped and released after `ErrConnBusy`, closed and released after
-- `ErrConnSpent`, and released after any other error.
abbrev Loop : Type 0
Loop = ℕ → List ℕ → Pool → Pool × Opened

open_on : Opening → Attempt → ℕ → ℕ → List ℕ → Pool → Loop → Pool × Opened
unfolding log_close
open_on opens a s attempt skip q loop = (q, call_on s)
open_on busy a s attempt skip q loop = loop (suc attempt) (s ∷ skip) (release q s a.now a.reusable)
open_on spent a s attempt skip q loop =
    loop (suc attempt) skip (release (log_close q s) s a.now a.reusable)
open_on fails a s attempt skip q loop = (release q s a.now a.reusable, open_error)

after_acquire : Attempt → ℕ → List ℕ → Pool × Acquired → Loop → Pool × Opened
unfolding open_on
after_acquire a attempt skip (q, session s) loop = open_on a.opening a s attempt skip q loop
after_acquire a attempt skip (q, no_sessions) loop = (q, sessions_exhausted)
after_acquire a attempt skip (q, shut) loop = (q, closed_pool)
after_acquire a attempt skip (q, dial_failure) loop = (q, dial_refused)
after_acquire a attempt skip (q, canceled) loop = (q, context_done)
after_acquire a attempt skip (q, waiting) loop = (q, unfinished)

-- `max > 0 && attempt >= max`.
abbrev pub spent_attempts : ℕ → ℕ → Bool
spent_attempts most attempt = ltb 0 most && leb most attempt

unfoldable pub open_loop : ℕ → ℕ → List Attempt → ℕ → List ℕ → Pool → Pool × Opened
unfolding after_acquire
open_loop most ep [] attempt skip p =
    if spent_attempts most attempt then (p, sessions_exhausted) else (p, unfinished)
open_loop most ep (a ∷ rest) attempt skip p =
    let go = after_acquire a attempt skip (acquire a.turns p ep skip) (open_loop most ep rest) in
    if spent_attempts most attempt then (p, sessions_exhausted) else go

unfoldable pub open_call : Pool → ℕ → List Attempt → Pool × Opened
open_call p ep attempts = open_loop p.cfg.max_sessions_per_endpoint ep attempts 0 [] p

-- Each `acquire` of the attempts comes back, whatever the pool looks like then.
abbrev pub ComesBack : ℕ → Attempt → Type 0
ComesBack ep a = (p : Pool) (skip : List ℕ) → (acquire a.turns p ep skip).1 ≢ waiting

open_on-ne-unfinished :
    (o : Opening) (a : Attempt) (s attempt : ℕ) (skip : List ℕ) (q : Pool) (loop : Loop)
    → ((skip' : List ℕ) (q' : Pool) → (loop (suc attempt) skip' q').1 ≢ unfinished)
    → (open_on o a s attempt skip q loop).1 ≢ unfinished
unfolding open_on
open_on-ne-unfinished opens a s attempt skip q loop h = λ e. cc
open_on-ne-unfinished busy a s attempt skip q loop h = h _ _
open_on-ne-unfinished spent a s attempt skip q loop h = h _ _
open_on-ne-unfinished fails a s attempt skip q loop h = λ e. cc

after_acquire-ne-unfinished :
    (a : Attempt) (attempt : ℕ) (skip : List ℕ) (q : Pool) (got : Acquired) (loop : Loop)
    → got ≢ waiting
    → ((skip' : List ℕ) (q' : Pool) → (loop (suc attempt) skip' q').1 ≢ unfinished)
    → (after_acquire a attempt skip (q, got) loop).1 ≢ unfinished
unfolding after_acquire
after_acquire-ne-unfinished a attempt skip q (session s) loop w h =
    open_on-ne-unfinished a.opening a s attempt skip q loop h
after_acquire-ne-unfinished a attempt skip q waiting loop w h = absurd (w refl)
after_acquire-ne-unfinished a attempt skip q _ loop w h = λ e. cc

open_loop-ne-unfinished :
    (most ep : ℕ) (attempts : List Attempt) (attempt : ℕ) (skip : List ℕ) (p : Pool)
    → 0 < most
    → most ≤ attempt + length attempts
    → All (ComesBack ep) attempts
    → (open_loop most ep attempts attempt skip p).1 ≢ unfinished
unfolding open_loop
open_loop-ne-unfinished most ep [] attempt skip p pos_most enough back =
    if_rule (λ (r : Pool × Opened). r.1 ≢ unfinished) (spent_attempts most attempt) _ _ (λ _ e. cc)
      λ n. absurd (ground arith)
open_loop-ne-unfinished most ep (a ∷ rest) attempt skip p pos_most enough back =
    if_rule (λ (r : Pool × Opened). r.1 ≢ unfinished) (spent_attempts most attempt) _ _ (λ _ e. cc)
      λ _.
        let got = acquire a.turns p ep skip in
        after_acquire-ne-unfinished a attempt skip got.0 got.1 (open_loop most ep rest)
          (back.0 p skip)
          λ skip' q'.
            open_loop-ne-unfinished most ep rest (suc attempt) skip' q' pos_most (omega arith)
              back.1

-- With MaxSessionsPerEndpoint positive, `OpenCall` ends within that many attempts, if each
-- `acquire` among them comes back: it does not go on however often sessions are busy or spent.
pub open_call_ends :
    (p : Pool) (ep : ℕ) (attempts : List Attempt)
    → 0 < p.cfg.max_sessions_per_endpoint
    → p.cfg.max_sessions_per_endpoint ≤ length attempts
    → All (ComesBack ep) attempts
    → (open_call p ep attempts).1 ≢ unfinished
unfolding open_call
open_call_ends p ep attempts h enough back =
    open_loop-ne-unfinished p.cfg.max_sessions_per_endpoint ep attempts 0 [] p h (omega arith) back

enter-ne-retry :
    (p : Pool) (ep now : ℕ) (reusable : ℕ → Bool) (skip : List ℕ)
    → (enter p ep now reusable skip).1 ≢ retry
unfolding enter enter_empty
enter-ne-retry p ep now reusable skip =
    ground (arith, Option-cases (try_lend (reclaim p reusable now) ep now reusable skip))

-- A turn that ends `acquire`, and with an answer.
abbrev Answered : Option Acquired → Type 0
Answered r = (r ≢ none) × (r ≢ some waiting)

-- Every outcome of the first section but `retry` settles the turn of a caller who does not wait.
after_enter-Answered :
    (t : Turn) (ep : ℕ) (skip : List ℕ) (q : Pool) (o : Outcome)
    → t.cancelled ≡ true
    → o ≢ retry
    → Answered (after_enter t ep skip (q, o)).1
unfolding after_enter settle dial_failed dial_done
after_enter-Answered t ep skip q dial h n = elim (Option-cases t.dialled) [
  | inl e ↦ (ground (arith, e), ground (arith, e))
  | inr (s, e) ↦ (ground (arith, e), ground (arith, e))
]
after_enter-Answered t ep skip q wait h n = (ground arith, ground arith)
after_enter-Answered t ep skip q retry h n = absurd (n refl)
after_enter-Answered t ep skip q _ h n = ((λ e. cc), λ e. cc)

-- A caller whose context is done comes back from `acquire` in its first turn, whatever the pool
-- looks like: with a session, or with an error.
pub acquire_cancelled :
    (t : Turn) (ts : List Turn) (p : Pool) (ep : ℕ) (skip : List ℕ)
    → t.cancelled ≡ true
    → (acquire (t ∷ ts) p ep skip).1 ≢ waiting
unfolding acquire
acquire_cancelled t ts p ep skip h =
    let x = enter p ep t.now t.reusable skip in
    let ends =
      after_enter-Answered t ep skip x.0 x.1 h (enter-ne-retry p ep t.now t.reusable skip) in
    answer (after_enter t ep skip x).1 (after_enter t ep skip x).0 (acquire ts _ ep skip) ends
  where
    answer :
        (o : Option Acquired) (q : Pool) (again : Pool × Acquired)
        → Answered o
        → (elim o as (λ _. Pool × Acquired) [ some a ↦ (q, a) | none ↦ again ]).1 ≢ waiting
    answer none q again n = absurd (n.0 refl)
    answer (some a) q again n = λ e. n.1 (ap some e)
