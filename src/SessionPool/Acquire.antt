-- ===== src/SessionPool/Acquire.antt =====
-- `acquire` of internal/sessionpool/pool.go, cut where it gives up the lock: up to the dial or the
-- wait, after the dial, and after the wait on another caller's dial.
use argos.Base.{ℕ, Bool, if◌then◌else◌, List, [], ◌∷◌, ◌++◌, none, some, contains, erase}
use argos.Base.Int.{is_neg}
use argos.SessionPool.State.{Pool, reserve, unreserve, at_cap, add_entry}
use argos.SessionPool.Lend.{try_lend}
use argos.SessionPool.Reclaim.{reclaim}

-- What the caller is told, or must do next. `retry` is `continue`.
pub data Outcome : Type 0 where
  lent : ℕ → Outcome
  exhausted pool_closed dial_error : Outcome
  dial wait retry : Outcome

-- With nothing to lend: wait on a flight, refuse, or reserve a place and dial.
unfoldable pub enter_empty : Pool → ℕ → Pool × Outcome
enter_empty p ep =
    if is_neg p.cap_per
    then (if contains ep p.flights
        then (p, wait)
        else if at_cap p ep
        then (p, exhausted)
        else (let q = reserve p ep in (record q { flights = ep ∷ p.flights }, dial)))
    else if at_cap p ep
    then (p, exhausted)
    else (reserve p ep, dial)

-- The first locked section.
unfoldable pub enter : Pool → ℕ → ℕ → (ℕ → Bool) → List ℕ → Pool × Outcome
enter p ep now reusable skip =
    if p.closed
    then (p, pool_closed)
    else (let q = reclaim p reusable now in
        elim (try_lend q ep now reusable skip) [
          | some (s, q') ↦ (q', lent s)
          | none ↦ enter_empty q ep
        ])

-- `retireFlight`, or the plain `pendingDial--` of the sequential path.
unfoldable pub retire : Pool → ℕ → Pool
retire p ep =
    let q = unreserve p ep in
    if is_neg p.cap_per then record q { flights = erase ep p.flights } else q

-- The dial failed, or panicked: the reservation is given back.
unfoldable pub dial_failed : Pool → ℕ → Pool × Outcome
dial_failed p ep = (retire p ep, if p.closed then pool_closed else dial_error)

-- The dial brought the connection `s`.
unfoldable pub dial_done : Pool → ℕ → ℕ → ℕ → Pool × Outcome
dial_done p ep s now =
    if p.closed
    then (let q = retire p ep in
        (record q { closed_conns = p.closed_conns ++ (s ∷ []) }, pool_closed))
    else (retire (add_entry p ep s now) ep, lent s)

-- A caller that waited on a flight wakes; the flag says whether the flight has an error, which the
-- caller gets: `dial_error` stands for it, be it the dial's or that the pool was closed.
unfoldable pub woken : Pool → ℕ → Bool → ℕ → (ℕ → Bool) → List ℕ → Pool × Outcome
woken p ep failed now reusable skip =
    if failed
    then (p, dial_error)
    else if p.closed
    then (p, pool_closed)
    else elim (try_lend p ep now reusable skip) [
      | some (s, q) ↦ (q, lent s)
      | none ↦ if at_cap p ep then (p, exhausted) else (p, retry)
    ]
