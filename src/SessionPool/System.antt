-- ===== src/SessionPool/System.antt =====
-- Callers of internal/sessionpool/pool.go at once: the pool and the dials in flight. Each step is
-- one locked section, so a history is any interleaving of the goroutines.
use argos.Base.{ℕ, ◌≡◌, Bool, true, List, [], ◌∷◌, erase, contains}
use argos.SessionPool.State.{Config, Pool, new, bucket}
use argos.SessionPool.Lend.{release}
use argos.SessionPool.Reclaim.{tick, close}
use argos.SessionPool.Acquire.{Outcome, dial, enter, dial_failed, dial_done, woken}
use argos.SessionPool.Entries.{held}

pub record Sys : Type 0 where
  pub pool : Pool
  pub dials : List ℕ

abbrev pub start : Config → Sys
start cfg = record { pool = new cfg; dials = [] }

-- A caller that is told to dial does so.
abbrev pub owing : List ℕ → ℕ → Outcome → List ℕ
owing dials ep dial = ep ∷ dials
owing dials ep _ = dials

abbrev pub entered : Sys → ℕ → Pool × Outcome → Sys
entered σ ep r = record { pool = r.0; dials = owing σ.dials ep r.1 }

abbrev pub ended : Sys → ℕ → Pool × Outcome → Sys
ended σ ep r = record { pool = r.0; dials = erase ep σ.dials }

-- A dial brings a connection that the pool does not hold yet.
pub data Step (σ : Sys) : Sys → Type 0 where
  enters :
      (ep now : ℕ) (reusable : ℕ → Bool) (skip : List ℕ)
      → Step σ (entered σ ep (enter σ.pool ep now reusable skip))
  fails : (ep : ℕ) → contains ep σ.dials ≡ true → Step σ (ended σ ep (dial_failed σ.pool ep))
  connects :
      (ep s now : ℕ)
      → contains ep σ.dials ≡ true
      → ((k : ℕ) → held s (bucket σ.pool k).entries ≡ 0)
      → Step σ (ended σ ep (dial_done σ.pool ep s now))
  wakes :
      (ep : ℕ) (failed : Bool) (now : ℕ) (reusable : ℕ → Bool) (skip : List ℕ)
      → Step σ (record σ { pool = (woken σ.pool ep failed now reusable skip).0 })
  releases :
      (s now : ℕ) (reusable : ℕ → Bool) → Step σ (record σ { pool = release σ.pool s now reusable })
  ticks : (reusable : ℕ → Bool) (now : ℕ) → Step σ (record σ { pool = tick σ.pool reusable now })
  closes : Step σ (record σ { pool = close σ.pool })

pub data Reach (cfg : Config) : Sys → Type 0 where
  here : Reach cfg (start cfg)
  next : {σ τ : Sys} → Reach cfg σ → Step σ τ → Reach cfg τ
