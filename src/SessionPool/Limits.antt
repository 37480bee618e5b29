-- ===== src/SessionPool/Limits.antt =====
-- The limits of internal/sessionpool/pool.go are those of `New` for good: no section writes them.
use argos.Base.{ℕ, ◌≡◌, refl, ◌∙◌, Bool, List, Option-cases, inl, inr, if_rule}
use argos.Base.Int.{is_neg}
use argos.SessionPool.State.{Config, Pool, new, unreserve, reserve, at_cap, add_entry}
use argos.SessionPool.Lend.{try_lend}
use argos.SessionPool.Reclaim.{reclaim, tick, close}
use argos.SessionPool.Acquire.{Outcome, enter_empty, enter, retire, dial_failed, dial_done, woken}
use argos.SessionPool.Frame.{Same, try_lend-Same, reclaim-Same, release-Same, add_entry-Same}
use argos.SessionPool.System.{
  Sys, Step, enters, fails, connects, wakes, releases, ticks, closes, Reach, here, next,
}
use argos.Base.{contains}

pub record Settled (cfg : Config) (p : Pool) : Type 0 where
  pub limits : p.cfg ≡ cfg
  pub per_conn : p.cap_per ≡ (new cfg).cap_per

module _ (cfg : Config) where
  Same-Settled : {p q : Pool} → Same p q → Settled cfg p → Settled cfg q
  Same-Settled s t = record { limits = s.cfg ∙ t.limits; per_conn = s.cap_per ∙ t.per_conn }

  abbrev Fixed : Pool × Outcome → Type 0
  Fixed r = Settled cfg r.0

  retire-Settled : (p : Pool) (ep : ℕ) → Settled cfg p → Settled cfg (retire p ep)
  unfolding retire unreserve
  retire-Settled p ep t =
      if_rule (Settled cfg) (is_neg p.cap_per) _ _
        (λ _. record { limits = t.limits; per_conn = t.per_conn })
        (λ _. record { limits = t.limits; per_conn = t.per_conn })

  enter_empty-Settled : (p : Pool) (ep : ℕ) → Settled cfg p → Fixed (enter_empty p ep)
  unfolding enter_empty reserve
  enter_empty-Settled p ep t =
      if_rule Fixed (is_neg p.cap_per) _ _
        (λ _.
          if_rule Fixed (contains ep p.flights) _ _ (λ _. t)
            λ _.
              if_rule Fixed (at_cap p ep) _ _ (λ _. t)
                λ _. record { limits = t.limits; per_conn = t.per_conn })
        λ _.
          if_rule Fixed (at_cap p ep) _ _ (λ _. t)
            λ _. record { limits = t.limits; per_conn = t.per_conn }

  enter-Settled :
      (p : Pool) (ep now : ℕ) (reusable : ℕ → Bool) (skip : List ℕ)
      → Settled cfg p
      → Fixed (enter p ep now reusable skip)
  unfolding enter
  enter-Settled p ep now reusable skip t =
      let q = reclaim p reusable now in
      let u : Settled cfg q = Same-Settled (reclaim-Same p reusable now) t in
      if_rule Fixed p.closed _ _ (λ _. t)
        λ _. elim (Option-cases (try_lend q ep now reusable skip)) [
          | inl n ↦ rw n (enter_empty-Settled q ep u)
          | inr ((s, q'), e) ↦ rw e (Same-Settled (try_lend-Same q ep now reusable skip s q' e) u)
        ]

  woken-Settled :
      (p : Pool) (ep : ℕ) (failed : Bool) (now : ℕ) (reusable : ℕ → Bool) (skip : List ℕ)
      → Settled cfg p
      → Fixed (woken p ep failed now reusable skip)
  unfolding woken
  woken-Settled p ep failed now reusable skip t =
      if_rule Fixed failed _ _ (λ _. t)
        λ _.
          if_rule Fixed p.closed _ _ (λ _. t)
            λ _. elim (Option-cases (try_lend p ep now reusable skip)) [
              | inl n ↦ rw n (if_rule Fixed (at_cap p ep) _ _ (λ _. t) (λ _. t))
              | inr ((s, q), e) ↦ rw e (Same-Settled (try_lend-Same p ep now reusable skip s q e) t)
            ]

  dial_done-Settled : (p : Pool) (ep s now : ℕ) → Settled cfg p → Fixed (dial_done p ep s now)
  unfolding dial_done
  dial_done-Settled p ep s now t =
      if_rule Fixed p.closed _ _
        (λ _. let u = retire-Settled p ep t in record { limits = u.limits; per_conn = u.per_conn })
        λ _. retire-Settled (add_entry p ep s now) ep (Same-Settled (add_entry-Same p ep s now) t)

  Step-Settled : {σ τ : Sys} → Step σ τ → Settled cfg σ.pool → Settled cfg τ.pool
  unfolding dial_failed tick close
  Step-Settled {σ} (enters ep now reusable skip) t = enter-Settled σ.pool ep now reusable skip t
  Step-Settled {σ} (fails ep h) t = retire-Settled σ.pool ep t
  Step-Settled {σ} (connects ep s now h fresh) t = dial_done-Settled σ.pool ep s now t
  Step-Settled {σ} (wakes ep failed now reusable skip) t =
      woken-Settled σ.pool ep failed now reusable skip t
  Step-Settled {σ} (releases s now reusable) t = Same-Settled (release-Same σ.pool s now reusable) t
  Step-Settled {σ} (ticks reusable now) t =
      if_rule (Settled cfg) σ.pool.closed _ _ (λ _. t)
        (λ _. Same-Settled (reclaim-Same σ.pool reusable now) t)
  Step-Settled {σ} closes t =
      if_rule (Settled cfg) σ.pool.closed _ _ (λ _. t)
        (λ _. record { limits = t.limits; per_conn = t.per_conn })

pub Reach-Settled : {cfg : Config} {σ : Sys} → Reach cfg σ → Settled cfg σ.pool
unfolding new
Reach-Settled here = record { limits = refl; per_conn = refl }
Reach-Settled {cfg} (next r s) = Step-Settled cfg s (Reach-Settled r)
