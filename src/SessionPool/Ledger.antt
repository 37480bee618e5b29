-- ===== src/SessionPool/Ledger.antt =====
-- The reservations of internal/sessionpool/pool.go against the dials in flight.
use argos.Base.{
  ℕ, zero, suc, ◌-◌, ◌≤◌, ◌<◌, ◌≡◌, refl, sym, ap, ◌∙◌, Bool, true, false, List, [], ◌∷◌, arith,
  count, count-erase, contains, contains-count, erase, Option-cases, if_rule, inl, inr,
}
use argos.Base.Int.{pos, inc, dec, is_neg}
use argos.SessionPool.State.{Pool, bucket, reserve, unreserve, at_cap, add_entry}
use argos.SessionPool.Lend.{try_lend}
use argos.SessionPool.Reclaim.{reclaim, tick, close}
use argos.SessionPool.Acquire.{Outcome, enter_empty, enter, retire, dial_failed, dial_done, woken}
use argos.SessionPool.Entries.{bucket_of-put_bucket}
use argos.SessionPool.Frame.{add_entry-Same, Same, try_lend-Same, reclaim-Same}
use argos.SessionPool.System.{owing}

-- Each bucket has reserved one place for each dial to its endpoint; on a multiplexed pool, where
-- `capPer` is negative, the flights are those dials, one at most for each endpoint.
pub record Ledger (p : Pool) (dials : List ℕ) : Type 0 where
  pub reserved : p.closed ≡ false → (ep : ℕ) → (bucket p ep).pending_dial ≡ pos (count ep dials)
  pub flown :
      p.closed ≡ false → is_neg p.cap_per ≡ true → (ep : ℕ) → count ep p.flights ≡ count ep dials
  pub single : p.closed ≡ false → is_neg p.cap_per ≡ true → (ep : ℕ) → count ep dials ≤ 1

pub Same-Ledger : {p q : Pool} {dials : List ℕ} → Same p q → Ledger p dials → Ledger q dials
Same-Ledger s l = record {
  reserved = λ c ep. s.pending ep ∙ l.reserved (sym s.closed ∙ c) ep;
  flown = λ c m ep.
      ap (count ep) s.flights ∙ l.flown (sym s.closed ∙ c) (sym (ap is_neg s.cap_per) ∙ m) ep;
  single = λ c m. l.single (sym s.closed ∙ c) (sym (ap is_neg s.cap_per) ∙ m);
}

contains-count_zero : (a : ℕ) (xs : List ℕ) → contains a xs ≡ false → count a xs ≡ 0
contains-count_zero a [] h = refl
contains-count_zero a (x ∷ xs) h = ground (arith, contains-count_zero a xs)

dec-pos : (n : ℕ) → 0 < n → dec (pos n) ≡ pos (n - 1)
dec-pos zero h = elim h [ ]
dec-pos (suc n) h = ground arith

module _ (p : Pool) (ep : ℕ) (dials : List ℕ) (l : Ledger p dials) where
  reserve-reserved :
      p.closed ≡ false
      → (k : ℕ) → (bucket (reserve p ep) k).pending_dial ≡ pos (count k (ep ∷ dials))
  unfolding reserve
  reserve-reserved c k =
      let b = bucket p ep in
      ground (
        arith,
        l.reserved c k,
        l.reserved c ep,
        bucket_of-put_bucket ep k (record b { pending_dial = inc b.pending_dial }) p.buckets,
      )

  unreserve-reserved :
      p.closed ≡ false
      → contains ep dials ≡ true
      → (k : ℕ) → (bucket (unreserve p ep) k).pending_dial ≡ pos (count k (erase ep dials))
  unfolding unreserve
  unreserve-reserved c h k =
      let b = bucket p ep in
      ground (
        arith,
        l.reserved c k,
        l.reserved c ep,
        contains-count ep dials h,
        count-erase ep k dials,
        dec-pos (count ep dials) (contains-count ep dials h),
        bucket_of-put_bucket ep k (record b { pending_dial = dec b.pending_dial }) p.buckets,
      )

  retire-Ledger : contains ep dials ≡ true → Ledger (retire p ep) (erase ep dials)
  unfolding retire unreserve
  retire-Ledger h =
      if_rule (λ q. Ledger q (erase ep dials)) (is_neg p.cap_per) _ _
        (λ m. record {
          reserved = λ c. unreserve-reserved c h;
          flown = λ c n k.
              ground (arith, l.flown c n k, count-erase ep k dials, count-erase ep k p.flights);
          single = λ c n k. ground (arith, l.single c n k, count-erase ep k dials);
        })
        λ m. record {
          reserved = λ c. unreserve-reserved c h;
          flown = λ c n k. cc;
          single = λ c n k. cc;
        }

  enter_empty-Ledger : let r = enter_empty p ep in Ledger r.0 (owing dials ep r.1)
  unfolding enter_empty reserve
  enter_empty-Ledger =
      let P = λ (r : Pool × Outcome). Ledger r.0 (owing dials ep r.1) in
      if_rule P (is_neg p.cap_per) _ _
        (λ m.
          if_rule P (contains ep p.flights) _ _ (λ _. l)
            λ absent.
              if_rule P (at_cap p ep) _ _ (λ _. l)
                λ _. record {
                  reserved = λ c. reserve-reserved c;
                  flown = λ c n k. ground (arith, l.flown c n k);
                  single = λ c n k. ground (
                    arith,
                    l.single c n k,
                    l.flown c n ep,
                    contains-count_zero ep p.flights absent,
                  );
                })
        λ m.
          if_rule P (at_cap p ep) _ _ (λ _. l)
            λ _. record {
              reserved = λ c. reserve-reserved c;
              flown = λ c n k. cc;
              single = λ c n k. cc;
            }

module _ (p : Pool) (ep : ℕ) (dials : List ℕ) (l : Ledger p dials) where
  pub enter-Ledger :
      (now : ℕ) (reusable : ℕ → Bool) (skip : List ℕ)
      → let r = enter p ep now reusable skip in Ledger r.0 (owing dials ep r.1)
  unfolding enter
  enter-Ledger now reusable skip =
      let P = λ (r : Pool × Outcome). Ledger r.0 (owing dials ep r.1) in
      let q = reclaim p reusable now in
      let w : Ledger q dials = Same-Ledger (reclaim-Same p reusable now) l in
      if_rule P p.closed _ _ (λ _. l)
        λ _. elim (Option-cases (try_lend q ep now reusable skip)) [
          | inl n ↦ rw n (enter_empty-Ledger q ep dials w)
          | inr ((s, q'), e) ↦ rw e (Same-Ledger (try_lend-Same q ep now reusable skip s q' e) w)
        ]

  pub woken-Ledger :
      (failed : Bool) (now : ℕ) (reusable : ℕ → Bool) (skip : List ℕ)
      → Ledger (woken p ep failed now reusable skip).0 dials
  unfolding woken
  woken-Ledger failed now reusable skip =
      let P = λ (r : Pool × Outcome). Ledger r.0 dials in
      if_rule P failed _ _ (λ _. l)
        λ _.
          if_rule P p.closed _ _ (λ _. l)
            λ _. elim (Option-cases (try_lend p ep now reusable skip)) [
              | inl n ↦ rw n (if_rule P (at_cap p ep) _ _ (λ _. l) (λ _. l))
              | inr ((s, q), e) ↦ rw e (Same-Ledger (try_lend-Same p ep now reusable skip s q e) l)
            ]

  pub dial_failed-Ledger : contains ep dials ≡ true → Ledger (dial_failed p ep).0 (erase ep dials)
  unfolding dial_failed
  dial_failed-Ledger h = retire-Ledger p ep dials l h

  pub dial_done-Ledger :
      (s now : ℕ) → contains ep dials ≡ true → Ledger (dial_done p ep s now).0 (erase ep dials)
  unfolding dial_done
  dial_done-Ledger s now h =
      if_rule (λ (r : Pool × Outcome). Ledger r.0 (erase ep dials)) p.closed _ _
        (λ _.
          let w = retire-Ledger p ep dials l h in
          record { reserved = w.reserved; flown = w.flown; single = w.single })
        λ _.
          retire-Ledger (add_entry p ep s now) ep dials (Same-Ledger (add_entry-Same p ep s now) l)
            h

pub close-Ledger : (p : Pool) (dials : List ℕ) → Ledger p dials → Ledger (close p) dials
unfolding close
close-Ledger p dials l =
    if_rule (λ q. Ledger q dials) p.closed _ _ (λ _. l)
      λ _. record { reserved = λ c. cc; flown = λ c. cc; single = λ c. cc }

pub tick-Ledger :
    (p : Pool) (reusable : ℕ → Bool) (now : ℕ) (dials : List ℕ)
    → Ledger p dials
    → Ledger (tick p reusable now) dials
unfolding tick
tick-Ledger p reusable now dials l =
    if_rule (λ q. Ledger q dials) p.closed _ _ (λ _. l)
      λ _. Same-Ledger (reclaim-Same p reusable now) l
