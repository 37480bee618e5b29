-- ===== src/Status/Details.antt =====
-- Codes and details of the errors of status/status.go.
use argos.Base.{
  ◌↔◌, ◌⊎◌, ℕ, ◌≡◌, Bool, true, List, ◌++◌, Option, none, some, arith, Option-cases, inl, inr,
}
use argos.Base.Bytes.{Bytes}
use argos.Status.{
  Error, Detail, StatusError, as_status, code_of, details_of, with_details, is_status, text,
  unknown,
}

-- What `errors.As` finds in the result of `WithDetails`.
extended : (ℕ → Bytes) → Error → List Detail → Option StatusError → StatusError
extended shows e ds none = record {
  code = unknown;
  msg = text shows e;
  details = ds;
  cause = some e;
}
extended shows e ds (some se) = record se { details = se.details ++ ds }

module _ (shows : ℕ → Bytes) where
  with_details-extended :
      (e : Error) (ds : List Detail)
      → as_status (with_details shows (some e) ds) ≡ some (extended shows e ds (as_status e))
  unfolding with_details extended as_status
  with_details-extended e ds = elim (Option-cases (as_status e)) [
    | inl n ↦ ground (arith, n)
    | inr (se, f) ↦ ground (arith, f)
  ]

  -- Attaching details keeps the code of an error, whatever wraps it, and appends to its details;
  -- an error that holds no status gets the code Unknown, which `CodeOf` gives it already.
  pub with_details_keeps :
      (e : Error) (ds : List Detail)
      → (code_of (some (with_details shows (some e) ds)) ≡ code_of (some e))
        × (details_of (some (with_details shows (some e) ds)) ≡ details_of (some e) ++ ds)
  unfolding code_of details_of extended
  with_details_keeps e ds = ground (arith, with_details-extended e ds)

-- `Is` on two plain status errors compares their codes alone; a sentinel matches no plain error,
-- and two errors with causes match only where the causes are one and the codes are too.
pub is_status_iff :
    (same : Error → Error → Bool) (e t : StatusError)
    → (is_status same e t ≡ true) ↔ (
        (e.code ≡ t.code)
        × (((e.cause ≡ none) × (t.cause ≡ none))
            ⊎ ((c : Error) × (d : Error) × (e.cause ≡ some c)
                × (t.cause ≡ some d)
                × (same c d ≡ true))))
unfolding is_status
is_status_iff same e t = ground arith
