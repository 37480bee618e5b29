-- ===== src/Examples.antt =====
-- A small input to the admission gate of server/admit.go.
use argos.Base.{◌≤◌, [], ◌∷◌, arith}
use argos.Server.Admission.{takes, rechecks, moves, opened, admitted_within_limit}

admitted_within_limit_example :
    (moves (opened 1) (takes ∷ (rechecks ∷ (takes ∷ (rechecks ∷ []))))).inside ≤ 1
admitted_within_limit_example =
    admitted_within_limit 1 (takes ∷ (rechecks ∷ (takes ∷ (rechecks ∷ [])))) (omega arith)
