-- ===== src/Metadata/Gathered.antt =====
-- The values of metadata under a name, whatever the case of the keys.
use argos.Base.{
  ℕ, ◌≡◌, refl, ap, ◌∙◌, Bool, true, false, if◌then◌else◌, List, [], ◌∷◌, ◌++◌, arith, Bool-cases,
  inl, inr,
}
use argos.Base.Bytes.{lower, to_lower, Bytes, ◌===◌}
use argos.Metadata.{Metadata, values, append_values}
use argos.Metadata.Lifecycle.{values-append_values}
use mathlib.Core.List.{append_assoc}

-- The values of the keys that are `k` in lower case, in order.
unfoldable pub gathered : Bytes → Metadata → List Bytes
gathered k [] = []
gathered k ((j, vs) ∷ md) = if to_lower j === k then vs ++ gathered k md else gathered k md

lower-lower : (c : ℕ) → lower (lower c) ≡ lower c
lower-lower c = ground arith

pub to_lower_idem : (s : Bytes) → to_lower (to_lower s) ≡ to_lower s
to_lower_idem [] = refl
to_lower_idem (c ∷ s) =
    ap (λ x. x ∷ to_lower (to_lower s)) (lower-lower c) ∙ ap (◌∷◌ (lower c)) (to_lower_idem s)

-- The values that the headers of one name add to those of the name `k`.
abbrev pub added : Bytes → Bytes → List Bytes → List Bytes → List Bytes
added n k vs b = if n === k then vs ++ b else b

pub values-added :
    (k n v : Bytes) (vs b : List Bytes) (out : Metadata)
    → values k (append_values n (v ∷ []) out) ++ added n k vs b
      ≡ values k out ++ added n k (v ∷ vs) b
values-added k n v vs b out =
    rw (values-append_values k n (v ∷ []) out) (elim (Bool-cases (n === k)) [
      | inl e ↦ rw e (append_assoc (values k out) (v ∷ []) (vs ++ b))
      | inr e ↦ rw e refl
    ])

pub added-nil : (n k : Bytes) (b : List Bytes) → added n k [] b ≡ b
added-nil n k b = same (n === k)
  where
    same : (c : Bool) → (if c then b else b) ≡ b
    same true = refl
    same false = refl
