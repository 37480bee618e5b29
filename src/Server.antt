-- ===== src/Server.antt =====
-- server/admit.go and the routing of server/conn.go.
pub mod Routing
pub mod Admission
pub mod Calls
pub mod Register
pub mod Life
mod Examples
use argos.Base.{
  ℕ, suc, ◌-◌, ◌==◌, Bool, true, false, ◌||◌, leb, ltb, if◌then◌else◌, List, [], ◌∷◌, Option, none,
  some,
}
use argos.Base.Bytes.{Bytes, ◌===◌, split_last}
use argos.Status.{is_empty}

-- `splitMethod`: `i <= 0` is no dot or an empty service, `i == len(full)-1` an empty name.
unfoldable pub split_method : Bytes → Option (Bytes × Bytes)
split_method full = elim (split_last b'.' full) [
  | none ↦ none
  | some (svc, name) ↦ if is_empty svc || is_empty name then none else some (svc, name)
]

-- `lookup` in a map of maps, here an association list of association lists.
abbrev pub find {ℓ} : {A : Type ℓ} → Bytes → List (Bytes × A) → Option A
find k [] = none
find k ((j, a) ∷ m) = if j === k then some a else find k m

unfoldable pub lookup {ℓ} : {R : Type ℓ} → List (Bytes × List (Bytes × R)) → Bytes → Option R
unfolding split_method
lookup routes full = elim (split_method full) [
  | none ↦ none
  | some (svc, name) ↦ elim (find svc routes) [ none ↦ none | some methods ↦ find name methods ]
]

-- `admitGate`: the channel `slots` is its number of tokens and its capacity.
pub record Gate : Type 0 where
  pub taken : ℕ
  pub size : ℕ
  pub unlimited : Bool
  pub closed : Bool

pub new_gate : ℕ → Gate
new_gate most =
    if leb most 0
    then record { taken = 0; size = 0; unlimited = true; closed = false }
    else record { taken = 0; size = most; unlimited = false; closed = false }

-- `tryAdmit` looks at `closed`, takes a token, and looks at `closed` again: three atomic sections.
-- The flag says whether the caller goes on.
unfoldable pub admit_check : Gate → Bool
admit_check g = if g.closed then false else true

unfoldable pub admit_take : Gate → Gate × Bool
admit_take g =
    if g.unlimited
    then (g, true)
    else if ltb g.taken g.size
    then (record g { taken = suc g.taken }, true)
    else (g, false)

-- The token is given back if the gate was closed meanwhile.
unfoldable pub admit_recheck : Gate → Gate × Bool
admit_recheck g =
    if g.closed
    then (if g.unlimited then (g, false) else (record g { taken = g.taken - 1 }, false))
    else (g, true)

-- `release`, the first time that it is called.
unfoldable pub admit_release : Gate → Gate
admit_release g = if g.unlimited then g else record g { taken = g.taken - 1 }

unfoldable pub close_gate : Gate → Gate
close_gate g = record g { closed = true }
