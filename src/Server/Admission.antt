-- ===== src/Server/Admission.antt =====
-- Calls that pass the gate of server/admit.go at once.
use argos.Base.{
  ℕ, suc, ◌+◌, ◌-◌, ◌≤◌, ◌<◌, ◌≡◌, Bool, true, false, if◌then◌else◌, ◌==◌, arith, List, [], ◌∷◌,
}
use argos.Server.{Gate, new_gate, admit_take, admit_recheck, admit_release, close_gate}

-- The gate, the callers between the take and the second look, and the calls admitted.
pub record Door : Type 0 where
  pub gate : Gate
  pub entering : ℕ
  pub inside : ℕ

pub data Move : Type 0 where
  takes rechecks releases closes : Move

-- A caller takes if it found the gate open before, maybe long before; the others move if there is
-- one to move.
taken_by : Door → Gate × Bool → Door
taken_by d (g, true) = record d { gate = g; entering = suc d.entering }
taken_by d (g, false) = record d { gate = g }

rechecked_by : Door → Gate × Bool → Door
rechecked_by d (g, true) = record { gate = g; entering = d.entering - 1; inside = suc d.inside }
rechecked_by d (g, false) = record d { gate = g; entering = d.entering - 1 }

pub move : Door → Move → Door
unfolding taken_by rechecked_by
move d takes = taken_by d (admit_take d.gate)
move d rechecks = if d.entering == 0 then d else rechecked_by d (admit_recheck d.gate)
move d releases =
    if d.inside == 0 then d else record d { gate = admit_release d.gate; inside = d.inside - 1 }
move d closes = record d { gate = close_gate d.gate }

pub moves : Door → List Move → Door
moves d [] = d
moves d (m ∷ ms) = moves (move d m) ms

abbrev pub opened : ℕ → Door
opened most = record { gate = new_gate most; entering = 0; inside = 0 }

-- Each token belongs to a caller on its way in or to an admitted call.
pub record DoorInv (most : ℕ) (d : Door) : Type 0 where
  pub counted : 0 < most → d.gate.taken ≡ d.entering + d.inside
  pub fits : d.gate.taken ≤ d.gate.size
  pub sized : d.gate.size ≡ most
  pub limited : 0 < most → d.gate.unlimited ≡ false

move-DoorInv : (most : ℕ) (d : Door) (m : Move) → DoorInv most d → DoorInv most (move d m)
unfolding move admit_take admit_recheck admit_release close_gate
move-DoorInv most d takes v = ground arith
move-DoorInv most d rechecks v = ground arith
move-DoorInv most d releases v = ground arith
move-DoorInv most d closes v = ground arith

moves-DoorInv : (most : ℕ) (d : Door) (ms : List Move) → DoorInv most d → DoorInv most (moves d ms)
unfolding moves
moves-DoorInv most d [] v = v
moves-DoorInv most d (m ∷ ms) v = moves-DoorInv most (move d m) ms (move-DoorInv most d m v)

opened-DoorInv : (most : ℕ) → DoorInv most (opened most)
unfolding new_gate
opened-DoorInv most = ground arith

-- With MaxConcurrentCalls positive, no more calls than that are admitted at once, however takes,
-- second looks, releases and a close interleave.
pub admitted_within_limit :
    (most : ℕ) (ms : List Move) → 0 < most → (moves (opened most) ms).inside ≤ most
admitted_within_limit most ms h =
    let v = moves-DoorInv most (opened most) ms (opened-DoorInv most) in
    ground (arith, v.counted, v.fits, v.sized)

move_shut :
    (d : Door) (m : Move)
    → d.gate.closed ≡ true
    → ((move d m).gate.closed ≡ true) × ((move d m).inside ≤ d.inside)
unfolding move admit_take admit_recheck admit_release close_gate
move_shut d takes h = ground arith
move_shut d rechecks h = ground arith
move_shut d releases h = ground arith
move_shut d closes h = ground arith

-- Once the gate is closed, no further call is admitted, not even one that had passed the first look.
pub shut_admits_none :
    (d : Door) (ms : List Move) → d.gate.closed ≡ true → (moves d ms).inside ≤ d.inside
unfolding moves
shut_admits_none d [] h = omega arith
shut_admits_none d (m ∷ ms) h =
    let (k, less) = move_shut d m h in omega (arith, less, shut_admits_none (move d m) ms k)
