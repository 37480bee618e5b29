-- ===== src/Server/Calls/Connections.antt =====
-- How many connections server/conn.go serves at once.
use argos.Base.{ℕ, ◌+◌, ◌≤◌, ◌<◌, ◌≡◌, refl, List, [], ◌∷◌, arith}
use argos.Server.Calls.{Gauge, arrive, leave_refused, leave_served}

-- A step of some connection: it comes, or it takes itself off, refused or served.
pub data Move : Type 0 where
  arrives leaves_refused leaves_served : Move

unfoldable pub move : ℕ → Gauge → Move → Gauge
move max g arrives = arrive max g
move max g leaves_refused = leave_refused g
move max g leaves_served = leave_served g

unfoldable pub moves : ℕ → Gauge → List Move → Gauge
moves max g [] = g
moves max g (m ∷ ms) = moves max (move max g m) ms

abbrev pub no_connections : Gauge
no_connections = record { active = 0; refused = 0; served = 0 }

-- The count is that of the connections that are there, and no more are served than the limit.
record GaugeInv (max : ℕ) (g : Gauge) : Type 0 where
  counted : g.active ≡ g.refused + g.served
  within : 0 < max → g.served ≤ max

move-GaugeInv : (max : ℕ) (g : Gauge) (m : Move) → GaugeInv max g → GaugeInv max (move max g m)
unfolding move arrive leave_refused leave_served
move-GaugeInv max g arrives v = ground arith
move-GaugeInv max g leaves_refused v = ground arith
move-GaugeInv max g leaves_served v = ground arith

moves-GaugeInv :
    (max : ℕ) (g : Gauge) (ms : List Move) → GaugeInv max g → GaugeInv max (moves max g ms)
unfolding moves
moves-GaugeInv max g [] v = v
moves-GaugeInv max g (m ∷ ms) v = moves-GaugeInv max (move max g m) ms (move-GaugeInv max g m v)

-- With MaxInboundConns positive, no more connections than that are served at once, in whatever order
-- connections come, look at the count and leave; and the count is that of the connections which have
-- come and not left, so that nothing is counted twice or forgotten.
pub served_within_limit :
    (max : ℕ) (ms : List Move)
    → 0 < max
    → (let g = moves max no_connections ms in (g.served ≤ max) × (g.active ≡ g.refused + g.served))
served_within_limit max ms h =
    let v =
      moves-GaugeInv max no_connections ms
        (record { counted = refl; within = λ _. ground arith }) in
    (v.within h, v.counted)
