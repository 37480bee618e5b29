-- ===== src/Server/Life/Once.antt =====
-- The sections of server/server.go in any order: what is served, and how often.
use argos.Base.{
  ◌⊎◌, Bool-cases, ℕ, ◌+◌, ◌≤◌, ◌<◌, ◌≡◌, refl, ◌∙◌, true, false, ◌||◌, if◌then◌else◌, List, [],
  ◌∷◌, Option, none, some, arith, inl, inr,
}
use argos.Base.Bytes.{Bytes}
use argos.Base.Result.{Result, ok, err, Result-cases}
use argos.Descriptor.{Service}
use argos.Options.{Options}
use argos.Server.{Gate, close_gate}
use argos.Server.Register.{Registry, RegisterError, register, entries, by_name}
use argos.Server.Life.{
  RunError, ListenReg, run_begin, build_listen_regs, Life, begin_run, abort_run, launch_run, spawn,
  listener_returns, end_run, close_run, shutdown,
}

pub data Move (F O H : Type 0) : Type 0 where
  registers : Service → List (Bytes × Option H) → Move F O H
  begins : Option (Options F O) → Move F O H
  launches_with : ℕ → Move F O H
  aborts spawns returns cancels ends closes shuts_down : Move F O H

module _ {H : Type 0} where
  abbrev pub registered : Life H → Result RegisterError (Registry H) → Life H
  registered l (ok s) = record l { registry = s }
  registered l (err e) = l

  abbrev pub begun : Life H → Result RunError (Registry H × List ListenReg) → Life H
  begun l (ok (s, rs)) = begin_run l s
  begun l (err e) = l

  -- Each `Run` that begins or launches belongs to the running one; what is served is what is
  -- registered, from the beginning of a `Run` on.
  pub record LifeInv (l : Life H) : Type 0 where
    pub one_run : l.starting + l.serving ≡ (if l.registry.running then 1 else 0)
    pub starts_fresh : 0 < l.starting → l.registry.ran ≡ false
    pub launched : l.launches ≡ (if l.registry.ran then 1 else 0)
    pub serves : l.registry.ran || l.registry.running ≡ true → l.served ≡ l.registry.routes
    pub shut : l.registry.stopped ≡ true → l.gate.closed ≡ true

  -- A registration is refused once a `Run` has begun, until it fails to start.
  register_idle :
      (s s' : Registry H) (d : Service) (hs : List (Bytes × Option H))
      → register s d hs ≡ ok s'
      → (s.ran || s.running ≡ false)
        × (s'.ran ≡ s.ran)
        × (s'.running ≡ s.running)
        × (s'.stopped ≡ s.stopped)
        × (s.stopped ≡ false)
  unfolding register
  register_idle s s' d hs h = elim (Result-cases (entries (by_name d.methods) hs)) [
    | inl (e, b) ↦ ground (arith, b)
    | inr (es, o) ↦ (
      ground (arith, o),
      ground (arith, o),
      ground (arith, o),
      ground (arith, o),
      ground (arith, o),
    )
  ]

  abbrev pub new_life : Gate → Life H
  new_life gate = record {
    registry = record { ran = false; running = false; stopped = false; routes = [] };
    gate = gate;
    cancellable = false;
    cancelled = false;
    starting = 0;
    serving = 0;
    closing = 0;
    to_spawn = 0;
    wg = 0;
    launches = 0;
    served = [];
  }

  new-LifeInv : (gate : Gate) → LifeInv (new_life gate)
  new-LifeInv gate = ground arith

  -- What the invariant says of the `Run`s.
  abbrev ServedOnce : Life H → Type 0
  ServedOnce l =
      (l.launches ≤ 1)
      × (l.starting + l.serving ≤ 1)
      × ((l.registry.ran || l.registry.running ≡ false) ⊎ (l.served ≡ l.registry.routes))

  LifeInv-ServedOnce : (l : Life H) → LifeInv l → ServedOnce l
  LifeInv-ServedOnce l v = (
    ground arith,
    ground arith,
    elim (Bool-cases (l.registry.ran || l.registry.running)) [
      | inl b ↦ inr (v.serves b)
      | inr b ↦ inl b
    ],
  )

  -- Behind `Shutdown` the server stays stopped, its gate closed, its routes as they are, and no Run
  -- is on its way that was not before.
  abbrev Downs : Life H → Life H → Type 0
  Downs l l' =
      (l'.registry.stopped ≡ true)
      × (l'.gate.closed ≡ true)
      × (l'.registry.routes ≡ l.registry.routes)
      × (l'.starting + l'.serving ≤ l.starting + l.serving)

module _ {F O H : Type 0} where
  unfoldable pub move : Move F O H → Life H → Life H
  move (registers d hs) l = registered l (register l.registry d hs)
  move (begins cfg) l = begun l (run_begin cfg l.registry)
  move (launches_with n) l = launch_run n l
  move aborts l = abort_run l
  move spawns l = spawn l
  move returns l = listener_returns l
  move cancels l = record l { cancelled = true }
  move ends l = end_run l
  move closes l = close_run l
  move shuts_down l = shutdown l

  unfoldable pub moves : List (Move F O H) → Life H → Life H
  moves [] l = l
  moves (m ∷ ms) l = moves ms (move m l)

  run_begin_idle :
      (cfg : Option (Options F O)) (s s' : Registry H) (rs : List ListenReg)
      → run_begin cfg s ≡ ok (s', rs)
      → (s.ran ≡ false)
        × (s.running ≡ false)
        × (s.stopped ≡ false)
        × (s' ≡ record s { running = true })
  unfolding run_begin
  run_begin_idle none s s' rs h = ground arith
  run_begin_idle (some cfg) s s' rs h = elim (Result-cases (build_listen_regs cfg s)) [
    | inl (e, b) ↦ ground (arith, b)
    | inr (regs, o) ↦ (ground (arith, o), ground (arith, o), ground (arith, o), ground (arith, o))
  ]

  move-LifeInv : (m : Move F O H) (l : Life H) → LifeInv l → LifeInv (move m l)
  unfolding move abort_run launch_run spawn listener_returns end_run close_run shutdown close_gate
  move-LifeInv (registers d hs) l v = elim (Result-cases (register l.registry d hs)) [
    | inl (e, b) ↦ ground (arith, b)
    | inr (s, o) ↦ ground (arith, o, register_idle l.registry s d hs o)
  ]
  move-LifeInv (begins cfg) l v = elim (Result-cases (run_begin cfg l.registry)) [
    | inl (e, b) ↦ ground (arith, b)
    | inr ((s, rs), o) ↦ ground (arith, o, run_begin_idle cfg l.registry s rs o)
  ]
  move-LifeInv (launches_with n) l v = ground arith
  move-LifeInv aborts l v = ground arith
  move-LifeInv spawns l v = ground arith
  move-LifeInv returns l v = ground arith
  move-LifeInv cancels l v = ground arith
  move-LifeInv ends l v = ground arith
  move-LifeInv closes l v = ground arith
  move-LifeInv shuts_down l v = ground arith

  moves-LifeInv : (ms : List (Move F O H)) (l : Life H) → LifeInv l → LifeInv (moves ms l)
  unfolding moves
  moves-LifeInv [] l v = v
  moves-LifeInv (m ∷ ms) l v = moves-LifeInv ms (move m l) (move-LifeInv m l v)

  -- However registrations, Runs, failures, listeners and Shutdowns interleave, from a new server on:
  -- one Run at most has launched listeners, one Run at most is on its way, and once a Run has
  -- begun, and not failed to start, the routes that are served are those that are registered.
  pub served_once :
      (gate : Gate) (ms : List (Move F O H))
      → let l = moves ms (new_life gate) in
        (l.launches ≤ 1)
        × (l.starting + l.serving ≤ 1)
        × ((l.registry.ran || l.registry.running ≡ false) ⊎ (l.served ≡ l.registry.routes))
  served_once gate ms =
      LifeInv-ServedOnce (moves ms (new_life gate))
        (moves-LifeInv ms (new_life gate) (new-LifeInv gate))

  move-Downs :
      (m : Move F O H) (l : Life H)
      → l.registry.stopped ≡ true
      → l.gate.closed ≡ true
      → Downs l (move m l)
  unfolding move abort_run launch_run spawn listener_returns end_run close_run shutdown close_gate
  move-Downs (registers d hs) l s g = elim (Result-cases (register l.registry d hs)) [
    | inl (e, b) ↦ ground (arith, b)
    | inr (r, o) ↦ ground (arith, o, register_idle l.registry r d hs o)
  ]
  move-Downs (begins cfg) l s g = elim (Result-cases (run_begin cfg l.registry)) [
    | inl (e, b) ↦ ground (arith, b)
    | inr ((r, rs), o) ↦ ground (arith, o, run_begin_idle cfg l.registry r rs o)
  ]
  move-Downs (launches_with n) l s g = ground arith
  move-Downs aborts l s g = ground arith
  move-Downs spawns l s g = ground arith
  move-Downs returns l s g = ground arith
  move-Downs cancels l s g = ground arith
  move-Downs ends l s g = ground arith
  move-Downs closes l s g = ground arith
  move-Downs shuts_down l s g = ground arith

  moves-Downs :
      (ms : List (Move F O H)) (l : Life H)
      → l.registry.stopped ≡ true
      → l.gate.closed ≡ true
      → Downs l (moves ms l)
  unfolding moves
  moves-Downs [] l s g = ground arith
  moves-Downs (m ∷ ms) l s g =
      let d = move-Downs m l s g in
      let e = moves-Downs ms (move m l) d.0 d.1 in (e.0, e.1, e.2 ∙ d.2, omega (arith, e.3, d.3))

  -- Once Shutdown has been called, whatever follows in whatever order, the server stays stopped, its
  -- gate stays closed, no service is added, and no further Run begins.
  pub shutdown_stays :
      (ms : List (Move F O H)) (l : Life H)
      → let l' = moves ms (shutdown l) in
        (l'.registry.stopped ≡ true)
        × (l'.gate.closed ≡ true)
        × (l'.registry.routes ≡ l.registry.routes)
        × (l'.starting + l'.serving ≤ l.starting + l.serving)
  unfolding shutdown close_gate
  shutdown_stays ms l = moves-Downs ms (shutdown l) refl refl
