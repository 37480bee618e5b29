-- ===== src/Server/Life.antt =====
-- server/server.go: what a server listens on, and the locked sections of `Run` and `Shutdown`. The
-- context of `Run` is not nil. `F` and `O` are the types of filters, `H` that of handlers.
pub mod Plans
pub mod Keys
pub mod Surfaces
pub mod Once
mod Examples
use argos.Base.{
  ℕ, suc, ◌+◌, ◌-◌, ◌==◌, Bool, true, false, ◌||◌, ◌&&◌, not, if◌then◌else◌, List, [], ◌∷◌, ◌++◌,
  Option, none, some,
}
use argos.Base.Bytes.{Bytes, ◌===◌, codes}
use argos.Base.Decimal.{decimal}
use argos.Base.Result.{Result, ok, err, ◌>>=◌}
use argos.Status.{is_empty}
use argos.Descriptor.{has_name}
use argos.Options.{Options}
use argos.Options.Services.{
  ServiceOptions, ServiceListenPlan, BadService, server_listen_plans, service_listen_key,
}
use argos.Server.{Gate, close_gate, find}
use argos.Server.Register.{RouteEntry, Registry}

pub data RunError : Type 0 where
  bad_options run_closed run_already_called no_registered_services : RunError
  unlisted : Bytes → RunError
  bad_listen : Bytes → BadService → RunError

-- `listenReg`; of its options, the address.
pub record ListenReg : Type 0 where
  pub stack : ServiceOptions
  pub listen_address : Bytes
  pub name : Bytes

abbrev pub reg_of : Bytes → Bytes → ℕ → ServiceListenPlan → ListenReg
reg_of listen svc i p = record {
  stack = p.stack;
  listen_address = if is_empty p.address then listen else p.address;
  name = svc ++ (b'-' ∷ decimal i);
}

-- The loop over the plans of a service, from the `i`th on: the keys seen behind it, and what it adds.
unfoldable pub add_plans :
    Bytes → Bytes → ℕ → List Bytes → List ServiceListenPlan → List Bytes × List ListenReg
add_plans listen svc i seen [] = (seen, [])
add_plans listen svc i seen (p ∷ ps) =
    let key = service_listen_key p.address p.stack in
    let skip = add_plans listen svc (suc i) seen ps in
    let rest = add_plans listen svc (suc i) (key ∷ seen) ps in
    if has_name key seen then skip else (rest.0, reg_of listen svc i p ∷ rest.1)

abbrev pub named_error {ℓ} : {A : Type ℓ} → Bytes → Result BadService A → Result RunError A
named_error svc (ok a) = ok a
named_error svc (err e) = err (bad_listen svc e)

-- The plans of one registered service.
abbrev pub plans_for :
    List (Bytes × ServiceOptions) → Bytes → Bytes → Result RunError (List ServiceListenPlan)
plans_for services listen svc = elim (find svc services) [
  | none ↦ err (unlisted svc)
  | some sc ↦ named_error svc (server_listen_plans sc listen)
]

-- The loop over the registered services.
unfoldable pub add_services :
    List (Bytes × ServiceOptions)
    → Bytes
    → List Bytes
    → List Bytes
    → Result RunError (List ListenReg)
add_services services listen seen [] = ok []
add_services services listen seen (svc ∷ svcs) = plans_for services listen svc >>= λ ps.
    let added = add_plans listen svc 0 seen ps in
    add_services services listen added.0 svcs >>= λ rest. ok (added.1 ++ rest)

abbrev pub keys_of {ℓ} : {A : Type ℓ} → List (Bytes × A) → List Bytes
keys_of [] = []
keys_of ((k, a) ∷ m) = k ∷ keys_of m

module _ {H : Type 0} where
  abbrev pub with_regs : Registry H → List ListenReg → Result RunError (Registry H × List ListenReg)
  with_regs s [] = err no_registered_services
  with_regs s (r ∷ rs) = ok (record s { running = true }, r ∷ rs)

module _ {F O H : Type 0} where
  -- `buildListenRegs`.
  unfoldable pub build_listen_regs : Options F O → Registry H → Result RunError (List ListenReg)
  build_listen_regs cfg s = add_services cfg.services cfg.listen_address [] (keys_of s.routes)

  -- `Run` up to where it gives the lock up; `cfg` is `none` for options that `New` has rejected.
  unfoldable pub run_begin :
      Option (Options F O) → Registry H → Result RunError (Registry H × List ListenReg)
  run_begin none s = err bad_options
  run_begin (some cfg) s =
      if s.stopped
      then err run_closed
      else if s.ran || s.running
      then err run_already_called
      else build_listen_regs cfg s >>= with_regs s

-- The server, and how far its `Run`s are: those that make their bindings, those that are going to
-- start `to_spawn` listeners or wait for them, and those that are about to close the gate. `wg` is
-- the WaitGroup of the listeners, `served` the clone of the routes that they serve.
pub record Life (H : Type 0) : Type 0 where
  pub registry : Registry H
  pub gate : Gate
  pub cancellable : Bool
  pub cancelled : Bool
  pub starting : ℕ
  pub serving : ℕ
  pub closing : ℕ
  pub to_spawn : ℕ
  pub wg : ℕ
  pub launches : ℕ
  pub served : List (Bytes × List (Bytes × RouteEntry H))

module _ {H : Type 0} where
  -- A `Run` that is let in.
  abbrev pub begin_run : Life H → Registry H → Life H
  begin_run l s = record l {
    registry = s;
    served = s.routes;
    starting = suc l.starting;
    cancellable = true;
    cancelled = false;
  }

  -- A `Run` whose bindings fail.
  unfoldable pub abort_run : Life H → Life H
  abort_run l = if l.starting == 0 then l else record l {
    registry = record l.registry { running = false };
    starting = l.starting - 1;
    cancellable = false;
    cancelled = true;
  }

  -- A `Run` that sets `ran`, with `n` listeners to start; the start of one; and its return.
  unfoldable pub launch_run : ℕ → Life H → Life H
  launch_run n l = if l.starting == 0 then l else record l {
    registry = record l.registry { ran = true };
    starting = l.starting - 1;
    serving = suc l.serving;
    launches = suc l.launches;
    to_spawn = n;
  }

  unfoldable pub spawn : Life H → Life H
  spawn l =
      if l.serving == 0 || l.to_spawn == 0
      then l
      else record l { to_spawn = l.to_spawn - 1; wg = suc l.wg }

  unfoldable pub listener_returns : Life H → Life H
  listener_returns l = record l { wg = l.wg - 1 }

  -- A `Run` whose context is done and whose listeners have returned; then it closes the gate.
  unfoldable pub end_run : Life H → Life H
  end_run l =
      if l.serving == 0 || not (l.to_spawn == 0) || not (l.wg == 0) || not l.cancelled
      then l
      else record l {
        registry = record l.registry { running = false };
        serving = l.serving - 1;
        closing = suc l.closing;
      }

  unfoldable pub close_run : Life H → Life H
  close_run l =
      if l.closing == 0 then l else record l { gate = close_gate l.gate; closing = l.closing - 1 }

  -- `Shutdown` up to its wait, and whether the wait is over, for one that saw `running`.
  unfoldable pub shutdown : Life H → Life H
  shutdown l = record l {
    registry = record l.registry { stopped = true };
    gate = close_gate l.gate;
    cancelled = l.cancelled || l.cancellable;
  }

  unfoldable pub shutdown_returns : Life H → Bool
  shutdown_returns l = l.wg == 0
