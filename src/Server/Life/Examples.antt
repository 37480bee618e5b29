-- ===== src/Server/Life/Examples.antt =====
-- Small inputs to the surfaces and the runs of a server.
use argos.Base.{ℕ, ◌≤◌, ◌+◌, ◌≡◌, ◌⊎◌, refl, true, false, ◌||◌, List, [], ◌∷◌, none, some, All}
use argos.Base.Bytes.{Bytes, codes}
use argos.Base.Decimal.{decimal}
use argos.Base.Int.{pos}
use argos.Base.Result.{ok}
use argos.Descriptor.{Method, new_method, Service}
use argos.Options.{Options}
use argos.Options.Services.{
  ServiceListen, ServiceOptions, ServiceListenPlan, server_listen_plans, listener_plans,
}
use argos.Server.{Gate, close_gate}
use argos.Server.Register.{Registry, register, entries, all_handled}
use argos.Server.Life.{
  ListenReg, add_plans, add_services, build_listen_regs, plans_for, keys_of, shutdown, run_begin,
  abort_run, launch_run, spawn, listener_returns, end_run, close_run,
}
use argos.Server.Life.Plans.{Distinct}
use argos.Server.Life.Keys.{Exists, IsSurface}
use argos.Server.Life.Surfaces.{build_listen_regs-Distinct}
use argos.Server.Life.Once.{
  move, Move, registers, begins, launches_with, spawns, returns, aborts, shuts_down, ends, closes,
  moves, new_life, served_once, shutdown_stays,
}

abbrev tcp_at : Bytes → ServiceListen
tcp_at a = record { address = a; transport = codes "tcp"; codec = codes "proto" }

-- Two of the three listeners, one without an address, name one surface.
abbrev listens : ServiceOptions
listens = record {
  transport = [];
  codec = [];
  target = [];
  listen_address = [];
  listeners = tcp_at (codes ":1") ∷ (tcp_at [] ∷ (tcp_at (codes ":2") ∷ []));
}

abbrev listen_options : Options ℕ ℕ
listen_options = record {
  max_header_bytes = pos 0;
  max_concurrent_calls = pos 0;
  handshake_timeout = pos 0;
  max_inbound_conns = pos 0;
  max_inbound_conn_idle = pos 0;
  max_inbound_conn_age = pos 0;
  http_read_header_timeout = pos 0;
  http_idle_timeout = pos 0;
  listen_address = codes ":1";
  filters = [];
  open_filters = [];
  services = (codes "a.B", listens) ∷ [];
  service_name = [];
  target_override = [];
  override_transport = none;
  override_codec = none;
}

abbrev listen_registry : Registry ℕ
listen_registry = record {
  ran = false;
  running = false;
  stopped = false;
  routes = (codes "a.B", []) ∷ [];
}

abbrev tcp_stack : ServiceOptions
tcp_stack = record {
  transport = codes "tcp";
  codec = codes "proto";
  target = [];
  listen_address = [];
  listeners = [];
}

abbrev two_surfaces : List ListenReg
two_surfaces =
    (record { stack = tcp_stack; listen_address = codes ":1"; name = codes "a.B-0" })
    ∷ ((record { stack = tcp_stack; listen_address = codes ":2"; name = codes "a.B-2" }) ∷ [])

build_listen_regs-Distinct_example :
    Distinct two_surfaces
    × All
        (λ svc.
          (ps : List ServiceListenPlan) × ((plans_for listen_options.services
                listen_options.listen_address svc
              ≡ ok ps)
            × All (λ p. Exists (IsSurface p) two_surfaces) ps))
        (keys_of listen_registry.routes)
unfolding build_listen_regs add_services add_plans server_listen_plans listener_plans decimal
build_listen_regs-Distinct_example =
    build_listen_regs-Distinct listen_options listen_registry two_surfaces refl

abbrev one_gate : Gate
one_gate = record { taken = 0; size = 1; unlimited = false; closed = false }

abbrev hello : Method
hello = record { full_name = codes "a.B.Say"; service = codes "a.B"; name = codes "Say"; shape = 0 }

abbrev hellos : Service
hellos = record { full_name = codes "a.B"; methods = hello ∷ [] }

-- A service, a Run that fails to start, then one that starts a listener, and a Shutdown.
abbrev two_runs : List (Move ℕ ℕ ℕ)
two_runs =
    registers hellos ((codes "Say", some 9) ∷ [])
    ∷ (begins (some listen_options)
        ∷ (aborts
            ∷ (begins (some listen_options)
                ∷ (launches_with 2
                    ∷ (spawns
                        ∷ (shuts_down
                            ∷ (spawns ∷ (returns ∷ (returns ∷ (ends ∷ (closes ∷ [])))))))))))

served_once_example :
    let l = moves two_runs (new_life one_gate) in
    (l.launches ≤ 1)
    × (l.starting + l.serving ≤ 1)
    × ((l.registry.ran || l.registry.running ≡ false) ⊎ (l.served ≡ l.registry.routes))
served_once_example = served_once one_gate two_runs

shutdown_stays_example :
    let l = new_life one_gate in
    let l' = moves two_runs (shutdown l) in
    (l'.registry.stopped ≡ true)
    × (l'.gate.closed ≡ true)
    × (l'.registry.routes ≡ l.registry.routes)
    × (l'.starting + l'.serving ≤ l.starting + l.serving)
shutdown_stays_example = shutdown_stays two_runs (new_life one_gate)

two_runs_launch : (moves two_runs (new_life one_gate)).launches ≡ 1
unfolding moves move register entries all_handled new_method run_begin build_listen_regs
    add_services add_plans server_listen_plans listener_plans decimal abort_run launch_run spawn
    listener_returns end_run close_run shutdown close_gate
two_runs_launch = refl
