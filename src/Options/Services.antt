-- ===== src/Options/Services.antt =====
-- service.go: the settings of one service, and where it listens.
use argos.Base.{◌||◌, if◌then◌else◌, List, [], ◌∷◌, ◌++◌}
use argos.Base.Bytes.{Bytes}
use argos.Base.Result.{Result, ok, err, ◌>>=◌}
use argos.Status.{is_empty}

-- `ServiceListen` and `ServiceOptions`.
pub record ServiceListen : Type 0 where
  pub address : Bytes
  pub transport : Bytes
  pub codec : Bytes

pub record ServiceOptions : Type 0 where
  pub transport : Bytes
  pub codec : Bytes
  pub target : Bytes
  pub listen_address : Bytes
  pub listeners : List ServiceListen

abbrev pub no_service : ServiceOptions
no_service = record { transport = []; codec = []; target = []; listen_address = []; listeners = [] }

pub record ServiceListenPlan : Type 0 where
  pub address : Bytes
  pub stack : ServiceOptions

pub data BadService : Type 0 where
  incomplete_stack missing_address : BadService

-- `checkComplete`, which lets the value through.
abbrev pub check_complete {ℓ} : {A : Type ℓ} → ServiceOptions → A → Result BadService A
check_complete sc a =
    if is_empty sc.transport || is_empty sc.codec then err incomplete_stack else ok a

abbrev pub or_fallback : Bytes → Bytes → Bytes
or_fallback addr fallback = if is_empty addr then fallback else addr

abbrev pub stack_of : ServiceListen → ServiceOptions
stack_of l = record {
  transport = l.transport;
  codec = l.codec;
  target = [];
  listen_address = [];
  listeners = [];
}

abbrev pub plan_at : ServiceOptions → Bytes → Result BadService ServiceListenPlan
plan_at sc addr =
    if is_empty addr then err missing_address else ok (record { address = addr; stack = sc })

abbrev pub listen_plan : ServiceOptions → Bytes → Result BadService ServiceListenPlan
listen_plan sc addr = check_complete sc addr >>= plan_at sc

-- The loop over the listeners.
unfoldable pub listener_plans :
    Bytes → List ServiceListen → Result BadService (List ServiceListenPlan)
listener_plans fallback [] = ok []
listener_plans fallback (l ∷ ls) =
    listen_plan (stack_of l) (or_fallback l.address fallback) >>= λ p.
    listener_plans fallback ls >>= λ ps. ok (p ∷ ps)

abbrev pub plans_of :
    ServiceOptions → Bytes → List ServiceListen → Result BadService (List ServiceListenPlan)
plans_of sc fallback [] =
    listen_plan sc (or_fallback sc.listen_address fallback) >>= λ p. ok (p ∷ [])
plans_of sc fallback (l ∷ ls) = listener_plans fallback (l ∷ ls)

-- `ServerListenPlans`.
unfoldable pub server_listen_plans :
    ServiceOptions → Bytes → Result BadService (List ServiceListenPlan)
server_listen_plans sc fallback = plans_of sc fallback sc.listeners

-- `ServiceListenKey`.
abbrev pub service_listen_key : Bytes → ServiceOptions → Bytes
service_listen_key addr sc = addr ++ (b'|' ∷ (sc.transport ++ (b'|' ∷ sc.codec)))
