-- ===== src/Options.antt =====
-- options.go and option.go: the options of a client or a server. `F` and `O` are the types of the
-- filters of a server and of a client. The observers, which are functions that only this package's
-- callers run, are left out. Copies are values here.
pub mod Services
pub mod Selection
mod Examples
use argos.Base.{Bool, true, false, if◌then◌else◌, List, [], ◌∷◌, ◌++◌, Option, none, some, ◌||◌}
use argos.Base.Bytes.{Bytes}
use argos.Base.Int.{ℤ, is_neg, pos}
use argos.Base.Result.{Result, ok, err, ◌>>=◌}
use argos.Status.{is_empty}
use argos.Server.{find}
use argos.Options.Services.{ServiceOptions, no_service}

module _ (F O : Type 0) where
  -- `Options`.
  pub record Options : Type 0 where
    pub max_header_bytes : ℤ
    pub max_concurrent_calls : ℤ
    pub handshake_timeout : ℤ
    pub max_inbound_conns : ℤ
    pub max_inbound_conn_idle : ℤ
    pub max_inbound_conn_age : ℤ
    pub http_read_header_timeout : ℤ
    pub http_idle_timeout : ℤ
    pub listen_address : Bytes
    pub filters : List F
    pub open_filters : List O
    pub services : List (Bytes × ServiceOptions)
    pub service_name : Bytes
    pub target_override : Bytes
    pub override_transport : Option Bytes
    pub override_codec : Option Bytes

  -- A `ClientOption`, which may be nil, and may hold a nil Options.
  pub data ClientOption : Type 0 where
    nil_option : ClientOption
    with_client_options : Option Options → ClientOption
    with_service_name with_target with_transport with_codec : Bytes → ClientOption
    with_open_filter : O → ClientOption
    with_max_header_bytes with_max_concurrent_calls with_handshake_timeout : ℤ → ClientOption

pub data BadOptions : Type 0 where
  nil_client_option negative : BadOptions

abbrev pub any_negative : List ℤ → Bool
any_negative [] = false
any_negative (n ∷ ns) = is_neg n || any_negative ns

abbrev pub or_named : Option Bytes → Bytes → Bytes
or_named none n = n
or_named (some m) n = m

abbrev pub or_service : Option ServiceOptions → ServiceOptions
or_service none = no_service
or_service (some sc) = sc

module _ {F O : Type 0} where
  -- `Clone`, which drops what one client has selected.
  unfoldable pub clone : Options F O → Options F O
  clone c = record c {
    service_name = [];
    target_override = [];
    override_transport = none;
    override_codec = none;
  }

  -- `applyClient`; a base and nil change nothing here.
  unfoldable pub apply_client : ClientOption F O → Options F O → Options F O
  apply_client nil_option c = c
  apply_client (with_client_options b) c = c
  apply_client (with_service_name n) c = record c { service_name = n }
  apply_client (with_target t) c = record c { target_override = t }
  apply_client (with_transport n) c = record c { override_transport = some n }
  apply_client (with_codec n) c = record c { override_codec = some n }
  apply_client (with_open_filter f) c = record c { open_filters = c.open_filters ++ (f ∷ []) }
  apply_client (with_max_header_bytes n) c = record c { max_header_bytes = n }
  apply_client (with_max_concurrent_calls n) c = record c { max_concurrent_calls = n }
  apply_client (with_handshake_timeout n) c = record c { handshake_timeout = n }

  -- The first loop of `ClientOptions`: the base, unless an option is nil.
  unfoldable pub base_of : Options F O → List (ClientOption F O) → Result BadOptions (Options F O)
  base_of base [] = ok base
  base_of base (nil_option ∷ os) = err nil_client_option
  base_of base (with_client_options (some b) ∷ os) = base_of b os
  base_of base (with_client_options none ∷ os) = base_of base os
  base_of base (with_service_name n ∷ os) = base_of base os
  base_of base (with_target n ∷ os) = base_of base os
  base_of base (with_transport n ∷ os) = base_of base os
  base_of base (with_codec n ∷ os) = base_of base os
  base_of base (with_open_filter n ∷ os) = base_of base os
  base_of base (with_max_header_bytes n ∷ os) = base_of base os
  base_of base (with_max_concurrent_calls n ∷ os) = base_of base os
  base_of base (with_handshake_timeout n ∷ os) = base_of base os

  unfoldable pub apply_all : List (ClientOption F O) → Options F O → Options F O
  apply_all [] c = c
  apply_all (o ∷ os) c = apply_all os (apply_client o c)

  -- `validate`; `fillDefaults` does nothing.
  unfoldable pub validate : Options F O → Result BadOptions (Options F O)
  validate c =
      if any_negative (
        c.max_header_bytes ∷ c.max_concurrent_calls ∷ c.handshake_timeout ∷ c.max_inbound_conns
        ∷ c.max_inbound_conn_idle ∷ c.max_inbound_conn_age ∷ c.http_read_header_timeout
        ∷ c.http_idle_timeout ∷ [])
      then err negative
      else ok c

  -- `ClientOptions`, with the process default.
  unfoldable pub client_options :
      Options F O → List (ClientOption F O) → Result BadOptions (Options F O)
  client_options default os = base_of default os >>= λ b. validate (apply_all os (clone b))

  -- `SelectedService`.
  unfoldable pub selected_service : Options F O → Bytes × ServiceOptions
  selected_service c =
      let sel = or_service (find c.service_name c.services) in
      (
        c.service_name,
        record sel {
          transport = or_named c.override_transport sel.transport;
          codec = or_named c.override_codec sel.codec;
          target = if is_empty c.target_override then sel.target else c.target_override;
        },
      )
