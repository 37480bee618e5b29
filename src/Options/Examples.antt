-- ===== src/Options/Examples.antt =====
-- Small inputs to the options of a client.
use argos.Base.{◌≡◌, refl, List, [], ◌∷◌, none, some, ℕ}
use argos.Base.Bytes.{codes}
use argos.Base.Int.{pos}
use argos.Options.{
  Options, ClientOption, with_client_options, with_service_name, with_codec, client_options,
  apply_all, apply_client, base_of, clone, validate, selected_service,
}
use argos.Options.Services.{ServiceOptions}
use argos.Options.Selection.{selection, selected_service-client_options}

abbrev no_options : Options ℕ ℕ
no_options = record {
  max_header_bytes = pos 0;
  max_concurrent_calls = pos 0;
  handshake_timeout = pos 0;
  max_inbound_conns = pos 0;
  max_inbound_conn_idle = pos 0;
  max_inbound_conn_age = pos 0;
  http_read_header_timeout = pos 0;
  http_idle_timeout = pos 0;
  listen_address = [];
  filters = [];
  open_filters = [];
  services = [];
  service_name = [];
  target_override = [];
  override_transport = none;
  override_codec = none;
}

abbrev greeter_stack : ServiceOptions
greeter_stack = record {
  transport = codes "tcp";
  codec = codes "proto";
  target = codes "ip://host:1";
  listen_address = [];
  listeners = [];
}

-- A base that has selected a target of its own.
abbrev shared_base : Options ℕ ℕ
shared_base = record no_options {
  services = (codes "a.B", greeter_stack) ∷ [];
  target_override = codes "ip://other:2";
}

abbrev two_codecs : List (ClientOption ℕ ℕ)
two_codecs =
    with_codec (codes "json")
    ∷ (with_service_name (codes "a.B")
        ∷ (with_client_options (some shared_base) ∷ (with_codec (codes "raw") ∷ [])))

abbrev two_codecs_options : Options ℕ ℕ
two_codecs_options = record no_options {
  services = (codes "a.B", greeter_stack) ∷ [];
  service_name = codes "a.B";
  override_codec = some (codes "raw");
}

selected_service-client_options_example :
    selected_service two_codecs_options ≡ selection no_options two_codecs
unfolding client_options apply_all apply_client base_of clone validate
selected_service-client_options_example =
    selected_service-client_options no_options two_codecs_options two_codecs refl

two_codecs_select :
    selected_service two_codecs_options
    ≡ (codes "a.B", record greeter_stack { codec = codes "raw" })
unfolding selected_service
two_codecs_select = refl
