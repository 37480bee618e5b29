-- ===== src/HttpUnary/Examples.antt =====
-- Small inputs to transport/httpunary.
use argos.Base.{◌≡◌, refl, [], ◌++◌, ◌∷◌}
use argos.Base.Bytes.{codes}
use argos.Base.Result.{ok}
use argos.Descriptor.{Method}
use argos.Metadata.{Metadata, values}
use argos.Base.{if◌then◌else◌}
use argos.Base.Split.{split}
use argos.HttpUnary.Rest.{
  Binding, Router, normalize_pattern, build_path, build_segments, variable_name, variable_value,
  path_var_prefix, rest_resolve_accept,
}
use argos.HttpUnary.Rest.Matching.{Ready}
use argos.HttpUnary.Rest.RoundTrip.{uses, rest_resolve_accept-build_path}

abbrev item_method : Method
item_method = record {
  full_name = codes "a.B.Get";
  service = codes "a.B";
  name = codes "Get";
  shape = 0;
}

abbrev item_binding : Binding
item_binding = record { method = item_method; verb = codes "GET"; pattern = codes "/items/{id}" }

abbrev item_id : Metadata
item_id = (codes "x-argos-path-id", codes "7" ∷ []) ∷ []

abbrev item_router : Router
item_router = (codes "a.B.Get", item_binding) ∷ []

rest_resolve_accept-build_path_example :
    let got = rest_resolve_accept item_router (codes " get") (codes "/items/7?q=1") [] in
    (got.1 ≡ ok (codes "a.B.Get"))
    × (values (path_var_prefix ++ codes "id") got.0 ≡ (
        if uses (codes "id") (split b'/' (codes "items/{id}"))
        then variable_value item_id (codes "id") ∷ []
        else values (path_var_prefix ++ codes "id") []))
unfolding normalize_pattern build_path build_segments variable_name values Ready
rest_resolve_accept-build_path_example =
    rest_resolve_accept-build_path item_id [] [] [] item_binding (codes "items/{id}")
      (codes "/items/7") (codes "q=1") (codes " get") (codes "id") refl (tt, ((refl, refl), tt))
      refl refl refl refl tt tt
