-- ===== src/HttpUnary/Router.antt =====
-- transport/httpunary/router_rpc.go: the request target of a method, and back.
use argos.Base.{
  ℕ, ◌≡◌, sym, ap, ◌∙◌, false, ◌||◌, if◌then◌else◌, [], ◌∷◌, ◌++◌, none, some, arith, count,
  count-append, ◌+◌,
}
use argos.Base.Bytes.{
  Bytes, strip_prefix, split_first, split_first-append, split_last, split_last-append,
}
use argos.Base.Result.{Result, ok, err}
use argos.Status.{is_empty}
use argos.Descriptor.{Method, new_method}
use argos.Descriptor.Names.{new_method-IsMethod}

-- `MethodPath`.
unfoldable pub method_path : Method → Bytes
method_path m = b'/' ∷ (m.service ++ (b'/' ∷ m.name))

pub data BadTarget : Type 0 where
  no_slash no_method empty_part : BadTarget

-- The target without its query.
unfoldable pub path_only : Bytes → Bytes
path_only target = elim (split_first b'?' target) [ none ↦ target | some (path, query) ↦ path ]

parse_rest : Bytes → Result BadTarget (Bytes × Bytes)
parse_rest rest = elim (split_last b'/' rest) [
  | none ↦ err no_method
  | some (service, name) ↦
      if is_empty service || is_empty name then err empty_part else ok (service, name)
]

parse_path : Bytes → Result BadTarget (Bytes × Bytes)
unfolding parse_rest
parse_path path = elim (strip_prefix (b'/' ∷ []) path) [
  | none ↦ err no_slash
  | some rest ↦ parse_rest rest
]

-- `ParseMethodPath`.
unfoldable pub parse_method_path : Bytes → Result BadTarget (Bytes × Bytes)
unfolding parse_path
parse_method_path target = parse_path (path_only target)

-- `ResolveAccept`: the full name of the method that a request target names. The error's text is
-- left out.
unfoldable pub resolve_accept : Bytes → Result BadTarget Bytes
resolve_accept target = elim (parse_method_path target) [
  | ok (service, name) ↦ ok (service ++ (b'.' ∷ name))
  | err e ↦ err e
]

-- The query after a path without a question mark is cut off.
pub path_only-append :
    (path query : Bytes) → count b'?' path ≡ 0 → path_only (path ++ (b'?' ∷ query)) ≡ path
unfolding path_only
path_only-append path query h = ground (arith, split_first-append b'?' path query h)

parse_path-join :
    (service name : Bytes)
    → count b'/' name ≡ 0
    → is_empty service ≡ false
    → is_empty name ≡ false
    → parse_path (b'/' ∷ (service ++ (b'/' ∷ name))) ≡ ok (service, name)
unfolding parse_path parse_rest
parse_path-join service name slash s n =
    ground (arith, split_last-append b'/' service name slash, s, n)

-- The path is unmarked where its parts are.
unmarked :
    (service name : Bytes)
    → count b'?' name + count b'?' service ≡ 0
    → count b'?' (b'/' ∷ (service ++ (b'/' ∷ name))) ≡ 0
unmarked service name h = omega (arith, count-append b'?' service (b'/' ∷ name))

resolve_accept-eq-ok :
    (target service name : Bytes)
    → parse_path (path_only target) ≡ ok (service, name)
    → resolve_accept target ≡ ok (service ++ (b'.' ∷ name))
unfolding resolve_accept parse_method_path
resolve_accept-eq-ok target service name h = ground (arith, h)

-- The target of a method that `NewMethod` built, with any query, resolves to the method's full
-- name, if the name of the method holds no slash, and neither it nor the service a question mark.
pub resolve_accept-method_path :
    (full query : Bytes) (shape : ℕ) (m : Method)
    → new_method full shape ≡ ok m
    → count b'/' m.name ≡ 0
    → count b'?' m.name + count b'?' m.service ≡ 0
    → resolve_accept (method_path m ++ (b'?' ∷ query)) ≡ ok full
unfolding method_path
resolve_accept-method_path full query shape m h slash mark =
    let v = (new_method-IsMethod full shape m h).0 in
    let path = b'/' ∷ (m.service ++ (b'/' ∷ m.name)) in
    resolve_accept-eq-ok _ m.service m.name (
      ap parse_path (path_only-append path query (unmarked m.service m.name mark))
      ∙ parse_path-join m.service m.name slash v.some_service v.some_name)
    ∙ ap ok (sym v.parts)
