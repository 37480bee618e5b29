-- ===== src/Grpc/Path.antt =====
-- transport/grpc/path.go.
use argos.Base.{
  ℕ, ◌≡◌, false, ◌||◌, if◌then◌else◌, [], ◌∷◌, ◌++◌, none, some, arith, count, Option-cases, inl,
  inr,
}
use argos.Base.Bytes.{Bytes, strip_prefix, split_last, split_last-append, split_last_join}
use argos.Base.Result.{Result, ok, err}
use argos.Status.{is_empty}
use argos.Descriptor.{Method, new_method}
use argos.Descriptor.Names.{new_method-IsMethod}

-- `MethodPath`.
unfoldable pub method_path : Method → Bytes
method_path m = b'/' ∷ (m.service ++ (b'/' ∷ m.name))

pub data BadPath : Type 0 where
  no_slash no_method empty_part : BadPath

-- `ParseMethodPath`.
unfoldable pub parse_rest : Bytes → Result BadPath (Bytes × Bytes)
parse_rest rest = elim (split_last b'/' rest) [
  | none ↦ err no_method
  | some (svc, name) ↦ if is_empty svc || is_empty name then err empty_part else ok (svc, name)
]

unfoldable pub parse_method_path : Bytes → Result BadPath (Bytes × Bytes)
unfolding parse_rest
parse_method_path path = elim (strip_prefix (b'/' ∷ []) path) [
  | none ↦ err no_slash
  | some rest ↦ parse_rest rest
]

-- The path of a method that `NewMethod` built parses back to its service and its name, if the name
-- holds no slash.
pub parse_method_path-method_path :
    (full : Bytes) (shape : ℕ) (m : Method)
    → new_method full shape ≡ ok m
    → count b'/' m.name ≡ 0
    → parse_method_path (method_path m) ≡ ok (m.service, m.name)
unfolding parse_method_path method_path
parse_method_path-method_path full shape m h slash =
    let v = (new_method-IsMethod full shape m h).0 in
    ground (arith, split_last-append b'/' m.service m.name slash, v.some_name, v.some_service)

-- A path that parses is a slash, the service, a slash and the name, and neither part is empty.
pub parse_method_path_sound :
    (path svc name : Bytes)
    → parse_method_path path ≡ ok (svc, name)
    → (path ≡ b'/' ∷ (svc ++ (b'/' ∷ name)))
      × (count b'/' name ≡ 0)
      × (is_empty svc ≡ false)
      × (is_empty name ≡ false)
unfolding parse_method_path
parse_method_path_sound [] svc name h = cc
parse_method_path_sound (c ∷ rest) svc name h = elim (Option-cases (split_last b'/' rest)) [
  | inl n ↦ absurd (ground (arith, n))
  | inr ((a, b), e) ↦ ground (arith, e, split_last_join b'/' rest a b e)
]
