-- ===== src/HttpUnary/Rest.antt =====
-- transport/httpunary/router_rest.go: bindings of methods to verbs and path patterns. Verbs and
-- patterns are ASCII. A map is ranged over in the order of its list. In `buildPath` and
-- `matchPattern` the first segment of a normalized pattern is empty: no variable, and equal to the
-- first of a path or not, like any other.
pub mod Matching
pub mod RoundTrip
use argos.Base.{
  ℕ, ◌-◌, ◌==◌, Bool, true, false, ◌||◌, ◌&&◌, leb, not, if◌then◌else◌, List, [], ◌∷◌, ◌++◌, map,
  Option, none, some,
}
use argos.Base.Bytes.{Bytes, codes, strip_prefix, trim_space, ◌===◌}
use argos.Base.Result.{Result, ok, err, ◌>>=◌}
use argos.Base.Split.{split}
use argos.Status.{Error, error, is_empty, internal, invalid_argument, not_found, unimplemented}
use argos.Metadata.{Metadata, values}
use argos.Descriptor.{Method}
use argos.HttpUnary.Headers.{Headers, content_type, encode_metadata}
use argos.HttpUnary.Router.{path_only}

pub record Binding : Type 0 where
  pub method : Method
  pub verb : Bytes
  pub pattern : Bytes

pub data BadBinding : Type 0 where
  no_bindings zero_method missing_verb missing_pattern duplicate_binding : BadBinding

-- `byMethod`: the last binding of each method.
abbrev pub Router : Type 0
Router = List (Bytes × Binding)

abbrev pub put {ℓ} : {A : Type ℓ} → Bytes → A → List (Bytes × A) → List (Bytes × A)
put k a [] = (k, a) ∷ []
put k a ((j, b) ∷ m) = if j === k then (k, a) ∷ m else (j, b) ∷ put k a m

abbrev pub seen : Bytes → List Bytes → Bool
seen k [] = false
seen k (j ∷ js) = j === k || seen k js

-- `strings.ToUpper` of an ASCII text.
abbrev pub upper : ℕ → ℕ
upper c = if leb 97 c && leb c 122 then c - 32 else c

abbrev pub to_upper : Bytes → Bytes
to_upper = map upper

-- `normalizePattern`.
abbrev pub rooted : Bytes → Bytes
rooted [] = []
rooted (c ∷ p) = if c == b'/' then c ∷ p else b'/' ∷ (c ∷ p)

unfoldable pub normalize_pattern : Bytes → Bytes
normalize_pattern p = rooted (trim_space p)

abbrev pub is_zero : Method → Bool
is_zero m = is_empty m.full_name && is_empty m.service && is_empty m.name && m.shape == 0

-- The loop of `newRESTRouter`, with the keys that it has seen.
abbrev pub add_bindings : Router → List Bytes → List Binding → Result BadBinding Router
add_bindings r keys [] = ok r
add_bindings r keys (b ∷ bs) =
    let verb = to_upper (trim_space b.verb) in
    let pat = normalize_pattern b.pattern in
    let key = verb ++ (b' ' ∷ pat) in
    let rest =
      add_bindings
        (put b.method.full_name (record { method = b.method; verb = verb; pattern = pat }) r)
        (key ∷ keys) bs in
    if is_zero b.method
    then err zero_method
    else if is_empty verb
    then err missing_verb
    else if is_empty pat
    then err missing_pattern
    else if seen key keys
    then err duplicate_binding
    else rest

-- `newRESTRouter`.
unfoldable pub new_rest_router : List Binding → Result BadBinding Router
new_rest_router [] = err no_bindings
new_rest_router (b ∷ bs) = add_bindings [] [] (b ∷ bs)

-- The name in a segment between braces.
abbrev pub prefixed : ℕ → Option Bytes → Option Bytes
prefixed c none = none
prefixed c (some s) = some (c ∷ s)

abbrev pub strip_last : ℕ → Bytes → Option Bytes
strip_last c [] = none
strip_last c (x ∷ []) = if x == c then some [] else none
strip_last c (x ∷ (y ∷ s)) = prefixed x (strip_last c (y ∷ s))

abbrev pub unbraced : Option Bytes → Option Bytes
unbraced none = none
unbraced (some s) = strip_last b'}' s

unfoldable pub variable_name : Bytes → Option Bytes
variable_name seg = unbraced (strip_prefix (b'{' ∷ []) seg)

abbrev pub path_var_prefix : Bytes
path_var_prefix = codes "x-argos-path-"

-- `out[key][0]`, or the empty text.
abbrev pub first_or_empty : List Bytes → Bytes
first_or_empty [] = []
first_or_empty (v ∷ vs) = v

abbrev pub variable_value : Metadata → Bytes → Bytes
variable_value out name = first_or_empty (values (path_var_prefix ++ name) out)

-- What `buildPath` writes for a segment, the slash before it left out.
abbrev pub filled : Metadata → Bytes → Option Bytes → Result Error Bytes
filled out seg none = ok seg
filled out seg (some name) =
    let v = variable_value out name in
    if is_empty name
    then ok seg
    else if is_empty v
    then err (
        error invalid_argument
          (codes "httpunary: missing path variable " ++ (name ++ codes " in metadata")))
    else ok v

unfoldable pub build_segments : Metadata → List Bytes → Result Error Bytes
build_segments out [] = ok []
build_segments out (seg ∷ segs) = filled out seg (variable_name seg) >>= λ v.
    build_segments out segs >>= λ rest. ok (b'/' ∷ (v ++ rest))

abbrev pub without_root : List Bytes → List Bytes
without_root [] = []
without_root (seg ∷ segs) = if is_empty seg then segs else seg ∷ segs

abbrev pub or_root : Bytes → Bytes
or_root p = if is_empty p then codes "/" else p

-- `buildPath`.
unfoldable pub build_path : Bytes → Metadata → Result Error Bytes
build_path pattern out =
    build_segments out (without_root (split b'/' (normalize_pattern pattern))) >>= λ p.
    ok (or_root p)

abbrev pub Vars : Type 0
Vars = List (Bytes × Bytes)

-- The loop of `matchPattern`, on the variables so far; it ends at once where the numbers of segments
-- differ.
unfoldable pub match_segments : Vars → List Bytes → List Bytes → Option Vars
match_segments vars [] [] = some vars
match_segments vars [] (t ∷ ts) = none
match_segments vars (p ∷ ps) [] = none
match_segments vars (p ∷ ps) (t ∷ ts) = elim (variable_name p) [
  | none ↦ if p === t then match_segments vars ps ts else none
  | some name ↦ if is_empty name then none else match_segments (put name t vars) ps ts
]

-- `matchPattern`.
unfoldable pub match_pattern : Bytes → Bytes → Option Vars
match_pattern pattern path =
    match_segments [] (split b'/' (normalize_pattern pattern)) (split b'/' (path_only path))

-- `applyPathVars`.
abbrev pub apply_path_vars : Vars → Metadata → Metadata
apply_path_vars [] md = md
apply_path_vars ((k, v) ∷ vars) md = apply_path_vars vars (put (path_var_prefix ++ k) (v ∷ []) md)

abbrev pub with_match : Option Vars → Binding → List Binding × Metadata → List Binding × Metadata
with_match none b r = r
with_match (some vars) b (bs, md) = (b ∷ bs, apply_path_vars vars md)

-- The loop of `ResolveAccept` over the bindings, the last of the list first.
unfoldable pub path_matches : Bytes → Metadata → Router → List Binding × Metadata
path_matches path md [] = ([], md)
path_matches path md ((k, b) ∷ r) =
    with_match (match_pattern b.pattern path) b (path_matches path md r)

abbrev pub route_not_found : Error
route_not_found = error not_found (codes "httpunary: route not found")

abbrev pub method_not_allowed : Error
method_not_allowed = error unimplemented (codes "httpunary: http method not allowed")

abbrev pub with_verb : Bytes → List Binding → Result Error Bytes
with_verb verb [] = err method_not_allowed
with_verb verb (b ∷ bs) = if b.verb === verb then ok b.method.full_name else with_verb verb bs

abbrev pub or_post : Bytes → Bytes
or_post m = if is_empty m then codes "POST" else m

abbrev pub chosen : Bytes → List Binding → Result Error Bytes
chosen verb [] = err route_not_found
chosen verb (b ∷ bs) = with_verb verb (b ∷ bs)

-- `ResolveAccept`: the metadata with the variables, and the full name of the method or why
-- the call is rejected.
unfoldable pub rest_resolve_accept :
    Router → Bytes → Bytes → Metadata → Metadata × Result Error Bytes
rest_resolve_accept r http_method target md =
    let found = path_matches (path_only target) md r in
    (found.1, chosen (or_post (to_upper (trim_space http_method))) found.0)

-- `verbAllowsBody` of a verb in upper case, and `BuildPreface`.
abbrev pub verb_allows_body : Bytes → Bool
verb_allows_body verb =
    not (verb === codes "GET" || verb === codes "HEAD" || verb === codes "DELETE")

pub record Preface : Type 0 where
  pub verb : Bytes
  pub target : Bytes
  pub headers : Headers

abbrev pub preface_of : Binding → Bytes → Metadata → Bytes → Preface
preface_of b codec out target = record {
  verb = b.verb;
  target = target;
  headers =
      (if verb_allows_body (to_upper b.verb)
        then (codes "content-type", content_type codec) ∷ []
        else [])
      ++ encode_metadata out;
}

abbrev pub find_binding : Bytes → Router → Option Binding
find_binding k [] = none
find_binding k ((j, b) ∷ r) = if j === k then some b else find_binding k r

unfoldable pub rest_build_preface : Router → Method → Bytes → Metadata → Result Error Preface
rest_build_preface r m codec out = elim (find_binding m.full_name r) [
  | none ↦ err (error internal (codes "httpunary: no REST binding for method " ++ m.full_name))
  | some b ↦ build_path b.pattern out >>= λ target. ok (preface_of b codec out target)
]
