-- ===== src/HttpUnary/Rest/RoundTrip.antt =====
-- The router of transport/httpunary/router_rest.go on what `BuildPreface` of the same binding wrote.
use argos.Base.{
  ◌≡◌, refl, ap, ◌∙◌, Bool, false, ◌||◌, if◌then◌else◌, List, [], ◌∷◌, ◌++◌, Option, none, some,
  arith, count, Bool-cases, Option-cases, inl, inr,
}
use argos.Base.Bytes.{Bytes, ◌===◌, ===_iff, ===_refl, trim_space}
use argos.Base.Result.{ok}
use argos.Base.Split.{split}
use argos.Status.{is_empty}
use argos.Metadata.{Metadata, values}
use argos.HttpUnary.Router.{path_only-append}
use argos.HttpUnary.Rest.{
  Binding, Router, put, to_upper, normalize_pattern, variable_name, variable_value, build_path,
  Vars, match_pattern, apply_path_vars, path_var_prefix, path_matches, or_post, chosen,
  rest_resolve_accept,
}
use argos.HttpUnary.Rest.Matching.{Ready, bound, match_pattern-build_path}

-- Whether a pattern has a variable of a name.
abbrev pub is_named : Bytes → Option Bytes → Bool
is_named k none = false
is_named k (some name) = name === k

unfoldable pub uses : Bytes → List Bytes → Bool
uses k [] = false
uses k (seg ∷ segs) = is_named k (variable_name seg) || uses k segs

abbrev pub has : Bytes → Vars → Bool
has k [] = false
has k ((j, v) ∷ vars) = j === k || has k vars

-- Each variable has its value of the metadata.
abbrev pub From : Metadata → Vars → Type 0
From out [] = Unit {0}
From out ((j, v) ∷ vars) = (v ≡ variable_value out j) × From out vars

has-put : (k j v : Bytes) (vars : Vars) → has k (put j v vars) ≡ (j === k || has k vars)
has-put k j v [] = refl
has-put k j v ((i, w) ∷ vars) =
    ground (arith, ===_iff i j, ===_iff i k, ===_iff j k, has-put k j v vars)

put-From :
    (out : Metadata) (j : Bytes) (vars : Vars)
    → From out vars
    → From out (put j (variable_value out j) vars)
put-From out j [] f = (refl, tt)
put-From out j ((i, w) ∷ vars) f = ground (arith, ===_iff i j, put-From out j vars)

has-bound :
    (out : Metadata) (k : Bytes) (segs : List Bytes) (vars : Vars)
    → has k (bound out segs vars) ≡ (uses k segs || has k vars)
unfolding bound uses
has-bound out k [] vars = refl
has-bound out k (seg ∷ segs) vars = elim (Option-cases (variable_name seg)) [
  | inl n ↦ ground (arith, n, has-bound out k segs vars)
  | inr (name, v) ↦ ground (
    arith,
    v,
    has-put k name (variable_value out name) vars,
    has-bound out k segs (put name (variable_value out name) vars),
  )
]

bound-From :
    (out : Metadata) (segs : List Bytes) (vars : Vars)
    → From out vars
    → From out (bound out segs vars)
unfolding bound
bound-From out [] vars f = f
bound-From out (seg ∷ segs) vars f = elim (Option-cases (variable_name seg)) [
  | inl n ↦ rw n (bound-From out segs vars f)
  | inr (name, v) ↦
      rw v
        (bound-From out segs (put name (variable_value out name) vars) (put-From out name vars f))
]

values-put :
    (k j : Bytes) (vs : List Bytes) (md : Metadata)
    → values k (put j vs md) ≡ (if j === k then vs else values k md)
unfolding values
values-put k j vs [] = refl
values-put k j vs ((i, ws) ∷ md) =
    ground (arith, ===_iff i j, ===_iff i k, ===_iff j k, values-put k j vs md)

values-apply_path_vars :
    (out : Metadata) (k : Bytes) (vars : Vars) (md : Metadata)
    → From out vars
    → values (path_var_prefix ++ k) (apply_path_vars vars md)
      ≡ (if has k vars then variable_value out k ∷ [] else values (path_var_prefix ++ k) md)
values-apply_path_vars out k [] md f = refl
values-apply_path_vars out k ((j, v) ∷ vars) md f =
    values-apply_path_vars out k vars (put (path_var_prefix ++ j) (v ∷ []) md) f.1
    ∙ elim (Bool-cases (j === k)) [
      | inl e ↦ ground (
        arith,
        e,
        (===_iff j k).0 e,
        f.0,
        values-put (path_var_prefix ++ k) (path_var_prefix ++ j) (v ∷ []) md,
      )
      | inr e ↦
          ground (arith, e, values-put (path_var_prefix ++ k) (path_var_prefix ++ j) (v ∷ []) md)
    ]

-- Bindings whose patterns do not match a path.
abbrev pub Unmatched : Bytes → Router → Type 0
Unmatched path [] = Unit {0}
Unmatched path ((k, b) ∷ r) = (match_pattern b.pattern path ≡ none) × Unmatched path r

path_matches-Unmatched :
    (path : Bytes) (md : Metadata) (r : Router)
    → Unmatched path r
    → path_matches path md r ≡ ([], md)
unfolding path_matches
path_matches-Unmatched path md [] u = refl
path_matches-Unmatched path md ((k, b) ∷ r) u =
    ground (arith, u.0, path_matches-Unmatched path md r u.1)

path_matches-only :
    (path : Bytes) (md : Metadata) (before after : Router) (k : Bytes) (b : Binding) (vars : Vars)
    → match_pattern b.pattern path ≡ some vars
    → Unmatched path before
    → Unmatched path after
    → path_matches path md (before ++ ((k, b) ∷ after)) ≡ (b ∷ [], apply_path_vars vars md)
unfolding path_matches
path_matches-only path md [] after k b vars m u w =
    ground (arith, m, path_matches-Unmatched path md after w)
path_matches-only path md ((j, c) ∷ before) after k b vars m u w =
    ground (arith, u.0, path_matches-only path md before after k b vars m u.1 w)

-- A request that `buildPath` made from the pattern of a binding, with any query, is resolved to the
-- binding's method, and the metadata then has, for each variable of the pattern, the value that it
-- had when the request was made, if the binding's verb is not empty, no other binding's pattern
-- matches the path, the path holds no question mark, and the variables have names, and values
-- without a slash; names under the prefix that are no variable of the pattern are left alone.
pub rest_resolve_accept-build_path :
    (out md : Metadata) (before after : Router) (b : Binding) (q target query http_method k : Bytes)
    → normalize_pattern b.pattern ≡ b'/' ∷ q
    → Ready out (split b'/' q)
    → build_path b.pattern out ≡ ok target
    → count b'?' target ≡ 0
    → to_upper (trim_space http_method) ≡ b.verb
    → is_empty b.verb ≡ false
    → Unmatched target before
    → Unmatched target after
    → let r = before ++ ((b.method.full_name, b) ∷ after) in
      let got = rest_resolve_accept r http_method (target ++ (b'?' ∷ query)) md in
      (got.1 ≡ ok b.method.full_name)
      × (values (path_var_prefix ++ k) got.0 ≡ (
          if uses k (split b'/' q)
          then variable_value out k ∷ []
          else values (path_var_prefix ++ k) md))
unfolding rest_resolve_accept
rest_resolve_accept-build_path out md before after b q target query http_method k n r h u v e ub
      ua =
    let m = match_pattern-build_path out b.pattern q target n r h u in
    let found =
      ap (λ x. path_matches x md (before ++ ((b.method.full_name, b) ∷ after)))
        (path_only-append target query u)
      ∙ path_matches-only target md before after b.method.full_name b _ m ub ua in
    (
      ap (λ x. chosen (or_post (to_upper (trim_space http_method))) x.0) found
          ∙ ground (arith, v, e, ===_refl b.verb),
      ap (λ x. values (path_var_prefix ++ k) x.1) found
          ∙ (values-apply_path_vars out k (bound out (split b'/' q) []) md
                (bound-From out (split b'/' q) [] tt)
              ∙ ground (arith, has-bound out k (split b'/' q) [])),
    )
