-- ===== src/HttpUnary/Rest/Matching.antt =====
-- Path patterns of transport/httpunary/router_rest.go: what `buildPath` writes, `matchPattern` reads.
use argos.Base.{
  ℕ, ◌==◌, ◌≡◌, refl, sym, ap, ◌∙◌, false, List, [], ◌∷◌, ◌++◌, Option, none, some, arith, All,
  count, length, ◌<◌, Bool-cases, Option-cases, inl, inr,
}
use mathlib.Core.Path.{subst}
use argos.Base.Bytes.{Bytes, ===_refl, split_first-none}
use argos.Base.Result.{ok, ◌>>=◌, Result-cases}
use argos.Base.Split.{split, Lacks, split-Lacks, split-pos}
use argos.Status.{is_empty}
use argos.Metadata.{Metadata}
use argos.HttpUnary.Router.{path_only}
use argos.HttpUnary.Rest.{
  put, normalize_pattern, rooted, variable_name, variable_value, filled, build_segments,
  without_root, or_root, build_path, Vars, match_segments, match_pattern,
}

-- What a segment of a pattern stands for.
abbrev pub text_of : Metadata → Bytes → Option Bytes → Bytes
text_of out seg none = seg
text_of out seg (some name) = variable_value out name

unfoldable pub texts : Metadata → List Bytes → List Bytes
texts out [] = []
texts out (seg ∷ segs) = text_of out seg (variable_name seg) ∷ texts out segs

-- A variable has a name, and its value no slash.
abbrev pub ReadyAt : Metadata → Option Bytes → Type 0
ReadyAt out none = Unit {0}
ReadyAt out (some name) = (is_empty name ≡ false) × Lacks b'/' (variable_value out name)

unfoldable pub Ready : Metadata → List Bytes → Type 0
Ready out [] = Unit {0}
Ready out (seg ∷ segs) = ReadyAt out (variable_name seg) × Ready out segs

abbrev pub bind_variable : Metadata → Option Bytes → Vars → Vars
bind_variable out none vars = vars
bind_variable out (some name) vars = put name (variable_value out name) vars

-- The variables of a pattern with their values, onto others.
unfoldable pub bound : Metadata → List Bytes → Vars → Vars
bound out [] vars = vars
bound out (seg ∷ segs) vars = bound out segs (bind_variable out (variable_name seg) vars)

split-append :
    (c : ℕ) (v rest : Bytes) (ts : List Bytes)
    → Lacks c v
    → split c rest ≡ [] ∷ ts
    → split c (v ++ rest) ≡ v ∷ ts
split-append c [] rest ts l h = h
split-append c (x ∷ v) rest ts l h = ground (arith, split-append c v rest ts)

split-segment :
    (p v rest : Bytes) (ts : List Bytes)
    → p ≡ b'/' ∷ (v ++ rest)
    → Lacks b'/' v
    → split b'/' rest ≡ [] ∷ ts
    → split b'/' p ≡ [] ∷ (v ∷ ts)
split-segment p v rest ts e l h =
    ap (split b'/') e ∙ ap (λ x. [] ∷ x) (split-append b'/' v rest ts l h)

split-build_segments :
    (out : Metadata) (segs : List Bytes) (p : Bytes)
    → build_segments out segs ≡ ok p
    → All (Lacks b'/') segs
    → Ready out segs
    → split b'/' p ≡ [] ∷ texts out segs
unfolding build_segments texts Ready
split-build_segments out [] p h l r = ground arith
split-build_segments out (seg ∷ segs) p h l r = elim (Result-cases (build_segments out segs)) [
  | inl (e, b) ↦ elim (Option-cases (variable_name seg)) [
    | inl n ↦ ground (arith, b, n)
    | inr (name, v) ↦ ground (arith, b, v)
  ]
  | inr (rest, o) ↦
      let ih = split-build_segments out segs rest o l.1 r.1 in
      elim (Option-cases (variable_name seg)) [
        | inl n ↦ rw n (split-segment p seg rest (texts out segs) (ground (arith, o, n)) l.0 ih)
        | inr (name, v) ↦
            let ready : ReadyAt out (some name) = subst (ReadyAt out) v r.0 in
            rw v (
              split-segment p (variable_value out name) rest (texts out segs) (ground (arith, o, v))
                ready.1 ih)
      ]
]

match_segments-texts :
    (out : Metadata) (vars : Vars) (segs : List Bytes)
    → Ready out segs
    → match_segments vars segs (texts out segs) ≡ some (bound out segs vars)
unfolding match_segments texts Ready bound
match_segments-texts out vars [] r = refl
match_segments-texts out vars (seg ∷ segs) r = elim (Option-cases (variable_name seg)) [
  | inl n ↦ ground (arith, n, ===_refl seg, match_segments-texts out vars segs r.1)
  | inr (name, v) ↦
      ground (arith, v, match_segments-texts out (put name (variable_value out name) vars) segs r.1)
]

rooted-cons : (p : Bytes) → is_empty (rooted p) ≡ false → (q : Bytes) × (rooted p ≡ b'/' ∷ q)
rooted-cons [] h = ground arith
rooted-cons (c ∷ p) h = elim (Bool-cases (c == b'/')) [
  | inl e ↦ (p, ground arith)
  | inr e ↦ (c ∷ p, ground arith)
]

path_only-unmarked : (s : Bytes) → count b'?' s ≡ 0 → path_only s ≡ s
unfolding path_only
path_only-unmarked s h = ground (arith, split_first-none b'?' s h)

match_segments-root :
    (vars : Vars) (ps ts : List Bytes)
    → match_segments vars ([] ∷ ps) ([] ∷ ts) ≡ match_segments vars ps ts
unfolding match_segments variable_name
match_segments-root vars ps ts = refl

-- What the pattern's segments write is matched with the variables that they stand for.
match_pattern-texts :
    (out : Metadata) (pattern q target : Bytes)
    → normalize_pattern pattern ≡ b'/' ∷ q
    → Ready out (split b'/' q)
    → count b'?' target ≡ 0
    → split b'/' target ≡ [] ∷ texts out (split b'/' q)
    → match_pattern pattern target ≡ some (bound out (split b'/' q) [])
unfolding match_pattern
match_pattern-texts out pattern q target n r u t =
    ap (λ x. match_segments [] x (split b'/' (path_only target))) (ap (split b'/') n)
    ∙ ap (match_segments [] ([] ∷ split b'/' q)) (ap (split b'/') (path_only-unmarked target u) ∙ t)
    ∙ (match_segments-root [] (split b'/' q) (texts out (split b'/' q))
        ∙ match_segments-texts out [] (split b'/' q) r)

build_segments-nonempty :
    (out : Metadata) (segs : List Bytes) (p : Bytes)
    → 0 < length segs
    → build_segments out segs ≡ ok p
    → is_empty p ≡ false
unfolding build_segments
build_segments-nonempty out [] p l h = elim l [ ]
build_segments-nonempty out (seg ∷ segs) p l h =
    elim (Result-cases (filled out seg (variable_name seg))) [
      | inl (e, b) ↦ ground (arith, b)
      | inr (v, o) ↦ elim (Result-cases (build_segments out segs)) [
        | inl (e, b) ↦ ground (arith, o, b)
        | inr (rest, k) ↦ ground (arith, o, k)
      ]
    ]

build_path-segments :
    (out : Metadata) (pattern q target : Bytes)
    → normalize_pattern pattern ≡ b'/' ∷ q
    → build_path pattern out ≡ ok target
    → build_segments out (split b'/' q) ≡ ok target
unfolding build_path
build_path-segments out pattern q target n h =
    let h' =
      sym (ap (λ x. build_segments out (without_root (split b'/' x)) >>= λ p. ok (or_root p)) n)
      ∙ h in
    elim (Result-cases (build_segments out (split b'/' q))) [
      | inl (e, b) ↦ ground (arith, b)
      | inr (p, o) ↦
          ground (arith, o, build_segments-nonempty out (split b'/' q) p (split-pos b'/' q) o)
    ]

-- The path that a pattern is built to, if it holds no question mark, is matched by the pattern, with
-- the values of the variables, if each of them has a name and its value no slash.
pub match_pattern-build_path :
    (out : Metadata) (pattern q target : Bytes)
    → normalize_pattern pattern ≡ b'/' ∷ q
    → Ready out (split b'/' q)
    → build_path pattern out ≡ ok target
    → count b'?' target ≡ 0
    → match_pattern pattern target ≡ some (bound out (split b'/' q) [])
match_pattern-build_path out pattern q target n r h u =
    match_pattern-texts out pattern q target n r u (
      split-build_segments out (split b'/' q) target (build_path-segments out pattern q target n h)
        (split-Lacks b'/' q) r)
