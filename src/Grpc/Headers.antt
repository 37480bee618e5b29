-- ===== src/Grpc/Headers.antt =====
-- transport/grpc/contenttype.go (`ContentType`, `ContentSubtype`) and transport/grpc/reserved.go.
use argos.Base.{
  ◌==◌, ◌≡◌, ◌≢◌, refl, Bool, true, false, ◌||◌, if◌then◌else◌, List, [], ◌∷◌, ◌++◌, none, some,
  arith, Option-cases, inl, inr, ◌⊎◌, ◌↔◌, ap, ◌∙◌, sym, Bool-cases,
}
use argos.Base.Bytes.{Bytes, codes, ◌===◌, ===_iff, strip_prefix}

abbrev pub base_content_type : Bytes
base_content_type = codes "application/grpc"

-- `ContentType`.
unfoldable pub content_type : Bytes → Bytes
content_type [] = base_content_type
content_type (c ∷ s) = base_content_type ++ (b'+' ∷ (c ∷ s))

-- What `ContentSubtype` returns: the subtype, or `ok` false; or that its index is out of range.
pub data Subtype : Type 0 where
  subtype : Bytes → Subtype
  not_grpc panics : Subtype

after_base : Bytes → Subtype
after_base [] = panics
after_base (c ∷ s) = if c == b'+' || c == b';' then subtype s else not_grpc

unfoldable pub content_subtype : Bytes → Subtype
unfolding after_base
content_subtype t =
    if t === base_content_type
    then subtype []
    else elim (strip_prefix base_content_type t) [ none ↦ not_grpc | some s ↦ after_base s ]

strip_prefix-append : (p s : Bytes) → strip_prefix p (p ++ s) ≡ some s
strip_prefix-append [] s = refl
strip_prefix-append (c ∷ p) s = ground (arith, strip_prefix-append p s)

strip_prefix-eq-nil : (p s : Bytes) → strip_prefix p s ≡ some [] → s === p ≡ true
strip_prefix-eq-nil [] [] h = refl
strip_prefix-eq-nil [] (c ∷ s) h = cc
strip_prefix-eq-nil (c ∷ p) [] h = cc
strip_prefix-eq-nil (c ∷ p) (d ∷ s) h = ground (arith, strip_prefix-eq-nil p s)

-- The subtype of a content type that `ContentType` builds is the one that it was built for.
pub content_subtype-content_type : (s : Bytes) → content_subtype (content_type s) ≡ subtype s
unfolding content_subtype content_type
content_subtype-content_type [] = refl
content_subtype-content_type (c ∷ s) = refl

strip_prefix_join : (p t s : Bytes) → strip_prefix p t ≡ some s → t ≡ p ++ s
strip_prefix_join [] t s h = cc
strip_prefix_join (c ∷ p) [] s h = cc
strip_prefix_join (c ∷ p) (d ∷ t) s h = ground (arith, strip_prefix_join p t s)

-- The three forms of a gRPC content type with the subtype `s`.
abbrev Forms : Bytes → Bytes → Type 0
Forms t s =
    ((t ≡ base_content_type) × (s ≡ []))
    ⊎ ((t ≡ base_content_type ++ (b'+' ∷ s)) ⊎ (t ≡ base_content_type ++ (b';' ∷ s)))

after_base-Forms :
    (t r s : Bytes) → t ≡ base_content_type ++ r → after_base r ≡ subtype s → Forms t s
unfolding after_base
after_base-Forms t [] s e h = cc
after_base-Forms t (c ∷ r) s e h = elim (Bool-cases (c == b'+')) [
  | inl plus ↦ inr (inl (ground (arith, e, plus)))
  | inr other ↦ inr (inr (ground (arith, e, other)))
]

-- The three outcomes of the two tests.
found : (t s : Bytes) → content_subtype t ≡ subtype s → Forms t s
unfolding content_subtype
found t s h = elim (Bool-cases (t === base_content_type)) [
  | inl same ↦ inl ((===_iff t base_content_type).0 same, ground (arith, same))
  | inr other ↦ elim (Option-cases (strip_prefix base_content_type t)) [
    | inl n ↦ absurd (ground (arith, other, n))
    | inr (r, e) ↦
        after_base-Forms t r s (strip_prefix_join base_content_type t r e)
          (ground (arith, other, e))
  ]
]

built : (s t : Bytes) → Forms t s → content_subtype t ≡ subtype s
unfolding content_subtype after_base
built s t (inl (e, n)) = ap content_subtype e ∙ ap subtype (sym n)
built s t (inr (inl e)) = ap content_subtype e
built s t (inr (inr e)) = ap content_subtype e

-- A value is taken for a gRPC content type exactly if it is the base, with no subtype, or the base,
-- a plus sign or a semicolon, and the subtype.
pub content_subtype_iff :
    (t s : Bytes)
    → content_subtype t ≡ subtype s ↔ (
        ((t ≡ base_content_type) × (s ≡ []))
        ⊎ ((t ≡ base_content_type ++ (b'+' ∷ s)) ⊎ (t ≡ base_content_type ++ (b';' ∷ s))))
unfolding content_subtype
content_subtype_iff t s = (found t s, λ x. built s t x)

-- `ContentSubtype` never indexes behind the end of its argument.
pub content_subtype_total : (t : Bytes) → content_subtype t ≢ panics
unfolding content_subtype after_base
content_subtype_total t h = elim (Bool-cases (t === base_content_type)) [
  | inl same ↦ ground (arith, same)
  | inr other ↦ elim (Option-cases (strip_prefix base_content_type t)) [
    | inl n ↦ ground (arith, other, n)
    | inr ([], e) ↦ ground (arith, other, strip_prefix-eq-nil base_content_type t e)
    | inr (c ∷ s, e) ↦ ground (arith, other, e)
  ]
]

member : Bytes → List Bytes → Bool
member s [] = false
member s (k ∷ ks) = s === k || member s ks

abbrev reserved_names : List Bytes
reserved_names =
    codes "content-type"
    ∷ codes "user-agent"
    ∷ codes "grpc-message-type"
    ∷ codes "grpc-encoding"
    ∷ codes "grpc-message"
    ∷ codes "grpc-status"
    ∷ codes "grpc-timeout"
    ∷ codes "te"
    ∷ []

-- `hdr != "" && hdr[0] == ':'`.
abbrev pseudo : Bytes → Bool
pseudo [] = false
pseudo (c ∷ s) = c == b':'

unfoldable pub is_reserved_header : Bytes → Bool
unfolding member
is_reserved_header hdr = pseudo hdr || member hdr reserved_names

unfoldable pub is_whitelisted_header : Bytes → Bool
unfolding member
is_whitelisted_header hdr = member hdr (codes ":authority" ∷ codes "user-agent" ∷ [])

-- Every header that the whitelist names is a reserved one.
pub whitelisted_reserved :
    (hdr : Bytes) → is_whitelisted_header hdr ≡ true → is_reserved_header hdr ≡ true
unfolding is_whitelisted_header is_reserved_header member
whitelisted_reserved hdr h = elim (Bool-cases (hdr === codes ":authority")) [
  | inl e ↦ ap is_reserved_header ((===_iff hdr (codes ":authority")).0 e)
  | inr n ↦ elim (Bool-cases (hdr === codes "user-agent")) [
    | inl e ↦ ap is_reserved_header ((===_iff hdr (codes "user-agent")).0 e)
    | inr m ↦ absurd (ground (arith, n, m))
  ]
]
