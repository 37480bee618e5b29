-- ===== src/HttpUnary/Headers.antt =====
-- transport/httpunary/headers.go. Names of headers are ASCII: `strings.ToLower` is the change of
-- A to Z into a to z. A map is ranged over in the order of its list.
use argos.Base.{
  ◌≡◌, sym, ap, ◌∙◌, Bool, true, false, ◌||◌, if◌then◌else◌, List, [], ◌∷◌, ◌++◌, map, Bool-cases,
  inl, inr, if_false,
}
use argos.Base.Bytes.{to_lower, Bytes, codes, ◌===◌, ===_iff}
use argos.Status.{is_empty}
use argos.Metadata.{Metadata, values, append_values}
use argos.Metadata.Gathered.{gathered, to_lower_idem, added, added-nil, values-added}
use mathlib.Core.List.{append-nil}

-- `ContentType`.
unfoldable pub content_type : Bytes → Bytes
content_type codec =
    if is_empty codec || codec === codes "json"
    then codes "application/json"
    else codes "application/" ++ codec

abbrev pub listed : Bytes → List Bytes → Bool
listed s [] = false
listed s (k ∷ ks) = s === k || listed s ks

abbrev pub owned_names : List Bytes
owned_names =
    codes "content-type"
    ∷ codes "content-length"
    ∷ codes "transfer-encoding"
    ∷ codes "connection"
    ∷ codes "keep-alive"
    ∷ codes "proxy-connection"
    ∷ codes "te"
    ∷ codes "trailer"
    ∷ codes "upgrade"
    ∷ codes "host"
    ∷ []

unfoldable pub reserved_header : Bytes → Bool
reserved_header key = listed (to_lower key) owned_names

abbrev pub Headers : Type 0
Headers = List (Bytes × Bytes)

-- The inner loop of `EncodeMetadata`.
abbrev pub headers_of : Bytes → List Bytes → Headers
headers_of key = map λ v. (key, v)

unfoldable pub encode_metadata : Metadata → Headers
encode_metadata [] = []
encode_metadata ((k, vs) ∷ md) =
    let rest = encode_metadata md in
    if reserved_header (to_lower k) then rest else headers_of (to_lower k) vs ++ rest

-- The loop of `DecodeMetadata`, on the metadata decoded so far.
unfoldable pub decode_onto : Metadata → Headers → Metadata
decode_onto out [] = out
decode_onto out ((name, v) ∷ hs) =
    let skipped = decode_onto out hs in
    let taken = decode_onto (append_values (to_lower name) (v ∷ []) out) hs in
    if reserved_header (to_lower name) then skipped else taken

unfoldable pub decode_metadata : Headers → Metadata
decode_metadata hs = decode_onto [] hs

decode_onto-cons :
    (n v : Bytes) (out : Metadata) (hs : Headers)
    → to_lower n ≡ n
    → reserved_header n ≡ false
    → decode_onto out ((n, v) ∷ hs) ≡ decode_onto (append_values n (v ∷ []) out) hs
unfolding decode_onto
decode_onto-cons n v out hs low h = rw low (if_false (reserved_header n) _ _ h)

-- If the headers behind them add `b`, whatever has been decoded before.
values-decode_headers_of :
    (k n : Bytes) (vs : List Bytes) (out : Metadata) (hs : Headers) (b : List Bytes)
    → to_lower n ≡ n
    → reserved_header n ≡ false
    → ((out' : Metadata) → values k (decode_onto out' hs) ≡ values k out' ++ b)
    → values k (decode_onto out (headers_of n vs ++ hs)) ≡ values k out ++ added n k vs b
values-decode_headers_of k n [] out hs b low h rest =
    rest out ∙ ap (λ x. values k out ++ x) (sym (added-nil n k b))
values-decode_headers_of k n (v ∷ vs) out hs b low h rest =
    ap (values k) (decode_onto-cons n v out (headers_of n vs ++ hs) low h)
    ∙ (values-decode_headers_of k n vs (append_values n (v ∷ []) out) hs b low h rest
        ∙ values-added k n v vs b out)

-- A reserved name is not `k`.
reserved_apart :
    (n k : Bytes) → reserved_header n ≡ true → reserved_header k ≡ false → n === k ≡ false
reserved_apart n k r h = elim (Bool-cases (n === k)) [
  | inl e ↦ absurd (clash (sym r ∙ (ap reserved_header ((===_iff n k).0 e) ∙ h)))
  | inr e ↦ e
]
  where
    clash : true ≡ false → ⊥
    clash e = cc

values-decode_onto :
    (k : Bytes) (md out : Metadata)
    → reserved_header k ≡ false
    → values k (decode_onto out (encode_metadata md)) ≡ values k out ++ gathered k md
unfolding encode_metadata gathered
values-decode_onto k [] out h = unfold decode_onto in sym (append-nil (values k out))
values-decode_onto k ((j, vs) ∷ md) out h = elim (Bool-cases (reserved_header (to_lower j))) [
  | inl r ↦
      let skips = values-decode_onto k md out h in rw (r, reserved_apart (to_lower j) k r h) skips
  | inr f ↦ rw f (
      values-decode_headers_of k (to_lower j) vs out (encode_metadata md) (gathered k md)
        (to_lower_idem j) f (λ out'. values-decode_onto k md out' h))
]

-- What is encoded and decoded again has, under a name that is not reserved, the values of all the
-- keys that are that name in lower case.
pub values-decode_metadata :
    (k : Bytes) (md : Metadata)
    → reserved_header k ≡ false
    → values k (decode_metadata (encode_metadata md)) ≡ gathered k md
unfolding decode_metadata values
values-decode_metadata k md h = values-decode_onto k md [] h
