-- ===== src/Grpc/Metadata/RoundTrip.antt =====
-- What transport/grpc/metadata.go encodes it decodes.
use argos.Base.{
  ◌%◌, ◌==◌, ◌≡◌, refl, sym, ap, ◌∙◌, Bool, true, false, List, [], ◌∷◌, ◌++◌, some, length, All,
  Bool-cases, inl, inr, ==_iff, if_rule,
}
use argos.Base.Bytes.{Bytes, IsByte, to_lower, ◌===◌, ===_iff}
use argos.Base.Base64.{raw_encode, std_decode-raw_encode, raw_decode-raw_encode, count-raw_encode}
use argos.Base.Split.{split-Lacks_self}
use argos.Metadata.{Metadata, values, append_values}
use argos.Metadata.Gathered.{gathered, to_lower_idem, added, added-nil, values-added}
use argos.Grpc.Headers.{is_reserved_header}
use argos.Grpc.StatusWire.{Header}
use argos.Grpc.Metadata.{
  is_binary, encode_metadata_value, headers_of, encode_metadata, decode_bin_header, decode_parts,
  decode_metadata_values, decode_key, decode_header, decode_onto, decode_metadata,
}
use mathlib.Core.List.{append-nil}

pub decode_bin_header-raw_encode :
    (v : Bytes) → All IsByte v → decode_bin_header (raw_encode v) ≡ some v
unfolding decode_bin_header
decode_bin_header-raw_encode v h =
    if_rule (λ r. r ≡ some v) (length (raw_encode v) % 4 == 0) _ _
      (λ e. std_decode-raw_encode v h ((==_iff _ _).0 e)) (λ _. raw_decode-raw_encode v h)

-- A value that is encoded under a name decodes to itself there.
pub decode-encode_metadata_value :
    (key v : Bytes)
    → All IsByte v
    → decode_metadata_values key (encode_metadata_value key v) ≡ some (v ∷ [])
unfolding decode_metadata_values encode_metadata_value decode_parts
decode-encode_metadata_value key v h = elim (Bool-cases (is_binary key)) [
  | inl e ↦ rw e (
      rw (split-Lacks_self b',' (raw_encode v) (count-raw_encode v h), decode_parts)
        (rw (decode_bin_header-raw_encode v h) refl))
  | inr e ↦ rw e refl
]

-- A header of the encoder's is decoded.
pub decode_header-encode :
    (n v : Bytes) (out : Metadata) (bad : Bool)
    → to_lower n ≡ n
    → is_reserved_header n ≡ false
    → All IsByte v
    → decode_header (out, bad) (n, encode_metadata_value n v) ≡ (append_values n (v ∷ []) out, bad)
unfolding decode_header
decode_header-encode n v out bad low h b =
    ap (λ key. decode_key (out, bad) key (encode_metadata_value n v)) low ∙ own
  where
    own : decode_key (out, bad) n (encode_metadata_value n v) ≡ (append_values n (v ∷ []) out, bad)
    own = unfold decode_key in rw h (rw (decode-encode_metadata_value n v b) refl)

-- What the headers of `hs` make of any metadata: they add `b` to the values of `k`, and are
-- well formed.
unfoldable pub Adds : Bytes → List Header → List Bytes → Type 0
Adds k hs b =
    (out : Metadata) (bad : Bool)
    → (values k (decode_onto (out, bad) hs).0 ≡ values k out ++ b)
      × ((decode_onto (out, bad) hs).1 ≡ bad)

headers_of-Adds :
    (k n : Bytes) (vs : List Bytes) (hs : List Header) (b : List Bytes)
    → to_lower n ≡ n
    → is_reserved_header n ≡ false
    → All (All IsByte) vs
    → Adds k hs b
    → Adds k (headers_of n vs ++ hs) (added n k vs b)
unfolding headers_of decode_onto Adds
headers_of-Adds k n [] hs b low h w rest = λ out bad.
    let r = rest out bad in (r.0 ∙ ap (λ x. values k out ++ x) (sym (added-nil n k b)), r.1)
headers_of-Adds k n (v ∷ vs) hs b low h w rest = λ out bad.
    let one = decode_header-encode n v out bad low h w.0 in
    let r = headers_of-Adds k n vs hs b low h w.1 rest (append_values n (v ∷ []) out) bad in
    (
      ap (λ a. values k (decode_onto a (headers_of n vs ++ hs)).0) one
          ∙ (r.0 ∙ values-added k n v vs b out),
      ap (λ a. (decode_onto a (headers_of n vs ++ hs)).1) one ∙ r.1,
    )

-- A reserved name is not `k`.
reserved_apart :
    (n k : Bytes) → is_reserved_header n ≡ true → is_reserved_header k ≡ false → n === k ≡ false
reserved_apart n k r h = elim (Bool-cases (n === k)) [
  | inl e ↦ absurd (clash (sym r ∙ (ap is_reserved_header ((===_iff n k).0 e) ∙ h)))
  | inr e ↦ e
]
  where
    clash : true ≡ false → ⊥
    clash e = cc

pub unreserved_apart :
    (key name : Bytes)
    → is_reserved_header key ≡ false
    → is_reserved_header name ≡ true
    → key === name ≡ false
unreserved_apart key name k n = elim (Bool-cases (key === name)) [
  | inl e ↦ absurd (clash (ap is_reserved_header ((===_iff key name).0 e)))
  | inr e ↦ e
]
  where
    clash : is_reserved_header key ≡ is_reserved_header name → ⊥
    clash e = cc

-- Every value is a text of bytes.
abbrev pub IsBytes : Bytes × List Bytes → Type 0
IsBytes e = All (All IsByte) e.1

pub encode_metadata-Adds :
    (k : Bytes) (md : Metadata)
    → is_reserved_header k ≡ false
    → All IsBytes md
    → Adds k (encode_metadata md) (gathered k md)
unfolding encode_metadata gathered
encode_metadata-Adds k [] h w =
    unfold Adds decode_onto in λ out bad. (sym (append-nil (values k out)), refl)
encode_metadata-Adds k ((j, vs) ∷ md) h w =
    let rest = encode_metadata-Adds k md h w.1 in
    elim (Bool-cases (is_reserved_header (to_lower j))) [
      | inl r ↦ rw (r, reserved_apart (to_lower j) k r h) rest
      | inr f ↦ rw f (
          headers_of-Adds k (to_lower j) vs (encode_metadata md) (gathered k md) (to_lower_idem j) f
            w.0 rest)
    ]

-- Metadata that is encoded and decoded again, binary values in base64 included, is well formed and
-- has, under a name that is not reserved, the values of all the keys that are that name in lower
-- case.
pub decode_metadata-encode_metadata :
    (k : Bytes) (md : Metadata)
    → is_reserved_header k ≡ false
    → All IsBytes md
    → (values k (decode_metadata (encode_metadata md)).0 ≡ gathered k md)
      × ((decode_metadata (encode_metadata md)).1 ≡ false)
unfolding decode_metadata values
decode_metadata-encode_metadata k md h w = unfold Adds in encode_metadata-Adds k md h w [] false
