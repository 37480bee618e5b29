-- ===== src/Grpc/Metadata.antt =====
-- transport/grpc/metadata.go. Names of headers are ASCII. A map is ranged over in the order of its
-- list. Of the error of `DecodeMetadata` the model keeps that there is one.
pub mod RoundTrip
use argos.Base.{
  ℕ, ◌%◌, ◌==◌, Bool, true, false, ◌&&◌, not, if◌then◌else◌, List, [], ◌∷◌, ◌++◌, map, Option, none,
  some, length,
}
use argos.Base.Bytes.{Bytes, codes, to_lower, has_suffix}
use argos.Base.Base64.{raw_encode, std_decode, raw_decode}
use argos.Base.Split.{split}
use argos.Metadata.{Metadata, append_values}
use argos.Grpc.Headers.{is_reserved_header, is_whitelisted_header}
use argos.Grpc.StatusWire.{Header}

abbrev pub is_binary : Bytes → Bool
is_binary key = has_suffix (codes "-bin") key

-- `encodeMetadataValue`.
unfoldable pub encode_metadata_value : Bytes → Bytes → Bytes
encode_metadata_value key v = if is_binary key then raw_encode v else v

-- The inner loop of `EncodeMetadata`.
unfoldable pub headers_of : Bytes → List Bytes → List Header
headers_of key [] = []
headers_of key (v ∷ vs) = (key, encode_metadata_value key v) ∷ headers_of key vs

unfoldable pub encode_metadata : Metadata → List Header
encode_metadata [] = []
encode_metadata ((k, vs) ∷ md) =
    let rest = encode_metadata md in
    if is_reserved_header (to_lower k) then rest else headers_of (to_lower k) vs ++ rest

unfoldable pub decode_bin_header : Bytes → Option Bytes
decode_bin_header v = if length v % 4 == 0 then std_decode v else raw_decode v

-- The loop over the parts of a binary value: one that is malformed spoils all.
unfoldable pub decode_parts : List Bytes → Option (List Bytes)
decode_parts [] = some []
decode_parts (p ∷ ps) = elim (decode_bin_header p) [
  | none ↦ none
  | some b ↦ elim (decode_parts ps) [ none ↦ none | some bs ↦ some (b ∷ bs) ]
]

unfoldable pub decode_metadata_values : Bytes → Bytes → Option (List Bytes)
decode_metadata_values key v = if is_binary key then decode_parts (split b',' v) else some (v ∷ [])

-- A name that the peer's headers do not give to the application.
abbrev pub hidden : Bytes → Bool
hidden key = is_reserved_header key && not (is_whitelisted_header key)

-- One round of the loop of `DecodeMetadata`, on what has been decoded and whether some value was
-- malformed.
unfoldable pub decode_key : Metadata × Bool → Bytes → Bytes → Metadata × Bool
decode_key (out, bad) key v =
    if hidden key then (out, bad) else elim (decode_metadata_values key v) [
      | none ↦ (out, true)
      | some vals ↦ (append_values key vals out, bad)
    ]

unfoldable pub decode_header : Metadata × Bool → Header → Metadata × Bool
decode_header a (name, v) = decode_key a (to_lower name) v

unfoldable pub decode_onto : Metadata × Bool → List Header → Metadata × Bool
decode_onto a [] = a
decode_onto a (h ∷ hs) = decode_onto (decode_header a h) hs

unfoldable pub decode_metadata : List Header → Metadata × Bool
decode_metadata hs = decode_onto ([], false) hs
