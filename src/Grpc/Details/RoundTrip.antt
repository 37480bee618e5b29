-- ===== src/Grpc/Details/RoundTrip.antt =====
-- What transport/grpc/details.go and transport/grpc/statuswire.go write of a status, they read.
use argos.Base.{
  ℕ, ◌<◌, ◌==◌, ◌≡◌, ◌≢◌, refl, ap, ◌∙◌, false, List, [], ◌∷◌, ◌++◌, Option, none, some, arith, All,
  if_rule, ==_iff,
}
use argos.Base.Bytes.{Bytes, IsByte, codes, to_lower, ◌===◌}
use argos.Base.Decimal.{decimal}
use argos.Base.Base64.{raw_encode}
use argos.Status.{Code, Detail, Error, ok, error, code_of, details_of, with_details}
use argos.Metadata.{Metadata}
use argos.Metadata.Gathered.{to_lower_idem}
use argos.Grpc.Headers.{is_reserved_header}
use argos.Grpc.Message.RoundTrip.{sanitize}
use argos.Grpc.Message.{decode_message}
use argos.Grpc.Metadata.{headers_of, encode_metadata, decode_parts}
use argos.Grpc.Metadata.RoundTrip.{decode_bin_header-raw_encode, unreserved_apart}
use argos.Grpc.StatusWire.{
  Header, IsKey, IsUser, scan, note, start, result, wire_message, status_headers,
  status_from_headers, status_from_headers-status_headers, scan-user, code_or_unknown-decimal,
}
use argos.Grpc.Details.{
  Proto, ProtoStatus, IsProto, details_key, status_message, message_of, code_or_ok, raw_of,
  fallback_status, encode_status_details_bin, adopt_details, decode_status_details_raw,
  decode_status_details_bin, encode_status_trailers, resolve_call_status,
}
use mathlib.Core.List.{append-nil}

-- A key of the user's that is not taken for the details of a status.
abbrev pub IsFree : Bytes × List Bytes → Type 0
IsFree e = to_lower e.0 === details_key ≡ false

unreserved-IsKey :
    (key : Bytes) → is_reserved_header key ≡ false → key === details_key ≡ false → IsKey key
unreserved-IsKey key h d = (
  unreserved_apart key (codes "grpc-status") h (unfold is_reserved_header in refl),
  unreserved_apart key (codes "grpc-message") h (unfold is_reserved_header in refl),
  d,
)

headers_of-All :
    (key : Bytes) (vs : List Bytes) (hs : List Header)
    → IsKey (to_lower key)
    → All IsUser hs
    → All IsUser (headers_of key vs ++ hs)
unfolding headers_of
headers_of-All key [] hs k h = h
headers_of-All key (v ∷ vs) hs k h = (k, headers_of-All key vs hs k h)

encode_metadata-All : (md : Metadata) → All IsFree md → All IsUser (encode_metadata md)
unfolding encode_metadata
encode_metadata-All [] free = free
encode_metadata-All ((k, vs) ∷ md) free =
    let rest = encode_metadata-All md free.1 in
    if_rule (All IsUser) (is_reserved_header (to_lower k)) _ _ (λ _. rest)
      λ h.
        headers_of-All (to_lower k) vs (encode_metadata md)
          (rw (to_lower_idem k) (unreserved-IsKey (to_lower k) h free.0)) rest

-- The loop over a status and its details.
scan-details :
    (code : Code) (msg : Bytes) (wire : Bytes)
    → scan start (status_headers code msg ++ ((details_key, wire) ∷ [])) ≡ record {
      status_val = some (decimal code);
      message_val = wire_message msg;
      details = wire ∷ [];
    }
unfolding scan note status_headers
scan-details code [] wire = refl
scan-details code (c ∷ m) wire = refl

status_from-details :
    (user : Metadata) (code : Code) (msg wire : Bytes)
    → All IsFree user
    → code < 4294967296
    → status_from_headers
        (encode_metadata user ++ (status_headers code msg ++ ((details_key, wire) ∷ [])))
      ≡ some (code, decode_message (wire_message msg), wire ∷ [])
unfolding status_from_headers
status_from-details user code msg wire u c =
    ap result (scan-user (encode_metadata user) _ start (encode_metadata-All user u))
    ∙ (ap result (scan-details code msg wire)
        ∙ ap (λ n. some (n, decode_message (wire_message msg), wire ∷ []))
            (code_or_unknown-decimal code c))

module _ (proto : Proto) (shows : ℕ → Bytes) (mismatch : Code → Bytes → ProtoStatus → Bytes) where
  -- What is made of the details of a status that `proto` has marshalled.
  decode-details :
      (code : Code) (msg message raw : Bytes) (d : Detail) (ds : List Detail)
      → All IsByte raw
      → proto.unmarshal raw ≡ some (record { code = code; message = message; details = d ∷ ds })
      → decode_status_details_bin proto shows mismatch code msg (raw_encode raw ∷ [])
        ≡ some (with_details shows (some (error code message)) (d ∷ ds))
  unfolding decode_status_details_bin decode_status_details_raw adopt_details decode_parts
  decode-details code msg message raw d ds b u =
      rw (decode_status_details_bin, decode_parts, decode_bin_header-raw_encode raw b)
        (rw (decode_status_details_raw, u) (rw (adopt_details, (==_iff code code).1 refl) refl))

  encode_status_details :
      (e : Error) (raw : Bytes) (d : Detail) (ds : List Detail)
      → code_of (some e) ≢ ok
      → details_of (some e) ≡ d ∷ ds
      → proto.marshal
          (record { code = code_of (some e); message = status_message shows e; details = d ∷ ds })
        ≡ some raw
      → encode_status_details_bin proto shows mismatch (some e) ≡ some (raw_encode raw)
  unfolding encode_status_details_bin
  encode_status_details e raw d ds bad has m =
      rw (encode_status_details_bin, raw_of, isnt_ok, has, m) refl
    where
      isnt_ok : code_of (some e) == ok ≡ false
      isnt_ok = ground (arith, bad)

  -- The trailers of a status that is not OK and has details: the user's metadata, if no key of it is
  -- taken for the details, changes nothing, nor do the headers of the response, and the code, the
  -- message and the details are those of the status.
  pub resolve-encode_with_details :
      (h : ℕ) (headers : List Header) (user : Metadata) (e : Error) (raw : Bytes) (d : Detail)
      (ds : List Detail)
      → IsProto proto
      → All IsFree user
      → code_of (some e) ≢ ok
      → code_of (some e) < 4294967296
      → details_of (some e) ≡ d ∷ ds
      → proto.marshal
          (record { code = code_of (some e); message = status_message shows e; details = d ∷ ds })
        ≡ some raw
      → resolve_call_status proto shows mismatch h headers
          (encode_status_trailers proto shows mismatch (some e) user)
        ≡ some
            (with_details shows (some (error (code_of (some e)) (status_message shows e))) (d ∷ ds))
  unfolding encode_status_trailers resolve_call_status
  resolve-encode_with_details h headers user e raw d ds law free bad c has m =
      let code = code_of (some e) in
      let msg = status_message shows e in
      rw
        (
          encode_status_trailers,
          encode_status_details e raw d ds bad has m,
          resolve_call_status,
          status_from-details user code msg (raw_encode raw) free c,
        )
        (decode-details code (decode_message (wire_message msg)) msg raw d ds
          (law.gives_bytes _ raw m) (law.reads_back _ raw m))

  -- Without details on the wire a status is found again by its code and message, each byte of the
  -- message that is not part of a UTF-8 rune replaced by RuneError; an OK one, or none, is none.
  pub resolve-encode_no_details :
      (h : ℕ) (headers : List Header) (user : Metadata) (e : Option Error)
      → All IsFree user
      → code_or_ok proto shows mismatch e < 4294967296
      → All IsByte (message_of proto shows mismatch e)
      → encode_status_details_bin proto shows mismatch e ≡ none
      → resolve_call_status proto shows mismatch h headers
          (encode_status_trailers proto shows mismatch e user)
        ≡ fallback_status
            (code_or_ok proto shows mismatch e)
            (sanitize 0 (message_of proto shows mismatch e))
  unfolding encode_status_trailers resolve_call_status decode_status_details_bin
      decode_status_details_raw decode_parts
  resolve-encode_no_details h headers user e free c b n =
      let code = code_or_ok proto shows mismatch e in
      let msg = message_of proto shows mismatch e in
      rw
        (
          encode_status_trailers,
          n,
          resolve_call_status,
          append-nil (status_headers code msg),
          status_from_headers-status_headers (encode_metadata user) code msg
              (encode_metadata-All user free) c b,
        )
        refl
