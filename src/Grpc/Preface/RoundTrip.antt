-- ===== src/Grpc/Preface/RoundTrip.antt =====
-- What transport/grpc/preface.go builds of a request it parses.
use argos.Base.{
  ℕ, ◌-◌, ◌*◌, ◌≤◌, ◌<◌, ◌≡◌, refl, sym, ap, ◌∙◌, false, ltb, List, [], ◌∷◌, ◌++◌, Option, none,
  some, arith, All, Bool-cases, inl, inr, count, if_rule,
}
use argos.Base.Bytes.{Bytes, IsByte, codes, to_lower, ◌===◌}
use argos.Base.Split.{join}
use argos.Base.Result.{ok, ◌>>=◌}
use argos.Status.{is_empty}
use argos.Metadata.{Metadata, values, append_values}
use argos.Metadata.Gathered.{gathered, to_lower_idem}
use argos.Descriptor.{new_method}
use argos.Grpc.Path.{parse_method_path-method_path}
use argos.Grpc.Timeout.{max_int64}
use argos.Grpc.Timeout.Accuracy.{decode_timeout-encode_timeout}
use argos.Grpc.Headers.{is_reserved_header, content_type, content_subtype, subtype}
use argos.Grpc.StatusWire.{Header}
use argos.Grpc.Metadata.{encode_metadata_value, headers_of, encode_metadata, decode_onto}
use argos.Grpc.Metadata.RoundTrip.{
  IsBytes, Adds, unreserved_apart, decode-encode_metadata_value, decode_header-encode,
  encode_metadata-Adds,
}
use argos.Grpc.Preface.{
  PrefaceOptions, Parsing, no_request, timeout_headers, encoding_headers, accept_headers,
  build_request_preface, parse_user, parse_key, parse_all, subtype_of, request_info,
  parse_request_headers,
}

abbrev accept_key : Bytes
accept_key = codes "grpc-accept-encoding"

-- A key of the user's that the parser does not take for the list of algorithms.
abbrev pub IsPlain : Bytes × List Bytes → Type 0
IsPlain e = to_lower e.0 === accept_key ≡ false

parse_user-encode :
    (md : Metadata) (n v : Bytes)
    → is_reserved_header n ≡ false
    → All IsByte v
    → parse_user md n (encode_metadata_value n v) ≡ ok (append_values n (v ∷ []) md)
unfolding parse_user
parse_user-encode md n v h b = rw (parse_user, h, decode-encode_metadata_value n v b) refl

-- A header of the user's only adds to the metadata.
parse_key-encode :
    (p : Parsing) (n v : Bytes)
    → is_reserved_header n ≡ false
    → n === accept_key ≡ false
    → All IsByte v
    → parse_key p n (encode_metadata_value n v)
      ≡ ok (record p { metadata = append_values n (v ∷ []) p.metadata })
unfolding parse_key is_reserved_header
parse_key-encode p n v h a b =
    rw
      (
        parse_key,
        unreserved_apart n (codes "content-type") h refl,
        unreserved_apart n (codes "grpc-timeout") h refl,
        unreserved_apart n (codes "grpc-encoding") h refl,
        a,
        unreserved_apart n (codes "te") h refl,
        parse_user-encode p.metadata n v h b,
      )
      refl

-- The parser makes of the headers what `DecodeMetadata` does.
Parses : List Header → Type 0
Parses hs =
    (p : Parsing)
    → parse_all p hs ≡ ok (record p { metadata = (decode_onto (p.metadata, false) hs).0 })

Parses-headers_of :
    (n : Bytes) (vs : List Bytes) (hs : List Header)
    → to_lower n ≡ n
    → is_reserved_header n ≡ false
    → n === accept_key ≡ false
    → All (All IsByte) vs
    → Parses hs
    → Parses (headers_of n vs ++ hs)
unfolding Parses headers_of parse_all decode_onto
Parses-headers_of n [] hs low h a b rest = rest
Parses-headers_of n (v ∷ vs) hs low h a b rest = λ p.
    let more = headers_of n vs ++ hs in
    rw (low, parse_key-encode p n v h a b.0)
      (Parses-headers_of n vs hs low h a b.1 rest
          (record p { metadata = append_values n (v ∷ []) p.metadata })
        ∙ ap (λ x. ok (record p { metadata = (decode_onto x more).0 }))
            (sym (decode_header-encode n v p.metadata false low h b.0)))

Parses-encode_metadata :
    (md : Metadata) → All IsPlain md → All IsBytes md → Parses (encode_metadata md)
unfolding encode_metadata
Parses-encode_metadata [] a b = unfold Parses parse_all decode_onto in λ p. refl
Parses-encode_metadata ((j, vs) ∷ md) a b =
    let rest = Parses-encode_metadata md a.1 b.1 in
    if_rule Parses (is_reserved_header (to_lower j)) _ _ (λ _. rest)
      λ h. Parses-headers_of (to_lower j) vs (encode_metadata md) (to_lower_idem j) h a.0 b.0 rest

-- What the parser has found of a timeout: none exactly of 0, and else one that is no shorter, overflows no
-- int64 and is longer by one part in 99999 at most.
abbrev pub IsDeadline : ℕ → Option ℕ → Type 0
IsDeadline t none = t ≡ 0
IsDeadline t (some r) = (0 < t) × (t ≤ r) × (r ≤ max_int64) × ((r - t) * 99999 ≤ t)

parse_timeout :
    (p : Parsing) (t : ℕ) (hs : List Header)
    → t ≤ max_int64
    → p.timeout ≡ none
    → (r : Option ℕ) × IsDeadline t r
      × (parse_all p (timeout_headers t ++ hs) ≡ parse_all (record p { timeout = r }) hs)
unfolding parse_all parse_key
parse_timeout p t hs h n = elim (Bool-cases (ltb 0 t)) [
  | inl y ↦
      let (r, e, a, b, c) = decode_timeout-encode_timeout t h in
      (some r, (ground (arith, y), a, b, c), rw (y, e) refl)
  | inr z ↦ (none, ground (arith, z), rw (z, sym n) refl)
]

-- A Parsing of the fields that the headers behind the timeout set.
parsed : Parsing → Bytes → Bytes → Parsing
parsed p e a = record p { encoding = e; accept_encoding = a }

parse_encoding :
    (p : Parsing) (s : Bytes) (hs : List Header)
    → parse_all (parsed p [] []) (encoding_headers s ++ hs) ≡ parse_all (parsed p s []) hs
unfolding parse_all parse_key parsed
parse_encoding p [] hs = refl
parse_encoding p (c ∷ s) hs = refl

parse_accept :
    (p : Parsing) (s : Bytes) (ns : List Bytes) (hs : List Header)
    → parse_all (parsed p s []) (accept_headers ns ++ hs) ≡ parse_all (parsed p s (join b',' ns)) hs
unfolding parse_all parse_key parsed
parse_accept p s [] hs = refl
parse_accept p s (n ∷ ns) hs = refl

lowered_subtype : (s : Bytes) → content_subtype (to_lower (content_type s)) ≡ subtype (to_lower s)
unfolding content_type content_subtype
lowered_subtype [] = refl
lowered_subtype (c ∷ s) = refl

lowered_some : (s : Bytes) → is_empty (to_lower (content_type s)) ≡ false
unfolding content_type
lowered_some [] = refl
lowered_some (c ∷ s) = refl

-- What the loop has found in the headers of `opts`, but for the metadata.
found : PrefaceOptions → Option ℕ → Parsing
found opts r = record {
  content_type = to_lower (content_type opts.content_subtype);
  metadata = [];
  timeout = r;
  encoding = opts.send_compressor;
  accept_encoding = join b',' opts.accept_compressors;
}

parse_all-build :
    (opts : PrefaceOptions)
    → opts.timeout ≤ max_int64
    → (r : Option ℕ) × IsDeadline opts.timeout r
      × (parse_all no_request (build_request_preface opts).headers
          ≡ parse_all (found opts r) (encode_metadata opts.outgoing))
unfolding parse_all parse_key build_request_preface parsed found
parse_all-build opts h =
    let hs = encode_metadata opts.outgoing in
    let p : Parsing = record no_request {
      content_type = to_lower (content_type opts.content_subtype);
    } in
    let (r, d, e) =
      parse_timeout p opts.timeout
        (encoding_headers opts.send_compressor ++ (accept_headers opts.accept_compressors ++ hs)) h
        refl in
    (
      r,
      d,
      e
          ∙ (parse_encoding (record p { timeout = r }) opts.send_compressor
                (accept_headers opts.accept_compressors ++ hs)
              ∙ parse_accept (record p { timeout = r }) opts.send_compressor opts.accept_compressors
                  hs),
    )

request_info-found :
    (opts : PrefaceOptions) (r : Option ℕ) (md : Metadata) (service method : Bytes)
    → request_info service method (record (found opts r) { metadata = md })
      ≡ ok (record {
        service = service;
        method = method;
        metadata = md;
        timeout = r;
        content_subtype = to_lower opts.content_subtype;
        encoding = opts.send_compressor;
        accept_encoding = join b',' opts.accept_compressors;
      })
unfolding request_info found
request_info-found opts r md service method =
    let s = opts.content_subtype in
    rw (request_info, found, lowered_some s, subtype_of, lowered_subtype s) refl

-- The path and the headers of a request for a method of `NewMethod` parse to its service and name
-- (with no slash in the name), to a deadline that is none for no timeout and else no earlier and
-- later by one part in 99999 at most, to the content subtype in lower case, to the compressors, and
-- to metadata with, under a name that is not reserved, the values of all its keys, if no key is
-- `grpc-accept-encoding`.
pub parse-build_request :
    (full : Bytes) (shape : ℕ) (opts : PrefaceOptions) (k : Bytes)
    → new_method full shape ≡ ok opts.method
    → count b'/' opts.method.name ≡ 0
    → opts.timeout ≤ max_int64
    → All IsPlain opts.outgoing
    → All IsBytes opts.outgoing
    → is_reserved_header k ≡ false
    → (r : Option ℕ) × (md : Metadata) × IsDeadline opts.timeout r
      × (values k md ≡ gathered k opts.outgoing)
      × (let preface = build_request_preface opts in
          parse_request_headers preface.request_target preface.headers
          ≡ ok (record {
            service = opts.method.service;
            method = opts.method.name;
            metadata = md;
            timeout = r;
            content_subtype = to_lower opts.content_subtype;
            encoding = opts.send_compressor;
            accept_encoding = join b',' opts.accept_compressors;
          }))
unfolding parse_request_headers build_request_preface values Adds
parse-build_request full shape opts k m slash t plain b h =
    let (r, d, e) = parse_all-build opts t in
    let (own, _) = encode_metadata-Adds k opts.outgoing h b [] false in
    let md = (decode_onto ([], false) (encode_metadata opts.outgoing)).0 in
    (
      r,
      md,
      d,
      own,
      rw
          (
            parse_request_headers,
            build_request_preface,
            parse_method_path-method_path full shape opts.method m slash,
          )
          (ap (λ x. x >>= λ p. request_info opts.method.service opts.method.name p) (e ∙ user r)
            ∙ request_info-found opts r md opts.method.service opts.method.name),
    )
  where
    user :
        (r : Option ℕ)
        → parse_all (found opts r) (encode_metadata opts.outgoing)
          ≡ ok (record (found opts r) {
            metadata = (decode_onto ([], false) (encode_metadata opts.outgoing)).0;
          })
    user r = unfold Parses found in Parses-encode_metadata opts.outgoing plain b (found opts r)
