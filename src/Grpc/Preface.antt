-- ===== src/Grpc/Preface.antt =====
-- transport/grpc/preface.go: the path and the headers of a request and of a response. Names of
-- headers and content types are ASCII; a duration is as in Grpc/Timeout.
pub mod RoundTrip
use argos.Base.{ℕ, Bool, ◌&&◌, not, ltb, if◌then◌else◌, List, [], ◌∷◌, ◌++◌, Option, none, some}
use argos.Base.Bytes.{Bytes, codes, to_lower, ◌===◌}
use argos.Base.Split.{join}
use argos.Base.Result.{Result, ok, err, ◌>>=◌}
use argos.Status.{is_empty}
use argos.Metadata.{Metadata, append_values}
use argos.Descriptor.{Method}
use argos.Grpc.Path.{BadPath, method_path, parse_method_path}
use argos.Grpc.Timeout.{BadTimeout, encode_timeout, decode_timeout}
use argos.Grpc.Headers.{content_type, content_subtype, subtype, not_grpc, panics}
use argos.Grpc.StatusWire.{Header}
use argos.Grpc.Metadata.{encode_metadata, hidden, decode_metadata_values}

pub record PrefaceOptions : Type 0 where
  pub method : Method
  pub outgoing : Metadata
  pub timeout : ℕ
  pub content_subtype : Bytes
  pub send_compressor : Bytes
  pub accept_compressors : List Bytes

pub record RequestPreface : Type 0 where
  pub request_target : Bytes
  pub headers : List Header

abbrev pub timeout_headers : ℕ → List Header
timeout_headers t = if ltb 0 t then (codes "grpc-timeout", encode_timeout t) ∷ [] else []

abbrev pub encoding_headers : Bytes → List Header
encoding_headers [] = []
encoding_headers (c ∷ s) = (codes "grpc-encoding", c ∷ s) ∷ []

abbrev pub accept_headers : List Bytes → List Header
accept_headers [] = []
accept_headers (n ∷ ns) = (codes "grpc-accept-encoding", join b',' (n ∷ ns)) ∷ []

-- `BuildRequestPreface`.
unfoldable pub build_request_preface : PrefaceOptions → RequestPreface
build_request_preface opts = record {
  request_target = method_path opts.method;
  headers =
      (codes "content-type", content_type opts.content_subtype)
      ∷ ((codes "te", codes "trailers")
          ∷ (timeout_headers opts.timeout
              ++ (encoding_headers opts.send_compressor
                  ++ (accept_headers opts.accept_compressors ++ encode_metadata opts.outgoing))));
}

-- `RequestInfo`. `Timeout` counts only if `HasTimeout`.
pub record RequestInfo : Type 0 where
  pub service : Bytes
  pub method : Bytes
  pub metadata : Metadata
  pub timeout : Option ℕ
  pub content_subtype : Bytes
  pub encoding : Bytes
  pub accept_encoding : Bytes

pub data BadRequest : Type 0 where
  bad_path : BadPath → BadRequest
  malformed_timeout : BadTimeout → BadRequest
  malformed_metadata missing_content_type invalid_content_type index_panic : BadRequest

-- The variables of the loop of `ParseRequestHeaders`.
pub record Parsing : Type 0 where
  pub content_type : Bytes
  pub metadata : Metadata
  pub timeout : Option ℕ
  pub encoding : Bytes
  pub accept_encoding : Bytes

-- The default case of the two loops.
unfoldable pub parse_user : Metadata → Bytes → Bytes → Result BadRequest Metadata
parse_user md key v = if hidden key then ok md else elim (decode_metadata_values key v) [
  | none ↦ err malformed_metadata
  | some vals ↦ ok (append_values key vals md)
]

abbrev pub with_timeout : Parsing → Result BadTimeout ℕ → Result BadRequest Parsing
with_timeout p (err e) = err (malformed_timeout e)
with_timeout p (ok d) = ok (record p { timeout = some d })

-- The cases on the name of a header.
unfoldable pub parse_key : Parsing → Bytes → Bytes → Result BadRequest Parsing
parse_key p key v =
    if key === codes "content-type"
    then ok (record p { content_type = to_lower v })
    else if key === codes "grpc-timeout"
    then with_timeout p (decode_timeout v)
    else if key === codes "grpc-encoding"
    then ok (record p { encoding = v })
    else if key === codes "grpc-accept-encoding"
    then ok (record p { accept_encoding = v })
    else if key === codes "te"
    then ok p
    else (parse_user p.metadata key v >>= λ md. ok (record p { metadata = md }))

unfoldable pub parse_all : Parsing → List Header → Result BadRequest Parsing
parse_all p [] = ok p
parse_all p ((name, v) ∷ hs) = parse_key p (to_lower name) v >>= λ q. parse_all q hs

abbrev pub subtype_of : Bytes → Result BadRequest Bytes
subtype_of t = elim (content_subtype t) [
  | subtype s ↦ ok s
  | not_grpc ↦ err invalid_content_type
  | panics ↦ err index_panic
]

abbrev pub no_request : Parsing
no_request = record {
  content_type = [];
  metadata = [];
  timeout = none;
  encoding = [];
  accept_encoding = [];
}

-- What is returned behind the loop.
unfoldable pub request_info : Bytes → Bytes → Parsing → Result BadRequest RequestInfo
request_info service method p =
    if is_empty p.content_type
    then err missing_content_type
    else (subtype_of p.content_type >>= λ s. ok (record {
      service = service;
      method = method;
      metadata = p.metadata;
      timeout = p.timeout;
      content_subtype = s;
      encoding = p.encoding;
      accept_encoding = p.accept_encoding;
    }))

-- `ParseRequestHeaders`.
unfoldable pub parse_request_headers : Bytes → List Header → Result BadRequest RequestInfo
parse_request_headers target hs = elim (parse_method_path target) [
  | err e ↦ err (bad_path e)
  | ok (service, method) ↦ parse_all no_request hs >>= λ p. request_info service method p
]

-- `EncodeResponseHeaders`.
unfoldable pub encode_response_headers : Bytes → Metadata → Bytes → List Header
encode_response_headers content_subtype md send_encoding =
    (codes "content-type", content_type content_subtype)
    ∷ ((if not (is_empty send_encoding) && not (send_encoding === codes "identity")
          then (codes "grpc-encoding", send_encoding) ∷ []
          else [])
        ++ encode_metadata md)

-- The variables of the loop of `DecodeResponseHeaders`.
pub record Decoding : Type 0 where
  pub metadata : Metadata
  pub content_type : Bytes
  pub encoding : Bytes

unfoldable pub decode_response_key : Decoding → Bytes → Bytes → Result BadRequest Decoding
decode_response_key p key v =
    if key === codes "content-type"
    then ok (record p { content_type = to_lower v })
    else if key === codes "grpc-encoding"
    then ok (record p { encoding = v })
    else (parse_user p.metadata key v >>= λ md. ok (record p { metadata = md }))

unfoldable pub decode_response_all : Decoding → List Header → Result BadRequest Decoding
decode_response_all p [] = ok p
decode_response_all p ((name, v) ∷ hs) =
    decode_response_key p (to_lower name) v >>= λ q. decode_response_all q hs

abbrev pub response_info : Decoding → Result BadRequest (Metadata × Bytes × Bytes)
response_info p =
    if is_empty p.content_type
    then ok (p.metadata, [], p.encoding)
    else (subtype_of p.content_type >>= λ s. ok (p.metadata, s, p.encoding))

-- `DecodeResponseHeaders`: the user's metadata, the content subtype and the encoding.
unfoldable pub decode_response_headers : List Header → Result BadRequest (Metadata × Bytes × Bytes)
decode_response_headers hs =
    decode_response_all (record { metadata = []; content_type = []; encoding = [] }) hs >>= λ p.
    response_info p
