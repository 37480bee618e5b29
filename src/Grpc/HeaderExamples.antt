-- ===== src/Grpc/HeaderExamples.antt =====
-- Small inputs to the headers of transport/grpc: metadata, prefaces and compressors.
use argos.Base.{ℕ, ◌≡◌, refl, [], ◌∷◌, Option, arith}
use argos.Base.Bytes.{codes}
use argos.Base.Result.{ok}
use argos.Metadata.{Metadata, values}
use argos.Metadata.Gathered.{gathered}
use argos.Descriptor.{new_method}
use argos.Grpc.Headers.{is_reserved_header}
use argos.Grpc.Preface.{PrefaceOptions, build_request_preface, parse_request_headers}
use argos.Grpc.Preface.RoundTrip.{IsDeadline, parse-build_request}

abbrev some_metadata : Metadata
some_metadata = (codes "Trace-Bin", (0 ∷ (255 ∷ [])) ∷ []) ∷ ((codes "te", codes "x" ∷ []) ∷ [])

abbrev some_options : PrefaceOptions
some_options = record {
  method = record {
    full_name = codes "a.B.Say";
    service = codes "a.B";
    name = codes "Say";
    shape = 0;
  };
  outgoing = some_metadata;
  timeout = 5;
  content_subtype = codes "proto";
  send_compressor = codes "gzip";
  accept_compressors = codes "identity" ∷ (codes "gzip" ∷ []);
}

parse-build_request_example :
    (r : Option ℕ) × (md : Metadata) × IsDeadline 5 r
    × (values (codes "trace-bin") md ≡ gathered (codes "trace-bin") some_metadata)
    × (let preface = build_request_preface some_options in
        parse_request_headers preface.request_target preface.headers
        ≡ ok (record {
          service = codes "a.B";
          method = codes "Say";
          metadata = md;
          timeout = r;
          content_subtype = codes "proto";
          encoding = codes "gzip";
          accept_encoding = codes "identity,gzip";
        }))
unfolding new_method is_reserved_header
parse-build_request_example =
    parse-build_request (codes "a.B.Say") 0 some_options (codes "trace-bin") refl refl (omega arith)
      (refl, (refl, tt)) (((omega arith, (omega arith, tt)), tt), (((omega arith, tt), tt), tt))
      refl
