-- ===== src/Grpc/Details.antt =====
-- transport/grpc/details.go, and what transport/grpc/statuswire.go makes of it: the whole trailer of
-- a status, and the status of a whole response.
--
-- `google.rpc.Status` and its protobuf codec are not the repository's: `Proto` is what is used of
-- it. A code is its 32 bits. The text of the mismatch diagnostic is a parameter.
pub mod RoundTrip
use argos.Base.{ℕ, ◌==◌, Bool, if◌then◌else◌, List, [], ◌∷◌, ◌++◌, Option, none, some, ◌≡◌, All}
use argos.Base.Bytes.{Bytes, IsByte, codes}
use argos.Base.Base64.{raw_encode}
use argos.Status.{
  Code, Detail, Error, ok, internal, error, code_of, details_of, as_status, with_details, text,
  is_empty,
}
use argos.Metadata.{Metadata}
use argos.Grpc.Metadata.{decode_parts, encode_metadata}
use argos.Grpc.StatusWire.{Header, status_headers, status_from_headers, http_fallback_status}

pub record ProtoStatus : Type 0 where
  pub code : Code
  pub message : Bytes
  pub details : List Detail

-- `proto.Marshal` and `proto.Unmarshal` on such messages.
pub record Proto : Type 0 where
  pub marshal : ProtoStatus → Option Bytes
  pub unmarshal : Bytes → Option ProtoStatus

-- Unmarshalling gives back what was marshalled into bytes.
pub record IsProto (p : Proto) : Type 0 where
  pub reads_back :
      (st : ProtoStatus) (raw : Bytes) → p.marshal st ≡ some raw → p.unmarshal raw ≡ some st
  pub gives_bytes : (st : ProtoStatus) (raw : Bytes) → p.marshal st ≡ some raw → All IsByte raw

abbrev pub details_key : Bytes
details_key = codes "grpc-status-details-bin"

module _ (shows : ℕ → Bytes) where
  unfoldable pub status_message : Error → Bytes
  status_message e = elim (as_status e) [
    | none ↦ text shows e
    | some se ↦ if is_empty se.msg then text shows e else se.msg
  ]

abbrev pub fallback_status : Code → Bytes → Option Error
fallback_status code message = if code == ok then none else some (error code message)

module _ (proto : Proto) (shows : ℕ → Bytes) (mismatch : Code → Bytes → ProtoStatus → Bytes) where
  abbrev pub raw_of : Option Error → Option Bytes
  raw_of none = none
  raw_of (some e) = if code_of (some e) == ok then none else elim (details_of (some e)) [
    | [] ↦ none
    | d ∷ ds ↦
        proto.marshal
          (record { code = code_of (some e); message = status_message shows e; details = d ∷ ds })
  ]

  -- `EncodeStatusDetailsBin`.
  unfoldable pub encode_status_details_bin : Option Error → Option Bytes
  encode_status_details_bin e = elim (raw_of e) [ none ↦ none | some raw ↦ some (raw_encode raw) ]

  -- `decodeStatusDetailsRaw` on the one message.
  unfoldable pub adopt_details : Code → Bytes → ProtoStatus → Option Error
  adopt_details code message st =
      if st.code == code
      then elim st.details [
        | [] ↦ some (error code st.message)
        | d ∷ ds ↦ some (with_details shows (some (error code st.message)) (d ∷ ds))
      ]
      else some (error internal (mismatch code message st))

  unfoldable pub decode_status_details_raw : Code → Bytes → List Bytes → Option Error
  decode_status_details_raw code message (raw ∷ []) = elim (proto.unmarshal raw) [
    | none ↦ fallback_status code message
    | some st ↦ adopt_details code message st
  ]
  decode_status_details_raw code message _ = fallback_status code message

  unfoldable pub decode_status_details_bin : Code → Bytes → List Bytes → Option Error
  decode_status_details_bin code message wires = elim (decode_parts wires) [
    | none ↦ fallback_status code message
    | some raws ↦ decode_status_details_raw code message raws
  ]

  abbrev pub message_of : Option Error → Bytes
  message_of none = []
  message_of (some e) = status_message shows e

  abbrev pub code_or_ok : Option Error → Code
  code_or_ok none = ok
  code_or_ok (some e) = code_of (some e)

  -- `EncodeStatusTrailers`.
  unfoldable pub encode_status_trailers : Option Error → Metadata → List Header
  encode_status_trailers e user =
      encode_metadata user
      ++ (status_headers (code_or_ok e) (message_of e) ++ (elim (encode_status_details_bin e) [
        | none ↦ []
        | some wire ↦ (details_key, wire) ∷ []
      ]))

  -- `resolveCallStatus`.
  unfoldable pub resolve_call_status : ℕ → List Header → List Header → Option Error
  resolve_call_status http_status headers trailers = elim (status_from_headers trailers) [
    | some (code, msg, wires) ↦ decode_status_details_bin code msg wires
    | none ↦ elim (status_from_headers headers) [
      | some (code, msg, wires) ↦ decode_status_details_bin code msg wires
      | none ↦ some (http_fallback_status http_status)
    ]
  ]
