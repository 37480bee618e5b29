-- ===== src/HttpUnary/ErrorBody.antt =====
-- transport/httpunary/errorjson.go. encoding/json is a parameter: `marshal` and `unmarshal` of an
-- `errorWire`, whose code is an int32 with the 32 bits of the status code.
use argos.Base.{
  ℕ, ◌≤◌, ◌<◌, ◌==◌, ◌≡◌, ◌≢◌, ltb, if◌then◌else◌, [], ◌∷◌, Option, none, some, length, take, arith,
}
use argos.Base.Bytes.{Bytes, codes}
use argos.Status.{Code, Error, StatusError, ok, error, text, code_of, as_status, is_empty}

abbrev pub max_error_body : ℕ
max_error_body = 16384

pub record Json : Type 0 where
  pub marshal : Code → Bytes → Option Bytes
  pub unmarshal : Bytes → Option (Code × Bytes)

abbrev pub cut : ℕ → Bytes → Bytes
cut n s = if ltb n (length s) then take n s else s

abbrev pub message_or : Bytes → Option StatusError → Bytes
message_or t none = t
message_or t (some se) = se.msg

abbrev pub marshalled : Option Bytes → Bytes
marshalled none = codes "{\"code\":2,\"message\":\"encode error\"}"
marshalled (some b) = cut max_error_body b

abbrev pub unmarshalled : Bytes → Code → Option (Code × Bytes) → Error
unmarshalled body fallback none = error fallback body
unmarshalled body fallback (some (c, m)) = error (if c == ok then fallback else c) m

cut_whole : (n : ℕ) (s : Bytes) → length s ≤ n → cut n s ≡ s
cut_whole n s h = ground arith

pub code_of_status :
    (e : Error) (se : StatusError) → as_status e ≡ some se → code_of (some e) ≡ se.code
unfolding code_of
code_of_status e se is = ground (arith, is)

module _ (json : Json) where
  -- `EncodeErrorBody` of an error that is not nil; half of 16 KiB is left for the message.
  unfoldable pub encode_error_body : (ℕ → Bytes) → Error → Bytes
  encode_error_body shows e =
      marshalled
        (json.marshal (code_of (some e)) (cut 8192 (message_or (text shows e) (as_status e))))

  -- `DecodeErrorBody`.
  unfoldable pub decode_error_body : Bytes → Code → Error
  decode_error_body body fallback =
      if is_empty body
      then error fallback []
      else let b = cut max_error_body body in unmarshalled b fallback (json.unmarshal b)

  -- What encoding/json does with a code and a message that survive it, such as a valid UTF-8 text.
  pub record Carries (c : Code) (msg body : Bytes) : Type 0 where
    pub encodes : json.marshal c msg ≡ some body
    pub decodes : json.unmarshal body ≡ some (c, msg)
    pub nonempty : 0 < length body
    pub fits : length body ≤ 16384

  pub encode_error_body-Carries :
      (shows : ℕ → Bytes) (e : Error) (se : StatusError) (body : Bytes)
      → as_status e ≡ some se
      → length se.msg ≤ 8192
      → Carries se.code se.msg body
      → encode_error_body shows e ≡ body
  unfolding encode_error_body
  encode_error_body-Carries shows e se body is short v = rw is (
      rw (cut_whole 8192 se.msg short)
        (rw (code_of_status e se is) (rw v.encodes (cut_whole 16384 body v.fits))))

  pub decode_error_body-Carries :
      (c fallback : Code) (msg body : Bytes)
      → c ≢ ok
      → Carries c msg body
      → decode_error_body body fallback ≡ error c msg
  unfolding decode_error_body
  decode_error_body-Carries c fallback msg [] bad v = absurd (omega (arith, v.nonempty))
  decode_error_body-Carries c fallback msg (x ∷ body) bad v =
      rw (cut_whole 16384 (x ∷ body) v.fits) (rw v.decodes ground arith)
