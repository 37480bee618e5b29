-- ===== src/Grpc/Compress.antt =====
-- transport/grpc/compress.go, compressor/compressor.go, and the list that `newFraming` of
-- transport/grpc/framing.go builds. An algorithm is its name and what it makes of a whole payload;
-- nil entries of a list are left out.
use argos.Base.{
  ℕ, ◌+◌, ◌≤◌, ◌<◌, ◌≡◌, refl, Bool, true, false, ◌||◌, ◌&&◌, not, ltb, leb, ◌^◌, if◌then◌else◌,
  List, [], ◌∷◌, ◌++◌, map, Option, none, some, length, take, arith, Option-cases, Bool-cases, inl,
  inr, ◌⊎◌,
}
use argos.Base.Bytes.{Bytes, codes, ◌===◌, ===_iff, trim_space}
use argos.Base.Split.{split}
use argos.Base.Decimal.{decimal}
use argos.Base.Result.{Result, ok, err, ◌>>=◌, Result-cases}
use argos.Status.{Error, is_empty, error, resource_exhausted, unimplemented}

-- The bytes that a reader gives, and the error that it then ends with, if any.
pub record Content : Type 0 where
  pub bytes : Bytes
  pub fails : Option Error

pub record Compressor : Type 0 where
  pub name : Bytes
  pub compress : Bytes → Result Error Bytes
  pub decompress : Bytes → Result Error Content

abbrev pub identity_name : Bytes
identity_name = codes "identity"

abbrev pub identity : Compressor
identity = record {
  name = identity_name;
  compress = λ s. ok s;
  decompress = λ s. ok (record { bytes = s; fails = none });
}

-- `Find`.
unfoldable pub find_compressor : Bytes → List Compressor → Option Compressor
find_compressor name [] = none
find_compressor name (c ∷ cs) = if c.name === name then some c else find_compressor name cs

unfoldable pub accept_names : List Compressor → List Bytes
accept_names = map λ c. c.name

-- `parseAcceptEncoding`: the set is the list of its names.
unfoldable pub accept_parts : List Bytes → List Bytes
accept_parts [] = []
accept_parts (p ∷ ps) =
    let rest = accept_parts ps in
    let name = trim_space p in if is_empty name then rest else name ∷ rest

unfoldable pub parse_accept_encoding : Bytes → List Bytes
parse_accept_encoding v = if is_empty v then [] else accept_parts (split b',' v)

unfoldable pub named_in : Bytes → List Bytes → Bool
named_in name [] = false
named_in name (n ∷ ns) = n === name || named_in name ns

unfoldable pub peer_accepts : List Bytes → Bytes → Bool
peer_accepts accept name = is_empty name || (name === identity_name || named_in name accept)

unfoldable pub resolve_send_compressor : List Compressor → Bytes → List Bytes → Bool → Compressor
resolve_send_compressor cs send_name accept is_server = elim (find_compressor send_name cs) [
  | none ↦ identity
  | some c ↦ if not is_server then c else if not (peer_accepts accept c.name) then identity else c
]

-- `compressMessage`.
unfoldable pub compress_message : Compressor → Bytes → Result Error (Bool × Bytes)
compress_message c payload =
    if c.name === identity_name
    then ok (false, payload)
    else elim (c.compress payload) [ err e ↦ err e | ok s ↦ ok (true, s) ]

-- The limit of the LimitReader: `maxMsg + 1` is an int64, and at the greatest limit it is negative,
-- which `io.LimitReader` takes for 0.
abbrev pub reader_limit : ℕ → ℕ
reader_limit max_msg = if ltb (max_msg + 1) (2 ^ 63) then max_msg + 1 else 0

-- `io.ReadAll`, behind `io.LimitReader` if there is a limit.
unfoldable pub read_all : ℕ → Content → Result Error Bytes
read_all max_msg r =
    if ltb 0 max_msg && leb (reader_limit max_msg) (length r.bytes)
    then ok (take (reader_limit max_msg) r.bytes)
    else elim r.fails [ some e ↦ err e | none ↦ ok r.bytes ]

unfoldable pub over_limit : Bytes → ℕ → ℕ → Error
over_limit what n limit =
    error resource_exhausted (what ++ (decimal n ++ (codes " > max " ++ decimal limit)))

unfoldable pub within : ℕ → Bytes → Result Error Bytes
within max_msg out =
    if ltb 0 max_msg && ltb max_msg (length out)
    then err (over_limit (codes "grpc: decompressed payload ") (length out) max_msg)
    else ok out

-- `decompressMessage`.
unfoldable pub decompress_message : Compressor → Bytes → ℕ → Result Error Bytes
decompress_message c payload max_msg =
    c.decompress payload >>= λ r. read_all max_msg r >>= λ out. within max_msg out

-- `unsupportedEncoding`, where `quote` is what `%q` prints.
module _ (quote : Bytes → Bytes) where
  unfoldable pub unsupported_encoding : Bytes → Error
  unsupported_encoding enc = error unimplemented (
      codes "grpc: compression algorithm "
      ++ (quote (if is_empty enc then codes "unknown" else enc) ++ codes " not enabled"))

-- `newFraming`: the algorithms in use and the one to send with, or why not.
pub data BadFraming : Type 0 where
  empty_compressor duplicate_compressor send_not_configured : BadFraming

unfoldable pub add_compressors :
    List Bytes → List Compressor → List Compressor → Result BadFraming (List Compressor)
unfolding named_in
add_compressors seen out [] = ok out
add_compressors seen out (c ∷ cs) =
    let rest = add_compressors (c.name ∷ seen) (out ++ (c ∷ [])) cs in
    if is_empty c.name
    then err empty_compressor
    else if named_in c.name seen
    then err duplicate_compressor
    else rest

abbrev pub or_identity : Bytes → Bytes
or_identity send_name = if is_empty send_name then identity_name else send_name

abbrev pub checked_send : Bytes → List Compressor → Result BadFraming (List Compressor × Bytes)
checked_send send_name cs = elim (find_compressor send_name cs) [
  | none ↦ err send_not_configured
  | some c ↦ ok (cs, send_name)
]

unfoldable pub new_framing : List Compressor → Bytes → Result BadFraming (List Compressor × Bytes)
new_framing extra send_name = elim (add_compressors (identity_name ∷ []) (identity ∷ []) extra) [
  | err e ↦ err e
  | ok cs ↦ checked_send (or_identity send_name) cs
]

-- What an algorithm promises: what it compresses it gives back.
abbrev pub IsLossless : Compressor → Type 0
IsLossless c =
    (s t : Bytes) → c.compress s ≡ ok t → c.decompress t ≡ ok (record { bytes = s; fails = none })

-- A payload within the limit, which is below 2^63 - 1, that a lossless algorithm has compressed is
-- given back; the flag of the frame says whether it is to be decompressed.
pub decompress-compress :
    (c : Compressor) (s t : Bytes) (max_msg : ℕ)
    → IsLossless c
    → compress_message c s ≡ ok (true, t)
    → (max_msg ≡ 0) ⊎ (length s ≤ max_msg)
    → max_msg + 1 < 2 ^ 63
    → decompress_message c t max_msg ≡ ok s
unfolding compress_message decompress_message read_all within
decompress-compress c s t max_msg law h fits small = elim (Result-cases (c.compress s)) [
  | inl (e, n) ↦ absurd (ground (arith, n))
  | inr (u, e) ↦ ground (arith, e, law s u e)
]

-- With a limit, no decompressed payload is longer, whatever the peer has sent.
pub decompress_message_bounded :
    (c : Compressor) (t s : Bytes) (max_msg : ℕ)
    → 0 < max_msg
    → decompress_message c t max_msg ≡ ok s
    → length s ≤ max_msg
unfolding decompress_message within
decompress_message_bounded c t s max_msg pos_max h = elim (Result-cases (c.decompress t)) [
  | inl (e, n) ↦ absurd (ground (arith, n))
  | inr (r, e) ↦ elim (Result-cases (read_all max_msg r)) [
    | inl (f, n) ↦ absurd (ground (arith, e, n))
    | inr (out, f) ↦ ground (arith, e, f)
  ]
]

find_compressor-name :
    (name : Bytes) (cs : List Compressor) (c : Compressor)
    → find_compressor name cs ≡ some c
    → c.name ≡ name
unfolding find_compressor
find_compressor-name name [] c h = cc
find_compressor-name name (d ∷ cs) c h =
    ground (arith, ===_iff d.name name, find_compressor-name name cs c)

-- A server sends with `identity`, or with the configured algorithm if the peer lists it.
pub server_compressor_accepted :
    (cs : List Compressor) (send_name : Bytes) (accept : List Bytes)
    → let c = resolve_send_compressor cs send_name accept true in
      (c ≡ identity) ⊎ ((c.name ≡ send_name) × (peer_accepts accept c.name ≡ true))
unfolding resolve_send_compressor
server_compressor_accepted cs send_name accept =
    elim (Option-cases (find_compressor send_name cs)) [
      | inl n ↦ rw (n, resolve_send_compressor) (inl refl)
      | inr (c, e) ↦
          let own = find_compressor-name send_name cs c e in
          rw (e, resolve_send_compressor)
            (elim (Bool-cases (peer_accepts accept c.name)) [
              | inl y ↦ rw y (inr (own, y))
              | inr n ↦ rw n (inl refl)
            ])
    ]
