-- ===== src/Grpc/Lpm.antt =====
-- transport/grpc/lpm.go: length-prefixed messages.
--
-- A reader ends with `io.EOF` and fails in no other way. `maxLen` is a natural number: a negative
-- limit is read as 0, no limit.
use argos.Base.{
  ◌⊎◌, ℕ, ◌+◌, ◌==◌, ◌≡◌, ◌≤◌, ◌<◌, ap, ◌∙◌, Bool, not, ◌&&◌, ltb, leb, if◌then◌else◌, [], ◌∷◌,
  ◌++◌, length, drop, arith,
}
use argos.Base.Bytes.{Bytes}
use argos.Base.Result.{Result, ok, err}
use argos.Base.Wire.{
  put_uint32, uint32, uint32-put, ReadError, eof, unexpected_eof, read_full, read_full-append,
  drop-length, length-append', length-drop, read_full_takes,
}

-- `maxDrain`.
unfoldable pub max_drain : ℕ → ℕ
max_drain max_len = if ltb max_len 1048576 then 1048576 else max_len

-- `WriteLPM`: the bytes that it writes.
unfoldable pub write_lpm : Bool → Bytes → Bytes
write_lpm compressed payload =
    (if compressed then 1 else 0) ∷ (put_uint32 (length payload) ++ payload)

-- The errors: of the reader; a flag byte other than 0 and 1; a message over the limit, by its length,
-- after which the stream is in step; one that is not worth draining (`ErrLPMUnsynced` and the size
-- error); one whose bytes ended before they were drained, by how many there were.
pub data LpmError : Type 0 where
  read_error : ReadError → LpmError
  invalid_flag : ℕ → LpmError
  too_large unsynced : ℕ → LpmError
  drained_short : ℕ → ℕ → LpmError

abbrev pub Message : Type 0
Message = Bool × Bytes

-- A message of `n` bytes that is over the limit: its bytes are drained, if they are not too many.
unfoldable pub reject : ℕ → ℕ → Bytes → Result LpmError Message × Bytes
reject n max_len s =
    if ltb (max_drain max_len) n
    then (err (unsynced n), s)
    else if ltb (length s) n
    then (err (drained_short (length s) n), [])
    else (err (too_large n), drop n s)

with_flag : Bool → Result ReadError Bytes × Bytes → Result LpmError Message × Bytes
with_flag compressed (ok payload, s) = (ok (compressed, payload), s)
with_flag compressed (err e, s) = (err (read_error e), s)

-- `ReadLPMLimited` on the five bytes of a header.
unfoldable pub read_body : ℕ → ℕ → ℕ → Bytes → Result LpmError Message × Bytes
unfolding with_flag
read_body flag n max_len s =
    if ltb 1 flag
    then (err (invalid_flag flag), s)
    else if ltb 0 max_len && ltb max_len n
    then reject n max_len s
    else with_flag (not (flag == 0)) (read_full n s)

unfoldable pub read_lpm : ℕ → Bytes → Result LpmError Message × Bytes
read_lpm max_len [] = (err (read_error eof), [])
read_lpm max_len (f ∷ (a ∷ (b ∷ (c ∷ (d ∷ s))))) = read_body f (uint32 a b c d) max_len s
read_lpm max_len (f ∷ s) = (err (read_error unexpected_eof), [])

read_lpm-write_lpm_body :
    (compressed : Bool) (payload rest : Bytes) (max_len : ℕ)
    → length payload < 4294967296
    → read_lpm max_len (write_lpm compressed payload ++ rest)
      ≡ read_body (if compressed then 1 else 0) (length payload) max_len (payload ++ rest)
unfolding read_lpm write_lpm
read_lpm-write_lpm_body compressed payload rest max_len h =
    ap (λ n. read_body (if compressed then 1 else 0) n max_len (payload ++ rest))
      (uint32-put (length payload) h)

-- A message within the limit, or of any length if there is none, is read back with its flag, and
-- the reader is left at what follows it.
pub read_lpm-write_lpm :
    (compressed : Bool) (payload rest : Bytes) (max_len : ℕ)
    → length payload < 4294967296
    → (max_len ≡ 0) ⊎ (length payload ≤ max_len)
    → read_lpm max_len (write_lpm compressed payload ++ rest) ≡ (ok (compressed, payload), rest)
unfolding read_body
read_lpm-write_lpm compressed payload rest max_len h fits =
    read_lpm-write_lpm_body compressed payload rest max_len h
    ∙ ground (arith, read_full-append payload rest)

-- A message over the limit is refused. If it is short enough to drain, the reader is left at what
-- follows it, so that the next message can be read; else the stream is said to be out of step, and
-- none of the payload has been read.
pub read_lpm_oversize :
    (compressed : Bool) (payload rest : Bytes) (max_len : ℕ)
    → length payload < 4294967296
    → 0 < max_len
    → max_len < length payload
    → read_lpm max_len (write_lpm compressed payload ++ rest) ≡ (
        if leb (length payload) (max_drain max_len)
        then (err (too_large (length payload)), rest)
        else (err (unsynced (length payload)), payload ++ rest))
unfolding read_body reject
read_lpm_oversize compressed payload rest max_len h pos_max over =
    read_lpm-write_lpm_body compressed payload rest max_len h
    ∙ ground (arith, drop-length payload rest, length-append' payload rest)

read_body_takes :
    (flag n max_len : ℕ) (s : Bytes)
    → 0 < max_len
    → length s ≤ length (read_body flag n max_len s).1 + max_drain max_len
unfolding read_body reject max_drain
read_body_takes flag n max_len s h = ground (arith, length-drop n s, read_full_takes n s)

-- With a limit, no read takes more from the stream than a header and the greatest message that is
-- worth draining, whatever length the peer claims.
pub read_lpm_bounded :
    (max_len : ℕ) (s : Bytes)
    → 0 < max_len
    → length s ≤ length (read_lpm max_len s).1 + max_drain max_len + 5
unfolding read_lpm
read_lpm_bounded max_len [] h = omega arith
read_lpm_bounded max_len (f ∷ (a ∷ (b ∷ (c ∷ (d ∷ s))))) h =
    omega (arith, read_body_takes f (uint32 a b c d) max_len s h)
read_lpm_bounded max_len (f ∷ s) h = omega arith
