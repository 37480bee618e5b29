-- ===== src/Synth/Wire/RoundTrip.antt =====
-- What example/synth/wire.go writes it reads back.
use argos.Base.{
  ℕ, ◌+◌, ◌<◌, ◌≤◌, ◌==◌, ◌≡◌, refl, sym, ap, ◌∙◌, ltb, if◌then◌else◌, if_rule, if_both, [], ◌∷◌,
  ◌++◌, length, take, arith, ◌⊎◌, inl, inr, length-append,
}
use argos.Base.Bytes.{Bytes}
use argos.Base.Result.{Result, ok, err, Result-cases}
use argos.Base.Wire.{
  put_uint16, put_uint32, uint16-put, uint32-put, read_full, read_full-append, take-length,
  drop-length,
}
use argos.Synth.Wire.{
  WireError, truncated, Frame, blank, after, type_open, type_data, type_end, type_status,
  write_greeting, greeting_header, read_greeting, marshal_body, write_frame, parse_open,
  parse_status, parse_body, read_frame_body, frame_header, read_frame, byte_at, magic_greeting,
}

written : (b w : Bytes) → ◌≡◌ {A = Result WireError Bytes} (ok b) (ok w) → b ≡ w
written b w h = cc

refused :
    {P : Type 0} (e : WireError) (w : Bytes) → ◌≡◌ {A = Result WireError Bytes} (err e) (ok w) → P
refused e w h = cc

greeting_read :
    (greeting rest : Bytes)
    → length greeting ≤ 65535
    → read_greeting ((magic_greeting ++ (put_uint16 (length greeting) ++ greeting)) ++ rest)
      ≡ (ok greeting, rest)
unfolding read_greeting greeting_header
greeting_read greeting rest fits =
    let n = length greeting in
    let hdr = magic_greeting ++ put_uint16 n in
    ap (λ r. after r greeting_header) (read_full-append hdr (greeting ++ rest))
    ∙ (ap (λ k. after (read_full k (greeting ++ rest)) taken) (uint16-put n (omega arith))
        ∙ ap (λ r. after r taken) (read_full-append greeting rest))
  where
    taken : Bytes → Bytes → Result WireError Bytes × Bytes
    taken buf left = (ok buf, left)

-- A greeting that is written is read back, and the reader is left at what follows it.
pub read_greeting-write_greeting :
    (greeting w rest : Bytes)
    → write_greeting greeting ≡ ok w
    → read_greeting (w ++ rest) ≡ (ok greeting, rest)
unfolding write_greeting
read_greeting-write_greeting greeting w rest =
    if_rule (λ m. m ≡ ok w → read_greeting (w ++ rest) ≡ (ok greeting, rest))
      (ltb 65535 (length greeting)) _ _ (λ _ h. refused _ w h)
      λ fits h.
        ap (λ v. read_greeting (v ++ rest)) (sym (written _ w h))
        ∙ greeting_read greeting rest (ground arith)

-- The fields that a frame of its type carries.
unfoldable pub carried : Frame → Frame
carried f =
    if f.typ == type_open
    then record (blank type_open) { method = f.method; flags = f.flags }
    else if f.typ == type_data
    then record (blank type_data) { data_bytes = f.data_bytes }
    else if f.typ == type_end
    then blank type_end
    else record (blank type_status) { code = f.code; message = f.message }

open_at :
    (k : ℕ) (m : Bytes) (flag : ℕ)
    → k ≡ length m
    → (if ltb (length (m ++ (flag ∷ []))) (k + 1)
        then err truncated
        else ok (record (blank type_open) {
          method = take k (m ++ (flag ∷ []));
          flags = byte_at k (m ++ (flag ∷ []));
        }))
      ≡ ok (record (blank type_open) { method = m; flags = flag })
open_at k m flag h =
    ground
      (arith, h, take-length m (flag ∷ []), drop-length m (flag ∷ []), length-append m (flag ∷ []))

parse_open-put :
    (m : Bytes) (flag : ℕ)
    → length m ≤ 65535
    → parse_body (type_open ∷ (put_uint16 (length m) ++ (m ++ (flag ∷ []))))
      ≡ ok (record (blank type_open) { method = m; flags = flag })
unfolding parse_body parse_open
parse_open-put [] flag h = refl
parse_open-put (c ∷ m) flag h = open_at _ (c ∷ m) flag (uint16-put (length (c ∷ m)) (omega arith))

take-all : (m : Bytes) → take (length m) m ≡ m
take-all [] = refl
take-all (c ∷ m) = ap (◌∷◌ c) (take-all m)

status_at :
    (k code code' : ℕ) (m : Bytes)
    → k ≡ length m
    → code' ≡ code
    → (if ltb (length m) k
        then err truncated
        else ok (record (blank type_status) { code = code'; message = take k m }))
      ≡ ok (record (blank type_status) { code = code; message = m })
status_at k code code' m h e = ground (arith, h, e, take-all m)

parse_status-put :
    (code : ℕ) (m : Bytes)
    → code < 4294967296
    → length m ≤ 65535
    → parse_body (type_status ∷ (put_uint32 code ++ (put_uint16 (length m) ++ m)))
      ≡ ok (record (blank type_status) { code = code; message = m })
unfolding parse_body parse_status
parse_status-put code m h k =
    status_at _ code _ m (uint16-put (length m) (omega arith)) (uint32-put code h)

parsed :
    (b body : Bytes) (r : Frame)
    → ◌≡◌ {A = Result WireError Bytes} (ok b) (ok body)
    → parse_body b ≡ ok r
    → parse_body body ≡ ok r
parsed b body r h e = ground (arith, e, h)

-- Any frame that is marshalled parses back to the fields that its type carries.
parse_body-marshal_body :
    (f : Frame) (body : Bytes)
    → f.code < 4294967296
    → marshal_body f ≡ ok body
    → parse_body body ≡ ok (carried f)
unfolding marshal_body carried parse_body
parse_body-marshal_body f body c =
    let opened = record (blank type_open) { method = f.method; flags = f.flags } in
    let ended = record (blank type_status) { code = f.code; message = f.message } in
    if_both (λ m r. m ≡ ok body → parse_body body ≡ ok r) (f.typ == type_open) _ _ _ _
      (λ _.
        if_rule (λ m. m ≡ ok body → parse_body body ≡ ok opened) (ltb 65535 (length f.method)) _ _
          (λ _ h. refused _ body h)
          λ fits h. parsed _ body _ h (parse_open-put f.method f.flags (ground arith)))
      λ _.
        if_both (λ m r. m ≡ ok body → parse_body body ≡ ok r) (f.typ == type_data) _ _ _ _
          (λ _ h. parsed _ body _ h refl)
          λ _.
            if_both (λ m r. m ≡ ok body → parse_body body ≡ ok r) (f.typ == type_end) _ _ _ _
              (λ _ h. parsed _ body _ h refl)
              λ _.
                if_rule (λ m. m ≡ ok body → parse_body body ≡ ok ended) (f.typ == type_status) _ _
                  (λ _.
                    if_rule (λ m. m ≡ ok body → parse_body body ≡ ok ended)
                      (ltb 65535 (length f.message)) _ _ (λ _ h. refused _ body h)
                      λ fits h.
                        parsed _ body _ h (parse_status-put f.code f.message c (ground arith)))
                  (λ _ h. refused _ body h)

parse_body-pos : (b : Bytes) (r : Frame) → parse_body b ≡ ok r → 0 < length b
unfolding parse_body
parse_body-pos [] r h = cc
parse_body-pos (t ∷ s) r h = omega arith

read_frame_body-append :
    (body rest : Bytes) (max_frame : ℕ) (r : Frame)
    → (max_frame ≡ 0) ⊎ (length body ≤ max_frame)
    → parse_body body ≡ ok r
    → read_frame_body (length body) max_frame (body ++ rest) ≡ (ok r, rest)
unfolding read_frame_body
read_frame_body-append body rest max_frame r fits p =
    ground (arith, parse_body-pos body r p, read_full-append body rest)

frame_read :
    (body rest : Bytes) (max_frame : ℕ) (r : Frame)
    → length body < 4294967296
    → (max_frame ≡ 0) ⊎ (length body ≤ max_frame)
    → parse_body body ≡ ok r
    → read_frame ((put_uint32 (length body) ++ body) ++ rest) max_frame ≡ (ok r, rest)
unfolding read_frame frame_header
frame_read body rest max_frame r l fits p =
    let n = length body in
    ap (λ x. after x (frame_header max_frame)) (read_full-append (put_uint32 n) (body ++ rest))
    ∙ (ap (λ k. read_frame_body k max_frame (body ++ rest)) (uint32-put n l)
        ∙ read_frame_body-append body rest max_frame r fits p)

-- A frame that is written is read back with the fields that its type carries, if its body is
-- within the limit, or if there is none, and the reader is left at what follows it.
pub read_frame-write_frame :
    (f : Frame) (w rest : Bytes) (max_frame : ℕ)
    → write_frame f ≡ ok w
    → f.code < 4294967296
    → length w < 4294967296
    → (max_frame ≡ 0) ⊎ (length w ≤ max_frame + 4)
    → read_frame (w ++ rest) max_frame ≡ (ok (carried f), rest)
unfolding write_frame
read_frame-write_frame f w rest max_frame h c l fits = elim (Result-cases (marshal_body f)) [
  | inl (e, m) ↦ absurd (ground (arith, m))
  | inr (body, m) ↦
      let w-eq : put_uint32 (length body) ++ body ≡ w = ground (arith, m) in
      let long : length w ≡ length body + 4 =
        omega (arith, sym (ap length w-eq) ∙ length-append (put_uint32 (length body)) body) in
      ap (λ v. read_frame (v ++ rest) max_frame) (sym w-eq)
      ∙ frame_read body rest max_frame (carried f) (omega arith) (ground arith)
          (parse_body-marshal_body f body c m)
]
