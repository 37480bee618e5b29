-- ===== src/Synth/Examples.antt =====
-- Small inputs to example/synth/wire.go.
use argos.Base.{◌≡◌, refl, ◌++◌, ◌∷◌, arith, inr}
use argos.Base.Bytes.{Bytes, codes}
use argos.Base.Result.{ok}
use argos.Synth.Wire.{Frame, marshal_body, write_frame, read_frame, type_status, blank}
use argos.Synth.Wire.RoundTrip.{carried, read_frame-write_frame}

abbrev refusal : Frame
refusal = record (blank type_status) { code = 5; message = codes "no"; flags = 1 }

abbrev refusal_bytes : Bytes
refusal_bytes = 0 ∷ (0 ∷ (0 ∷ (9 ∷ (4 ∷ (0 ∷ (0 ∷ (0 ∷ (5 ∷ (0 ∷ (2 ∷ codes "no"))))))))))

read_frame-write_frame_example :
    read_frame (refusal_bytes ++ codes "next") 64 ≡ (ok (carried refusal), codes "next")
unfolding write_frame marshal_body
read_frame-write_frame_example =
    read_frame-write_frame refusal refusal_bytes (codes "next") 64 refl (omega arith) (omega arith)
      (inr (omega arith))
