-- ===== src/Grpc/Examples.antt =====
-- Small inputs to transport/grpc.
use argos.Base.{ℕ, ◌+◌, ◌-◌, ◌*◌, ◌≤◌, ◌≡◌, inr, true, [], ◌∷◌, ◌++◌, arith, length}
use argos.Base.Bytes.{codes}
use argos.Base.Result.{ok}
use argos.Grpc.Lpm.{write_lpm, read_lpm, max_drain, read_lpm-write_lpm, read_lpm_bounded}
use argos.Grpc.Message.{encode_message, decode_message}
use argos.Grpc.Message.RoundTrip.{sanitize, decode_message-encode_message}
use argos.Grpc.Timeout.{encode_timeout, decode_timeout, max_int64}
use argos.Grpc.Timeout.Accuracy.{decode_timeout-encode_timeout}

read_lpm-write_lpm_example :
    read_lpm 4 (write_lpm true (codes "abc") ++ codes "next")
    ≡ (ok (true, codes "abc"), codes "next")
read_lpm-write_lpm_example =
    read_lpm-write_lpm true (codes "abc") (codes "next") 4 (omega arith) (inr (omega arith))

read_lpm_bounded_example : 7 ≤ length (read_lpm 2 (codes "abcdefg")).1 + max_drain 2 + 5
read_lpm_bounded_example = read_lpm_bounded 2 (codes "abcdefg") (omega arith)

decode_message-encode_message_example :
    decode_message (encode_message (b'a' ∷ (200 ∷ []))) ≡ sanitize 0 (b'a' ∷ (200 ∷ []))
decode_message-encode_message_example =
    decode_message-encode_message (b'a' ∷ (200 ∷ [])) (omega arith, (omega arith, tt))

decode_timeout-encode_timeout_example :
    (r : ℕ) × (decode_timeout (encode_timeout 123456789123) ≡ ok r)
    × (123456789123 ≤ r)
    × (r ≤ max_int64)
    × ((r - 123456789123) * 99999 ≤ 123456789123)
decode_timeout-encode_timeout_example = decode_timeout-encode_timeout 123456789123 (omega arith)
