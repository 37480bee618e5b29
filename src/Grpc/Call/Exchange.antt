-- ===== src/Grpc/Call/Exchange.antt =====
-- What one side sends through transport/grpc/call.go the other receives.
use argos.Base.{
  ℕ, ◌≤◌, ◌<◌, ◌+◌, ◌^◌, ◌≡◌, sym, ap, ◌∙◌, Bool, true, false, ◌&&◌, not, ltb, if◌then◌else◌, List,
  [], ◌∷◌, ◌++◌, Option, none, some, length, ◌⊎◌, inl, inr, arith, if_rule, if_true, if_false,
  Bool-cases,
}
use mathlib.Core.Path.{subst}
use argos.Base.Bytes.{Bytes, ◌===◌}
use argos.Base.Result.{Result, ok, err, Result-cases}
use argos.Status.{Code, Error, is_empty}
use argos.Grpc.Details.{Proto, ProtoStatus}
use argos.Grpc.Lpm.{write_lpm, read_lpm, read_lpm-write_lpm}
use argos.Grpc.Compress.{
  Compressor, IsLossless, identity_name, compress_message, find_compressor, decompress-compress,
}
use argos.Grpc.Call.{Fault, Event, wrote_message, State, Answer, send_failed, send_encoding_header}
use argos.Grpc.Call.Sending.{
  maybe_auto_headers, write_wire, send_compressed, send_message, after_headers, send,
}
use argos.Grpc.Call.Receiving.{
  Response, arrival, max_wire, names_algorithm, plain_message, take_encoded, take_decompressed,
  refuse_encoding, accept_message, arrived, recv,
}
use argos.Grpc.Call.Protocol.Held.{Holds-held, maybe_auto_headers-Holds}
use argos.Grpc.Call.Protocol.Sends.{unless_failed-rule}

-- A length is within a limit, 0 being none.
abbrev pub Within : ℕ → ℕ → Type 0
Within max n = (max ≡ 0) ⊎ (n ≤ max)

-- What `sendEncodingHeader` announces of a compressor.
abbrev announced : Compressor → Bytes
announced c = if c.name === identity_name then [] else c.name

plain_message_fits :
    (st : State) (payload : Bytes)
    → Within st.call.cfg.max_message_size (length payload)
    → plain_message st payload
      ≡ (record st { call = record st.call { messages_recv = true } }, ok payload)
unfolding plain_message
plain_message_fits st payload w = ground (arith, w)

-- The last message of a log: its flag and its wire payload.
abbrev pub last_flag : List Event → Bool
last_flag (wrote_message flag wire ∷ es) = flag
last_flag es = false

abbrev pub last_wire : List Event → Bytes
last_wire (wrote_message flag wire ∷ es) = wire
last_wire es = []

-- The log of a `Send` that has not failed ends with what `comp` makes of the payload.
Wrote : Compressor → Bytes → State × Option Fault → Type 0
Wrote comp payload (st, some f) = Unit
Wrote comp payload (st, none) =
    compress_message comp payload ≡ ok (last_flag st.log, last_wire st.log)

failed :
    (comp : Compressor) (payload : Bytes) (st : State) (f : Fault) → Wrote comp payload (st, some f)
failed comp payload st f = unfold Wrote in tt

send_failed-Wrote :
    (comp : Compressor) (payload : Bytes) (st : State) (f : Fault)
    → Wrote comp payload (send_failed st f)
send_failed-Wrote comp payload st f = unfold Wrote send_failed in tt

module _ (shows : ℕ → Bytes) where
  send_compressed-Wrote :
      (comp : Compressor) (payload : Bytes) (st : State) (r : Result Error (Bool × Bytes))
      (ans : Option Fault)
      → compress_message comp payload ≡ r
      → Wrote comp payload (send_compressed shows st r ans)
  send_compressed-Wrote comp payload st (err e) ans h = failed comp payload st _
  send_compressed-Wrote comp payload st (ok (c, wire)) none h =
      let max = st.call.cfg.max_frame_size in
      if_rule (Wrote comp payload) (ltb 0 max && ltb max (length wire)) _ _
        (λ _. failed comp payload st _) (λ _. unfold Wrote write_wire in h)
  send_compressed-Wrote comp payload st (ok (c, wire)) (some f) h =
      let max = st.call.cfg.max_frame_size in
      if_rule (Wrote comp payload) (ltb 0 max && ltb max (length wire)) _ _
        (λ _. failed comp payload st _)
        (λ _. unfold write_wire in send_failed-Wrote comp payload _ f)

  after_headers-Wrote :
      (comp : Compressor) (payload : Bytes) (r : State × Option Fault) (ans : Option Fault)
      → r.0.call.send_comp ≡ comp
      → Wrote comp payload (after_headers shows r payload ans)
  unfolding send_message
  after_headers-Wrote comp payload (st, some f) ans h = failed comp payload st f
  after_headers-Wrote comp payload (st, none) ans h =
      let max = st.call.cfg.max_message_size in
      if_rule (Wrote comp payload) (ltb 0 max && ltb max (length payload)) _ _
        (λ _. failed comp payload st _)
        (λ _.
          send_compressed-Wrote comp payload st _ ans
            (ap (λ c. compress_message c payload) (sym h)))

  send-Wrote :
      (st : State) (payload : Bytes) (a : Answer) (b : Option Fault)
      → Wrote st.call.send_comp payload (send shows st payload a b)
  unfolding send
  send-Wrote st payload a b =
      let comp = st.call.send_comp in
      if_rule (Wrote comp payload) st.call.closed _ _ (λ _. failed comp payload st _)
        λ _.
          unless_failed-rule (Wrote comp payload) st st.call.send_err _
            (λ _. failed comp payload st _)
            λ _.
              if_rule (Wrote comp payload) (st.call.initiator && st.call.half_closed) _ _
                (λ _. failed comp payload st _)
                λ _.
                  if_rule (Wrote comp payload) (not st.call.initiator && st.call.finished) _ _
                    (λ _. failed comp payload st _)
                    λ _.
                      after_headers-Wrote comp payload (maybe_auto_headers st a) b
                        (ap (λ x. x.3) (Holds-held st _ (maybe_auto_headers-Holds st a)))

  -- A `Send` without an error has written the payload, compressed.
  sent_wire :
      (st st' : State) (payload : Bytes) (a : Answer) (b : Option Fault)
      → send shows st payload a b ≡ (st', none)
      → compress_message st.call.send_comp payload ≡ ok (last_flag st'.log, last_wire st'.log)
  sent_wire st st' payload a b h =
      unfold Wrote in subst (λ r. Wrote st.call.send_comp payload r) h (send-Wrote st payload a b)

-- What a compressor makes of a message.
compress_cases :
    (c : Compressor) (payload wire : Bytes) (flag : Bool)
    → compress_message c payload ≡ ok (flag, wire)
    → ((c.name === identity_name ≡ true) × (false ≡ flag) × (payload ≡ wire))
      ⊎ ((c.name === identity_name ≡ false) × (true ≡ flag))
unfolding compress_message
compress_cases c payload wire flag h = elim (Bool-cases (c.name === identity_name)) [
  | inl y ↦ inl (y, ground (arith, h, y), ground (arith, h, y))
  | inr n ↦ elim (Result-cases (c.compress payload)) [
    | inl (e, x) ↦ absurd (ground (arith, h, n, x))
    | inr (s, x) ↦ inr (n, ground (arith, h, n, x))
  ]
]

module _ (proto : Proto) (shows : ℕ → Bytes) (mismatch : Code → Bytes → ProtoStatus → Bytes)
    (quote : Bytes → Bytes) where
  -- The end of `Recv`, by what the peer names.
  chosen : State → Bytes → Bool → Bytes → State × Result Fault Bytes
  chosen st enc flag wire =
      if names_algorithm enc
      then take_encoded quote st (find_compressor enc st.call.compressors) flag wire
      else if flag
      then refuse_encoding quote st
      else plain_message st wire

  chosen_identity :
      (comp : Compressor) (payload : Bytes) (st : State)
      → comp.name === identity_name ≡ true
      → Within st.call.cfg.max_message_size (length payload)
      → chosen st (announced comp) false payload
        ≡ (record st { call = record st.call { messages_recv = true } }, ok payload)
  unfolding chosen
  chosen_identity comp payload st y w =
      ap (λ enc. chosen st enc false payload) (if_true _ [] comp.name y)
      ∙ plain_message_fits st payload w

  chosen_other :
      (comp : Compressor) (payload wire : Bytes) (st : State)
      → IsLossless comp
      → is_empty comp.name ≡ false
      → comp.name === identity_name ≡ false
      → compress_message comp payload ≡ ok (true, wire)
      → Within st.call.cfg.max_message_size (length payload)
      → st.call.cfg.max_message_size + 1 < 2 ^ 63
      → find_compressor comp.name st.call.compressors ≡ some comp
      → chosen st (announced comp) true wire
        ≡ (record st { call = record st.call { messages_recv = true } }, ok payload)
  unfolding chosen
  chosen_other comp payload wire st law named n h w g f =
      let named' : names_algorithm comp.name ≡ true = ground (arith, named, n) in
      ap (λ enc. chosen st enc true wire) (if_false _ [] comp.name n)
      ∙ (if_true (names_algorithm comp.name)
            (take_encoded quote st (find_compressor comp.name st.call.compressors) true wire)
            (refuse_encoding quote st) named'
          ∙ (ap (λ o. take_encoded quote st o true wire) f
              ∙ ap (λ r. take_decompressed st r)
                  (decompress-compress comp payload wire st.call.cfg.max_message_size law h w g)))

  accept_written :
      (comp : Compressor) (payload wire : Bytes) (flag : Bool) (st : State)
      → IsLossless comp
      → is_empty comp.name ≡ false
      → compress_message comp payload ≡ ok (flag, wire)
      → Within st.call.cfg.max_message_size (length payload)
      → st.call.cfg.max_message_size + 1 < 2 ^ 63
      → st.call.peer_encoding ≡ announced comp
      → find_compressor comp.name st.call.compressors ≡ some comp
      → accept_message quote st flag wire
        ≡ (record st { call = record st.call { messages_recv = true } }, ok payload)
  unfolding accept_message chosen
  accept_written comp payload wire flag st law named h w g e f =
      ap (λ enc. chosen st enc flag wire) e ∙ elim (compress_cases comp payload wire flag h) [
        | inl (y, a, b) ↦
            ap (λ x. chosen st (announced comp) x wire) (sym a)
            ∙ (ap (λ x. chosen st (announced comp) false x) (sym b)
                ∙ chosen_identity comp payload st y w)
        | inr (n, a) ↦
            ap (λ x. chosen st (announced comp) x wire) (sym a)
            ∙ chosen_other comp payload wire st law named n (h ∙ ap (λ x. ok (x, wire)) (sym a)) w g
                f
      ]

  -- A message on the wire is received as the payload that it was made of.
  recv_written :
      (comp : Compressor) (payload wire rest : Bytes) (flag : Bool) (st : State) (resp : Response)
      → IsLossless comp
      → is_empty comp.name ≡ false
      → compress_message comp payload ≡ ok (flag, wire)
      → length wire < 4294967296
      → Within (max_wire st.call) (length wire)
      → Within st.call.cfg.max_message_size (length payload)
      → st.call.cfg.max_message_size + 1 < 2 ^ 63
      → st.call.peer_encoding ≡ announced comp
      → find_compressor comp.name st.call.compressors ≡ some comp
      → st.call.initiator ≡ false
      → st.call.closed ≡ false
      → st.call.status_returned ≡ false
      → st.inbound ≡ write_lpm flag wire ++ rest
      → recv proto shows mismatch quote st resp
        ≡ (record st { call = record st.call { messages_recv = true }; inbound = rest }, ok payload)
  unfolding recv arrived arrival
  recv_written comp payload wire rest flag st resp law named h short max w g e f i c s n =
      if_false st.call.closed _ _ c
      ∙ (if_false st.call.status_returned _ _ s
          ∙ (if_false st.call.initiator _ _ i
              ∙ (ap
                    (λ r.
                      arrived proto shows mismatch quote (record st { inbound = r.1 }) resp
                        (arrival shows st.ends_with (max_wire st.call) r.0))
                    (ap (λ b. read_lpm (max_wire st.call) b) n
                      ∙ read_lpm-write_lpm flag wire rest (max_wire st.call) short max)
                  ∙ accept_written comp payload wire flag (record st { inbound = rest }) law named h
                      w g e f)))

  -- A message that one side sends without an error is received by the other, a responder whose body
  -- begins with it, as the payload that was given to `Send`, and the body is left at what follows,
  -- if the wire payload is shorter than 2^32 bytes, it and the payload are within the receiver's
  -- limits, the greatest message size is below 2^63 - 1, the compressor is lossless and has a name,
  -- and the receiver has it under the name that the sender announces.
  pub recv-send :
      (st st' : State) (payload rest : Bytes) (a : Answer) (b : Option Fault) (peer : State)
      (resp : Response)
      → send shows st payload a b ≡ (st', none)
      → peer.inbound ≡ write_lpm (last_flag st'.log) (last_wire st'.log) ++ rest
      → IsLossless st.call.send_comp
      → is_empty st.call.send_comp.name ≡ false
      → length (last_wire st'.log) < 4294967296
      → Within (max_wire peer.call) (length (last_wire st'.log))
      → Within peer.call.cfg.max_message_size (length payload)
      → peer.call.cfg.max_message_size + 1 < 2 ^ 63
      → peer.call.peer_encoding ≡ send_encoding_header st.call
      → find_compressor st.call.send_comp.name peer.call.compressors ≡ some st.call.send_comp
      → peer.call.initiator ≡ false
      → peer.call.closed ≡ false
      → peer.call.status_returned ≡ false
      → recv proto shows mismatch quote peer resp ≡ (
        record peer { call = record peer.call { messages_recv = true }; inbound = rest },
        ok payload,
      )
  unfolding send_encoding_header
  recv-send st st' payload rest a b peer resp h n law named short max w g e f i c s =
      recv_written st.call.send_comp payload (last_wire st'.log) rest (last_flag st'.log) peer resp
        law named (sent_wire shows st st' payload a b h) short max w g e f i c s n
