-- ===== src/Grpc/Call/Outcome.antt =====
-- The status that a responder finishes with through transport/grpc/call.go, as the initiator reads it.
use argos.Base.{
  ℕ, ◌<◌, ◌≡◌, ◌≢◌, refl, ap, ◌∙◌, true, false, ◌||◌, not, List, [], ◌∷◌, Option, none, some, arith,
  All, if_rule, if_true, if_false,
}
use mathlib.Core.Path.{subst}
use argos.Base.Bytes.{Bytes}
use argos.Base.Result.{Result, err}
use argos.Base.Wire.{eof}
use argos.Status.{Code, Detail, Error, code_of, details_of, with_details, error}
use argos.Status
use argos.Metadata.{Metadata}
use argos.Grpc.StatusWire.{Header}
use argos.Grpc.Lpm.{read_lpm, read_error}
use argos.Grpc.Metadata.{decode_metadata}
use argos.Grpc.Details.{
  Proto, ProtoStatus, IsProto, status_message, encode_status_trailers, resolve_call_status,
}
use argos.Grpc.Details.RoundTrip.{IsFree, resolve-encode_with_details}
use argos.Grpc.Call.{
  Fault, local, Event, finished_with, State, Answer, missing, answers, send_failed,
  check_inbound_meta,
}
use argos.Grpc.Call.Sending.{outgoing_trailers_of, write_finish, finish}
use argos.Grpc.Call.Receiving.{
  Response, ensure_response_headers, or_nil, headers_or_nil, status_or_ok, take_trailers, end_with,
  finish_client_recv, arrival, arrived, max_wire, behind_headers, recv,
}
use argos.Grpc.Call.Protocol.Sends.{unless_failed-rule}

-- The trailers of a log that ends with them.
abbrev pub last_trailers : List Event → List Header
last_trailers (finished_with initial trailers ∷ es) = trailers
last_trailers es = []

module _ (proto : Proto) (shows : ℕ → Bytes) (mismatch : Code → Bytes → ProtoStatus → Bytes) where
  -- The log of a `Finish` that has not failed ends with the status and the user's trailers.
  Finished : State → Option Error → State × Option Fault → Type 0
  Finished st e (st', some f) = Unit
  Finished st e (st', none) =
      last_trailers st'.log
      ≡ encode_status_trailers proto shows mismatch e (outgoing_trailers_of st.call.md)

  refused : (st : State) (e : Option Error) (st' : State) (f : Fault) → Finished st e (st', some f)
  refused st e st' f = unfold Finished in tt

  write_finish-Finished :
      (st : State) (e : Option Error) (ans : Answer)
      → Finished st e (write_finish proto shows mismatch st e ans)
  unfolding write_finish Finished send_failed
  write_finish-Finished st e missing = tt
  write_finish-Finished st e (answers none) = refl
  write_finish-Finished st e (answers (some f)) = tt

  finish-Finished :
      (st : State) (e : Option Error) (ans : Answer)
      → Finished st e (finish proto shows mismatch st e ans)
  unfolding finish
  finish-Finished st e ans =
      if_rule (Finished st e) st.call.initiator _ _ (λ _. refused st e st _)
        λ _.
          if_rule (Finished st e) st.call.closed _ _ (λ _. refused st e st _)
            λ _.
              if_rule (Finished st e) st.call.finished _ _ (λ _. refused st e st _)
                λ _.
                  unless_failed-rule (Finished st e) st st.call.send_err _ (λ _. refused st e st _)
                    (λ _. write_finish-Finished st e ans)

  finish_trailers :
      (st st' : State) (e : Option Error) (ans : Answer)
      → finish proto shows mismatch st e ans ≡ (st', none)
      → last_trailers st'.log
        ≡ encode_status_trailers proto shows mismatch e (outgoing_trailers_of st.call.md)
  finish_trailers st st' e ans h =
      unfold Finished in subst (λ r. Finished st e r) h (finish-Finished st e ans)

module _ (proto : Proto) (shows : ℕ → Bytes) (mismatch : Code → Bytes → ProtoStatus → Bytes)
    (quote : Bytes → Bytes) where
  ensure_seen :
      (st : State) (resp : Response)
      → st.call.headers_seen ≡ true
      → ensure_response_headers st resp ≡ (st, none)
  unfolding ensure_response_headers
  ensure_seen st resp h =
      if_true (st.call.headers_seen || not resp.reads_headers) _ _ (ground (arith, h))

  unlimited :
      (st : State) (md : Metadata)
      → st.call.cfg.max_inbound_metadata_size ≡ 0
      → check_inbound_meta st.call.cfg md ≡ none
  unfolding check_inbound_meta
  unlimited st md h = ground (arith, h)

  end_with_error :
      (st : State) (o : Option Error) (e : Error)
      → o ≡ some e
      → (end_with proto shows mismatch quote st o).1 ≡ err (local e)
  end_with_error st o e h = ap (λ x. (end_with proto shows mismatch quote st x).1) h

  finish_client_recv_status :
      (st : State) (resp : Response) (e : Error)
      → st.call.headers_seen ≡ true
      → st.call.cfg.max_inbound_metadata_size ≡ 0
      → resolve_call_status proto shows mismatch
          (status_or_ok resp)
          (headers_or_nil resp)
          (or_nil resp.trailers)
        ≡ some e
      → (finish_client_recv proto shows mismatch quote st resp).1 ≡ err (local e)
  unfolding finish_client_recv
  finish_client_recv_status st resp e seen max r =
      let user = (decode_metadata (or_nil resp.trailers)).0 in
      ap
        (λ x.
          (take_trailers proto shows mismatch quote x.0 resp user
            (check_inbound_meta x.0.call.cfg user)).1)
        (ensure_seen st resp seen)
      ∙ (ap (λ o. (take_trailers proto shows mismatch quote st resp user o).1)
            (unlimited st user max)
          ∙ end_with_error _ _ e r)

  recv_status :
      (st : State) (resp : Response) (e : Error)
      → st.call.initiator ≡ true
      → st.call.closed ≡ false
      → st.call.status_returned ≡ false
      → st.call.headers_seen ≡ true
      → st.call.cfg.max_inbound_metadata_size ≡ 0
      → st.inbound ≡ []
      → st.ends_with ≡ none
      → resolve_call_status proto shows mismatch
          (status_or_ok resp)
          (headers_or_nil resp)
          (or_nil resp.trailers)
        ≡ some e
      → (recv proto shows mismatch quote st resp).1 ≡ err (local e)
  unfolding recv read_lpm arrival arrived
  recv_status st resp e i c s seen limit n d r =
      ap (λ (x : State × Result Fault Bytes). x.1)
        (if_false st.call.closed _ _ c
          ∙ (if_false st.call.status_returned _ _ s ∙ if_true st.call.initiator _ _ i))
      ∙ (ap (λ x. (behind_headers proto shows mismatch quote x resp).1) (ensure_seen st resp seen)
          ∙ (ap
                (λ b.
                  (arrived proto shows mismatch quote (record st { inbound = (read_lpm max b).1 })
                    resp (arrival shows st.ends_with max (read_lpm max b).0)).1)
                n
              ∙ (ap
                    (λ o.
                      (arrived proto shows mismatch quote ended resp
                        (arrival shows o max (err (read_error eof)))).1)
                    d
                  ∙ (ap (λ (x : State × Result Fault Bytes). x.1) (if_true st.call.initiator _ _ i)
                      ∙ finish_client_recv_status ended resp e seen limit r))))
    where
      max : ℕ
      max = max_wire st.call

      ended : State
      ended = record st { inbound = [] }

  -- What a responder finishes with an initiator reads: a `Finish` that has not failed, of a status
  -- that is not OK and has details, makes the `Recv` of the other side at the end of the body return
  -- an error with that code, the message that the encoder writes (the status's own, or the text of
  -- the error where that is empty) and those details, if the code fits 32 bits and the protobuf codec
  -- is one and marshals the status, the trailers arrive as they were written, the user's own are not
  -- taken for a status, the headers have been read, and the session has no limit on metadata.
  pub recv-finish :
      (st st' : State) (e : Error) (ans : Answer) (peer : State) (resp : Response) (raw : Bytes)
      (d : Detail) (ds : List Detail)
      → finish proto shows mismatch st (some e) ans ≡ (st', none)
      → resp.trailers ≡ some (last_trailers st'.log)
      → IsProto proto
      → All IsFree (outgoing_trailers_of st.call.md)
      → code_of (some e) ≢ Status.ok
      → code_of (some e) < 4294967296
      → details_of (some e) ≡ d ∷ ds
      → proto.marshal
          (record { code = code_of (some e); message = status_message shows e; details = d ∷ ds })
        ≡ some raw
      → peer.call.initiator ≡ true
      → peer.call.closed ≡ false
      → peer.call.status_returned ≡ false
      → peer.call.headers_seen ≡ true
      → peer.call.cfg.max_inbound_metadata_size ≡ 0
      → peer.inbound ≡ []
      → peer.ends_with ≡ none
      → (recv proto shows mismatch quote peer resp).1
        ≡ err (
            local (
              with_details shows
                (some (error (code_of (some e)) (status_message shows e)))
                (d ∷ ds)))
  recv-finish st st' e ans peer resp raw d ds f t law free bad small has m i c s seen limit n o =
      recv_status peer resp _ i c s seen limit n o (
        ap
          (λ x.
            resolve_call_status proto shows mismatch (status_or_ok resp) (headers_or_nil resp)
              (or_nil x))
          t
        ∙ (ap
              (λ x.
                resolve_call_status proto shows mismatch (status_or_ok resp) (headers_or_nil resp)
                  x)
              (finish_trailers proto shows mismatch st st' (some e) ans f)
            ∙ resolve-encode_with_details proto shows mismatch (status_or_ok resp)
                (headers_or_nil resp) (outgoing_trailers_of st.call.md) e raw d ds law free bad
                small has m))
