-- ===== src/HttpUnary/Call/Delivery.antt =====
-- What the methods of transport/httpunary/call.go leave on the wire, and what `Recv` makes of it.
use argos.Base.{
  ℕ, ◌+◌, ◌≤◌, ◌<◌, ◌^◌, ◌==◌, ltb, Bool, true, false, if◌then◌else◌, List, [], ◌∷◌, Option, none,
  some, ◌≡◌, ◌≢◌, refl, ◌∙◌, sym, arith, length, Bool-cases, inl, inr, ==_iff,
}
use argos.Base.Bytes.{Bytes, codes}
use argos.Base.Result.{ok, err}
use argos.Status.{Error, Code, StatusError, as_status, error, code_of, is_empty}
use argos.Status
use argos.Metadata.{CallMd}
use argos.HttpStatus.{to_http, from_http}
use argos.HttpStatus.Inverse.{to_http-from_http}
use argos.Grpc.Call.{local, answers}
use argos.HttpUnary.Headers.{Headers, encode_metadata, decode_metadata}
use argos.HttpUnary.ErrorBody.{
  Json, max_error_body, encode_error_body, decode_error_body, code_of_status,
}
use argos.HttpUnary.Call.{
  Session, Call, Event, wrote_body, closed_send, wrote_response, State, read_all_limited,
  read_limit, check_inbound_meta,
}
use argos.HttpUnary.Call.Receiving.{Inbound, recv}
use argos.HttpUnary.Call.Methods.{response_of, outgoing, send, half_close, finish, copied, or_empty}
use argos.HttpUnary.Call.Opening.{Settings, new_call}

-- The state of a call that has done nothing.
abbrev pub start : Settings → Bool → Bytes → Option CallMd → Session → State
start set initiator name md s = record {
  call = new_call set initiator name md;
  session = s;
  log = [];
}

-- What the log has last put on the wire.
abbrev pub sent_body : List Event → Bytes
sent_body [] = []
sent_body (wrote_body b ∷ es) = b
sent_body (closed_send ∷ es) = sent_body es
sent_body (e ∷ es) = []

pub data Reply : Type 0 where
  silent : Reply
  reply : ℕ → Headers → Bytes → Reply

abbrev pub sent_reply : List Event → Reply
sent_reply (wrote_response c h b ∷ es) = reply c h b
sent_reply es = silent

abbrev pub carried : Reply → Inbound
carried silent = record {
  reads_headers = true;
  status = ok 0;
  headers = ok [];
  body = [];
  ends = none;
}
carried (reply c h b) = record {
  reads_headers = true;
  status = ok c;
  headers = ok h;
  body = b;
  ends = none;
}

abbrev pub request : Bytes → Inbound
request b = record { reads_headers = false; status = ok 0; headers = ok []; body = b; ends = none }

-- A limit that can be read with.
abbrev pub Fits : ℕ → Bytes → Type 0
Fits max b = (length b ≤ read_limit max) × (read_limit max + 1 < 2 ^ 63)

read_all_limited-Fits :
    (limit : ℕ) (b : Bytes)
    → length b ≤ limit
    → limit + 1 < 2 ^ 63
    → read_all_limited b none limit ≡ ok b
unfolding read_all_limited
read_all_limited-Fits limit b h k = ground arith

or_empty-copied : (b : Bytes) → or_empty (copied b) ≡ b
or_empty-copied [] = refl
or_empty-copied (x ∷ b) = refl

-- What `Send` and `HalfClose` leave on the wire.
pub sent_body-half_close :
    (set : Settings) (name : Bytes) (md : Option CallMd) (s : Session) (p : Bytes)
    → (send (start set true name md s) p).1 ≡ none
    → sent_body (half_close (send (start set true name md s) p).0 none (answers none)).0.log ≡ p
unfolding send half_close
sent_body-half_close set name md s [] h = ground arith
sent_body-half_close set name md s (x ∷ p) h = ground arith

-- A call that can answer, and one that waits for the answer.
pub record Serves (set : Settings) (st : State) : Type 0 where
  pub side : st.call.initiator ≡ false
  pub unclosed : st.call.closed ≡ false
  pub unfinished : st.call.finished ≡ false
  pub empty : st.call.resp_buf ≡ none
  pub unhooked : st.call.encode_error_hook ≡ set.encode_error_hook

pub record Awaits (set : Settings) (st : State) : Type 0 where
  pub side : st.call.initiator ≡ true
  pub unclosed : st.call.closed ≡ false
  pub unseen : st.call.resp_seen ≡ false
  pub limit : st.call.max_msg ≡ set.max_message_size
  pub md_limit : st.call.max_inbound_metadata_size ≡ set.max_inbound_metadata_size

pub half_close-Awaits :
    (set : Settings) (name : Bytes) (md : Option CallMd) (s : Session) (p : Bytes)
    → Awaits set (half_close (send (start set true name md s) p).0 none (answers none)).0
unfolding send half_close
half_close-Awaits set name md s [] = ground arith
half_close-Awaits set name md s (x ∷ p) = ground arith

pub not_200 :
    (e : Error) (se : StatusError)
    → as_status e ≡ some se
    → se.code ≢ Status.ok
    → to_http (code_of (some e)) == 200 ≡ false
not_200 e se is bad = elim (Bool-cases (to_http (code_of (some e)) == 200)) [
  | inl yes' ↦ absurd (
      bad (
        sym (code_of_status e se is)
        ∙ (to_http-from_http (code_of (some e))).1.0 ((==_iff _ 200).0 yes')))
  | inr no' ↦ no'
]

module _ (json : Json) (shows : ℕ → Bytes) where
  -- The headers of what `Finish` writes.
  abbrev pub reply_headers : Call → Option Error → Headers
  reply_headers c e =
      (codes "content-type", (response_of json shows c e).content_type)
      ∷ encode_metadata (outgoing c.md)

  pub recv-request :
      (set : Settings) (name : Bytes) (md : Option CallMd) (s : Session) (p : Bytes)
      → Fits set.max_message_size p
      → (recv json shows (start set false name md s) (request p)).1 ≡ ok p
  unfolding recv
  recv-request set name md s p f =
      rw (read_all_limited-Fits (read_limit set.max_message_size) p f.0 f.1) refl

  pub recv-Serves :
      (set : Settings) (name : Bytes) (md : Option CallMd) (s : Session) (p : Bytes)
      → Fits set.max_message_size p
      → Serves set (recv json shows (start set false name md s) (request p)).0
  unfolding recv
  recv-Serves set name md s p f =
      rw (read_all_limited-Fits (read_limit set.max_message_size) p f.0 f.1) (ground arith)

  -- What `Finish` leaves on the wire, behind a `Send` and with an error.
  pub sent_reply-finish :
      (set : Settings) (st : State) (r : Bytes)
      → Serves set st
      → (send st r).1 ≡ none
      → sent_reply (finish json shows (send st r).0 none (answers none)).0.log
        ≡ reply 200 (reply_headers st.call none) r
  unfolding send finish
  sent_reply-finish set st [] v h = ground arith
  sent_reply-finish set st (x ∷ r) v h = ground arith

  pub sent_reply-finish_error :
      (set : Settings) (st : State) (e : Error)
      → Serves set st
      → set.encode_error_hook ≡ none
      → sent_reply (finish json shows st (some e) (answers none)).0.log
        ≡ reply
            (to_http (code_of (some e)))
            (reply_headers st.call (some e))
            (encode_error_body json shows e)
  unfolding finish
  sent_reply-finish_error set st e v h = ground arith

  pub recv-reply :
      (set : Settings) (st : State) (hs : Headers) (r : Bytes)
      → Awaits set st
      → check_inbound_meta set.max_inbound_metadata_size (decode_metadata hs) ≡ none
      → Fits set.max_message_size r
      → (recv json shows st (carried (reply 200 hs r))).1 ≡ ok r
  unfolding recv
  recv-reply set st hs r w m f =
      ground (arith, m, read_all_limited-Fits (read_limit set.max_message_size) r f.0 f.1)

  pub recv-error :
      (set : Settings) (st : State) (hs : Headers) (code : ℕ) (b : Bytes)
      → Awaits set st
      → check_inbound_meta set.max_inbound_metadata_size (decode_metadata hs) ≡ none
      → Fits set.max_message_size b
      → length b ≤ 16384
      → code == 200 ≡ false
      → (recv json shows st (carried (reply code hs b))).1
        ≡ err (local (decode_error_body json b (from_http code)))
  unfolding recv
  recv-error set st hs code b w m f short bad = ground (
    arith,
    m,
    read_all_limited-Fits
        (if ltb max_error_body (read_limit set.max_message_size)
          then max_error_body
          else read_limit set.max_message_size)
        b (ground arith) (ground arith),
  )
