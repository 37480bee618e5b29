-- ===== src/Stream.antt =====
-- stream/stream.go over a call of transport/grpc/call.go: the methods of `Wrap` for a call and a codec
-- that are not nil. Values and their bytes are the codec's, a parameter.
use argos.Base.{arith, ℕ, ◌≡◌, refl, if◌then◌else◌, Option, none, some, Bool-cases, inl, inr}
use argos.Base.Bytes.{Bytes}
use argos.Base.Result.{Result, ok, err}
use argos.Status.{Code, Error}
use argos.Grpc.Details.{Proto, ProtoStatus}
use argos.Grpc.Call.{Fault, local, State, Answer, send_failure}
use argos.Grpc.Call.Sending.{send, half_close}
use argos.Grpc.Call.Receiving.{Response, recv}
use argos.Grpc.Call.Gentle.{StillOpen, send_gentle}

-- What `Send` and `HalfClose` of a stream return: nil, `ErrSendClosed`, or another error.
pub data Sent : Type 0 where
  sent send_closed : Sent
  fails : Fault → Sent

-- `mapSendErr`.
unfoldable pub map_send_err : Option Fault → Sent
map_send_err none = sent
map_send_err (some f) = if send_failure f then send_closed else fails f

-- `codec.Codec` on values of one type.
pub record Codec (V : Type 0) : Type 0 where
  pub marshal : V → Result Error Bytes
  pub unmarshal : Bytes → Result Error V

abbrev pub mapped : State × Option Fault → State × Sent
mapped r = (r.0, map_send_err r.1)

module _ {V : Type 0} (codec : Codec V) (shows : ℕ → Bytes) where
  abbrev pub send_bytes : State → Result Error Bytes → Answer → Option Fault → State × Sent
  send_bytes st (err e) a b = (st, fails (local e))
  send_bytes st (ok p) a b = mapped (send shows st p a b)

  -- `Send`.
  unfoldable pub send_value : State → V → Answer → Option Fault → State × Sent
  send_value st v a b = send_bytes st (codec.marshal v) a b

-- `HalfClose`.
unfoldable pub half_close_stream : State → Answer → State × Sent
half_close_stream st ans = mapped (half_close st ans)

abbrev pub decoded {ℓ} :
    {A : Type ℓ} {V : Type 0} → Codec V → A × Result Fault Bytes → A × Result Fault V
decoded codec (st, err f) = (st, err f)
decoded codec (st, ok p) = (st, elim (codec.unmarshal p) [ err e ↦ err (local e) | ok v ↦ ok v ])

module _ {V : Type 0} (codec : Codec V) (proto : Proto) (shows : ℕ → Bytes)
    (mismatch : Code → Bytes → ProtoStatus → Bytes) (quote : Bytes → Bytes) where
  -- `Recv`.
  unfoldable pub recv_value : State → Response → State × Result Fault V
  recv_value st resp = decoded codec (recv proto shows mismatch quote st resp)

send_closed_StillOpen : (o : Option Fault) → map_send_err o ≡ send_closed → StillOpen o
unfolding map_send_err
send_closed_StillOpen none h = tt
send_closed_StillOpen (some f) h = elim (Bool-cases (send_failure f)) [
  | inl y ↦ y
  | inr n ↦ absurd (ground (arith, h, n))
]

module _ {V : Type 0} (codec : Codec V) (shows : ℕ → Bytes) where
  send_bytes_gentle :
      (st : State) (r : Result Error Bytes) (a : Answer) (b : Option Fault)
      → (send_bytes codec shows st r a b).1 ≡ send_closed
      → (send_bytes codec shows st r a b).0.session ≡ st.session
  send_bytes_gentle st (err e) a b h = refl
  send_bytes_gentle st (ok p) a b h =
      send_gentle shows st p a b (send_closed_StillOpen (send shows st p a b).1 h)

  -- A `Send` on a stream that returns ErrSendClosed leaves the session of the call, which other
  -- streams share, as it was: one stream that cannot send any more does not end the connection.
  pub send_closed_keeps_session :
      (st : State) (v : V) (a : Answer) (b : Option Fault)
      → (send_value codec shows st v a b).1 ≡ send_closed
      → (send_value codec shows st v a b).0.session ≡ st.session
  unfolding send_value
  send_closed_keeps_session st v a b h = send_bytes_gentle st (codec.marshal v) a b h
