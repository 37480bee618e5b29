-- ===== src/Grpc/Call/Gentle.antt =====
-- When a method of transport/grpc/call.go that writes marks the session, which other calls share.
use argos.Base.{ℕ, true, false, Option, none, some, ◌≡◌, sym, ◌∙◌, inl, inr}
use argos.Base.Bytes.{Bytes}
use argos.Grpc.Call.{Fault, State, Answer, send_failure}
use argos.Grpc.Call.Sending.{send}
use argos.Grpc.Call.Protocol.Held.{Holds, send-Holds}

-- What `sendFailure` is of a result.
abbrev pub StillOpen : Option Fault → Type 0
StillOpen none = Unit
StillOpen (some f) = send_failure f ≡ true

unmarked :
    (st : State) (r : State × Option Fault) → Holds st r → StillOpen r.1 → r.0.session ≡ st.session
unfolding Holds
unmarked st (st', none) h o = h.1
unmarked st (st', some f) h o = elim h.1 [ inl e ↦ e | inr n ↦ absurd (clash (sym o ∙ n)) ]
  where
    clash : true ≡ false → ⊥
    clash e = cc

module _ (shows : ℕ → Bytes) where
  -- A `Send` that succeeds, or fails with the receive direction still open, leaves the session, which
  -- other calls share, as it was.
  pub send_gentle :
      (st : State) (payload : Bytes) (a : Answer) (b : Option Fault)
      → StillOpen (send shows st payload a b).1
      → (send shows st payload a b).0.session ≡ st.session
  send_gentle st payload a b o =
      unmarked st (send shows st payload a b) (send-Holds shows st payload a b) o
