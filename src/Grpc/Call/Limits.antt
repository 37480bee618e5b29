-- ===== src/Grpc/Call/Limits.antt =====
-- What `Recv` of transport/grpc/call.go does to the session that its call shares with others.
use argos.Base.{ℕ, ◌≡◌, ap, ◌∙◌, inl, inr}
use argos.Base.Bytes.{Bytes}
use argos.Base.Result.{Result, ok, err}
use argos.Status.{Code, code_of, resource_exhausted}
use argos.Grpc.Details.{Proto, ProtoStatus}
use argos.Grpc.Call.{Fault, State}
use argos.Grpc.Call.Receiving.{Response, recv}
use argos.Grpc.Call.Protocol.Receives.{Fair, Poisons, recv-Fair}
use argos.Base.{some}

Poisons-ok : (r : Result Fault Bytes) (p : Bytes) → r ≡ ok p → Poisons r → ⊥
Poisons-ok (ok q) p h x = x
Poisons-ok (err f) p h x = cc

Poisons-limit :
    (r : Result Fault Bytes) (f : Fault)
    → r ≡ err f
    → code_of (some f.error) ≡ resource_exhausted
    → Poisons r
    → ⊥
Poisons-limit (ok q) f h c x = x
Poisons-limit (err g) f h c x = x (ap (λ r. code_of (some (fault_of r f).error)) h ∙ c)
  where
    fault_of : Result Fault Bytes → Fault → Fault
    fault_of (err a) b = a
    fault_of (ok a) b = b

-- The session is as it was, unless the result is one that marks it.
unmarked :
    (st : State) (r : State × Result Fault Bytes)
    → Fair st r
    → (Poisons r.1 → ⊥)
    → r.0.session ≡ st.session
unfolding Fair
unmarked st r f n = elim f.1 [ inl e ↦ e | inr p ↦ absurd (n p) ]

module _ (proto : Proto) (shows : ℕ → Bytes) (mismatch : Code → Bytes → ProtoStatus → Bytes)
    (quote : Bytes → Bytes) where
  -- A `Recv` that fails for a limit, be it on a message, a decompressed message, metadata or the
  -- peer's own status, leaves the session, which other calls share, as it was.
  pub recv_limit :
      (st : State) (resp : Response) (f : Fault)
      → (recv proto shows mismatch quote st resp).1 ≡ err f
      → code_of (some f.error) ≡ resource_exhausted
      → (recv proto shows mismatch quote st resp).0.session ≡ st.session
  recv_limit st resp f h c =
      unmarked st (recv proto shows mismatch quote st resp)
        (recv-Fair proto shows mismatch quote st resp) (λ x. Poisons-limit _ f h c x)

  -- A `Recv` that returns a message leaves the session as it was.
  pub recv_message :
      (st : State) (resp : Response) (p : Bytes)
      → (recv proto shows mismatch quote st resp).1 ≡ ok p
      → (recv proto shows mismatch quote st resp).0.session ≡ st.session
  recv_message st resp p h =
      unmarked st (recv proto shows mismatch quote st resp)
        (recv-Fair proto shows mismatch quote st resp) (λ x. Poisons-ok _ p h x)
