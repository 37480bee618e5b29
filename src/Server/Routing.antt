-- ===== src/Server/Routing.antt =====
-- The two-level lookup of server/conn.go, against the names of descriptor/descriptor.go.
use argos.Base.{ℕ, ◌≡◌, List, none, some, arith}
use argos.Base.Bytes.{Bytes, split_last-append}
use argos.Base.Result.{ok}
use argos.Descriptor.{Method, new_method}
use argos.Descriptor.Names.{IsMethod, new_method-IsMethod}
use argos.Server.{split_method, find, lookup}

pub split_method-IsMethod :
    (full : Bytes) (shape : ℕ) (m : Method)
    → IsMethod full shape m
    → split_method full ≡ some (m.service, m.name)
unfolding split_method
split_method-IsMethod full shape m v =
    rw (v.parts)
      (ground (arith, split_last-append b'.' m.service m.name v.short, v.some_name, v.some_service))

-- The router splits the full name of a method that `NewMethod` built into the service and the name
-- that the method has: a call is looked up under the service's name, then under the method's.
pub lookup-new_method {ℓ} :
    {R : Type ℓ} (routes : List (Bytes × List (Bytes × R))) (full : Bytes) (shape : ℕ) (m : Method)
    → new_method full shape ≡ ok m
    → lookup routes full
      ≡ (elim (find m.service routes) [ none ↦ none | some methods ↦ find m.name methods ])
unfolding lookup
lookup-new_method routes full shape m h =
    rw (split_method-IsMethod full shape m (new_method-IsMethod full shape m h).0, lookup)
