-- ===== src/Server/Register.antt =====
-- server/server.go: `Register`, over a type of handlers. A map is ranged over in the order of its
-- list; the methods of a service have different names, as `NewService` makes them, so that the
-- first of a name in `by_name` is the only one.
pub mod Routes
use argos.Base.{Bool, true, false, ◌&&◌, ◌||◌, if◌then◌else◌, List, [], ◌∷◌, Option, none, some}
use argos.Base.Bytes.{Bytes}
use argos.Base.Result.{Result, ok, err, ◌>>=◌}
use argos.Status.{is_empty}
use argos.Descriptor.{Method, Service}
use argos.Server.{find}

pub data RegisterError : Type 0 where
  empty_service after_run server_closed already_registered : RegisterError
  nil_handler unknown_method missing_handler : RegisterError

-- `routeEntry`, over the type of the handlers.
pub record RouteEntry (H : Type 0) : Type 0 where
  pub method : Method
  pub handler : H

-- The fields of `Server` that `Register` reads and writes.
pub record Registry (H : Type 0) : Type 0 where
  pub ran : Bool
  pub running : Bool
  pub stopped : Bool
  pub routes : List (Bytes × List (Bytes × RouteEntry H))

abbrev pub by_name : List Method → List (Bytes × Method)
by_name [] = []
by_name (m ∷ ms) = (m.name, m) ∷ by_name ms

abbrev pub is_found {ℓ} : {A : Type ℓ} → Option A → Bool
is_found none = false
is_found (some a) = true

module _ {H : Type 0} where
  -- The loop over the handlers, of which some may be nil.
  unfoldable pub entries :
      List (Bytes × Method)
      → List (Bytes × Option H)
      → Result RegisterError (List (Bytes × RouteEntry H))
  entries methods [] = ok []
  entries methods ((name, none) ∷ hs) = err nil_handler
  entries methods ((name, some h) ∷ hs) = elim (find name methods) [
    | none ↦ err unknown_method
    | some m ↦ entries methods hs >>= λ es. ok ((name, record { method = m; handler = h }) ∷ es)
  ]

  -- The loop over the methods.
  unfoldable pub all_handled : List Method → List (Bytes × RouteEntry H) → Bool
  all_handled [] es = true
  all_handled (m ∷ ms) es = is_found (find m.name es) && all_handled ms es

  abbrev pub with_entry :
      Registry H → Service → List (Bytes × RouteEntry H) → Result RegisterError (Registry H)
  with_entry s d es =
      if all_handled d.methods es
      then ok (record s { routes = (d.full_name, es) ∷ s.routes })
      else err missing_handler

  -- `Register`.
  unfoldable pub register :
      Registry H → Service → List (Bytes × Option H) → Result RegisterError (Registry H)
  register s d hs =
      if is_empty d.full_name
      then err empty_service
      else if s.ran || s.running
      then err after_run
      else if s.stopped
      then err server_closed
      else if is_found (find d.full_name s.routes)
      then err already_registered
      else (entries (by_name d.methods) hs >>= with_entry s d)
