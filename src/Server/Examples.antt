-- ===== src/Server/Examples.antt =====
-- Small inputs to the server's calls and connections.
use argos.Base.{ℕ, ◌≡◌, ◌≢◌, refl, true, false, List, [], ◌∷◌, none, some}
use argos.Base.Bytes.{Bytes, codes}
use argos.Status.{plain, code_of, ok}
use argos.Base.{Option}
use argos.Descriptor.{Method, Service, new_method}
use argos.Server.{lookup, find}
use argos.Server.Register.{RouteEntry, Registry, register, entries, all_handled}
use argos.Server.Register.Routes.{register-lookup}
use argos.Server.Calls.{
  finish_error, is_sentinel, Meets, handle_call, a_call, a_rejection, ends, fails, serve,
  err_peer_gone,
}
use argos.Server.Calls.Finishing.{
  Unnoticed, serve-Unnoticed, Complete, finished, closed, offered, total, handle_call-Complete,
  serve_finishes_all, finish_error_done,
}

abbrev shows_none : ℕ → Bytes
shows_none n = []

abbrev one_route : List (Bytes × List (Bytes × ℕ))
one_route = (codes "a.B", (codes "Say", 7) ∷ []) ∷ []

abbrev fine : Meets
fine = record { admit = none; accept = none; handler = none; context = none; finish = none }

handle_call-Complete_example : Complete (handle_call shows_none one_route (codes "a.B.Say") fine) 1
handle_call-Complete_example = handle_call-Complete shows_none one_route (codes "a.B.Say") fine

serve_finishes_all_example :
    (total finished
        (serve shows_none one_route
          (a_call (codes "a.B.Say") fine ∷ (a_rejection true err_peer_gone ∷ (ends ∷ [])))).0
      ≡ 2)
    × (total closed
          (serve shows_none one_route
            (a_call (codes "a.B.Say") fine ∷ (a_rejection true err_peer_gone ∷ (ends ∷ [])))).0
        ≡ 2)
unfolding offered
serve_finishes_all_example =
    serve_finishes_all shows_none one_route
      (a_call (codes "a.B.Say") fine ∷ (a_rejection true err_peer_gone ∷ (ends ∷ [])))

finish_error_done_example :
    code_of (
      finish_error shows_none
        (some (plain 41 (codes "context canceled"), err_peer_gone))
        (some (plain 41 (codes "context canceled"))))
    ≢ ok
unfolding is_sentinel
finish_error_done_example =
    finish_error_done shows_none (plain 41 (codes "context canceled")) err_peer_gone
      (some (plain 41 (codes "context canceled"))) refl

serve-Unnoticed_example :
    Unnoticed (serve shows_none one_route (fails err_peer_gone false false ∷ [])).1
serve-Unnoticed_example =
    serve-Unnoticed shows_none one_route (fails err_peer_gone false false ∷ [])

abbrev say : Method
say = record { full_name = codes "a.B.Say"; service = codes "a.B"; name = codes "Say"; shape = 0 }

abbrev greeter : Service
greeter = record { full_name = codes "a.B"; methods = say ∷ [] }

abbrev empty_registry : Registry ℕ
empty_registry = record { ran = false; running = false; stopped = false; routes = [] }

abbrev say_entry : RouteEntry ℕ
say_entry = record { method = say; handler = 9 }

abbrev greeter_registry : Registry ℕ
greeter_registry = record {
  ran = false;
  running = false;
  stopped = false;
  routes = (codes "a.B", (codes "Say", say_entry) ∷ []) ∷ [];
}

abbrev say_handlers : List (Bytes × Option ℕ)
say_handlers = (codes "Say", some 9) ∷ []

register-lookup_example :
    (h : ℕ) × (find (codes "Say") say_handlers ≡ some (some h))
    × (lookup greeter_registry.routes (codes "a.B.Say")
        ≡ some (record { method = say; handler = h }))
unfolding register entries all_handled new_method
register-lookup_example =
    register-lookup empty_registry greeter say_handlers greeter_registry (codes "a.B.Say") 0 say
      refl refl refl refl
