-- ===== src/Client/Examples.antt =====
-- Small inputs to a client.
use argos.Base.{
  Bool, ℕ, ◌+◌, ◌≤◌, ◌<◌, ◌==◌, ◌≡◌, ◌⊎◌, refl, true, false, List, [], ◌∷◌, Option, none, some,
}
use argos.Base.Bytes.{Bytes, codes}
use argos.Base.Result.{Result, ok}
use argos.Status.{Error, plain, text, code_of, unknown}
use argos.Descriptor.{Method}
use argos.Filter.{returns, calls_next, OpenFilter}
use argos.Client.{
  Client, OpenError, admit, client_open, map_establish_err, is_narrow_interface_assert,
}
use argos.Client.Opening.{Settled, client_open-Settled}
use argos.Client.Admission.{
  Move, admits, opens, open_fails, closes, collects, moves, idle, live, client_admits,
}
use argos.Client.Calls.{
  Act, sends, recvs, context_ends, done, any_resolved, any_close, acts, act, recv_caller,
  send_caller, header, header_shown, map_establish_err_known,
}

abbrev shows_none : ℕ → Bytes
shows_none n = []

abbrev never : Error → Bool
never e = false

abbrev caller : Client
caller = record {
  service = codes "a.B";
  target = codes "ip://h:1";
  max_concurrent_calls = 1;
  in_flight = 0;
}

abbrev hail : Method
hail = record { full_name = codes "a.B.Say"; service = codes "a.B"; name = codes "Say"; shape = 0 }

abbrev ip_only : Bytes → Option (Bytes → Result Error Bytes)
ip_only scheme = some ok

abbrev opens_seven : Bytes → Method → Result Error ℕ
opens_seven endpoint m = ok 7

-- A filter that opens the call and then fails.
abbrev drops : OpenFilter Method ℕ OpenError
drops m = calls_next m λ r. returns (none, some (argos.Client.fails (plain 90 (codes "dropped"))))

client_open-Settled_example :
    Settled caller hail
      (client_open shows_none never ip_only none opens_seven (drops ∷ []) caller (some none) hail)
client_open-Settled_example =
    client_open-Settled shows_none never ip_only none opens_seven (drops ∷ []) caller (some none)
      hail

abbrev two_opens : List Move
two_opens = admits ∷ (admits ∷ (opens ∷ (closes 0 ∷ (admits ∷ (open_fails ∷ (collects 0 ∷ []))))))

client_admits_example :
    let g = moves two_opens (idle caller) in
    ((caller.max_concurrent_calls ≡ 0) ⊎ (g.client.in_flight ≤ 1))
    × (g.client.in_flight ≡ g.opening + live g.streams)
    × (((d : Client) × (admit g.client ≡ ok d))
        ⊎ ((0 < 1) × (caller.max_concurrent_calls ≡ g.opening + live g.streams)))
client_admits_example = client_admits caller two_opens

abbrev one_answer : List Act
one_answer = sends done none ∷ (recvs done none ∷ (context_ends (plain 91 (codes "done")) ∷ []))

header_shown_example : (any_resolved one_answer ≡ true) × (any_close one_answer ≡ false)
unfolding header acts act recv_caller send_caller
header_shown_example = header_shown one_answer true refl

abbrev refused : Error
refused = plain 92 (codes "dial tcp: refused")

map_establish_err_known_example :
    let m = map_establish_err shows_none never in
    (m (m refused) ≡ m refused)
    × (((code_of (some (m refused)) == unknown) ≡ false)
        ⊎ ((m refused ≡ refused)
            × (never refused ≡ false)
            × (is_narrow_interface_assert (text shows_none refused) ≡ true)))
map_establish_err_known_example = map_establish_err_known shows_none never refused
