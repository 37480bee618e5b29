-- ===== src/Client/Admission.antt =====
-- The calls of one client in any order: admission in client/client.go, and Close and the leak hook
-- of client/call.go. Methods of a stream that take no part in it are left out.
use argos.Base.{
  ◌⊎◌, ℕ, zero, suc, ◌+◌, ◌-◌, ◌≤◌, ◌<◌, ◌==◌, ◌≡◌, refl, Bool, true, false, not, ◌&&◌, ◌||◌,
  if◌then◌else◌, List, [], ◌∷◌, ◌++◌, arith, inl, inr,
}
use argos.Base.Result.{Result, ok, err, Result-cases}
use argos.Status.{Error}
use argos.Client.{Client, admit, release_admit}

-- `CallStream`, and whether the garbage collector has taken it.
pub record CallStream : Type 0 where
  pub closed : Bool
  pub call_closed : Bool
  pub collected : Bool

abbrev pub new_stream : CallStream
new_stream = record { closed = false; call_closed = false; collected = false }

-- `Close`, which the holder of a stream calls, and the cleanup of a stream that nobody holds; the
-- flag says whether it gives the admission back. The call is closed when its context is done.
unfoldable pub close_stream : CallStream → CallStream × Bool
close_stream s =
    if s.closed || s.collected
    then (s, false)
    else (record s { closed = true; call_closed = true }, true)

unfoldable pub collect : CallStream → CallStream × Bool
collect s = if s.collected then (s, false) else (record s { collected = true }, not s.closed)

unfoldable pub context_done : CallStream → CallStream × Bool
context_done s = (record s { call_closed = true }, false)

abbrev pub bit : Bool → ℕ
bit true = 1
bit false = 0

unfoldable pub alter :
    (CallStream → CallStream × Bool) → ℕ → List CallStream → List CallStream × Bool
alter f i [] = ([], false)
alter f zero (s ∷ ss) = ((f s).0 ∷ ss, (f s).1)
alter f (suc i) (s ∷ ss) = let rest = alter f i ss in (s ∷ rest.0, rest.1)

-- A client, the Opens that it has admitted and that have not returned, and its streams.
pub record Flights : Type 0 where
  pub client : Client
  pub opening : ℕ
  pub streams : List CallStream

pub data Move : Type 0 where
  admits open_fails opens : Move
  closes collects context_ends : ℕ → Move

abbrev pub admitted : Flights → Result Error Client → Flights
admitted g (ok c) = record g { client = c; opening = suc g.opening }
admitted g (err e) = g

abbrev pub altered : Flights → List CallStream × Bool → Flights
altered g (ss, true) = record g { client = release_admit g.client; streams = ss }
altered g (ss, false) = record g { streams = ss }

unfoldable pub move : Move → Flights → Flights
move admits g = admitted g (admit g.client)
move open_fails g =
    if g.opening == 0
    then g
    else record g { client = release_admit g.client; opening = g.opening - 1 }
move opens g =
    if g.opening == 0
    then g
    else record g { opening = g.opening - 1; streams = g.streams ++ (new_stream ∷ []) }
move (closes i) g = altered g (alter close_stream i g.streams)
move (collects i) g = altered g (alter collect i g.streams)
move (context_ends i) g = altered g (alter context_done i g.streams)

unfoldable pub moves : List Move → Flights → Flights
moves [] g = g
moves (m ∷ ms) g = moves ms (move m g)

-- The streams that are neither closed nor collected.
abbrev pub is_live : CallStream → Bool
is_live s = not s.closed && not s.collected

abbrev pub live : List CallStream → ℕ
live [] = 0
live (s ∷ ss) = bit (is_live s) + live ss

pub record Ledger (most : ℕ) (g : Flights) : Type 0 where
  pub counts : g.client.in_flight ≡ g.opening + live g.streams
  pub limit : g.client.max_concurrent_calls ≡ most
  pub within : (most ≡ 0) ⊎ (g.client.in_flight ≤ most)

abbrev Gives : (CallStream → CallStream × Bool) → Type 0
Gives f = (s : CallStream) → bit (is_live (f s).0) + bit (f s).1 ≡ bit (is_live s)

close_stream-Gives : Gives close_stream
unfolding close_stream
close_stream-Gives s = ground arith

collect-Gives : Gives collect
unfolding collect
collect-Gives s = ground arith

context_done-Gives : Gives context_done
unfolding context_done
context_done-Gives s = ground arith

live-alter :
    (f : CallStream → CallStream × Bool) (i : ℕ) (ss : List CallStream)
    → Gives f
    → live (alter f i ss).0 + bit (alter f i ss).1 ≡ live ss
unfolding alter
live-alter f i [] v = refl
live-alter f zero (s ∷ ss) v = omega (arith, v s)
live-alter f (suc i) (s ∷ ss) v = omega (arith, live-alter f i ss v)

live-append : (ss : List CallStream) → live (ss ++ (new_stream ∷ [])) ≡ suc (live ss)
live-append [] = refl
live-append (s ∷ ss) = omega (arith, live-append ss)

altered-Ledger :
    (most : ℕ) (g : Flights) (r : List CallStream × Bool)
    → Ledger most g
    → live r.0 + bit r.1 ≡ live g.streams
    → Ledger most (altered g r)
unfolding release_admit
altered-Ledger most g (ss, true) v h = ground (arith, h)
altered-Ledger most g (ss, false) v h = ground (arith, h)

move-Ledger : (most : ℕ) (m : Move) (g : Flights) → Ledger most g → Ledger most (move m g)
unfolding move admit release_admit
move-Ledger most admits g v = ground arith
move-Ledger most open_fails g v = ground arith
move-Ledger most opens g v = ground (arith, live-append g.streams)
move-Ledger most (closes i) g v =
    altered-Ledger most g (alter close_stream i g.streams) v
      (live-alter close_stream i g.streams close_stream-Gives)
move-Ledger most (collects i) g v =
    altered-Ledger most g (alter collect i g.streams) v
      (live-alter collect i g.streams collect-Gives)
move-Ledger most (context_ends i) g v =
    altered-Ledger most g (alter context_done i g.streams) v
      (live-alter context_done i g.streams context_done-Gives)

moves-Ledger : (most : ℕ) (ms : List Move) (g : Flights) → Ledger most g → Ledger most (moves ms g)
unfolding moves
moves-Ledger most [] g v = v
moves-Ledger most (m ∷ ms) g v = moves-Ledger most ms (move m g) (move-Ledger most m g v)

abbrev pub idle : Client → Flights
idle c = record { client = record c { in_flight = 0 }; opening = 0; streams = [] }

admit-cases :
    (c : Client)
    → ((d : Client) × (admit c ≡ ok d))
      ⊎ ((0 < c.max_concurrent_calls) × (c.max_concurrent_calls ≤ c.in_flight))
unfolding admit
admit-cases c = elim (Result-cases (admit c)) [
  | inr (d, o) ↦ inl (d, o)
  | inl (e, b) ↦ inr (ground (arith, b))
]

-- However the Opens of a client, the Closes of its streams, the ends of their contexts and the
-- collection of dropped streams interleave: with a positive limit no more calls than that are
-- counted, what is counted is the Opens on their way and the streams that are neither closed nor
-- collected, and an Open is refused only if a positive limit is reached by those.
pub client_admits :
    (c : Client) (ms : List Move)
    → let g = moves ms (idle c) in
      ((c.max_concurrent_calls ≡ 0) ⊎ (g.client.in_flight ≤ c.max_concurrent_calls))
      × (g.client.in_flight ≡ g.opening + live g.streams)
      × (((d : Client) × (admit g.client ≡ ok d))
          ⊎ ((0 < c.max_concurrent_calls) × (c.max_concurrent_calls ≡ g.opening + live g.streams)))
client_admits c ms =
    let new : Ledger c.max_concurrent_calls (idle c) = ground arith in
    let g = moves ms (idle c) in
    let v = moves-Ledger c.max_concurrent_calls ms (idle c) new in
    (
      v.within,
      v.counts,
      elim (admit-cases g.client) [
        | inl o ↦ inl o
        | inr (p, q) ↦
            inr (omega (arith, v.limit, p), omega (arith, v.limit, v.counts, v.within, p, q))
      ],
    )
