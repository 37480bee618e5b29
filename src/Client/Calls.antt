-- ===== src/Client/Calls.antt =====
-- client/call.go: the methods of a CallStream, one after another, and `mapEstablishErr` of
-- client/errors.go. What the decorated stream answers is an argument, and so is `done`, the error
-- that the context of the call has by then.
use argos.Base.{
  ℕ, ◌==◌, ◌≡◌, ◌⊎◌, Bool, Bool-cases, true, false, not, ◌&&◌, ◌||◌, if◌then◌else◌, List, [], ◌∷◌,
  Option, none, some, arith, inl, inr,
}
use argos.Base.Bytes.{Bytes}
use argos.Status.{Error, as_status, code_of, text, unknown, or_else}
use argos.Filter.{is_nil}
use argos.Client.{is_narrow_interface_assert, map_establish_err}

-- `CallStream`: whether its headers have been marked as arrived, and the error of its context.
pub record Caller : Type 0 where
  pub closed : Bool
  pub headers_ready : Bool
  pub context : Option Error

abbrev pub new_caller : Caller
new_caller = record { closed = false; headers_ready = false; context = none }

-- What a method of the decorated stream returns: nil, io.EOF (ErrSendClosed is one), or another
-- error.
pub data Met : Type 0 where
  done end_of_file : Met
  fails : Error → Met

abbrev pub is_resolved : Met → Bool
is_resolved done = true
is_resolved end_of_file = true
is_resolved (fails e) = not (is_nil (as_status e))

unfoldable pub interrupted : Option Error → Met → Met
interrupted ctx r = if is_resolved r then r else elim ctx [ none ↦ r | some e ↦ fails e ]

-- `Send` and `HalfClose`.
unfoldable pub send_caller : Caller → Met → Option Error → Caller × Met
send_caller s r ctx = elim s.context [
  | some e ↦ (s, fails e)
  | none ↦ (record s { context = ctx }, interrupted ctx r)
]

unfoldable pub recv_caller : Caller → Met → Option Error → Caller × Met
recv_caller s r ctx = elim s.context [
  | some e ↦ (s, fails e)
  | none ↦ (
    record s { context = ctx; headers_ready = s.headers_ready || is_resolved r },
    interrupted ctx r,
  )
]

pub data Heading : Type 0 where
  waits arrived call_closed : Heading
  no_heading : Error → Heading

-- `Header`; when its select may take either case, `first` says whether it takes the headers.
unfoldable pub header : Caller → Bool → Heading
header s first =
    if s.closed
    then call_closed
    else if s.headers_ready && (first || is_nil s.context)
    then arrived
    else elim s.context [ none ↦ waits | some e ↦ no_heading e ]

-- `Close`, for the context; `canceled` is context.Canceled.
unfoldable pub close_caller : Error → Caller → Caller
close_caller canceled s =
    if s.closed then s else record s { closed = true; context = or_else s.context (some canceled) }

pub data Act : Type 0 where
  sends recvs : Met → Option Error → Act
  context_ends closes : Error → Act

unfoldable pub act : Act → Caller → Caller
act (sends r ctx) s = (send_caller s r ctx).0
act (recvs r ctx) s = (recv_caller s r ctx).0
act (context_ends e) s = record s { context = or_else s.context (some e) }
act (closes e) s = close_caller e s

unfoldable pub acts : List Act → Caller → Caller
acts [] s = s
acts (a ∷ os) s = acts os (act a s)

-- Whether a Recv is resolved, and whether there is a Close.
abbrev pub any_resolved : List Act → Bool
any_resolved [] = false
any_resolved (recvs r ctx ∷ os) = is_resolved r || any_resolved os
any_resolved (sends r ctx ∷ os) = any_resolved os
any_resolved (context_ends e ∷ os) = any_resolved os
any_resolved (closes e ∷ os) = any_resolved os

abbrev pub any_close : List Act → Bool
any_close [] = false
any_close (closes e ∷ os) = true
any_close (sends r ctx ∷ os) = any_close os
any_close (recvs r ctx ∷ os) = any_close os
any_close (context_ends e ∷ os) = any_close os

acts_closed : (os : List Act) (s : Caller) → (acts os s).closed ≡ (s.closed || any_close os)
unfolding acts act send_caller recv_caller close_caller
acts_closed [] s = ground arith
acts_closed (sends r ctx ∷ os) s = ground (arith, acts_closed os (act (sends r ctx) s))
acts_closed (recvs r ctx ∷ os) s = ground (arith, acts_closed os (act (recvs r ctx) s))
acts_closed (context_ends e ∷ os) s = ground (arith, acts_closed os (act (context_ends e) s))
acts_closed (closes e ∷ os) s = ground (arith, acts_closed os (act (closes e) s))

acts_ready :
    (os : List Act) (s : Caller)
    → (acts os s).headers_ready ≡ true
    → s.headers_ready || any_resolved os ≡ true
unfolding acts act send_caller recv_caller close_caller
acts_ready [] s h = ground arith
acts_ready (sends r ctx ∷ os) s h = ground (arith, acts_ready os (act (sends r ctx) s) h)
acts_ready (recvs r ctx ∷ os) s h = ground (arith, acts_ready os (act (recvs r ctx) s) h)
acts_ready (context_ends e ∷ os) s h = ground (arith, acts_ready os (act (context_ends e) s) h)
acts_ready (closes e ∷ os) s h = ground (arith, acts_ready os (act (closes e) s) h)

-- On a new stream, whatever is called in whatever order: when Header returns metadata, a Recv has
-- returned a message, an end or a status, and the stream has not been closed.
pub header_shown :
    (os : List Act) (first : Bool)
    → header (acts os new_caller) first ≡ arrived
    → (any_resolved os ≡ true) × (any_close os ≡ false)
unfolding header
header_shown os first h =
    let c = acts_closed os new_caller in
    let ready : (acts os new_caller).headers_ready ≡ true = ground (arith, h) in
    (acts_ready os new_caller ready, ground (arith, h, c))

module _ (shows : ℕ → Bytes) (is_deadline : Error → Bool) where
  -- An error of the establishment of a call is mapped once: mapping it again changes nothing. What
  -- it is mapped to has a code other than Unknown, unless it is the error itself, is no deadline's,
  -- and has `requires `, `missing ` or `narrow interface` in its text, as some errors of dialling do.
  pub map_establish_err_known :
      (e : Error)
      → let m = map_establish_err shows is_deadline in
        (m (m e) ≡ m e)
        × (((code_of (some (m e)) == unknown) ≡ false)
            ⊎ ((m e ≡ e)
                × (is_deadline e ≡ false)
                × (is_narrow_interface_assert (text shows e) ≡ true)))
  unfolding map_establish_err code_of as_status
  map_establish_err_known e = elim (Bool-cases (code_of (some e) == unknown)) [
    | inr n ↦ ground (arith, n)
    | inl u ↦ elim (Bool-cases (is_deadline e)) [
      | inl d ↦ ground (arith, u, d)
      | inr f ↦ ground (arith, u, f, Bool-cases (is_narrow_interface_assert (text shows e)))
    ]
  ]
