-- ===== src/Client.antt =====
-- client/client.go and client/errors.go, with `Parse` of resolver/resolver.go, and what Close of
-- client/call.go does to the client. `S` is the type of streams. A limit of 0 stands for none.
pub mod Opening
pub mod Admission
pub mod Calls
mod Examples
use argos.Base.{
  ℕ, suc, ◌-◌, ◌==◌, leb, ltb, Bool, true, false, not, ◌&&◌, ◌||◌, if◌then◌else◌, List, [], ◌∷◌,
  ◌++◌, Option, none, some,
}
use argos.Base.Bytes.{Bytes, ◌===◌, codes, strip_prefix}
use argos.Base.Result.{Result, ok, err, ◌>>=◌}
use argos.Status.{
  Code, Error, wraps_two, error, code_of, text, unknown, deadline_exceeded, unavailable, is_empty,
  err_calls_exhausted,
}
use argos.Descriptor.{Method}
use argos.HttpUnary.Rest.{is_zero}
use argos.Filter.{Opened, OpenFilter, OpenFunc, is_nil, chain_open}

-- `Client`; `in_flight` is never negative.
pub record Client : Type 0 where
  pub service : Bytes
  pub target : Bytes
  pub max_concurrent_calls : ℕ
  pub in_flight : ℕ

unfoldable pub admit : Client → Result Error Client
admit c =
    if ltb 0 c.max_concurrent_calls && leb c.max_concurrent_calls c.in_flight
    then err err_calls_exhausted
    else ok (record c { in_flight = suc c.in_flight })

unfoldable pub release_admit : Client → Client
release_admit c = if c.in_flight == 0 then c else record c { in_flight = c.in_flight - 1 }

-- `strings.Contains`.
abbrev pub has_text : Bytes → Bytes → Bool
has_text part [] = is_empty part
has_text part (c ∷ s) = not (is_nil (strip_prefix part (c ∷ s))) || has_text part s

unfoldable pub is_narrow_interface_assert : Bytes → Bool
is_narrow_interface_assert msg =
    has_text (codes "requires ") msg
    || has_text (codes "missing ") msg
    || has_text (codes "narrow interface") msg

module _ (shows : ℕ → Bytes) (is_deadline : Error → Bool) where
  -- `joinStatus` of an error that is not nil; a `mappedStatus` wraps two errors.
  abbrev pub join_status : Code → Error → Error
  join_status c e = let st = error c (text shows e) in wraps_two (text shows st) st e

  -- `mapEstablishErr` of an error that is not nil. `is_deadline` is whether the error is
  -- context.DeadlineExceeded.
  unfoldable pub map_establish_err : Error → Error
  map_establish_err e =
      if not (code_of (some e) == unknown)
      then e
      else if is_deadline e
      then join_status deadline_exceeded e
      else if is_narrow_interface_assert (text shows e)
      then e
      else join_status unavailable e

pub data OpenError : Type 0 where
  nil_context zero_method wrong_service changed_method missing_target : OpenError
  missing_scheme missing_identifier unknown_scheme : OpenError
  no_call nil_stream filter_misuse : OpenError
  fails : Error → OpenError

-- `splitScheme`: what is before `://` and behind it.
unfoldable pub split_scheme : Bytes → Option (Bytes × Bytes)
split_scheme [] = none
split_scheme (c ∷ s) =
    let rest = split_scheme s in
    elim (strip_prefix (codes "://") (c ∷ s)) [
      | some body ↦ some ([], body)
      | none ↦ elim rest [ none ↦ none | some (scheme, body) ↦ some (c ∷ scheme, body) ]
    ]

abbrev pub failing {ℓ} : {A : Type ℓ} → Result Error A → Result OpenError A
failing (ok a) = ok a
failing (err e) = err (fails e)

-- `Parse`, with the resolvers that are registered; `done` is the error of its context.
module _ (resolvers : Bytes → Option (Bytes → Result Error Bytes)) (done : Option Error) where
  abbrev pub selected : Bytes → Bytes → Result OpenError Bytes
  selected scheme body =
      if is_empty scheme
      then err missing_scheme
      else if is_empty body
      then err missing_identifier
      else elim (resolvers scheme) [ none ↦ err unknown_scheme | some r ↦ failing (r body) ]

  unfoldable pub parse : Bytes → Result OpenError Bytes
  parse target = elim done [
    | some e ↦ err (fails e)
    | none ↦ elim (split_scheme target) [
      | none ↦ err missing_scheme
      | some (scheme, body) ↦ selected scheme body
    ]
  ]

-- What an Open leaves: the client, the methods of the calls that were opened, those whose calls it
-- closes again, and what it returns.
pub record Outcome (S : Type 0) : Type 0 where
  pub client : Client
  pub calls : List Method
  pub abandoned : List Method
  pub result : Result OpenError S

-- `gotCall`, the last call that was opened.
abbrev pub got_call : List Method → List Method
got_call [] = []
got_call (n ∷ []) = n ∷ []
got_call (n ∷ (o ∷ w)) = got_call (o ∷ w)

module _ {S : Type 0} where
  abbrev pub established :
      List Method → Method → Result OpenError S → List Method × Opened S OpenError
  established w n (ok s) = (w ++ (n ∷ []), (some s, none))
  established w n (err e) = (w, (none, some e))

  abbrev pub refuse : Client → OpenError → Outcome S
  refuse c e = record { client = c; calls = []; abandoned = []; result = err e }

  abbrev pub abandon : Client → List Method → OpenError → Outcome S
  abandon c w e = record {
    client = release_admit c;
    calls = w;
    abandoned = got_call w;
    result = err e;
  }

  -- `Open` behind the chain, for a client that has admitted the call.
  unfoldable pub settle : Client → List Method × Opened S OpenError → Outcome S
  settle c (w, (st, some e)) = abandon c w e
  settle c ([], (st, none)) = abandon c [] no_call
  settle c (n ∷ w, (none, none)) = abandon c (n ∷ w) nil_stream
  settle c (n ∷ w, (some s, none)) = record {
    client = c;
    calls = n ∷ w;
    abandoned = [];
    result = ok s;
  }

module _ {S : Type 0} (shows : ℕ → Bytes) (is_deadline : Error → Bool)
    (resolvers : Bytes → Option (Bytes → Result Error Bytes)) (done : Option Error)
    (open_call : Bytes → Method → Result Error S) where
  -- The OpenCall of the transport, with its errors mapped.
  abbrev pub establish : Method → Bytes → Result OpenError S
  establish n endpoint = elim (open_call endpoint n) [
    | ok s ↦ ok s
    | err e ↦ err (fails (map_establish_err shows is_deadline e))
  ]

  -- `terminus`.
  unfoldable pub terminus : Client → Method → OpenFunc Method S OpenError
  terminus c m w n =
      if not (n.full_name === m.full_name)
      then (w, (none, some changed_method))
      else if is_empty c.target
      then (w, (none, some missing_target))
      else established w n (parse resolvers done c.target >>= establish n)

  abbrev pub open_admitted :
      List (OpenFilter Method S OpenError) → Method → Client → Result Error Client → Outcome S
  open_admitted filters m c (err e) = refuse c (fails e)
  open_admitted filters m c (ok d) = settle d (chain_open filter_misuse filters (terminus d m) [] m)

  -- `Open`; a context is nil, done with an error, or neither.
  unfoldable pub client_open :
      List (OpenFilter Method S OpenError) → Client → Option (Option Error) → Method → Outcome S
  client_open filters c none m = refuse c nil_context
  client_open filters c (some (some e)) m = refuse c (fails e)
  client_open filters c (some none) m =
      if is_zero m
      then refuse c zero_method
      else if not (m.service === c.service)
      then refuse c wrong_service
      else open_admitted filters m c (admit c)
