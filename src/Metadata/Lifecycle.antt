-- ===== src/Metadata/Lifecycle.antt =====
-- The life of the call metadata of metadata/call.go, under any interleaving of its methods.
use mathlib.Core.List.{append-nil}
use argos.Base.{
  Bool-cases, ℕ, ◌+◌, ◌-◌, ◌∙◌, length, ◌≤◌, ◌≡◌, refl, ap, Bool, true, false, List, [], ◌∷◌, ◌++◌,
  Option, none, some, arith, inl, inr, ◌==◌, if◌then◌else◌,
}
use argos.Base.Bytes.{Bytes, ◌===◌, ===_iff}
use argos.Status.{Error}
use argos.Metadata.{
  Metadata, CallMd, Role, initiator, new, values, add, append_values, add_outgoing_header,
  add_outgoing_trailer, Submit, refused, submits, send_begin, send_commit, set_incoming_headers,
  set_incoming_trailers, freeze_outgoing_headers, freeze_outgoing_trailers, wire_size, values_size,
}

-- The methods of one call's metadata, with the goroutines that are writing headers to the wire.
pub data Action : Type 0 where
  header trailer : Bytes → List Bytes → Action
  begins : Action
  commits : Option Error → Action
  headers_in trailers_in : Option Metadata → Action
  freezes_headers freezes_trailers : Action

-- The metadata, the submits on the wire, and how often `SendHeaders` has succeeded.
pub record Life : Type 0 where
  pub md : CallMd
  pub writing : ℕ
  pub successes : ℕ

began : Life → Submit → Life
began l (refused e) = l
began l (submits m) = record l { writing = l.writing + 1 }

committed : Life → CallMd × Option Error → Life
committed l (c, none) = record { md = c; writing = l.writing - 1; successes = l.successes + 1 }
committed l (c, some e) = record { md = c; writing = l.writing - 1; successes = l.successes }

pub step : Life → Action → Life
unfolding began committed
step l (header k vs) = record l { md = (add_outgoing_header l.md k vs).0 }
step l (trailer k vs) = record l { md = (add_outgoing_trailer l.md k vs).0 }
step l begins = began l (send_begin l.md)
step l (commits r) = if l.writing == 0 then l else committed l (send_commit l.md r)
step l (headers_in h) = record l { md = set_incoming_headers l.md h }
step l (trailers_in t) = record l { md = set_incoming_trailers l.md t }
step l freezes_headers = record l { md = freeze_outgoing_headers l.md }
step l freezes_trailers = record l { md = freeze_outgoing_trailers l.md }

pub run : Life → List Action → Life
run l [] = l
run l (a ∷ acts) = run (step l a) acts

abbrev pub born : Role → Bool → Life
born r s = record { md = new r s; writing = 0; successes = 0 }

-- `headersSent` counts the successes, and sent headers are frozen; an initiator neither submits
-- nor has trailers.
pub record LifeInv (r : Role) (l : Life) : Type 0 where
  pub side : l.md.role ≡ r
  pub once : l.successes ≡ (if l.md.headers_sent then 1 else 0)
  pub sent_frozen : l.md.headers_sent ≡ true → l.md.headers_frozen ≡ true
  pub unsubmitted : l.md.role ≡ initiator → l.writing ≡ 0
  pub unsent : l.md.role ≡ initiator → l.md.headers_sent ≡ false
  pub untrailed : l.md.role ≡ initiator → l.md.outgoing_trailers ≡ []

step-LifeInv : {r : Role} (l : Life) (a : Action) → LifeInv r l → LifeInv r (step l a)
unfolding step began committed add_outgoing_header add_outgoing_trailer send_begin send_commit
    set_incoming_headers set_incoming_trailers freeze_outgoing_headers freeze_outgoing_trailers
step-LifeInv l (header k vs) v = ground arith
step-LifeInv l (headers_in none) v = ground arith
step-LifeInv l (trailers_in none) v = ground arith
step-LifeInv l (headers_in (some h)) v = ground arith
step-LifeInv l (trailers_in (some h)) v = ground arith
step-LifeInv l (commits (some e)) v = ground arith
step-LifeInv l (commits none) v = ground arith
step-LifeInv l _ v = ground arith

run-LifeInv : {r : Role} (l : Life) (acts : List Action) → LifeInv r l → LifeInv r (run l acts)
unfolding run
run-LifeInv l [] v = v
run-LifeInv l (a ∷ acts) v = run-LifeInv (step l a) acts (step-LifeInv l a v)

born-LifeInv : (r : Role) (s : Bool) → LifeInv r (born r s)
unfolding new
born-LifeInv r s = record {
  side = refl;
  once = refl;
  sent_frozen = λ h. cc;
  unsubmitted = λ h. refl;
  unsent = λ h. refl;
  untrailed = λ h. refl;
}

-- However the methods of one call interleave, `SendHeaders` succeeds once at most.
pub send_headers_once :
    (r : Role) (s : Bool) (acts : List Action) → (run (born r s) acts).successes ≤ 1
send_headers_once r s acts = let v = run-LifeInv (born r s) acts (born-LifeInv r s) in ground arith

-- However the methods of an initiator's call interleave, `SendHeaders` never succeeds, and the call
-- never gets outgoing trailers.
pub initiator_sends_none :
    (s : Bool) (acts : List Action)
    → let l = run (born initiator s) acts in (l.successes ≡ 0) × (l.md.outgoing_trailers ≡ [])
initiator_sends_none s acts =
    let v = run-LifeInv (born initiator s) acts (born-LifeInv initiator s) in
    (ground arith, ground arith)

-- What an action does to frozen headers and trailers.
step_frozen :
    (l : Life) (a : Action)
    → (l.md.headers_frozen ≡ true
        → ((step l a).md.headers_frozen ≡ true)
          × ((step l a).md.outgoing_headers ≡ l.md.outgoing_headers))
      × (l.md.trailers_frozen ≡ true
          → ((step l a).md.trailers_frozen ≡ true)
            × ((step l a).md.outgoing_trailers ≡ l.md.outgoing_trailers))
unfolding step began committed add_outgoing_header add_outgoing_trailer send_begin send_commit
    set_incoming_headers set_incoming_trailers freeze_outgoing_headers freeze_outgoing_trailers
step_frozen l (header k vs) = ground arith
step_frozen l (headers_in none) = ground arith
step_frozen l (trailers_in none) = ground arith
step_frozen l (headers_in (some h)) = ground arith
step_frozen l (trailers_in (some h)) = ground arith
step_frozen l (commits (some e)) = ground arith
step_frozen l (commits none) = ground arith
step_frozen l _ = ground arith

-- Frozen headers stay frozen, and are never changed again, by whatever methods follow.
pub run_frozen_headers :
    (l : Life) (acts : List Action)
    → l.md.headers_frozen ≡ true
    → ((run l acts).md.headers_frozen ≡ true)
      × ((run l acts).md.outgoing_headers ≡ l.md.outgoing_headers)
unfolding run
run_frozen_headers l [] h = (h, refl)
run_frozen_headers l (a ∷ acts) h =
    let (k, e) = (step_frozen l a).0 h in
    let (k', e') = run_frozen_headers (step l a) acts k in (k', e' ∙ e)

-- Frozen trailers stay frozen, and are never changed again, by whatever methods follow.
pub run_frozen_trailers :
    (l : Life) (acts : List Action)
    → l.md.trailers_frozen ≡ true
    → ((run l acts).md.trailers_frozen ≡ true)
      × ((run l acts).md.outgoing_trailers ≡ l.md.outgoing_trailers)
unfolding run
run_frozen_trailers l [] h = (h, refl)
run_frozen_trailers l (a ∷ acts) h =
    let (k, e) = (step_frozen l a).1 h in
    let (k', e') = run_frozen_trailers (step l a) acts k in (k', e' ∙ e)

pub values-append_values :
    (k j : Bytes) (vs : List Bytes) (m : Metadata)
    → values k (append_values j vs m) ≡ (if j === k then values k m ++ vs else values k m)
unfolding values append_values
values-append_values k j vs [] = ground arith
values-append_values k j vs ((i, ws) ∷ m) =
    ground (arith, ===_iff i j, ===_iff i k, ===_iff j k, values-append_values k j vs m)

values_size-append :
    (n : ℕ) (vs ws : List Bytes) → values_size n (vs ++ ws) ≡ values_size n vs + values_size n ws
unfolding values_size
values_size-append n [] ws = omega arith
values_size-append n (v ∷ vs) ws = omega (arith, values_size-append n vs ws)

wire_size-append_values :
    (j : Bytes) (vs : List Bytes) (m : Metadata)
    → wire_size (append_values j vs m) ≡ wire_size m + values_size (length j) vs
unfolding wire_size append_values
wire_size-append_values j vs [] = omega arith
wire_size-append_values j vs ((i, ws) ∷ m) = elim (Bool-cases (i === j)) [
  | inl e ↦
      let same : i ≡ j = (===_iff i j).0 e in
      rw e (
        omega (
          arith,
          values_size-append (length i) ws vs,
          ap (λ (x : Bytes). values_size (length x) vs) same,
        ))
  | inr e ↦ rw e (omega (arith, wire_size-append_values j vs m))
]

-- Adding values under a key appends them to those that the key has, changes no other key, and adds
-- the encoded size of the new values to the size of the whole.
pub add_lem :
    (k j : Bytes) (vs : List Bytes) (m : Metadata)
    → (values k (add m j vs) ≡ (if j === k then values k m ++ vs else values k m))
      × (wire_size (add m j vs) ≡ wire_size m + values_size (length j) vs)
unfolding add values wire_size values_size
add_lem k j [] m = (ground (arith, append-nil (values k m)), omega arith)
add_lem k j (v ∷ vs) m = (values-append_values k j (v ∷ vs) m, wire_size-append_values j (v ∷ vs) m)
