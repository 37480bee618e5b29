-- ===== src/Server/Life/Plans.antt =====
-- What the loop of `buildListenRegs` over the plans of one service adds (server/server.go).
use argos.Base.{
  ℕ, suc, ◌≡◌, refl, sym, ap, ◌∙◌, true, false, ◌||◌, List, [], ◌∷◌, ◌++◌, arith, All, Bool-cases,
  inl, inr,
}
use argos.Base.Bytes.{Bytes, ===_iff, ===_refl}
use argos.Base.Result.{ok, Result-cases}
use argos.Status.{is_empty}
use argos.Descriptor.{has_name}
use argos.Options.Services.{
  ServiceListen, ServiceOptions, ServiceListenPlan, listener_plans, service_listen_key, listen_plan,
  plans_of, stack_of, or_fallback,
}
use argos.Server.Life.{ListenReg, reg_of, add_plans}

abbrev pub reg_key : ListenReg → Bytes
reg_key r = service_listen_key r.listen_address r.stack

abbrev pub reg_keys : List ListenReg → List Bytes
reg_keys [] = []
reg_keys (r ∷ rs) = reg_key r ∷ reg_keys rs

abbrev pub plan_key : ServiceListenPlan → Bytes
plan_key p = service_listen_key p.address p.stack

-- No two surfaces have one address, one transport and one codec.
abbrev pub Distinct : List ListenReg → Type 0
Distinct [] = Unit {0}
Distinct (r ∷ rs) = (has_name (reg_key r) (reg_keys rs) ≡ false) × Distinct rs

abbrev pub Addressed : List ServiceListenPlan → Type 0
Addressed = All λ p. is_empty p.address ≡ false

-- No surface has a key that has been seen.
abbrev pub Unseen : List Bytes → List ListenReg → Type 0
Unseen seen = All λ r. has_name (reg_key r) seen ≡ false

listen_plan-Addressed :
    (sc : ServiceOptions) (addr : Bytes) (p : ServiceListenPlan)
    → listen_plan sc addr ≡ ok p
    → is_empty p.address ≡ false
listen_plan-Addressed sc addr p h = elim (Bool-cases (is_empty addr)) [
  | inl e ↦ ground (arith, e)
  | inr n ↦ ground (arith, n)
]

listener_plans-Addressed :
    (fallback : Bytes) (ls : List ServiceListen) (ps : List ServiceListenPlan)
    → listener_plans fallback ls ≡ ok ps
    → Addressed ps
unfolding listener_plans
listener_plans-Addressed fallback [] ps h = ground arith
listener_plans-Addressed fallback (l ∷ ls) ps h =
    elim (Result-cases (listen_plan (stack_of l) (or_fallback l.address fallback))) [
      | inl (e, b) ↦ ground (arith, b)
      | inr (p, o) ↦ elim (Result-cases (listener_plans fallback ls)) [
        | inl (e, b) ↦ ground (arith, o, b)
        | inr (qs, k) ↦
            let same : ps ≡ p ∷ qs = ground (arith, o, k) in
            rw same
              (listen_plan-Addressed (stack_of l) _ p o, listener_plans-Addressed fallback ls qs k)
      ]
    ]

pub plans_of-Addressed :
    (sc : ServiceOptions) (fallback : Bytes) (ls : List ServiceListen) (ps : List ServiceListenPlan)
    → plans_of sc fallback ls ≡ ok ps
    → Addressed ps
plans_of-Addressed sc fallback [] ps h =
    elim (Result-cases (listen_plan sc (or_fallback sc.listen_address fallback))) [
      | inl (e, b) ↦ ground (arith, b)
      | inr (p, o) ↦
          let same : ps ≡ p ∷ [] = ground (arith, o) in rw same (listen_plan-Addressed sc _ p o, tt)
    ]
plans_of-Addressed sc fallback (l ∷ ls) ps h = listener_plans-Addressed fallback (l ∷ ls) ps h

pub has_name-append :
    (k : Bytes) (a b : List ListenReg)
    → has_name k (reg_keys (a ++ b)) ≡ (has_name k (reg_keys a) || has_name k (reg_keys b))
has_name-append k [] b = refl
has_name-append k (r ∷ a) b = ground (arith, has_name-append k a b)

pub Unseen-head :
    (k : Bytes) (seen : List Bytes) (rs : List ListenReg)
    → Unseen (k ∷ seen) rs
    → (has_name k (reg_keys rs) ≡ false) × Unseen seen rs
Unseen-head k seen [] u = (refl, tt)
Unseen-head k seen (r ∷ rs) u =
    ground (arith, ===_iff k (reg_key r), ===_iff (reg_key r) k, Unseen-head k seen rs u.1)

-- What the loop over the plans adds, has seen, and leaves unseen.
pub record Added (seen : List Bytes) (ps : List ServiceListenPlan) (r : List Bytes × List ListenReg)
    : Type 0 where
  pub sees : (k : Bytes) → has_name k r.0 ≡ (has_name k (reg_keys r.1) || has_name k seen)
  pub unseen : Unseen seen r.1
  pub distinct : Distinct r.1
  pub covers : All (λ p. has_name (plan_key p) r.0 ≡ true) ps

same_key :
    (listen svc : Bytes) (i : ℕ) (p : ServiceListenPlan)
    → is_empty p.address ≡ false
    → plan_key p ≡ reg_key (reg_of listen svc i p)
same_key listen svc i p h = ground (arith, h)

sees_more :
    (k key : Bytes) (seen seen' : List Bytes) (r : ListenReg) (rs : List ListenReg)
    → key ≡ reg_key r
    → has_name k seen' ≡ (has_name k (reg_keys rs) || has_name k (key ∷ seen))
    → has_name k seen' ≡ (has_name k (reg_keys (r ∷ rs)) || has_name k seen)
sees_more k key seen seen' r rs e h = ground (arith, e, h)

has_name-head : (k : Bytes) (seen : List Bytes) → has_name k (k ∷ seen) ≡ true
has_name-head k seen = ground (arith, ===_refl k)

pub add_plans-Added :
    (listen svc : Bytes) (i : ℕ) (seen : List Bytes) (ps : List ServiceListenPlan)
    → Addressed ps
    → Added seen ps (add_plans listen svc i seen ps)
unfolding add_plans
add_plans-Added listen svc i seen [] a = record {
  sees = λ k. refl;
  unseen = tt;
  distinct = tt;
  covers = tt;
}
add_plans-Added listen svc i seen (p ∷ ps) a = elim (Bool-cases (has_name (plan_key p) seen)) [
  | inl dup ↦
      let ih = add_plans-Added listen svc (suc i) seen ps a.1 in
      let here = ih.sees (plan_key p) in
      rw dup record {
        sees = ih.sees;
        unseen = ih.unseen;
        distinct = ih.distinct;
        covers = (ground (arith, here, dup), ih.covers);
      }
  | inr fresh ↦
      let ih = add_plans-Added listen svc (suc i) (plan_key p ∷ seen) ps a.1 in
      let e = same_key listen svc i p a.0 in
      let head = Unseen-head (plan_key p) seen _ ih.unseen in
      let here = ih.sees (plan_key p) in
      rw fresh record {
        sees = λ k. sees_more k (plan_key p) seen _ (reg_of listen svc i p) _ e (ih.sees k);
        unseen = (ap (λ k. has_name k seen) (sym e) ∙ fresh, head.1);
        distinct = (
          ap (λ k. has_name k (reg_keys (add_plans listen svc (suc i) (plan_key p ∷ seen) ps).1))
                (sym e)
              ∙ head.0,
          ih.distinct,
        );
        covers = (ground (arith, here, has_name-head (plan_key p) seen), ih.covers);
      }
]
