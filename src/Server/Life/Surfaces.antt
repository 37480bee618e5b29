-- ===== src/Server/Life/Surfaces.antt =====
-- What `buildListenRegs` of server/server.go makes the server listen on.
use argos.Base.{
  ◌≡◌, true, ◌||◌, List, [], ◌∷◌, ◌++◌, arith, All, All-append, Option-cases, inl, inr,
}
use argos.Base.Bytes.{Bytes}
use argos.Base.Result.{ok, Result-cases}
use argos.Descriptor.{has_name}
use argos.Options.{Options}
use argos.Options.Services.{ServiceOptions, ServiceListenPlan, server_listen_plans, plans_of}
use argos.Server.{find}
use argos.Server.Register.{Registry}
use argos.Server.Life.{ListenReg, add_plans, plans_for, add_services, keys_of, build_listen_regs}
use argos.Server.Life.Plans.{
  reg_key, reg_keys, plan_key, Distinct, Addressed, Unseen, has_name-append, Unseen-head,
  add_plans-Added, plans_of-Addressed,
}
use argos.Server.Life.Keys.{IsSurface, Exists, found-IsSurface}

Unseen-both :
    (s a seen : List Bytes) (rs : List ListenReg)
    → ((k : Bytes) → has_name k s ≡ (has_name k a || has_name k seen))
    → Unseen s rs
    → Unseen a rs × Unseen seen rs
Unseen-both s a seen [] e u = (tt, tt)
Unseen-both s a seen (r ∷ rs) e u =
    let h = e (reg_key r) in
    let ih = Unseen-both s a seen rs e u.1 in
    ((ground (arith, h, u.0), ih.0), (ground (arith, h, u.0), ih.1))

Distinct-append :
    (a b : List ListenReg) → Distinct a → Distinct b → Unseen (reg_keys a) b → Distinct (a ++ b)
Distinct-append [] b d e u = e
Distinct-append (r ∷ a) b d e u =
    let head = Unseen-head (reg_key r) (reg_keys a) b u in
    let both = has_name-append (reg_key r) a b in
    (ground (arith, both, head.0, d.0), Distinct-append a b d.1 e head.1)

-- The plans of a service are kept, each by a surface, or have been seen before.
abbrev Kept : List Bytes → List Bytes → List ServiceListenPlan → Type 0
Kept seen keys = All λ p. (has_name (plan_key p) keys || has_name (plan_key p) seen) ≡ true

Kept-plans :
    (seen s : List Bytes) (a b : List ListenReg) (ps : List ServiceListenPlan)
    → ((k : Bytes) → has_name k s ≡ (has_name k (reg_keys a) || has_name k seen))
    → All (λ p. has_name (plan_key p) s ≡ true) ps
    → Kept seen (reg_keys (a ++ b)) ps
Kept-plans seen s a b [] e h = tt
Kept-plans seen s a b (p ∷ ps) e h =
    let k = e (plan_key p) in
    let both = has_name-append (plan_key p) a b in
    (ground (arith, k, both, h.0), Kept-plans seen s a b ps e h.1)

Kept-behind :
    (seen s : List Bytes) (a b : List ListenReg) (ps : List ServiceListenPlan)
    → ((k : Bytes) → has_name k s ≡ (has_name k (reg_keys a) || has_name k seen))
    → Kept s (reg_keys b) ps
    → Kept seen (reg_keys (a ++ b)) ps
Kept-behind seen s a b [] e h = tt
Kept-behind seen s a b (p ∷ ps) e h =
    let k = e (plan_key p) in
    let both = has_name-append (plan_key p) a b in
    (ground (arith, k, both, h.0), Kept-behind seen s a b ps e h.1)

Kept-surfaces :
    (rs : List ListenReg) (ps : List ServiceListenPlan)
    → Kept [] (reg_keys rs) ps
    → All (λ p. Exists (IsSurface p) rs) ps
Kept-surfaces rs [] h = tt
Kept-surfaces rs (p ∷ ps) h = (found-IsSurface p rs (ground (arith, h.0)), Kept-surfaces rs ps h.1)

module _ (services : List (Bytes × ServiceOptions)) (listen : Bytes) where
  plans_for-Addressed :
      (svc : Bytes) (ps : List ServiceListenPlan)
      → plans_for services listen svc ≡ ok ps
      → Addressed ps
  unfolding server_listen_plans
  plans_for-Addressed svc ps h = elim (Option-cases (find svc services)) [
    | inl n ↦ ground (arith, n)
    | inr (sc, f) ↦ elim (Result-cases (plans_of sc listen sc.listeners)) [
      | inl (e, b) ↦ ground (arith, f, b)
      | inr (qs, o) ↦
          let same : ps ≡ qs = ground (arith, f, o) in
          rw same (plans_of-Addressed sc listen sc.listeners qs o)
    ]
  ]

  -- A service has its plans, of which `K` holds.
  abbrev Planned : (List ServiceListenPlan → Type 0) → Bytes → Type 0
  Planned K svc = (ps : List ServiceListenPlan) × ((plans_for services listen svc ≡ ok ps) × K ps)

  Planned-map :
      (K L : List ServiceListenPlan → Type 0)
      → ((ps : List ServiceListenPlan) → K ps → L ps)
      → (svcs : List Bytes) → All (Planned K) svcs
      → All (Planned L) svcs
  Planned-map K L f [] h = tt
  Planned-map K L f (svc ∷ svcs) ((ps, (e, k)), h) = ((ps, (e, f ps k)), Planned-map K L f svcs h)

  record AddedAll (seen svcs : List Bytes) (rs : List ListenReg) : Type 0 where
    unseen : Unseen seen rs
    distinct : Distinct rs
    keeps : All (Planned (Kept seen (reg_keys rs))) svcs

  add_services-AddedAll :
      (seen svcs : List Bytes) (rs : List ListenReg)
      → add_services services listen seen svcs ≡ ok rs
      → AddedAll seen svcs rs
  unfolding add_services
  add_services-AddedAll seen [] rs h =
      let same : rs ≡ [] = ground (arith, h) in
      rw same record { unseen = tt; distinct = tt; keeps = tt }
  add_services-AddedAll seen (svc ∷ svcs) rs h =
      elim (Result-cases (plans_for services listen svc)) [
        | inl (e, b) ↦ ground (arith, b)
        | inr (ps, p) ↦
            elim (Result-cases
              (add_services services listen (add_plans listen svc 0 seen ps).0 svcs)) [
                | inl (e, b) ↦ ground (arith, p, b)
                | inr (rest, o) ↦
                    let one = add_plans-Added listen svc 0 seen ps (plans_for-Addressed svc ps p) in
                    let added = add_plans listen svc 0 seen ps in
                    let all = add_services-AddedAll added.0 svcs rest o in
                    let both =
                      Unseen-both added.0 (reg_keys added.1) seen rest one.sees all.unseen in
                    let same : rs ≡ added.1 ++ rest = ground (arith, p, o) in
                    rw same record {
                      unseen = All-append _ added.1 rest one.unseen both.1;
                      distinct = Distinct-append added.1 rest one.distinct all.distinct both.0;
                      keeps = (
                        (ps, (p, Kept-plans seen added.0 added.1 rest ps one.sees one.covers)),
                        Planned-map _ _ (λ qs. Kept-behind seen added.0 added.1 rest qs one.sees)
                            svcs all.keeps,
                      );
                    }
              ]
      ]

module _ {F O H : Type 0} where
  -- When the surfaces of a server can be built, no two of them have one key, and so no two have one
  -- address, transport and codec; every registered service has its plans, and each plan has a surface
  -- with its key, which has its address, transport and codec unless the name of a transport or of a
  -- codec, of the surface or of the plan, has a bar in it.
  pub build_listen_regs-Distinct :
      (cfg : Options F O) (s : Registry H) (rs : List ListenReg)
      → build_listen_regs cfg s ≡ ok rs
      → Distinct rs
        × All
            (λ svc.
              (ps : List ServiceListenPlan) × ((plans_for cfg.services cfg.listen_address svc
                  ≡ ok ps)
                × All (λ p. Exists (IsSurface p) rs) ps))
            (keys_of s.routes)
  unfolding build_listen_regs
  build_listen_regs-Distinct cfg s rs h =
      let all = add_services-AddedAll cfg.services cfg.listen_address [] (keys_of s.routes) rs h in
      (
        all.distinct,
        Planned-map cfg.services cfg.listen_address _ _ (Kept-surfaces rs) (keys_of s.routes)
            all.keeps,
      )
