-- ===== src/Server/Register/Routes.antt =====
-- The table of routes of server/server.go behind `Register`, with the lookup of server/conn.go.
use argos.Base.{
  ℕ, ◌⊎◌, true, false, List, [], ◌∷◌, Option, none, some, ◌≡◌, refl, sym, ap, ◌∙◌, arith,
  Bool-cases, Option-cases, inl, inr,
}
use argos.Base.Bytes.{Bytes, ◌===◌, ===_iff}
use argos.Base.Result.{ok, Result-cases}
use argos.Descriptor.{Method, Service}
use argos.Descriptor.{new_method}
use argos.Server.{split_method, find, lookup}
use argos.Descriptor.Names.{new_method-IsMethod}
use argos.Server.Register.{RouteEntry, Registry, by_name, entries, all_handled, register}
use argos.Server.Routing.{split_method-IsMethod}

find-head {ℓ} :
    {A : Type ℓ} (name j : Bytes) (a b : A) (r : List (Bytes × A))
    → j === name ≡ true
    → find name ((j, a) ∷ r) ≡ some b
    → a ≡ b
find-head name j a b r eq f = ground (arith, eq, f)

find-tail {ℓ} :
    {A : Type ℓ} (name j : Bytes) (a : A) (b : Option A) (r : List (Bytes × A))
    → j === name ≡ false
    → find name ((j, a) ∷ r) ≡ b
    → find name r ≡ b
find-tail name j a b r ne f = sym (rw ne refl) ∙ f

-- `lookup` in a table with a service in front.
module _ {R : Type 0} (k : Bytes) (es : List (Bytes × R)) (routes : List (Bytes × List (Bytes × R)))
    (full svc name : Bytes) (p : split_method full ≡ some (svc, name)) where
  lookup_new : k === svc ≡ true → lookup ((k, es) ∷ routes) full ≡ find name es
  unfolding lookup
  lookup_new eq = rw (lookup, p, eq) refl

  lookup_old : k === svc ≡ false → lookup ((k, es) ∷ routes) full ≡ lookup routes full
  unfolding lookup
  lookup_old ne = rw (lookup, p, ne) refl

  lookup_absent : find svc routes ≡ none → lookup routes full ≡ none
  unfolding lookup
  lookup_absent n = rw (lookup, p, n) refl

module _ {H : Type 0} where
  entries-cons :
      (methods : List (Bytes × Method)) (j : Bytes) (x : H) (hs : List (Bytes × Option H))
      (es : List (Bytes × RouteEntry H))
      → entries methods ((j, some x) ∷ hs) ≡ ok es
      → (m : Method) × (rest : List (Bytes × RouteEntry H)) × (find j methods ≡ some m)
        × (entries methods hs ≡ ok rest)
        × (es ≡ (j, record { method = m; handler = x }) ∷ rest)
  unfolding entries
  entries-cons methods j x hs es h = elim (Option-cases (find j methods)) [
    | inl n ↦ ground (arith, n)
    | inr (m, f) ↦ elim (Result-cases (entries methods hs)) [
      | inl (r, b) ↦ ground (arith, f, b)
      | inr (rest, o) ↦ (m, rest, f, o, ground (arith, f, o))
    ]
  ]

  -- An entry has the method and the handler of its name.
  find-entries :
      (methods : List (Bytes × Method)) (hs : List (Bytes × Option H))
      (es : List (Bytes × RouteEntry H)) (name : Bytes) (e : RouteEntry H)
      → entries methods hs ≡ ok es
      → find name es ≡ some e
      → (find name methods ≡ some e.method) × (find name hs ≡ some (some e.handler))
  unfolding entries
  find-entries methods [] es name e h f = ground arith
  find-entries methods ((j, none) ∷ hs) es name e h f = cc
  find-entries methods ((j, some x) ∷ hs) es name e h f =
      let (m, rest, fm, fr, same) = entries-cons methods j x hs es h in
      let g = sym (ap (find name) same) ∙ f in
      elim (Bool-cases (j === name)) [
        | inl eq ↦ (
          ap (λ k. find k methods) (sym ((===_iff j name).0 eq))
              ∙ fm
              ∙ ap (λ a. some a.method)
                  (find-head name j record { method = m; handler = x } e rest eq g),
          rw eq (
              ap (λ a. some (some a.handler))
                (find-head name j record { method = m; handler = x } e rest eq g)),
        )
        | inr ne ↦
            let (a, b) =
              find-entries methods hs rest name e fr
                (find-tail name j record { method = m; handler = x } (some e) rest ne g) in
            (a, rw ne b)
      ]

  find-all_handled :
      (ms : List Method) (es : List (Bytes × RouteEntry H)) (name : Bytes) (m : Method)
      → all_handled ms es ≡ true
      → find name (by_name ms) ≡ some m
      → (e : RouteEntry H) × (find name es ≡ some e)
  unfolding all_handled
  find-all_handled [] es name m h f = ground arith
  find-all_handled (m0 ∷ ms) es name m h f = elim (Bool-cases (m0.name === name)) [
    | inl eq ↦ elim (Option-cases (find name es)) [
      | inl n ↦ cc ((===_iff m0.name name).0 eq)
      | inr e ↦ e
    ]
    | inr ne ↦ find-all_handled ms es name m (ground arith) (ground arith)
  ]

  -- `Register` that returns no error adds one service to a table that had none of its name.
  register-ok :
      (s : Registry H) (d : Service) (hs : List (Bytes × Option H)) (s' : Registry H)
      → register s d hs ≡ ok s'
      → (es : List (Bytes × RouteEntry H)) × (entries (by_name d.methods) hs ≡ ok es)
        × (all_handled d.methods es ≡ true)
        × (find d.full_name s.routes ≡ none)
        × (s' ≡ record s { routes = (d.full_name, es) ∷ s.routes })
  unfolding register
  register-ok s d hs s' h = elim (Result-cases (entries (by_name d.methods) hs)) [
    | inl (r, b) ↦ ground (arith, b)
    | inr (es, o) ↦ (es, o, ground (arith, o), ground (arith, o), ground (arith, o))
  ]

  -- When `Register` accepts a service, the full name of each of its methods, as `NewMethod` built
  -- it, is routed to that method with the handler that was given under its short name.
  pub register-lookup :
      (s : Registry H) (d : Service) (hs : List (Bytes × Option H)) (s' : Registry H) (full : Bytes)
      (shape : ℕ) (m : Method)
      → register s d hs ≡ ok s'
      → new_method full shape ≡ ok m
      → m.service ≡ d.full_name
      → find m.name (by_name d.methods) ≡ some m
      → (h : H) × (find m.name hs ≡ some (some h))
        × (lookup s'.routes full ≡ some (record { method = m; handler = h }))
  register-lookup s d hs s' full shape m r v own listed =
      let (es, o, all, fresh, same) = register-ok s d hs s' r in
      let (e, found) = find-all_handled d.methods es m.name m all listed in
      let (of_method, of_handler) = find-entries (by_name d.methods) hs es m.name e o found in
      let p = split_method-IsMethod full shape m (new_method-IsMethod full shape m v).0 in
      (
        e.handler,
        of_handler,
        rw same (
            lookup_new d.full_name es s.routes full m.service m.name p
              ((===_iff d.full_name m.service).1 (sym own))
            ∙ found
            ∙ ap
                (λ o. elim o [
                  | none ↦ none
                  | some x ↦ some (record { method = x; handler = e.handler })
                ])
                (sym of_method ∙ listed)),
      )

  -- A call that a registry routed is routed to the same entry after `Register`.
  pub register_keeps :
      (s : Registry H) (d : Service) (hs : List (Bytes × Option H)) (s' : Registry H) (full : Bytes)
      (e : RouteEntry H)
      → register s d hs ≡ ok s'
      → lookup s.routes full ≡ some e
      → lookup s'.routes full ≡ some e
  unfolding lookup
  register_keeps s d hs s' full e r f =
      let (es, o, all, fresh, same) = register-ok s d hs s' r in
      elim (Option-cases (split_method full)) [
        | inl n ↦ ground (arith, n)
        | inr ((svc, name), p) ↦ elim (Bool-cases (d.full_name === svc)) [
          | inl eq ↦ cc (
              lookup_absent d.full_name es s.routes full svc name p
                (sym (ap (λ k. find k s.routes) ((===_iff d.full_name svc).0 eq)) ∙ fresh))
          | inr ne ↦ rw same (lookup_old d.full_name es s.routes full svc name p ne ∙ f)
        ]
      ]

  -- A call that is routed after `Register` was routed to the same entry before, or it is a call of
  -- the new service: it goes to the service's method and the handler of the name behind the dot.
  pub register_adds_only :
      (s : Registry H) (d : Service) (hs : List (Bytes × Option H)) (s' : Registry H) (full : Bytes)
      (e : RouteEntry H)
      → register s d hs ≡ ok s'
      → lookup s'.routes full ≡ some e
      → (lookup s.routes full ≡ some e)
        ⊎ ((name : Bytes) × (split_method full ≡ some (d.full_name, name))
            × (find name (by_name d.methods) ≡ some e.method)
            × (find name hs ≡ some (some e.handler)))
  unfolding lookup
  register_adds_only s d hs s' full e r f =
      let (es, o, all, fresh, same) = register-ok s d hs s' r in
      let g = ap (λ t. lookup t.routes full) (sym same) ∙ f in
      elim (Option-cases (split_method full)) [
        | inl n ↦ ground (arith, n)
        | inr ((svc, name), p) ↦ elim (Bool-cases (d.full_name === svc)) [
          | inl eq ↦
              let (of_method, of_handler) =
                find-entries (by_name d.methods) hs es name e o
                  (sym (lookup_new d.full_name es s.routes full svc name p eq) ∙ g) in
              inr (
                name,
                p ∙ ap (λ k. some (k, name)) (sym ((===_iff d.full_name svc).0 eq)),
                of_method,
                of_handler,
              )
          | inr ne ↦ inl (sym (lookup_old d.full_name es s.routes full svc name p ne) ∙ g)
        ]
      ]
