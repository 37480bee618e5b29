-- ===== src/Client/Opening.antt =====
-- What Open of client/client.go leaves behind, whatever its filters do.
use argos.Base.{
  ◌⊎◌, Bool, Bool-cases, ℕ, suc, ◌≡◌, refl, false, not, ◌&&◌, if_rule, List, [], ◌∷◌, ◌++◌, Option,
  none, some, arith, inl, inr,
}
use argos.Base.Bytes.{Bytes, ◌===◌, ===_iff}
use argos.Base.Result.{Result, ok, err, ◌>>=◌, Result-cases}
use argos.Status.{Error, is_empty}
use argos.Descriptor.{Method}
use argos.HttpUnary.Rest.{is_zero}
use argos.Filter.{
  Opened, Program, returns, calls_next, OpenFilter, OpenFunc, is_nil, run_layer, chain_open,
}
use argos.Filter.Once.{called-Quiet}
use argos.Client.{
  Client, admit, release_admit, OpenError, filter_misuse, parse, Outcome, settle, establish,
  terminus, client_open,
}

module _ {M S E : Type 0} (misuse : E) (Q : M → Type 0) where
  -- An OpenFunc that adds no call, or one of which `Q` holds.
  abbrev AtMostOne : OpenFunc M S E → Type 0
  AtMostOne next =
      (w : List M) (m : M) → ((next w m).0 ≡ w) ⊎ ((n : M) × (((next w m).0 ≡ w ++ (n ∷ [])) × Q n))

  layer-AtMostOne :
      (next : OpenFunc M S E) (p : Program M S E) (w : List M)
      → AtMostOne next
      → let v = (run_layer misuse next p false w).0 in
        (v ≡ w) ⊎ ((n : M) × ((v ≡ w ++ (n ∷ [])) × Q n))
  unfolding run_layer
  layer-AtMostOne next (returns r) w o =
      if_rule (λ (x : List M × Opened S E). (x.0 ≡ w) ⊎ ((n : M) × ((x.0 ≡ w ++ (n ∷ [])) × Q n)))
        (not false && (is_nil r.0 && is_nil r.1)) _ _ (λ _. inl refl) (λ _. inl refl)
  layer-AtMostOne next (calls_next m k) w o =
      rw (called-Quiet misuse next (k (next w m).1) (next w m).0) (o w m)

  chain-AtMostOne :
      (fs : List (OpenFilter M S E)) (end : OpenFunc M S E)
      → AtMostOne end
      → AtMostOne (chain_open misuse fs end)
  unfolding chain_open
  chain-AtMostOne [] end o = o
  chain-AtMostOne (f ∷ fs) end o =
      λ w m. layer-AtMostOne (chain_open misuse fs end) (f m) w (chain-AtMostOne fs end o)

release-admit : (c d : Client) → admit c ≡ ok d → release_admit d ≡ c
unfolding admit release_admit
release-admit c d h = ground (arith, h)

admit_counts : (c d : Client) → admit c ≡ ok d → d ≡ record c { in_flight = suc c.in_flight }
unfolding admit
admit_counts c d h = ground (arith, h)

one_call :
    (n m : Method) (l : List Method)
    → (n ∷ l ≡ []) ⊎ ((o : Method) × ((n ∷ l ≡ o ∷ []) × (o.full_name ≡ m.full_name)))
    → (l ≡ []) × (n.full_name ≡ m.full_name)
one_call n m l (inl e) = absurd (ground (arith, e))
one_call n m l (inr (o, (e, q))) = (ground (arith, e), ground (arith, e, q))

module _ {S : Type 0} where
  -- An Open that fails closes what it has opened and holds nothing; one that does not has opened one
  -- call, of the method's name, and holds one admission.
  abbrev pub Settled : Client → Method → Outcome S → Type 0
  Settled c m o = elim o.result [
    | err e ↦ (o.abandoned ≡ o.calls) × (o.client ≡ c)
    | ok s ↦
        (o.abandoned ≡ [])
        × ((n : Method) × ((o.calls ≡ n ∷ []) × (n.full_name ≡ m.full_name)))
        × (o.client ≡ record c { in_flight = suc c.in_flight })
        × (m.service ≡ c.service)
  ]

  settle-Settled :
      (c d : Client) (m : Method) (r : List Method × Opened S OpenError)
      → admit c ≡ ok d
      → m.service ≡ c.service
      → (r.0 ≡ []) ⊎ ((n : Method) × ((r.0 ≡ n ∷ []) × (n.full_name ≡ m.full_name)))
      → Settled c m (settle d r)
  unfolding settle
  settle-Settled c d m ([], (st, none)) h v w = (refl, release-admit c d h)
  settle-Settled c d m ([], (st, some e)) h v w = (refl, release-admit c d h)
  settle-Settled c d m (n ∷ [], (st, some e)) h v w = (refl, release-admit c d h)
  settle-Settled c d m (n ∷ [], (none, none)) h v w = (refl, release-admit c d h)
  settle-Settled c d m (n ∷ [], (some s, none)) h v w =
      (refl, (n, (refl, (one_call n m [] w).1)), admit_counts c d h, v)
  settle-Settled c d m (n ∷ (o ∷ l), (st, e)) h v w =
      absurd (ground (arith, (one_call n m (o ∷ l) w).0))

module _ {S : Type 0} (shows : ℕ → Bytes) (is_deadline : Error → Bool)
    (resolvers : Bytes → Option (Bytes → Result Error Bytes)) (done : Option Error)
    (open_call : Bytes → Method → Result Error S) where
  terminus-AtMostOne :
      (c : Client) (m : Method)
      → AtMostOne filter_misuse
          (λ n. n.full_name ≡ m.full_name)
          (terminus shows is_deadline resolvers done open_call c m)
  unfolding terminus
  terminus-AtMostOne c m w n = elim (Bool-cases (n.full_name === m.full_name)) [
    | inl same ↦ elim (Bool-cases (is_empty c.target)) [
      | inl e ↦ rw (same, e) (inl refl)
      | inr f ↦
          elim (Result-cases (
            parse resolvers done c.target
            >>= establish shows is_deadline resolvers done open_call n)) [
              | inl (e, b) ↦ rw (same, f, b) (inl refl)
              | inr (st, o) ↦
                  rw (same, f, o) (inr (n, (refl, (===_iff n.full_name m.full_name).0 same)))
            ]
    ]
    | inr other ↦ rw other (inl refl)
  ]

  -- Whatever the filters do, whatever the resolver and the transport answer: an Open that returns
  -- an error has closed each call that it has opened, and leaves the count of calls in flight as it
  -- was; one that returns a stream has opened one call, of the method's full name, has not closed
  -- it, and counts it.
  pub client_open-Settled :
      (filters : List (OpenFilter Method S OpenError)) (c : Client) (ctx : Option (Option Error))
      (m : Method)
      → Settled c m (client_open shows is_deadline resolvers done open_call filters c ctx m)
  unfolding client_open
  client_open-Settled filters c none m = (refl, refl)
  client_open-Settled filters c (some (some e)) m = (refl, refl)
  client_open-Settled filters c (some none) m = elim (Bool-cases (is_zero m)) [
    | inl z ↦ rw z (refl, refl)
    | inr y ↦ elim (Bool-cases (m.service === c.service)) [
      | inr n ↦ rw (y, n) (refl, refl)
      | inl v ↦ elim (Result-cases (admit c)) [
        | inl (e, b) ↦ rw (y, v, b) (refl, refl)
        | inr (d, o) ↦
            rw (y, v, o)
              let end = terminus shows is_deadline resolvers done open_call d m in
                let one = terminus-AtMostOne d m in
                let calls =
                  chain-AtMostOne filter_misuse (λ n. n.full_name ≡ m.full_name) filters end one in
                settle-Settled c d m (chain_open filter_misuse filters end [] m) o
                  ((===_iff m.service c.service).0 v) (calls [] m)
      ]
    ]
  ]
