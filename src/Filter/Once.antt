-- ===== src/Filter/Once.antt =====
-- How often a chain of filter/filter.go opens a call.
use argos.Base.{
  ◌+◌, ◌≤◌, ◌≡◌, refl, true, false, ◌&&◌, not, List, [], ◌∷◌, none, some, arith, length,
  length-append, if_rule,
}
use argos.Filter.{
  Opened, Program, returns, calls_next, OpenFilter, OpenFunc, is_nil, run_layer, chain_open,
  terminal,
}

module _ {M S E : Type 0} (misuse : E) where
  -- An OpenFunc that adds one call at most.
  abbrev Once : OpenFunc M S E → Type 0
  Once next = (w : List M) (m : M) → length (next w m).0 ≤ length w + 1

  -- Once `next` has been called, it is not called again.
  pub called-Quiet :
      (next : OpenFunc M S E) (p : Program M S E) (w : List M)
      → (run_layer misuse next p true w).0 ≡ w
  unfolding run_layer
  called-Quiet next (returns r) w = refl
  called-Quiet next (calls_next m k) w = called-Quiet next (k (none, some misuse)) w

  layer-Once :
      (next : OpenFunc M S E) (p : Program M S E) (w : List M)
      → Once next
      → length (run_layer misuse next p false w).0 ≤ length w + 1
  unfolding run_layer
  layer-Once next (returns r) w o =
      if_rule (λ (x : List M × Opened S E). length x.0 ≤ length w + 1)
        (not false && (is_nil r.0 && is_nil r.1)) _ _ (λ _. omega arith) (λ _. omega arith)
  layer-Once next (calls_next m k) w o =
      rw (called-Quiet next (k (next w m).1) (next w m).0) (o w m)

  chain-Once :
      (fs : List (OpenFilter M S E)) (end : OpenFunc M S E)
      → Once end
      → Once (chain_open misuse fs end)
  unfolding chain_open
  chain-Once [] end o = o
  chain-Once (f ∷ fs) end o =
      λ w m. layer-Once (chain_open misuse fs end) (f m) w (chain-Once fs end o)

  -- Whatever the filters of a chain do, and however often they call `next`, one call is opened at
  -- most.
  pub chain_opens_once :
      (fs : List (OpenFilter M S E)) (opener : M → Opened S E) (w : List M) (m : M)
      → length (chain_open misuse fs (terminal opener) w m).0 ≤ length w + 1
  unfolding terminal
  chain_opens_once fs opener w m =
      chain-Once fs (terminal opener) (λ v n. omega (arith, length-append v (n ∷ []))) w m

  returned_nil :
      (next : OpenFunc M S E) (p : Program M S E) (w : List M)
      → (run_layer misuse next p false w).1 ≡ (none, none)
      → (m : M) × (k : Opened S E → Program M S E) × (p ≡ calls_next m k)
  unfolding run_layer
  returned_nil next (calls_next m k) w h = (m, k, refl)
  returned_nil next (returns (none, none)) w h = cc
  returned_nil next (returns (some s, e)) w h = cc
  returned_nil next (returns (none, some e)) w h = cc

  -- A chain that returns neither a stream nor an error does so only if its outermost filter has
  -- called `next`: one that returns them by itself is turned into an error.
  pub chain_open_nil :
      (f : OpenFilter M S E) (fs : List (OpenFilter M S E)) (end : OpenFunc M S E) (w : List M)
      (m : M)
      → (chain_open misuse (f ∷ fs) end w m).1 ≡ (none, none)
      → (n : M) × (k : Opened S E → Program M S E) × (f m ≡ calls_next n k)
  unfolding chain_open
  chain_open_nil f fs end w m h = returned_nil (chain_open misuse fs end) (f m) w h
