-- ===== src/Filter.antt =====
-- filter/filter.go: chains of filters.
--
-- A filter is what it does: it returns, or it calls `next` and goes on with what that returns. A
-- context is not looked at, and of a stream and an error there is what the chain reads: whether they
-- are nil.
pub mod Once
use argos.Base.{
  ℕ, Bool, true, false, ◌&&◌, not, if◌then◌else◌, List, [], ◌∷◌, ◌++◌, Option, none, some,
}

-- A stream and an error.
abbrev pub Opened : Type 0 → Type 0 → Type 0
Opened S E = Option S × Option E

-- What an OpenFilter does on a method of the type `M`.
pub data Program (M S E : Type 0) : Type 0 where
  returns : Opened S E → Program M S E
  calls_next : M → (Opened S E → Program M S E) → Program M S E

abbrev pub OpenFilter : Type 0 → Type 0 → Type 0 → Type 0
OpenFilter M S E = M → Program M S E

-- An OpenFunc, with the methods that the terminal one has been called with so far.
abbrev pub OpenFunc : Type 0 → Type 0 → Type 0 → Type 0
OpenFunc M S E = List M → M → List M × Opened S E

abbrev pub is_nil {ℓ} : {A : Type ℓ} → Option A → Bool
is_nil none = true
is_nil (some a) = false

module _ {M S E : Type 0} (misuse : E) where
  -- A filter with its `next`, from `nextCalled` on.
  unfoldable pub run_layer : OpenFunc M S E → Program M S E → Bool → List M → List M × Opened S E
  run_layer next (returns r) called w =
      if not called && (is_nil r.0 && is_nil r.1) then (w, (none, some misuse)) else (w, r)
  run_layer next (calls_next m k) true w = run_layer next (k (none, some misuse)) true w
  run_layer next (calls_next m k) false w = run_layer next (k (next w m).1) true (next w m).0

  -- `ChainOpen`.
  unfoldable pub chain_open : List (OpenFilter M S E) → OpenFunc M S E → OpenFunc M S E
  chain_open [] end = end
  chain_open (f ∷ fs) end = λ w m. run_layer (chain_open fs end) (f m) false w

-- A terminal OpenFunc that opens by `opener`, and is counted.
unfoldable pub terminal : {M S E : Type 0} → (M → Opened S E) → OpenFunc M S E
terminal opener w m = (w ++ (m ∷ []), opener m)

-- What a server's Filter does, and `Chain`: nothing counts the calls of `next`.
pub data Steps (M S E : Type 0) : Type 0 where
  answers : Option E → Steps M S E
  calls_handler : M → S → (Option E → Steps M S E) → Steps M S E

abbrev pub Handler : Type 0 → Type 0 → Type 0 → Type 0
Handler M S E = List (M × S) → M → S → List (M × S) × Option E

module _ {M S E : Type 0} where
  unfoldable pub run_steps : Handler M S E → Steps M S E → List (M × S) → List (M × S) × Option E
  run_steps next (answers e) w = (w, e)
  run_steps next (calls_handler m st k) w = run_steps next (k (next w m st).1) (next w m st).0

  -- `Chain`.
  unfoldable pub chain : List (M → S → Steps M S E) → Handler M S E → Handler M S E
  chain [] end = end
  chain (f ∷ fs) end = λ w m st. run_steps (chain fs end) (f m st) w
