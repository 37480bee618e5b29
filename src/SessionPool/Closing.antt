-- ===== src/SessionPool/Closing.antt =====
-- `Close` and a second `Release` in internal/sessionpool/pool.go.
use argos.Base.{
  ℕ, ◌≡◌, refl, sym, ap, Bool, true, false, ◌==◌, List, [], ◌∷◌, ◌++◌, map, none, some, arith,
  contains, if_rule, if_true, if_false,
}
use argos.SessionPool.State.{
  Entry, Bucket, Pool, bucket, set_bucket, find_entry, put_entry, endpoint_of, discard, delete_sess,
}
use argos.SessionPool.State.{unreserve}
use mathlib.Core.Path.{subst, subst₂}
use argos.SessionPool.Entries.{
  find_entry-sess, find_entry-put_entry, bucket-set_bucket, find_entry_self,
}
use argos.SessionPool.Rules.{return_entry_rule, unref, unref_entry}
use argos.SessionPool.Lend.{release, release_entry, return_entry, lookup_sess, park}
use argos.SessionPool.Reclaim.{close, tick}
use argos.SessionPool.System.{Sys, Step, enters, fails, connects, wakes, releases, ticks, closes}
use argos.SessionPool.Acquire.{
  Outcome, pool_closed, dial_error, enter, dial_failed, dial_done, woken, retire,
}

lookup_sess-eq-none : (q : Pool) (s : ℕ) → endpoint_of s q.by_sess ≡ none → lookup_sess q s ≡ none
unfolding lookup_sess
lookup_sess-eq-none q s h = rw (h, lookup_sess)

lookup_sess-eq-some :
    (q : Pool) (s ep : ℕ) (e : Entry)
    → endpoint_of s q.by_sess ≡ some ep
    → find_entry s (bucket q ep).entries ≡ some e
    → lookup_sess q s ≡ some (ep, e)
unfolding lookup_sess
lookup_sess-eq-some q s ep e h f = rw (h, lookup_sess, f)

release_untracked :
    (q : Pool) (s now : ℕ) (reusable : ℕ → Bool)
    → endpoint_of s q.by_sess ≡ none
    → release q s now reusable ≡ q
unfolding release
release_untracked q s now reusable h = rw (lookup_sess-eq-none q s h, release)

endpoint_of-contains :
    (s ep : ℕ) (m : List (ℕ × ℕ)) → endpoint_of s m ≡ some ep → contains s (map (λ k. k.0) m) ≡ true
endpoint_of-contains s ep [] h = cc
endpoint_of-contains s ep ((k, j) ∷ m) h = ground (arith, endpoint_of-contains s ep m)

contains-append_right :
    (s : ℕ) (xs ys : List ℕ) → contains s ys ≡ true → contains s (xs ++ ys) ≡ true
contains-append_right s [] ys h = h
contains-append_right s (x ∷ xs) ys h = ground (arith, contains-append_right s xs ys h)

-- Every section on a closed pool.
pub record IsShut (c : Pool) : Type 0 where
  pub enters :
      (ep now : ℕ) (reusable : ℕ → Bool) (skip : List ℕ)
      → enter c ep now reusable skip ≡ (c, pool_closed)
  pub wakes :
      (ep now : ℕ) (reusable : ℕ → Bool) (skip : List ℕ)
      → woken c ep false now reusable skip ≡ (c, pool_closed)
  pub wakes_failed :
      (ep now : ℕ) (reusable : ℕ → Bool) (skip : List ℕ)
      → woken c ep true now reusable skip ≡ (c, dial_error)
  pub fails : (ep : ℕ) → (dial_failed c ep).1 ≡ pool_closed
  pub connects :
      (ep s now : ℕ)
      → let r = dial_done c ep s now in
        (r.1 ≡ pool_closed) × (r.0.by_sess ≡ []) × (contains s r.0.closed_conns ≡ true)
  pub releases : (s now : ℕ) (reusable : ℕ → Bool) → release c s now reusable ≡ c
  pub ticks : (reusable : ℕ → Bool) (now : ℕ) → tick c reusable now ≡ c
  pub closes : close c ≡ c

shut : (c : Pool) → c.closed ≡ true → c.by_sess ≡ [] → IsShut c
unfolding enter woken dial_failed dial_done release lookup_sess tick close retire
shut c h e = record {
  enters = λ ep now reusable skip. if_true c.closed _ _ h;
  wakes = λ ep now reusable skip. if_true c.closed _ _ h;
  wakes_failed = λ ep now reusable skip. refl;
  fails = λ ep. if_true c.closed _ _ h;
  connects = λ ep s now.
      if_rule
        (λ (r : Pool × Outcome).
          (r.1 ≡ pool_closed) × (r.0.by_sess ≡ []) × (contains s r.0.closed_conns ≡ true))
        c.closed _ _
        (λ _.
          (refl, retired c ep e, contains-append_right s c.closed_conns (s ∷ []) (ground arith)))
        λ n. cc;
  releases = λ s now reusable. release_untracked c s now reusable (ap (endpoint_of s) e);
  ticks = λ reusable now. if_true c.closed _ _ h;
  closes = if_true c.closed _ _ h;
}
  where
    retired : (p : Pool) (ep : ℕ) → p.by_sess ≡ [] → (retire p ep).by_sess ≡ []
    retired p ep b = unfold unreserve in ground (arith, b)

-- What other callers make of a pool, section by section, from some state on.
pub data Later (σ : Sys) : Sys → Type 0 where
  here : Later σ σ
  next : {τ υ : Sys} → Later σ τ → Step τ υ → Later σ υ

abbrev Emptied : Pool → Type 0
Emptied c = (c.closed ≡ true) × (c.by_sess ≡ [])

retire-Emptied : (c : Pool) (ep : ℕ) → Emptied c → Emptied (retire c ep)
unfolding retire unreserve
retire-Emptied c ep v = ground arith

Step-Emptied : {σ τ : Sys} → Step σ τ → Emptied σ.pool → Emptied τ.pool
Step-Emptied {σ} (enters ep now reusable skip) v =
    let s = shut σ.pool v.0 v.1 in
    subst (λ (r : Pool × Outcome). Emptied r.0) (sym (s.enters ep now reusable skip)) v
Step-Emptied {σ} (fails ep d) v = unfold dial_failed in retire-Emptied σ.pool ep v
Step-Emptied {σ} (connects ep s now d fresh) v =
    unfold dial_done in
    if_rule (λ (r : Pool × Outcome). Emptied r.0) σ.pool.closed _ _
      (λ _. retire-Emptied σ.pool ep v) λ n. cc
Step-Emptied {σ} (wakes ep true now reusable skip) v =
    subst (λ (r : Pool × Outcome). Emptied r.0)
      (sym ((shut σ.pool v.0 v.1).wakes_failed ep now reusable skip)) v
Step-Emptied {σ} (wakes ep false now reusable skip) v =
    subst (λ (r : Pool × Outcome). Emptied r.0)
      (sym ((shut σ.pool v.0 v.1).wakes ep now reusable skip)) v
Step-Emptied {σ} (releases s now reusable) v =
    subst Emptied (sym ((shut σ.pool v.0 v.1).releases s now reusable)) v
Step-Emptied {σ} (ticks reusable now) v =
    subst Emptied (sym ((shut σ.pool v.0 v.1).ticks reusable now)) v
Step-Emptied {σ} closes v = subst Emptied (sym (shut σ.pool v.0 v.1).closes) v

Later-Emptied : {σ τ : Sys} → Later σ τ → Emptied σ.pool → Emptied τ.pool
Later-Emptied here v = v
Later-Emptied (next r st) v = Step-Emptied st (Later-Emptied r v)

-- An open pool that is closed is shut from then on, whatever sections its callers run in whatever
-- order, with any dials in flight: whoever comes or ends a dial is told that it is closed, whoever
-- wakes from a wait is told so or gets the error of the dial that it has waited on, a connection
-- that a late dial brings is closed and not tracked, and releases, ticks and further closes change
-- nothing.
pub close-IsShut :
    (p : Pool) (dials : List ℕ) (τ : Sys)
    → p.closed ≡ false
    → Later (record { pool = close p; dials = dials }) τ
    → IsShut τ.pool
close-IsShut p dials τ h r =
    let first : Emptied (close p) = (unfold close in ground arith, unfold close in ground arith) in
    let v = Later-Emptied r first in shut τ.pool v.0 v.1

-- `Close` of an open pool closes every connection that the pool tracks.
pub close_closes :
    (p : Pool) (s ep : ℕ)
    → p.closed ≡ false
    → endpoint_of s p.by_sess ≡ some ep
    → contains s (close p).closed_conns ≡ true
close_closes p s ep h tracked =
    let all =
      contains-append_right s p.closed_conns _ (endpoint_of-contains s ep p.by_sess tracked) in
    unfold close in ground (arith, all)

endpoint_of-delete_sess : (s : ℕ) (m : List (ℕ × ℕ)) → endpoint_of s (delete_sess s m) ≡ none
endpoint_of-delete_sess s [] = refl
endpoint_of-delete_sess s ((k, ep) ∷ m) = ground (arith, endpoint_of-delete_sess s m)

release_unused :
    (q : Pool) (s ep now : ℕ) (reusable : ℕ → Bool) (e : Entry)
    → endpoint_of s q.by_sess ≡ some ep
    → find_entry s (bucket q ep).entries ≡ some e
    → e.refcount ≡ 0
    → release q s now reusable ≡ q
unfolding release release_entry
release_unused q s ep now reusable e h f z =
    rw (lookup_sess-eq-some q s ep e h f, release) (if_true (e.refcount == 0) _ _ (ground arith))

-- A second `Release` for the same `Acquire`.
module _ (p : Pool) (s ep : ℕ) (e : Entry) (now : ℕ) (reusable : ℕ → Bool)
    (known : endpoint_of s p.by_sess ≡ some ep)
    (found : find_entry s (bucket p ep).entries ≡ some e) (last : e.refcount ≡ 1) where
  release-return_entry :
      release p s now reusable ≡ return_entry (unref p ep e) ep (unref_entry e) now reusable
  unfolding release release_entry
  release-return_entry =
      rw (lookup_sess-eq-some p s ep e known found, release)
        (if_false (e.refcount == 0) _ _ (ground arith))

  own : e.sess ≡ s
  own = find_entry-sess s (bucket p ep).entries e found

  parked_found :
      find_entry s (park (bucket (unref p ep e) ep) (unref_entry e) now).entries
      ≡ some (record (unref_entry e) { in_idle = true; idle_since = now })
  unfolding park
  parked_found =
      let b = bucket p ep in
      let f = find_entry_self s b.entries e found in
      let less = put_entry (unref_entry e) b.entries in
      let idle = record (unref_entry e) { in_idle = true; idle_since = now } in
      subst₂ (λ t (c : Bucket). find_entry t (put_entry idle c.entries) ≡ some idle) own
        (sym (bucket-set_bucket p ep (record b { entries = less })))
        (find_entry-put_entry (unref_entry e) idle less refl
          (find_entry-put_entry e (unref_entry e) b.entries refl f))

  -- Once the last call of a connection is released, releasing it again changes nothing, whether
  -- the first release has closed the connection or has put it in the idle queue.
  pub release_twice :
      (later : ℕ) (reusable' : ℕ → Bool)
      → release (release p s now reusable) s later reusable' ≡ release p s now reusable
  release_twice later reusable' =
      let Again = λ (q : Pool). release q s later reusable' ≡ q in
      let q = unref p ep e in
      let parked = record (unref_entry e) { in_idle = true; idle_since = now } in
      subst Again (sym release-return_entry) (
        return_entry_rule Again q ep (unref_entry e) now reusable (λ busy. absurd (omega arith))
          (λ _. release_untracked (discard q ep (unref_entry e)) s later reusable' dropped)
          (λ _ _.
            release_unused (set_bucket q ep (park (bucket q ep) (unref_entry e) now)) s ep later
              reusable' (record (unref_entry e) { in_idle = true; idle_since = now }) known
              (subst (λ (c : Bucket). find_entry s c.entries ≡ some parked)
                (sym (bucket-set_bucket q ep (park (bucket q ep) (unref_entry e) now)))
                parked_found)
              (omega arith)))
    where
      dropped : endpoint_of s (discard (unref p ep e) ep (unref_entry e)).by_sess ≡ none
      dropped = unfold discard in rw own (endpoint_of-delete_sess s p.by_sess)
