-- ===== src/SessionPool/Examples.antt =====
-- Small runs of internal/sessionpool/pool.go.
use argos.Base.{
  ℕ, ◌+◌, ◌≤◌, ◌≡◌, refl, Bool, true, false, ◌⊎◌, ◌↔◌, ◌<◌, [], ◌∷◌, some, none, arith, length,
  count, if_rule, ◌==◌, ◌≢◌,
}
use argos.Base.Int.{pos, negsuc}
use argos.SessionPool.State.{
  Config, Entry, Pool, Bucket, new, bucket, empty_bucket, find_entry, add_entry, new_entry, reserve,
  unreserve, at_cap, lifetime_expired,
}
use argos.SessionPool.Lend.{
  first_lendable, try_lend, park, return_entry, release_entry, lookup_sess, release,
}
use argos.SessionPool.Reclaim.{reclaim_from, reclaim, close}
use argos.SessionPool.Acquire.{enter_empty, enter, retire, dial_done}
use argos.SessionPool.System.{
  Sys, start, entered, ended, enters, connects, releases, Reach, here, next,
}
use argos.SessionPool.Invariant.{IdleRoom}
use argos.SessionPool.Entries.{held}
use argos.SessionPool.Safety.{
  Reach-SysInv, reach_within_cap, reach_singleflight, reach_exclusive, reach_idle,
}
use argos.SessionPool.Lending.{reclaim_keeps_busy, Answers, enter-Answers}
use argos.SessionPool.Closing.{IsShut, Later, close-IsShut, release_twice}
use argos.SessionPool.OpenCall.{
  Turn, Attempt, opens, open_call, unfinished, open_call_ends, ComesBack, acquire_cancelled,
}

-- Two connections for an endpoint, one of them idle at most, one call on each.
abbrev small : Config
small = record {
  max_sessions_per_endpoint = 2;
  max_idle_sessions = pos 1;
  session_idle_timeout = 0;
  max_session_lifetime = 0;
  max_calls_per_conn = pos 1;
}

-- The same with any number of calls on a connection.
abbrev shared : Config
shared = record small { max_calls_per_conn = negsuc 0 }

abbrev all_live : ℕ → Bool
all_live s = true

-- A caller comes for the endpoint 7 and dials.
abbrev dialling : Config → Sys
dialling cfg = entered (start cfg) 7 (enter (start cfg).pool 7 100 all_live [])

dialling-Reach : (cfg : Config) → Reach cfg (dialling cfg)
dialling-Reach cfg = next here (enters 7 100 all_live [])

-- It gets the connection 1.
abbrev busy : Sys
busy = ended (dialling small) 7 (dial_done (dialling small).pool 7 1 110)

busy-Reach : Reach small busy
unfolding new enter reclaim reclaim_from try_lend first_lendable enter_empty at_cap reserve
busy-Reach = next (dialling-Reach small) (
    connects 7 1 110 refl
      λ k. if_rule (λ (b : Bucket). held 1 b.entries ≡ 0) (7 == k) _ _ (λ _. refl) (λ _. refl))

-- It releases it.
abbrev rested : Sys
rested = record busy { pool = release busy.pool 1 120 all_live }

rested-Reach : Reach small rested
rested-Reach = next busy-Reach (releases 1 120 all_live)

reach_within_cap_example :
    length (bucket (dialling small).pool 7).entries + count 7 (dialling small).dials ≤ 2
unfolding new enter reclaim reclaim_from try_lend first_lendable enter_empty at_cap reserve
reach_within_cap_example = reach_within_cap (dialling-Reach small) refl (omega arith) 7

reach_singleflight_example : count 7 (dialling shared).dials ≤ 1
unfolding new enter reclaim reclaim_from try_lend first_lendable enter_empty at_cap reserve
reach_singleflight_example = reach_singleflight (dialling-Reach shared) refl refl 7

abbrev first : Entry
first = record { sess = 1; refcount = 1; created_at = 110; idle_since = 0; in_idle = false }

reach_exclusive_example : 1 ≤ 1
unfolding new enter reclaim reclaim_from try_lend first_lendable enter_empty at_cap reserve
    unreserve dial_done retire add_entry new_entry
reach_exclusive_example = reach_exclusive busy-Reach 1 7 1 first (omega arith) refl refl

abbrev idle_first : Entry
idle_first = record { sess = 1; refcount = 0; created_at = 110; idle_since = 120; in_idle = true }

reach_idle_example :
    (count 1 (bucket rested.pool 7).idle ≤ 1)
    × IdleRoom (pos 1) (length (bucket rested.pool 7).idle)
    × (0 < count 1 (bucket rested.pool 7).idle ↔ idle_first.in_idle ≡ true)
    × ((idle_first.in_idle ≡ false) ⊎ (idle_first.refcount ≡ 0))
unfolding new enter reclaim reclaim_from try_lend first_lendable enter_empty at_cap reserve
    unreserve dial_done retire add_entry new_entry release lookup_sess release_entry return_entry
    park lifetime_expired
reach_idle_example = reach_idle rested-Reach 7 1 idle_first refl

-- A pool with the connection 1 on the endpoint 7, as `busy` has it.
abbrev lending : Pool
lending = record {
  cfg = small;
  cap_per = pos 1;
  closed = false;
  buckets = (7, record empty_bucket { entries = first ∷ [] }) ∷ [];
  by_sess = (1, 7) ∷ [];
  flights = [];
  closed_conns = [];
}

reclaim_keeps_busy_example :
    find_entry 1 (bucket (reclaim lending all_live 500) 7).entries ≡ some first
reclaim_keeps_busy_example = reclaim_keeps_busy lending all_live 500 7 1 first refl (omega arith)

enter-Answers_example :
    let r = reclaim busy.pool all_live 200 in
    let a = enter busy.pool 7 200 all_live [] in Answers busy.pool 7 200 all_live [] r a.0 a.1
enter-Answers_example = enter-Answers busy.pool 7 200 all_live [] (Reach-SysInv busy-Reach).pool_inv

-- A dial that was in flight ends behind the Close.
close-IsShut_example : IsShut (dial_done (close lending) 7 9 130).0
unfolding close
close-IsShut_example =
    close-IsShut lending (7 ∷ []) _ refl (Later.next Later.here (connects 7 9 130 refl λ k. refl))

release_twice_example :
    release (release lending 1 120 all_live) 1 130 all_live ≡ release lending 1 120 all_live
release_twice_example = release_twice lending 1 7 first 120 all_live refl refl refl 130 all_live

-- The caller's dial fails whatever it finds, so that its `acquire` comes back.
abbrev unlucky : Turn
unlucky = record {
  now = 200;
  reusable = all_live;
  others = λ p. p;
  dialled = none;
  flight_failed = true;
  cancelled = true;
  later = 210;
}

abbrev attempt_once : Attempt
attempt_once = record { turns = unlucky ∷ []; opening = opens; now = 220; reusable = all_live }

open_call_ends_example : (open_call lending 7 (attempt_once ∷ (attempt_once ∷ []))).1 ≢ unfinished
open_call_ends_example =
    open_call_ends lending 7 (attempt_once ∷ (attempt_once ∷ [])) (omega arith) (omega arith)
      (comes_back, (comes_back, tt))
  where
    comes_back : ComesBack 7 attempt_once
    comes_back p skip = acquire_cancelled unlucky [] p 7 skip refl
