-- ===== src/SessionPool/State.antt =====
-- The data of internal/sessionpool/pool.go: options, entries, buckets and the pool.
--
-- Endpoints and connections are compared for identity only, and are numbers here. An entry is
-- found by its endpoint and its connection, which stand for the `*entry` pointer; an entry whose
-- `sess` is nil has left its bucket in the same locked section, so `sess` is no option. Times are
-- nanoseconds. The limits that the code reads only under `> 0` are natural numbers, a negative
-- limit being one with 0. `closed_conns` logs the connections that the pool itself has closed.
use argos.Base.{
  ℕ, Bool, false, ◌&&◌, ◌==◌, leb, ltb, if◌then◌else◌, List, [], ◌∷◌, ◌++◌, Option, none, some,
  length, erase, ◌-◌,
}
use argos.Base.Int.{ℤ, pos, negsuc, inc, dec, sum_geb}

pub record Config : Type 0 where
  pub max_sessions_per_endpoint : ℕ
  pub max_idle_sessions : ℤ
  pub session_idle_timeout : ℕ
  pub max_session_lifetime : ℕ
  pub max_calls_per_conn : ℤ

pub record Entry : Type 0 where
  pub sess : ℕ
  pub refcount : ℕ
  pub created_at : ℕ
  pub idle_since : ℕ
  pub in_idle : Bool

pub record Bucket : Type 0 where
  pub entries : List Entry
  pub idle : List ℕ
  pub pending_dial : ℤ

pub record Pool : Type 0 where
  pub cfg : Config
  pub cap_per : ℤ
  pub closed : Bool
  pub buckets : List (ℕ × Bucket)
  pub by_sess : List (ℕ × ℕ)
  pub flights : List ℕ
  pub closed_conns : List ℕ

-- `New`, which turns the reuse model into the number of calls per connection.
abbrev calls_cap : ℤ → ℤ
calls_cap (negsuc n) = negsuc 0
calls_cap (pos n) = if ltb 1 n then pos n else pos 1

unfoldable pub new : Config → Pool
new cfg = record {
  cfg = cfg;
  cap_per = calls_cap cfg.max_calls_per_conn;
  closed = false;
  buckets = [];
  by_sess = [];
  flights = [];
  closed_conns = [];
}

abbrev pub empty_bucket : Bucket
empty_bucket = record { entries = []; idle = []; pending_dial = pos 0 }

-- `p.buckets[endpoint]`; a bucket that is missing reads as the empty one that `bucketLocked`
-- would put there.
abbrev pub bucket_of : ℕ → List (ℕ × Bucket) → Bucket
bucket_of ep [] = empty_bucket
bucket_of ep ((k, b) ∷ bs) = if k == ep then b else bucket_of ep bs

-- A write through the pointer that `bucketLocked` returns.
abbrev pub put_bucket : ℕ → Bucket → List (ℕ × Bucket) → List (ℕ × Bucket)
put_bucket ep b [] = (ep, b) ∷ []
put_bucket ep b ((k, c) ∷ bs) = if k == ep then (k, b) ∷ bs else (k, c) ∷ put_bucket ep b bs

abbrev pub bucket : Pool → ℕ → Bucket
bucket p ep = bucket_of ep p.buckets

abbrev pub set_bucket : Pool → ℕ → Bucket → Pool
set_bucket p ep b = record p { buckets = put_bucket ep b p.buckets }

abbrev pub find_entry : ℕ → List Entry → Option Entry
find_entry s [] = none
find_entry s (e ∷ es) = if e.sess == s then some e else find_entry s es

abbrev pub put_entry : Entry → List Entry → List Entry
put_entry e [] = []
put_entry e (x ∷ es) = if x.sess == e.sess then e ∷ es else x ∷ put_entry e es

abbrev pub drop_entry : ℕ → List Entry → List Entry
drop_entry s [] = []
drop_entry s (x ∷ es) = if x.sess == s then es else x ∷ drop_entry s es

-- `p.bySess[sess]`: the endpoint of the entry. `delete(p.bySess, sess)` drops the key.
abbrev pub endpoint_of : ℕ → List (ℕ × ℕ) → Option ℕ
endpoint_of s [] = none
endpoint_of s ((k, ep) ∷ m) = if k == s then some ep else endpoint_of s m

abbrev pub delete_sess : ℕ → List (ℕ × ℕ) → List (ℕ × ℕ)
delete_sess s [] = []
delete_sess s ((k, ep) ∷ m) = if k == s then delete_sess s m else (k, ep) ∷ delete_sess s m

-- `addEntryLocked`, with the `e.refcount = 1` that both of its callers write next.
unfoldable pub new_entry : ℕ → ℕ → Entry
new_entry s now = record {
  sess = s;
  refcount = 1;
  created_at = now;
  idle_since = 0;
  in_idle = false;
}

unfoldable pub add_entry : Pool → ℕ → ℕ → ℕ → Pool
unfolding new_entry
add_entry p ep s now =
    let b = bucket p ep in
    let q = set_bucket p ep (record b { entries = b.entries ++ (new_entry s now ∷ []) }) in
    record q { by_sess = (s, ep) ∷ delete_sess s p.by_sess }

-- `pendingDial++` and `pendingDial--`.
unfoldable pub reserve : Pool → ℕ → Pool
reserve p ep =
    let b = bucket p ep in set_bucket p ep (record b { pending_dial = inc b.pending_dial })

unfoldable pub unreserve : Pool → ℕ → Pool
unreserve p ep =
    let b = bucket p ep in set_bucket p ep (record b { pending_dial = dec b.pending_dial })

unfoldable pub at_cap : Pool → ℕ → Bool
at_cap p ep =
    let b = bucket p ep in
    let most = p.cfg.max_sessions_per_endpoint in
    ltb 0 most && sum_geb (length b.entries) b.pending_dial most

unfoldable pub lifetime_expired : Config → Entry → ℕ → Bool
lifetime_expired cfg e now =
    if leb cfg.max_session_lifetime 0
    then false
    else leb cfg.max_session_lifetime (now - e.created_at)

-- `removeIdleLocked`.
unfoldable pub remove_idle : Bucket → Entry → Bucket
remove_idle b e =
    if e.in_idle
    then record b {
      entries = put_entry (record e { in_idle = false }) b.entries;
      idle = erase e.sess b.idle;
    }
    else b

-- `discardLocked`: the entry leaves its bucket, and its connection is closed.
unfoldable pub discard_from : Bucket → Entry → Bucket
unfolding remove_idle
discard_from b e =
    let out = remove_idle b e in record out { entries = drop_entry e.sess out.entries }

unfoldable pub discard : Pool → ℕ → Entry → Pool
discard p ep e =
    let q = set_bucket p ep (discard_from (bucket p ep) e) in
    record q {
      by_sess = delete_sess e.sess p.by_sess;
      closed_conns = p.closed_conns ++ (e.sess ∷ []);
    }
