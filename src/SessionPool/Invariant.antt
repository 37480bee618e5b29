-- ===== src/SessionPool/Invariant.antt =====
-- The invariant of internal/sessionpool/pool.go on one bucket and on the pool, and what each
-- write to a bucket does to it.
use argos.Base.{
  ℕ, suc, ◌+◌, ◌≤◌, ◌<◌, ◌≡◌, refl, true, false, ◌&&◌, [], ◌∷◌, ◌++◌, some, arith, length, All,
  All-append, count, count-append, count-erase, length-erase-le, length-append, Bool-cases, inl,
  inr, ltb,
}
use argos.Base.Int.{ℤ, pos, negsuc, pos_part, neg_part, inc, dec, inc_parts, dec_parts, sum_geb}
use argos.SessionPool.State.{
  Config, Entry, Bucket, empty_bucket, find_entry, put_entry, new_entry, remove_idle, discard_from,
}
use argos.SessionPool.Lend.{cap_reached, idle_full, lend_entry, park}
use argos.SessionPool.Entries.{
  held, flagged, find_entry-All, put_entry-All, drop_entry-All, find_entry-put_entry,
  length-put_entry, held-put_entry, flagged-put_entry, length-drop_entry, held-drop_entry,
  flagged-drop_entry, held-append, flagged-append,
}

-- The number of calls that one connection may carry.
abbrev pub Carries : ℤ → ℕ → Type 0
Carries (pos c) n = n ≤ c
Carries (negsuc c) n = Unit

abbrev pub IdleRoom : ℤ → ℕ → Type 0
IdleRoom (pos m) n = n ≤ m
IdleRoom (negsuc m) n = Unit

-- No entry is overbooked, and an idle one carries no call.
pub record EntryInv (cap : ℤ) (e : Entry) : Type 0 where
  pub carries : Carries cap e.refcount
  pub at_rest : e.in_idle ≡ true → e.refcount ≡ 0

-- The entries and reservations fit the limit, the idle queue fits its own, it lists the entries
-- that are marked idle, each once, and no connection has two entries.
pub record BucketInv (cfg : Config) (cap : ℤ) (b : Bucket) : Type 0 where
  pub room :
      0 < cfg.max_sessions_per_endpoint
      → length b.entries + pos_part b.pending_dial
        ≤ cfg.max_sessions_per_endpoint + neg_part b.pending_dial
  pub entries_inv : All (EntryInv cap) b.entries
  pub idle_room : IdleRoom cfg.max_idle_sessions (length b.idle)
  pub marked : (s : ℕ) → count s b.idle ≡ flagged s b.entries
  pub distinct : (s : ℕ) → held s b.entries ≤ 1

IdleRoom-le : (m : ℤ) (a b : ℕ) → a ≤ b → IdleRoom m b → IdleRoom m a
IdleRoom-le (pos m) a b h k = omega arith
IdleRoom-le (negsuc m) a b h k = tt

IdleRoom-suc : (m : ℤ) (n : ℕ) → idle_full m n ≡ false → IdleRoom m (n + 1)
IdleRoom-suc (pos m) n h = ground arith
IdleRoom-suc (negsuc m) n h = tt

Carries-suc : (c : ℤ) (n : ℕ) → Carries c 1 → cap_reached c n ≡ false → Carries c (suc n)
Carries-suc (pos c) n k h = ground arith
Carries-suc (negsuc c) n k h = tt

pub Carries-le : (c : ℤ) (a b : ℕ) → a ≤ b → Carries c b → Carries c a
Carries-le (pos m) a b h k = omega arith
Carries-le (negsuc m) a b h k = tt

IdleRoom-zero : (m : ℤ) → IdleRoom m 0
IdleRoom-zero (pos m) = omega arith
IdleRoom-zero (negsuc m) = tt

pub empty_bucket-BucketInv : (cfg : Config) (cap : ℤ) → BucketInv cfg cap empty_bucket
empty_bucket-BucketInv cfg cap = record {
  room = λ h. omega arith;
  entries_inv = tt;
  idle_room = IdleRoom-zero cfg.max_idle_sessions;
  marked = λ s. refl;
  distinct = λ s. omega arith;
}

module _ (cfg : Config) (cap : ℤ) where
  -- A write to one entry that keeps it idle or busy.
  pub put_entry-BucketInv :
      (b : Bucket) (e e' : Entry)
      → BucketInv cfg cap b
      → find_entry e.sess b.entries ≡ some e
      → e'.sess ≡ e.sess
      → e'.in_idle ≡ e.in_idle
      → EntryInv cap e'
      → BucketInv cfg cap (record b { entries = put_entry e' b.entries })
  put_entry-BucketInv b e e' v f k i w = record {
    room = λ h. omega (arith, v.room h, length-put_entry e' b.entries);
    entries_inv = put_entry-All (EntryInv cap) e' b.entries w v.entries_inv;
    idle_room = v.idle_room;
    marked = λ s. ground (arith, v.marked s, flagged-put_entry s e e' b.entries k f);
    distinct = λ s. ground (arith, v.distinct s, held-put_entry s e' b.entries);
  }

  pub remove_idle-BucketInv :
      (b : Bucket) (e : Entry)
      → BucketInv cfg cap b
      → find_entry e.sess b.entries ≡ some e
      → BucketInv cfg cap (remove_idle b e)
  unfolding remove_idle
  remove_idle-BucketInv b e v f = elim (Bool-cases e.in_idle) [
    | inr busy ↦ rw busy v
    | inl idle ↦
        let quiet = record e { in_idle = false } in
        let ei = find_entry-All (EntryInv cap) e.sess b.entries e v.entries_inv f in
        let fewer = length-erase-le e.sess b.idle in
        rw idle (record {
          room = λ h. omega (arith, v.room h, length-put_entry quiet b.entries);
          entries_inv =
              put_entry-All (EntryInv cap) quiet b.entries
                (record { carries = ei.carries; at_rest = λ h. cc }) v.entries_inv;
          idle_room = IdleRoom-le cfg.max_idle_sessions _ _ fewer v.idle_room;
          marked = λ s. ground (
            arith,
            v.marked s,
            count-erase e.sess s b.idle,
            flagged-put_entry s e quiet b.entries refl f,
          );
          distinct = λ s. ground (arith, v.distinct s, held-put_entry s quiet b.entries);
        })
  ]

  remove_idle-find_entry :
      (b : Bucket) (e : Entry)
      → find_entry e.sess b.entries ≡ some e
      → find_entry e.sess (remove_idle b e).entries ≡ some (record e { in_idle = false })
  unfolding remove_idle
  remove_idle-find_entry b e f =
      ground (arith, find_entry-put_entry e (record e { in_idle = false }) b.entries refl f)

  pub discard_from-BucketInv :
      (b : Bucket) (e : Entry)
      → BucketInv cfg cap b
      → find_entry e.sess b.entries ≡ some e
      → BucketInv cfg cap (discard_from b e)
  unfolding discard_from
  discard_from-BucketInv b e v f =
      let quiet = record e { in_idle = false } in
      let out = remove_idle b e in
      let w = remove_idle-BucketInv b e v f in
      let g = remove_idle-find_entry b e f in
      record {
        room = λ h. omega (arith, w.room h, length-drop_entry quiet out.entries g);
        entries_inv = drop_entry-All (EntryInv cap) e.sess out.entries w.entries_inv;
        idle_room = w.idle_room;
        marked = λ s. ground (arith, w.marked s, flagged-drop_entry s quiet out.entries g);
        distinct = λ s. ground (arith, w.distinct s, held-drop_entry s e.sess out.entries);
      }

  pub lend_entry-BucketInv :
      (b : Bucket) (e : Entry)
      → BucketInv cfg cap b
      → find_entry e.sess b.entries ≡ some e
      → Carries cap 1
      → cap_reached cap e.refcount ≡ false
      → BucketInv cfg cap (lend_entry b e)
  unfolding lend_entry
  lend_entry-BucketInv b e v f one free =
      put_entry-BucketInv (remove_idle b e) (record e { in_idle = false })
        (record e { in_idle = false; refcount = suc e.refcount }) (remove_idle-BucketInv b e v f)
        (remove_idle-find_entry b e f) refl refl
        (record { carries = Carries-suc cap e.refcount one free; at_rest = λ h. cc })

  pub park-BucketInv :
      (b : Bucket) (e : Entry) (now : ℕ)
      → BucketInv cfg cap b
      → find_entry e.sess b.entries ≡ some e
      → e.refcount ≡ 0
      → e.in_idle ≡ false
      → idle_full cfg.max_idle_sessions (length b.idle) ≡ false
      → BucketInv cfg cap (park b e now)
  unfolding park
  park-BucketInv b e now v f zero_refs busy full =
      let parked = record e { in_idle = true; idle_since = now } in
      let ei = find_entry-All (EntryInv cap) e.sess b.entries e v.entries_inv f in
      let longer = length-append b.idle (e.sess ∷ []) in
      record {
        room = λ h. omega (arith, v.room h, length-put_entry parked b.entries);
        entries_inv =
            put_entry-All (EntryInv cap) parked b.entries
              (record { carries = ei.carries; at_rest = λ h. zero_refs }) v.entries_inv;
        idle_room =
            IdleRoom-le cfg.max_idle_sessions _ _ (omega (arith, longer)) (IdleRoom-suc _ _ full);
        marked = λ s. ground (
          arith,
          v.marked s,
          count-append s b.idle (e.sess ∷ []),
          flagged-put_entry s e parked b.entries refl f,
        );
        distinct = λ s. ground (arith, v.distinct s, held-put_entry s parked b.entries);
      }

  -- The entry of a new connection takes the place that was reserved for it.
  pub admit-BucketInv :
      (b : Bucket) (s now : ℕ)
      → BucketInv cfg cap b
      → Carries cap 1
      → held s b.entries ≡ 0
      → BucketInv cfg cap (record b {
        entries = b.entries ++ (new_entry s now ∷ []);
        pending_dial = dec b.pending_dial;
      })
  unfolding new_entry
  admit-BucketInv b s now v one fresh =
      let e = new_entry s now in
      record {
        room = λ h.
            omega (arith, v.room h, length-append b.entries (e ∷ []), dec_parts b.pending_dial);
        entries_inv =
            All-append (EntryInv cap) b.entries (e ∷ []) v.entries_inv
              (record { carries = one; at_rest = λ h. cc }, tt);
        idle_room = v.idle_room;
        marked = λ t. ground (arith, v.marked t, flagged-append t b.entries (e ∷ []));
        distinct = λ t. ground (arith, v.distinct t, held-append t b.entries (e ∷ []));
      }

  pub reserve-BucketInv :
      (b : Bucket)
      → BucketInv cfg cap b
      → (ltb 0 cfg.max_sessions_per_endpoint
          && sum_geb (length b.entries) b.pending_dial cfg.max_sessions_per_endpoint)
        ≡ false
      → BucketInv cfg cap (record b { pending_dial = inc b.pending_dial })
  reserve-BucketInv b v free = record {
    room = λ h. ground (arith, v.room h, inc_parts b.pending_dial);
    entries_inv = v.entries_inv;
    idle_room = v.idle_room;
    marked = v.marked;
    distinct = v.distinct;
  }

  pub unreserve-BucketInv :
      (b : Bucket)
      → BucketInv cfg cap b
      → BucketInv cfg cap (record b { pending_dial = dec b.pending_dial })
  unreserve-BucketInv b v = record {
    room = λ h. omega (arith, v.room h, dec_parts b.pending_dial);
    entries_inv = v.entries_inv;
    idle_room = v.idle_room;
    marked = v.marked;
    distinct = v.distinct;
  }
