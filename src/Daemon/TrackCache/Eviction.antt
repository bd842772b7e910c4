-- ===== src/Daemon/TrackCache/Eviction.antt =====
-- The byte count of the offline cache, and what eviction leaves.
use ferrosonic.Prelude.{
  ℕ, ◌+◌, ◌-◌, ◌≤◌, ◌≡◌, refl, sym, ◌∙◌, false, String, some, List, [], ◌∷◌, arith, eq_iff, eq_refl,
}
use ferrosonic.Prelude.Assoc.{
  Distinct, Distinct-remove, contains_key, insert, lookup, lookup-remove, remove, remove_absent,
}
use ferrosonic.Daemon.TrackCache.{
  CacheEntry, TrackCache, by_age_insert, by_age, evict_oldest, evict_to,
}

-- The bytes of the indexed files.
unfoldable pub bytes : List (String × CacheEntry) → ℕ
bytes [] = 0
bytes ((id, entry) ∷ es) = entry.size + bytes es

bytes-by_age_insert :
    (e : String × CacheEntry) (es : List (String × CacheEntry))
    → bytes (by_age_insert e es) ≡ e.1.size + bytes es
unfolding bytes by_age_insert
bytes-by_age_insert e [] = refl
bytes-by_age_insert e (x ∷ xs) = ground (arith, bytes-by_age_insert e xs)

bytes-by_age : (es : List (String × CacheEntry)) → bytes (by_age es) ≡ bytes es
unfolding bytes by_age
bytes-by_age [] = refl
bytes-by_age (e ∷ es) = omega (arith, bytes-by_age_insert e (by_age es), bytes-by_age es)

evict_oldest-fits :
    (max_bytes : ℕ) (es : List (String × CacheEntry)) (c : TrackCache)
    → c.total_bytes ≡ bytes es
    → (evict_oldest max_bytes es c).1.total_bytes ≤ max_bytes
unfolding evict_oldest bytes
evict_oldest-fits max_bytes [] c h = omega (arith, h)
evict_oldest-fits max_bytes ((id, entry) ∷ es) c h = ground (
  arith,
  evict_oldest-fits max_bytes es
      (record c { entries = remove id c.entries; total_bytes = c.total_bytes - entry.size })
      (omega (arith, h)),
)

bytes-remove :
    (id : String) (entry : CacheEntry) (es : List (String × CacheEntry))
    → Distinct es
    → lookup id es ≡ some entry
    → bytes es ≡ entry.size + bytes (remove id es)
unfolding bytes remove lookup
bytes-remove id entry [] d h = cc
bytes-remove id entry ((k, e) ∷ es) d h =
    ground (arith, bytes-remove id entry es d.1, remove_absent id es, eq_iff id k)

-- Every pair of the first list stands in the second.
abbrev Held : List (String × CacheEntry) → List (String × CacheEntry) → Type 0
Held [] m = Unit {0}
Held ((id, entry) ∷ es) m = (lookup id m ≡ some entry) × Held es m

Held-remove :
    (key : String) (es m : List (String × CacheEntry))
    → contains_key key es ≡ false
    → Held es m
    → Held es (remove key m)
unfolding contains_key
Held-remove key [] m n h = tt
Held-remove key ((id, entry) ∷ es) m n h =
    (ground (arith, n, h.0, lookup-remove key id m), Held-remove key es m (ground (arith, n)) h.1)

Held-cons :
    (key : String) (val : CacheEntry) (es m : List (String × CacheEntry))
    → contains_key key es ≡ false
    → Held es m
    → Held es ((key, val) ∷ m)
unfolding contains_key lookup
Held-cons key val [] m n h = tt
Held-cons key val ((id, entry) ∷ es) m n h = (
  ground (arith, n, h.0, eq_iff id key, eq_iff key id),
  Held-cons key val es m (ground (arith, n)) h.1,
)

Held-refl : (es : List (String × CacheEntry)) → Distinct es → Held es es
unfolding lookup
Held-refl [] d = tt
Held-refl ((id, entry) ∷ es) d =
    (ground (arith, eq_refl id), Held-cons id entry es es d.0 (Held-refl es d.1))

Held-by_age_insert :
    (e : String × CacheEntry) (es m : List (String × CacheEntry))
    → lookup e.0 m ≡ some e.1
    → Held es m
    → Held (by_age_insert e es) m
unfolding by_age_insert
Held-by_age_insert e [] m l h = (l, tt)
Held-by_age_insert e (x ∷ xs) m l h = ground (arith, Held-by_age_insert e xs m l h.1, l, h)

Held-by_age : (es m : List (String × CacheEntry)) → Held es m → Held (by_age es) m
unfolding by_age
Held-by_age [] m h = tt
Held-by_age (e ∷ es) m h = Held-by_age_insert e (by_age es) m h.0 (Held-by_age es m h.1)

contains_key-by_age_insert :
    (key : String) (e : String × CacheEntry) (es : List (String × CacheEntry))
    → contains_key key (by_age_insert e es) ≡ contains_key key (e ∷ es)
unfolding contains_key by_age_insert
contains_key-by_age_insert key e [] = refl
contains_key-by_age_insert key e (x ∷ xs) = ground (arith, contains_key-by_age_insert key e xs)

contains_key-by_age :
    (key : String) (es : List (String × CacheEntry))
    → contains_key key (by_age es) ≡ contains_key key es
unfolding contains_key by_age
contains_key-by_age key [] = refl
contains_key-by_age key (e ∷ es) =
    ground (arith, contains_key-by_age_insert key e (by_age es), contains_key-by_age key es)

Distinct-by_age_insert :
    (e : String × CacheEntry) (es : List (String × CacheEntry))
    → contains_key e.0 es ≡ false
    → Distinct es
    → Distinct (by_age_insert e es)
unfolding by_age_insert contains_key
Distinct-by_age_insert e [] n d = (refl, tt)
Distinct-by_age_insert e (x ∷ xs) n d = ground (
  arith,
  Distinct-by_age_insert e xs,
  contains_key-by_age_insert x.0 e xs,
  eq_iff e.0 x.0,
  eq_iff x.0 e.0,
)

Distinct-by_age : (es : List (String × CacheEntry)) → Distinct es → Distinct (by_age es)
unfolding by_age
Distinct-by_age [] d = tt
Distinct-by_age (e ∷ es) d =
    Distinct-by_age_insert e (by_age es) (ground (arith, contains_key-by_age e.0 es, d))
      (Distinct-by_age es d.1)

evict_oldest-bytes :
    (max_bytes : ℕ) (es : List (String × CacheEntry)) (c : TrackCache)
    → Distinct c.entries
    → Distinct es
    → Held es c.entries
    → c.total_bytes ≡ bytes c.entries
    → (evict_oldest max_bytes es c).1.total_bytes ≡ bytes (evict_oldest max_bytes es c).1.entries
unfolding evict_oldest
evict_oldest-bytes max_bytes [] c d u h b = b
evict_oldest-bytes max_bytes ((id, entry) ∷ es) c d u h b =
    let r =
      evict_oldest-bytes max_bytes es
        (record c { entries = remove id c.entries; total_bytes = c.total_bytes - entry.size })
        (Distinct-remove id c.entries d) u.1 (Held-remove id es c.entries u.0 h.1)
        (omega (arith, b, bytes-remove id entry c.entries d h.0)) in
    ground (arith, r, b)

-- Where the byte count is that of the indexed files, each indexed once, eviction brings it down to
-- the limit, and it is still that of the files indexed then.
pub evict_to-fits :
    (max_bytes : ℕ) (c : TrackCache)
    → Distinct c.entries
    → c.total_bytes ≡ bytes c.entries
    → ((evict_to max_bytes c).1.total_bytes ≤ max_bytes)
      × ((evict_to max_bytes c).1.total_bytes ≡ bytes (evict_to max_bytes c).1.entries)
unfolding evict_to
evict_to-fits max_bytes c d h = (
  ground
      (arith, evict_oldest-fits max_bytes (by_age c.entries) c (h ∙ sym (bytes-by_age c.entries))),
  ground (
    arith,
    h,
    evict_oldest-bytes max_bytes (by_age c.entries) c d (Distinct-by_age c.entries d)
        (Held-by_age c.entries c.entries (Held-refl c.entries d)) h,
  ),
)

pub bytes-insert :
    (id : String) (entry : CacheEntry) (es : List (String × CacheEntry))
    → contains_key id es ≡ false
    → bytes (insert id entry es) ≡ bytes es + entry.size
unfolding bytes insert contains_key
bytes-insert id entry [] h = omega arith
bytes-insert id entry ((k, e) ∷ es) h = ground (arith, bytes-insert id entry es)
