-- ===== src/Daemon/TrackCache/Downloads.antt =====
-- Downloads into the offline cache, several at a time: which are begun, and what their ends do.
use ferrosonic.Prelude.{
  ℕ, ◌+◌, ◌≤◌, ◌≡◌, ◌∙◌, refl, ap, true, false, String, Option, none, some, List, [], ◌∷◌, arith,
  eq_iff, if◌then◌else◌, Bool-cases, inl, inr,
}
use ferrosonic.Prelude.Assoc.{
  Distinct, Distinct-insert, contains, contains_key, contains_key-insert, insert, without,
}
use ferrosonic.Daemon.Library.{remove_first}
use ferrosonic.Daemon.TrackCache.{CacheEntry, TrackCache, u64_max, begin, commit, abandon, evict_to}
use ferrosonic.Daemon.TrackCache.Remainder.{evict_to-Shrinks}
use ferrosonic.Daemon.TrackCache.Eviction.{bytes, bytes-insert, evict_to-fits}

-- What may happen: a download is asked for; one of those at work ends well or badly; the cache is
-- brought down to a limit.
pub data CacheEvent : Type 0 where
  wanted : (song_id : String) → CacheEvent
  finished : (now : ℕ) → (song_id file : String) → (size : ℕ) → CacheEvent
  failed : (song_id : String) → CacheEvent
  limited : (max_bytes : ℕ) → CacheEvent

-- A download that `begin` let start is at work from then on.
abbrev started : String → List String → Option (String × String × String) → List String
started song_id work none = work
started song_id work (some paths) = song_id ∷ work

-- The cache, and the songs of the downloads at work; one that is not at work does not end.
unfoldable pub event :
    (String → ℕ) → CacheEvent → TrackCache × List String → TrackCache × List String
event hash (wanted song_id) (c, work) =
    let out = begin hash song_id c in (out.1, started song_id work out.0)
event hash (finished now song_id file size) (c, work) =
    if contains work song_id
    then (commit now song_id file size c, remove_first song_id work)
    else (c, work)
event hash (failed song_id) (c, work) =
    if contains work song_id then (abandon song_id c, remove_first song_id work) else (c, work)
event hash (limited max_bytes) (c, work) = ((evict_to max_bytes c).1, work)

unfoldable pub events :
    (String → ℕ) → List CacheEvent → TrackCache × List String → TrackCache × List String
events hash [] s = s
events hash (e ∷ es) s = events hash es (event hash e s)

-- The bytes of the downloads that end well.
abbrev pub incoming : List CacheEvent → ℕ
incoming [] = 0
incoming (finished now song_id file size ∷ es) = size + incoming es
incoming (wanted song_id ∷ es) = incoming es
incoming (failed song_id ∷ es) = incoming es
incoming (limited max_bytes ∷ es) = incoming es

-- Each song at work is at work once and not yet indexed.
abbrev pub New : List String → List (String × CacheEntry) → Type 0
New [] entries = Unit {0}
New (k ∷ ks) entries = (contains_key k entries ≡ false) × (contains ks k ≡ false) × New ks entries

-- The byte count is that of the indexed files, each indexed once, and the cache knows what is at
-- work.
abbrev pub IsAccounted : TrackCache × List String → Type 0
IsAccounted (c, work) =
    (c.total_bytes ≡ bytes c.entries)
    × Distinct c.entries
    × (c.in_flight ≡ work)
    × New work c.entries

New-absent :
    (k : String) (ks : List String) (es : List (String × CacheEntry))
    → New ks es
    → contains ks k ≡ true
    → contains_key k es ≡ false
unfolding contains
New-absent k [] es n h = absurd cc
New-absent k (j ∷ ks) es n h = ground (arith, n, h, eq_iff j k, New-absent k ks es n.2)

without_absent : (ks : List String) (k : String) → contains ks k ≡ false → without ks k ≡ ks
unfolding contains without
without_absent [] k h = refl
without_absent (j ∷ ks) k h = ground (arith, h, without_absent ks k)

without_once :
    (ks : List String) (k : String) (es : List (String × CacheEntry))
    → New ks es
    → without ks k ≡ remove_first k ks
unfolding without remove_first
without_once [] k es n = refl
without_once (j ∷ ks) k es n =
    ground (arith, eq_iff j k, n, without_absent ks k, without_once ks k es n.2)

contains-shrinks :
    (ks : List String) (k j : String)
    → contains ks j ≡ false
    → contains (remove_first k ks) j ≡ false
unfolding contains remove_first
contains-shrinks [] k j h = refl
contains-shrinks (i ∷ ks) k j h = ground (arith, h, contains-shrinks ks k j)

New-remove_first :
    (k : String) (ks : List String) (es : List (String × CacheEntry))
    → New ks es
    → New (remove_first k ks) es
unfolding remove_first
New-remove_first k [] es n = tt
New-remove_first k (j ∷ ks) es n =
    ground (arith, n, contains-shrinks ks k j, New-remove_first k ks es n.2)

-- A song that is not at work may be indexed.
New-insert :
    (k : String) (e : CacheEntry) (ks : List String) (es : List (String × CacheEntry))
    → contains ks k ≡ false
    → New ks es
    → New ks (insert k e es)
unfolding contains
New-insert k e [] es h n = tt
New-insert k e (j ∷ ks) es h n = (
  ground (arith, h, n.0, contains_key-insert k j e es, eq_iff j k, eq_iff k j),
  n.1,
  New-insert k e ks es (ground (arith, h)) n.2,
)

gone :
    (k : String) (ks : List String) (es : List (String × CacheEntry))
    → New ks es
    → contains (remove_first k ks) k ≡ false
unfolding contains remove_first
gone k [] es n = refl
gone k (j ∷ ks) es n = ground (arith, n, eq_iff j k, gone k ks es n.2)

New-shrinks :
    (ks : List String) (es es' : List (String × CacheEntry))
    → ((k : String) → contains_key k es ≡ false → contains_key k es' ≡ false)
    → New ks es
    → New ks es'
New-shrinks [] es es' h n = tt
New-shrinks (k ∷ ks) es es' h n = (h k n.0, n.1, New-shrinks ks es es' h n.2)

wanted-IsAccounted :
    (hash : String → ℕ) (id : String) (c : TrackCache) (work : List String)
    → IsAccounted (c, work)
    → IsAccounted (event hash (wanted id) (c, work))
unfolding event begin
wanted-IsAccounted hash id c work s = ground (arith, s)

finished-IsAccounted :
    (hash : String → ℕ) (now : ℕ) (id file : String) (size : ℕ) (c : TrackCache)
    (work : List String)
    → c.total_bytes + size ≤ u64_max
    → IsAccounted (c, work)
    → IsAccounted (event hash (finished now id file size) (c, work))
unfolding event commit
finished-IsAccounted hash now id file size c work l s =
    let e : CacheEntry = record { file = file; size = size; last_used = now } in
    elim (Bool-cases (contains work id)) [
      | inr q ↦ rw (q, event) s
      | inl q ↦
          let absent = New-absent id work c.entries s.3 q in
          rw (q, event)
            (
              ground (arith, l, s.0, bytes-insert id e c.entries absent),
              Distinct-insert id e c.entries s.1,
              ap (λ ks. without ks id) s.2 ∙ without_once work id c.entries s.3,
              New-insert id e (remove_first id work) c.entries (gone id work c.entries s.3)
                  (New-remove_first id work c.entries s.3),
            )
    ]

failed-IsAccounted :
    (hash : String → ℕ) (id : String) (c : TrackCache) (work : List String)
    → IsAccounted (c, work)
    → IsAccounted (event hash (failed id) (c, work))
unfolding event abandon
failed-IsAccounted hash id c work s = elim (Bool-cases (contains work id)) [
  | inr q ↦ rw (q, event) s
  | inl q ↦
      rw (q, event)
        (
          s.0,
          s.1,
          ap (λ ks. without ks id) s.2 ∙ without_once work id c.entries s.3,
          New-remove_first id work c.entries s.3,
        )
]

limited-IsAccounted :
    (hash : String → ℕ) (max_bytes : ℕ) (c : TrackCache) (work : List String)
    → IsAccounted (c, work)
    → IsAccounted (event hash (limited max_bytes) (c, work))
unfolding event
limited-IsAccounted hash max_bytes c work s =
    let less = evict_to-Shrinks max_bytes c in
    (
      (evict_to-fits max_bytes c s.1 s.0).1,
      less.2 s.1,
      less.0 ∙ s.2,
      New-shrinks work c.entries (evict_to max_bytes c).1.entries less.3 s.3,
    )

event-total :
    (hash : String → ℕ) (e : CacheEvent) (c : TrackCache) (work : List String)
    → (event hash e (c, work)).0.total_bytes ≤ c.total_bytes + incoming (e ∷ [])
unfolding event begin commit abandon
event-total hash (wanted id) c work = ground arith
event-total hash (finished now id file size) c work = ground arith
event-total hash (failed id) c work = ground arith
event-total hash (limited max_bytes) c work = ground (arith, (evict_to-Shrinks max_bytes c).1)

event-IsAccounted :
    (hash : String → ℕ) (e : CacheEvent) (c : TrackCache) (work : List String)
    → c.total_bytes + incoming (e ∷ []) ≤ u64_max
    → IsAccounted (c, work)
    → IsAccounted (event hash e (c, work))
event-IsAccounted hash (wanted id) c work l s = wanted-IsAccounted hash id c work s
event-IsAccounted hash (finished now id file size) c work l s =
    finished-IsAccounted hash now id file size c work (omega (arith, l)) s
event-IsAccounted hash (failed id) c work l s = failed-IsAccounted hash id c work s
event-IsAccounted hash (limited max_bytes) c work l s = limited-IsAccounted hash max_bytes c work s

incoming-cons :
    (e : CacheEvent) (es : List CacheEvent) → incoming (e ∷ es) ≡ incoming (e ∷ []) + incoming es
incoming-cons (wanted id) es = omega arith
incoming-cons (finished now id file size) es = omega arith
incoming-cons (failed id) es = omega arith
incoming-cons (limited max_bytes) es = omega arith

-- Whatever downloads are asked for, end well or fail, one or several at a time, and however often
-- the cache is brought down to a limit: the byte count stays that of the indexed files, no song is
-- indexed or at work twice, and none at work is indexed yet, if so at first and unless the count
-- would pass 2^64 - 1.
pub events-IsAccounted :
    (hash : String → ℕ) (es : List CacheEvent) (c : TrackCache) (work : List String)
    → c.total_bytes + incoming es ≤ u64_max
    → IsAccounted (c, work)
    → IsAccounted (events hash es (c, work))
unfolding events
events-IsAccounted hash [] c work l s = s
events-IsAccounted hash (e ∷ es) c work l s =
    let next = event hash e (c, work) in
    events-IsAccounted hash es next.0 next.1
      (omega (arith, l, incoming-cons e es, event-total hash e c work))
      (event-IsAccounted hash e c work (omega (arith, l, incoming-cons e es)) s)
