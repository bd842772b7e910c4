-- ===== src/Tests/Caches.antt =====
-- The examples of the caches' properties.
use ferrosonic.Prelude.{
  List, ℕ, ◌≤◌, ◌≡◌, refl, false, eq_iff, String, some, [], ◌∷◌, arith, length,
}
use ferrosonic.Prelude.Assoc
use ferrosonic.Prelude.Assoc.{contains_key, contains, Distinct}
use ferrosonic.Daemon.Library.{LruCache, get, insert}
use ferrosonic.Daemon.Library.Recency.{entries, view, insert_last, insert-entries}
use ferrosonic.Daemon.Library.Laws.{InStep, insert-InStep}
use ferrosonic.Daemon.TrackCache.{TrackCache, evict_to}
use ferrosonic.Daemon.TrackCache.Downloads.{
  IsAccounted, CacheEvent, wanted, finished, limited, events, events-IsAccounted,
}
use ferrosonic.Daemon.TrackCache.Eviction.{bytes, evict_to-fits}

abbrev covers : LruCache ℕ
covers = record { map = ("b", 2) ∷ ("a", 1) ∷ []; order = "a" ∷ "b" ∷ [] }

covers-InStep : InStep covers
unfolding InStep contains_key contains
covers-InStep = (
  ground arith,
  ground arith,
  λ k. ground (arith, eq_iff "a" k, eq_iff k "a", eq_iff "b" k, eq_iff k "b"),
)

insert-InStep_example :
    InStep (insert "c" 3 2 covers)
    × (length (insert "c" 3 2 covers).map ≤ 2)
    × ((get "c" (insert "c" 3 2 covers)).0 ≡ some 3)
insert-InStep_example = insert-InStep "c" 3 2 covers covers-InStep (omega arith) (omega arith)

unheld : contains_key "c" covers.map ≡ false
unfolding contains_key
unheld = refl

abbrev tracks : TrackCache
tracks = record {
  dir = "/cache";
  entries =
      ("a", record { file = "a.audio"; size = 700; last_used = 5 })
      ∷ ("b", record { file = "b.audio"; size = 500; last_used = 2 })
      ∷ [];
  in_flight = [];
  total_bytes = 1200;
}

counted : tracks.total_bytes ≡ bytes tracks.entries
unfolding bytes
counted = refl

tracks-Distinct : Distinct tracks.entries
unfolding contains_key
tracks-Distinct = (refl, (refl, tt))

evict_to-fits_example :
    ((evict_to 1000 tracks).1.total_bytes ≤ 1000)
    × ((evict_to 1000 tracks).1.total_bytes ≡ bytes (evict_to 1000 tracks).1.entries)
evict_to-fits_example = evict_to-fits 1000 tracks tracks-Distinct counted

abbrev hashed : String → ℕ
hashed id = 7

tracks-IsAccounted : IsAccounted (tracks, [])
tracks-IsAccounted = (counted, tracks-Distinct, refl, tt)

abbrev cache_events : List CacheEvent
cache_events =
    wanted "c/1"
    ∷ wanted "c/1"
    ∷ finished 9 "c/1" "c_1-0000000000000007.audio" 300
    ∷ limited 1000
    ∷ []

events-IsAccounted_example : IsAccounted (events hashed cache_events (tracks, []))
events-IsAccounted_example =
    events-IsAccounted hashed cache_events tracks [] (omega arith) tracks-IsAccounted

insert-entries_example : entries (insert "c" 3 2 covers) ≡ ("b", some 2) ∷ ("c", some 3) ∷ []
unfolding insert_last view contains_key Assoc.lookup
insert-entries_example = insert-entries "c" 3 2 covers covers-InStep
