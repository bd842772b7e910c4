-- ===== src/Daemon/TrackCache/Remainder.antt =====
-- What `evict_to` keeps of the index and of the downloads at work.
use ferrosonic.Prelude.{
  ℕ, ◌-◌, ◌≤◌, ◌≡◌, refl, inl, inr, arith, false, String, List, [], ◌∷◌, leb, Bool-cases,
}
use ferrosonic.Prelude.Assoc.{Distinct, Distinct-remove, contains_key, contains_key-remove, remove}
use ferrosonic.Daemon.TrackCache.{CacheEntry, TrackCache, evict_oldest, evict_to, by_age}

-- What eviction leaves is a part of what was there.
abbrev pub Shrinks : TrackCache → TrackCache → Type 0
Shrinks c d =
    (d.in_flight ≡ c.in_flight)
    × (d.total_bytes ≤ c.total_bytes)
    × (Distinct c.entries → Distinct d.entries)
    × ((k : String) → contains_key k c.entries ≡ false → contains_key k d.entries ≡ false)

evict_oldest-Shrinks :
    (max_bytes : ℕ) (es : List (String × CacheEntry)) (c : TrackCache)
    → Shrinks c (evict_oldest max_bytes es c).1
unfolding evict_oldest
evict_oldest-Shrinks max_bytes [] c = (refl, omega arith, λ d. d, λ k h. h)
evict_oldest-Shrinks max_bytes ((id, entry) ∷ es) c =
    let less =
      evict_oldest-Shrinks max_bytes es
        (record c { entries = remove id c.entries; total_bytes = c.total_bytes - entry.size }) in
    elim (Bool-cases (leb c.total_bytes max_bytes)) [
      | inl q ↦ rw (q, evict_oldest) (refl, omega arith, (λ d. d), λ k h. h)
      | inr q ↦
          rw (q, evict_oldest)
            (
              less.0,
              omega (arith, less.1),
              (λ d. less.2 (Distinct-remove id c.entries d)),
              λ k h. less.3 k (ground (arith, h, contains_key-remove id k c.entries)),
            )
    ]

pub evict_to-Shrinks : (max_bytes : ℕ) (c : TrackCache) → Shrinks c (evict_to max_bytes c).1
unfolding evict_to
evict_to-Shrinks max_bytes c = elim (Bool-cases (leb c.total_bytes max_bytes)) [
  | inl q ↦ rw (q, evict_to) (refl, omega arith, (λ d. d), λ k h. h)
  | inr q ↦ rw (q, evict_to) (evict_oldest-Shrinks max_bytes (by_age c.entries) c)
]
