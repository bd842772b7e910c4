-- ===== src/Daemon/Admission/Fresh.antt =====
-- The inner loop of `pick_unplayed_random`: the songs of a batch that are new.
use ferrosonic.Prelude.{
  ◌≤◌, ◌≡◌, ◌⊎◌, inl, inr, true, false, String, List, [], ◌∷◌, ◌++◌, arith, length, length-append,
  map, leb, str_eq, Bool-cases,
}
use ferrosonic.Prelude.Assoc.{contains}
use ferrosonic.Subsonic.{Child}
use ferrosonic.Config.Filters.{PlaybackFilters, passes_filters}
use ferrosonic.Daemon.Admission.{take_fresh, lookahead}

abbrev pub ids : List Child → List String
ids songs = map (λ (s : Child). s.id) songs

-- Every song of the list passes the filters, and its id is neither one of those seen nor that of an
-- earlier song of the list.
abbrev pub Picks : PlaybackFilters → List String → List Child → Type 0
Picks filters seen [] = Unit {0}
Picks filters seen (s ∷ songs) =
    (passes_filters s filters ≡ true)
    × (contains seen s.id ≡ false)
    × Picks filters (s.id ∷ seen) songs

Picks-append :
    (filters : PlaybackFilters) (seen : List String) (xs : List Child) (s : Child)
    → Picks filters seen xs
    → passes_filters s filters ≡ true
    → contains seen s.id ≡ false
    → contains (ids xs) s.id ≡ false
    → Picks filters seen (xs ++ s ∷ [])
unfolding contains
Picks-append filters seen [] s h p n m = (p, n, tt)
Picks-append filters seen (x ∷ xs) s h p n m = (
  h.0,
  h.1,
  Picks-append filters (x.id ∷ seen) xs s h.2 p (ground (arith, n, m)) (ground (arith, m)),
)

contains-ids_append :
    (xs : List Child) (s : Child) (k : String)
    → contains (ids xs) k ≡ false
    → str_eq s.id k ≡ false
    → contains (ids (xs ++ s ∷ [])) k ≡ false
unfolding contains
contains-ids_append [] s k h n = ground (arith, n)
contains-ids_append (x ∷ xs) s k h n = ground (arith, h, n, contains-ids_append xs s k)

module _ (filters : PlaybackFilters) (first : List String) where
  -- All that was seen at first, and all that is taken, is seen.
  abbrev pub Grown : List String → List Child → Type 0
  Grown seen fresh =
      (k : String)
      → contains seen k ≡ false
      → (contains first k ≡ false) × (contains (ids fresh) k ≡ false)

  Grown-cons :
      (seen : List String) (fresh : List Child) (k : String)
      → Grown seen fresh
      → Grown (k ∷ seen) fresh
  unfolding contains
  Grown-cons seen fresh k g j h = g j (ground arith)

  Grown-take :
      (seen : List String) (fresh : List Child) (s : Child)
      → Grown seen fresh
      → Grown (s.id ∷ seen) (fresh ++ s ∷ [])
  unfolding contains
  Grown-take seen fresh s g j h =
      let before = g j (ground (arith, h)) in
      (before.0, contains-ids_append fresh s j before.1 (ground (arith, h)))

  abbrev pub Taken : List String × List Child → Type 0
  Taken (seen, fresh) = Grown seen fresh × Picks filters first fresh × (length fresh ≤ lookahead)

  pub take_fresh-Taken :
      (batch : List Child) (seen : List String) (fresh : List Child)
      → Taken (seen, fresh)
      → Taken (take_fresh filters batch seen fresh)
  unfolding take_fresh
  take_fresh-Taken [] seen fresh t = t
  take_fresh-Taken (song ∷ batch) seen fresh t = elim (Bool-cases (leb lookahead (length fresh))) [
    | inl full ↦ rw (full, take_fresh) t
    | inr room ↦ elim (Bool-cases (contains seen song.id)) [
      | inl old ↦ rw (room, old, take_fresh) (take_fresh-Taken batch seen fresh t)
      | inr new ↦ elim (Bool-cases (passes_filters song filters)) [
        | inr barred ↦
            rw (room, new, barred, take_fresh)
              (take_fresh-Taken batch (song.id ∷ seen) fresh
                (Grown-cons seen fresh song.id t.0, t.1, t.2))
        | inl fits ↦
            let out = t.0 song.id new in
            rw (room, new, fits, take_fresh)
              (take_fresh-Taken batch (song.id ∷ seen) (fresh ++ song ∷ []) (
                Grown-take seen fresh song t.0,
                Picks-append filters first fresh song t.1 fits out.0 out.1,
                ground (arith, length-append fresh (song ∷ []), room),
              ))
      ]
    ]
  ]

-- No song of a batch is new: each is seen, stands earlier in the batch, or does not pass the filters.
abbrev pub NoneFits : PlaybackFilters → List String → List Child → Type 0
NoneFits filters seen [] = Unit {0}
NoneFits filters seen (s ∷ batch) =
    ((contains seen s.id ≡ true) ⊎ (passes_filters s filters ≡ false))
    × NoneFits filters (s.id ∷ seen) batch

take_fresh-grows :
    (filters : PlaybackFilters) (batch : List Child) (seen : List String) (fresh : List Child)
    → length fresh ≤ length (take_fresh filters batch seen fresh).1
unfolding take_fresh
take_fresh-grows filters [] seen fresh = omega arith
take_fresh-grows filters (s ∷ batch) seen fresh = ground (
  arith,
  take_fresh-grows filters batch seen fresh,
  take_fresh-grows filters batch (s.id ∷ seen) fresh,
  take_fresh-grows filters batch (s.id ∷ seen) (fresh ++ s ∷ []),
  length-append fresh (s ∷ []),
)

pub take_fresh-NoneFits :
    (filters : PlaybackFilters) (batch : List Child) (seen more : List String)
    → ((k : String) → contains seen k ≡ true → contains more k ≡ true)
    → length (take_fresh filters batch seen []).1 ≡ 0
    → NoneFits filters more batch
unfolding take_fresh contains
take_fresh-NoneFits filters [] seen more sub h = tt
take_fresh-NoneFits filters (s ∷ batch) seen more sub h = elim (Bool-cases (contains seen s.id)) [
  | inl old ↦ (
    inl (sub s.id old),
    take_fresh-NoneFits filters batch seen (s.id ∷ more) (λ k i. ground (arith, sub k i))
        (ground (arith, old, h)),
  )
  | inr new ↦ elim (Bool-cases (passes_filters s filters)) [
    | inr barred ↦ (
      inr barred,
      take_fresh-NoneFits filters batch (s.id ∷ seen) (s.id ∷ more) (λ k i. ground (arith, sub k))
          (ground (arith, new, barred, h)),
    )
    | inl fits ↦
        absurd (ground (arith, new, fits, h, take_fresh-grows filters batch (s.id ∷ seen) (s ∷ [])))
  ]
]
