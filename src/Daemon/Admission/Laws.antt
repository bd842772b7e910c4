-- ===== src/Daemon/Admission/Laws.antt =====
-- What enters the queue: the filter with its tracked index, and the songs that auto-continue picks.
use ferrosonic.Prelude.{
  ℕ, ◌+◌, ◌-◌, ◌≤◌, ◌<◌, ◌≡◌, refl, sym, ◌∙◌, ap, ◌⊎◌, inl, inr, Bool, true, false, Option, none,
  some, List, [], ◌∷◌, ◌++◌, arith, length, get_elem?, keep_if, if◌then◌else◌, Bool-cases,
}
use ferrosonic.Subsonic.{Child}
use ferrosonic.Config.Filters.{PlaybackFilters, passes_filters}
use ferrosonic.Daemon.Admission.{is_index, track, filter_tracking}

module _ (filters : PlaybackFilters) where
  passing : Child → Bool
  passing s = passes_filters s filters

  append_assoc : (xs ys zs : List Child) → xs ++ ys ++ zs ≡ xs ++ (ys ++ zs)
  append_assoc [] ys zs = refl
  append_assoc (x ∷ xs) ys zs = ap (λ l. x ∷ l) (append_assoc xs ys zs)

  append_nil : (xs : List Child) → xs ++ [] ≡ xs
  append_nil [] = refl
  append_nil (x ∷ xs) = ap (λ l. x ∷ l) (append_nil xs)

  if-append :
      (b : Bool) (s : Child) (acc rest : List Child)
      → (if b then acc ++ s ∷ [] else acc) ++ rest ≡ acc ++ (if b then s ∷ rest else rest)
  if-append true s acc rest = append_assoc acc (s ∷ []) rest
  if-append false s acc rest = refl

  tracked_list :
      (at : Option ℕ) (i : ℕ) (songs acc : List Child) (idx : Option ℕ)
      → (track filters at i songs acc idx).0 ≡ acc ++ keep_if (λ s. passes_filters s filters) songs
  unfolding track
  tracked_list at i [] acc idx = sym (append_nil acc)
  tracked_list at i (s ∷ songs) acc idx =
      tracked_list at (i + 1) songs _ _
      ∙ if-append (passes_filters s filters) s acc (keep_if (λ s. passes_filters s filters) songs)

  -- Past the tracked index, the answer stays.
  tracked_done :
      (j i : ℕ) (songs acc : List Child) (idx : Option ℕ)
      → j < i
      → (track filters (some j) i songs acc idx).1 ≡ idx
  unfolding track
  tracked_done j i [] acc idx h = refl
  tracked_done j i (s ∷ songs) acc idx h = grind (arith, tracked_done j (i + 1) songs)

  landed :
      (xs ys zs : List Child) (s : Child)
      → xs ≡ (ys ++ s ∷ []) ++ zs
      → get_elem? xs (length ys) ≡ some s
  landed xs [] zs s e = rw e refl
  landed xs (y ∷ ys) zs s e = rw e (landed ((ys ++ s ∷ []) ++ zs) ys zs s refl)

  -- What the tracked index leads to: the song at it, or nothing where the filters exclude it.
  unfoldable pub Lands : Child → List Child × Option ℕ → Type 0
  Lands song r =
      ((passes_filters song filters ≡ false) × (r.1 ≡ none))
      ⊎ ((passes_filters song filters ≡ true)
          × (k : ℕ) × (r.1 ≡ some k)
          × (get_elem? r.0 k ≡ some song))

  Lands-here :
      (j : ℕ) (songs acc : List Child) (s : Child)
      → Lands s (track filters (some j) j (s ∷ songs) acc none)
  unfolding Lands track
  Lands-here j songs acc s = elim (Bool-cases (passes_filters s filters)) [
    | inl e ↦ inr (
      e,
      length acc,
      ground (arith, e, tracked_done j (j + 1) songs (acc ++ s ∷ []) (some (length acc))),
      ground (
        arith,
        e,
        landed (track filters (some j) (j + 1) songs (acc ++ s ∷ []) (some (length acc))).0 acc
            (keep_if (λ s. passes_filters s filters) songs) s
            (tracked_list (some j) (j + 1) songs (acc ++ s ∷ []) (some (length acc))),
      ),
    )
    | inr e ↦ inl (e, ground (arith, e, tracked_done j (j + 1) songs acc none))
  ]

  le_cases : (i j : ℕ) → i ≤ j → (i < j) ⊎ (i ≡ j)
  le_cases i j h = omega arith

  not_yet :
      (b : Bool) (i j k : ℕ)
      → i < j
      → (if b then (if is_index i (some j) then some k else none) else none) ≡ none
  not_yet b i j k h = ground arith

  lands :
      (j i : ℕ) (songs acc : List Child) (song : Child)
      → i ≤ j
      → get_elem? songs (j - i) ≡ some song
      → Lands song (track filters (some j) i songs acc none)
  unfolding track
  lands j i [] acc song h e = cc
  lands j i (s ∷ songs) acc song h e = elim (le_cases i j h) [
    | inl lt ↦
        rw (not_yet (passes_filters s filters) i j (length acc) lt)
          (lands j (i + 1) songs _ song (omega arith) (ground (arith, e)))
    | inr eq ↦ ground (arith, eq, e, Lands-here j songs acc s)
  ]

  -- The filter keeps exactly the songs that pass, in order, and an index into its input comes out
  -- as the index of the same song, or as none where that song is excluded.
  pub filter_tracking-keeps_index :
      (songs : List Child) (j : ℕ) (song : Child)
      → get_elem? songs j ≡ some song
      → ((filter_tracking filters (some j) songs).0 ≡ keep_if (λ s. passes_filters s filters) songs)
        × Lands song (filter_tracking filters (some j) songs)
  unfolding filter_tracking
  filter_tracking-keeps_index [] j song e = cc
  filter_tracking-keeps_index (s ∷ songs) j song e = (
    tracked_list (some j) 0 (s ∷ songs) [] none,
    lands j 0 (s ∷ songs) [] song (omega arith) (ground (arith, e)),
  )
