-- ===== src/Config/Filters/Laws.antt =====
-- What `passes_filters` lets through, against a description by criteria.
use ferrosonic.Prelude.{
  ℕ, ◌+◌, ◌≤◌, ◌<◌, ◌≡◌, refl, ◌↔◌, ◌⊎◌, Bool, true, false, Option, none, some, String, List, [],
  ◌∷◌, arith, if◌then◌else◌,
}
use ferrosonic.Prelude.Int.{ℤ, pos_part, neg_part}
use ferrosonic.Prelude.Text.{eq_ignore_ascii_case, any}
use ferrosonic.Subsonic.{Child}
use ferrosonic.Config.Filters.{
  PlaybackFilters, passes_filters, u32_duration, rating_excludes, year_excludes, duration_excludes,
  name_excludes,
}

abbrev ◌<ℤ◌ : ℤ → ℤ → Type 0
◌<ℤ◌ a b = pos_part a + neg_part b < pos_part b + neg_part a

-- A criterion on an optional datum: nothing is asked where the datum is missing.
abbrev pub Known : {A : Type 0} → Option A → (A → Type 0) → Type 0
Known none P = Unit {0}
Known (some a) P = P a

-- No name of the list is the given one, but for the case of ASCII letters.
abbrev pub Unlisted : List String → String → Type 0
Unlisted [] n = Unit {0}
Unlisted (g ∷ gs) n = (eq_ignore_ascii_case g n ≡ false) × Unlisted gs n

-- What a song must meet to enter the queue.
pub record Allowed (f : PlaybackFilters) (s : Child) : Type 0 where
  pub rated : Known s.user_rating (λ r. (f.min_rating ≡ 0) ⊎ (f.min_rating < r))
  pub from_year : Known s.year (λ y. Known f.year_min (λ m. ¬ ◌<ℤ◌ y m))
  pub to_year : Known s.year (λ y. Known f.year_max (λ m. ¬ ◌<ℤ◌ m y))
  pub long_enough : Known (u32_duration s.duration) (λ d. Known f.duration_min_secs (λ m. m ≤ d))
  pub short_enough : Known (u32_duration s.duration) (λ d. Known f.duration_max_secs (λ m. d ≤ m))
  pub genre : Known s.genre (Unlisted f.excluded_genres)
  pub artist : Known s.artist (Unlisted f.excluded_artists)

rating_iff :
    (f : PlaybackFilters) (r : Option ℕ)
    → (rating_excludes f r ≡ false) ↔ Known r (λ r. (f.min_rating ≡ 0) ⊎ (f.min_rating < r))
unfolding rating_excludes
rating_iff f none = (λ h. tt, λ h. ground arith)
rating_iff f (some r) = (λ h. ground arith, λ h. ground arith)

year_iff :
    (f : PlaybackFilters) (y : Option ℤ)
    → (year_excludes f y ≡ false) ↔ (
        Known y (λ y. Known f.year_min (λ m. ¬ ◌<ℤ◌ y m))
        × Known y (λ y. Known f.year_max (λ m. ¬ ◌<ℤ◌ m y)))
unfolding year_excludes
year_iff f none = (λ h. (tt, tt), λ h. refl)
year_iff f (some y) = (λ h. ground arith, λ h. ground arith)

duration_iff :
    (f : PlaybackFilters) (d : Option ℕ)
    → (duration_excludes f d ≡ false) ↔ (
        Known d (λ d. Known f.duration_min_secs (λ m. m ≤ d))
        × Known d (λ d. Known f.duration_max_secs (λ m. d ≤ m)))
unfolding duration_excludes
duration_iff f none = (λ h. (tt, tt), λ h. refl)
duration_iff f (some d) = (λ h. ground arith, λ h. ground arith)

Unlisted-iff :
    (gs : List String) (n : String)
    → (any (λ g. eq_ignore_ascii_case g n) gs ≡ false) ↔ Unlisted gs n
Unlisted-iff [] n = (λ h. tt, λ h. refl)
Unlisted-iff (g ∷ gs) n =
    (λ h. ground (arith, (Unlisted-iff gs n).0), λ h. ground (arith, (Unlisted-iff gs n).1 h.1))

name_iff :
    (gs : List String) (n : Option String) → (name_excludes gs n ≡ false) ↔ Known n (Unlisted gs)
unfolding name_excludes
name_iff gs none = (λ h. tt, λ h. refl)
name_iff gs (some n) = Unlisted-iff gs n

gate :
    (a b c d e : Bool)
    → ((if a
          then false
          else if b
          then false
          else if c
          then false
          else if d
          then false
          else if e
          then false
          else true)
        ≡ true)
      ↔ ((a ≡ false) × (b ≡ false) × (c ≡ false) × (d ≡ false) × (e ≡ false))
gate a b c d e = (λ h. ground arith, λ h. ground arith)

-- A song passes exactly when it meets every criterion that it has the data for.
pub passes_filters_iff :
    (s : Child) (f : PlaybackFilters) → (passes_filters s f ≡ true) ↔ Allowed f s
unfolding passes_filters
passes_filters_iff s f = (to, from)
  where
    to : passes_filters s f ≡ true → Allowed f s
    to h =
        let g = (gate _ _ _ _ _).0 h in
        record {
          rated = (rating_iff f s.user_rating).0 g.0;
          from_year = ((year_iff f s.year).0 g.1).0;
          to_year = ((year_iff f s.year).0 g.1).1;
          long_enough = ((duration_iff f (u32_duration s.duration)).0 g.2).0;
          short_enough = ((duration_iff f (u32_duration s.duration)).0 g.2).1;
          genre = (name_iff f.excluded_genres s.genre).0 g.3;
          artist = (name_iff f.excluded_artists s.artist).0 g.4;
        }

    from : Allowed f s → passes_filters s f ≡ true
    from a = (gate _ _ _ _ _).1 (
      (rating_iff f s.user_rating).1 a.rated,
      (year_iff f s.year).1 (a.from_year, a.to_year),
      (duration_iff f (u32_duration s.duration)).1 (a.long_enough, a.short_enough),
      (name_iff f.excluded_genres s.genre).1 a.genre,
      (name_iff f.excluded_artists s.artist).1 a.artist,
    )
