-- ===== src/Config/Filters.antt =====
-- config/mod.rs `PlaybackFilters` and daemon/playback_filters.rs `passes_filters`.
pub mod Laws
use ferrosonic.Prelude.{
  ℕ, Bool, true, false, not, ◌&&◌, Option, none, some, String, List, ltb, leb, if◌then◌else◌,
}
use ferrosonic.Prelude.Int.{ℤ, pos, negsuc, ltb_ℤ}
use ferrosonic.Prelude.Text.{eq_ignore_ascii_case, any}
use ferrosonic.Subsonic.{Child}

pub record PlaybackFilters : Type 0 where
  pub min_rating : ℕ
  pub year_min : Option ℤ
  pub year_max : Option ℤ
  pub duration_min_secs : Option ℕ
  pub duration_max_secs : Option ℕ
  pub excluded_genres : List String
  pub excluded_artists : List String

-- `opt.is_some_and(p)`.
abbrev pub is_some_and {ℓ} : {A : Type ℓ} → (A → Bool) → Option A → Bool
is_some_and p none = false
is_some_and p (some a) = p a

-- `u32::try_from(d).ok()`, which fails on a negative number.
abbrev pub to_u32 : ℤ → Option ℕ
to_u32 (pos n) = some n
to_u32 (negsuc n) = none

abbrev pub u32_duration : Option ℤ → Option ℕ
u32_duration none = none
u32_duration (some d) = to_u32 d

-- The five tests of `passes_filters`, each true when it returns `false` early.
unfoldable pub rating_excludes : PlaybackFilters → Option ℕ → Bool
rating_excludes f r = ltb 0 f.min_rating && is_some_and (λ rating. leb rating f.min_rating) r

unfoldable pub year_excludes : PlaybackFilters → Option ℤ → Bool
year_excludes f none = false
year_excludes f (some year) =
    if is_some_and (λ min. ltb_ℤ year min) f.year_min
    then true
    else is_some_and (λ max. ltb_ℤ max year) f.year_max

unfoldable pub duration_excludes : PlaybackFilters → Option ℕ → Bool
duration_excludes f none = false
duration_excludes f (some duration) =
    if is_some_and (λ min. ltb duration min) f.duration_min_secs
    then true
    else is_some_and (λ max. ltb max duration) f.duration_max_secs

unfoldable pub name_excludes : List String → Option String → Bool
name_excludes excluded name = is_some_and (λ n. any (λ g. eq_ignore_ascii_case g n) excluded) name

unfoldable pub passes_filters : Child → PlaybackFilters → Bool
passes_filters song filters =
    if rating_excludes filters song.user_rating
    then false
    else if year_excludes filters song.year
    then false
    else if duration_excludes filters (u32_duration song.duration)
    then false
    else if name_excludes filters.excluded_genres song.genre
    then false
    else if name_excludes filters.excluded_artists song.artist
    then false
    else true
