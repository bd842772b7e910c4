-- ===== src/Daemon/Admission.antt =====
-- Which songs may enter the queue: `filter_for_playback` of daemon/queue_ops.rs and
-- `pick_unplayed_random` of daemon/core.rs.
pub mod Laws
pub mod Fresh
pub mod Pick
use ferrosonic.Prelude.{
  ℕ, zero, suc, ◌+◌, Bool, true, false, String, Option, none, some, List, [], ◌∷◌, ◌++◌, map,
  length, take, leb, ◌==◌, if◌then◌else◌,
}
use ferrosonic.Prelude.Assoc.{contains}
use ferrosonic.Subsonic.{Child}
use ferrosonic.Config.Filters.{PlaybackFilters, passes_filters}
use ferrosonic.Daemon.World.{World, Client}
use ferrosonic.Daemon.Core.{Core, emit, notification}

-- `Some(i) == track_index`
abbrev pub is_index : ℕ → Option ℕ → Bool
is_index i none = false
is_index i (some j) = i == j

-- The loop: `i` is the index of the next input song, `filtered` what was kept so far.
unfoldable pub track :
    PlaybackFilters → Option ℕ → ℕ → List Child → List Child → Option ℕ → List Child × Option ℕ
track filters track_index i [] filtered new_index = (filtered, new_index)
track filters track_index i (s ∷ songs) filtered new_index =
    track filters track_index (i + 1) songs
      (if passes_filters s filters then filtered ++ s ∷ [] else filtered)
      (if passes_filters s filters
        then if is_index i track_index then some (length filtered) else new_index
        else new_index)

abbrev pub is_empty {ℓ} : {A : Type ℓ} → List A → Bool
is_empty [] = true
is_empty (x ∷ xs) = false

-- `filter_for_playback_tracking_index` on its data.
unfoldable pub filter_tracking : PlaybackFilters → Option ℕ → List Child → List Child × Option ℕ
unfolding track
filter_tracking filters track_index [] = ([], none)
filter_tracking filters track_index (s ∷ songs) = track filters track_index 0 (s ∷ songs) [] none

module _ {F W : Type 0} where
  -- The user is told when a non-empty input was excluded whole.
  unfoldable pub filter_for_playback_tracking_index :
      List Child → Option ℕ → Core F W → (List Child × Option ℕ) × Core F W
  filter_for_playback_tracking_index songs track_index c =
      let r = filter_tracking c.state.config.playback_filters track_index songs in
      (
        r,
        if is_empty songs
            then c
            else if is_empty r.0
            then emit (notification "All selected songs are excluded by your playback filters" true)
                c
            else c,
      )

  unfoldable pub filter_for_playback : List Child → Core F W → List Child × Core F W
  unfolding filter_for_playback_tracking_index
  filter_for_playback songs c =
      let ((filtered, _), c') = filter_for_playback_tracking_index songs none c in (filtered, c')

abbrev pub attempts : ℕ
attempts = 3

abbrev pub lookahead : ℕ
lookahead = 20

-- The inner loop of `pick_unplayed_random`, over one batch.
unfoldable pub take_fresh :
    PlaybackFilters → List Child → List String → List Child → List String × List Child
take_fresh filters [] seen fresh = (seen, fresh)
take_fresh filters (song ∷ batch) seen fresh =
    let skipped = take_fresh filters batch seen fresh in
    let dropped = take_fresh filters batch (song.id ∷ seen) fresh in
    let kept = take_fresh filters batch (song.id ∷ seen) (fresh ++ song ∷ []) in
    if leb lookahead (length fresh)
    then (seen, fresh)
    else if contains seen song.id
    then skipped
    else if passes_filters song filters
    then kept
    else dropped

-- `if fresh.is_empty() { fallback.truncate(LOOKAHEAD) … }`
abbrev pub picked : List Child → List Child → List Child
picked [] fallback = take lookahead fallback
picked (s ∷ fresh) fallback = s ∷ fresh

module _ {F W : Type 0} (ext : World F W) where
  -- The outer loop: `none` is a failed request.
  unfoldable pub attempt :
      ℕ
      → Client
      → PlaybackFilters
      → List String
      → List Child
      → List Child
      → W
      → Option (List Child) × W
  attempt zero client filters seen fresh fallback w = (some (picked fresh fallback), w)
  attempt (suc n) client filters seen fresh fallback w =
      let (answer, w') = ext.random_songs client w in
      elim answer [
        | none ↦ (none, w')
        | some batch ↦
            let fallback' = if is_empty fallback then batch else fallback in
            let (seen', fresh') = take_fresh filters batch seen fresh in
            let again = attempt n client filters seen' fresh' fallback' w' in
            if is_empty batch
            then (some (picked fresh fallback), w')
            else if is_empty fresh'
            then again
            else (some (picked fresh' fallback'), w')
      ]

  unfoldable pub pick_unplayed_random : Client → Core F W → Option (List Child) × Core F W
  unfolding attempt
  pick_unplayed_random client c =
      let seen = map (λ (s : Child). s.id) c.state.queue in
      let (songs, w) = attempt attempts client c.state.config.playback_filters seen [] [] c.world in
      (songs, record c { world = w })
