-- ===== src/Daemon/Ratings.antt =====
-- daemon/library_ops.rs: the rating of a song, in every copy; it is set before the server has
-- answered, and taken back if the server refuses.
pub mod Rollback
use ferrosonic.Prelude.{
  ℕ, Bool, true, false, not, ◌==◌, ltb, String, Option, none, some, List, [], ◌∷◌, if◌then◌else◌,
}
use ferrosonic.Prelude.Results.{Result, ok, err}
use ferrosonic.Subsonic.{Child}
use ferrosonic.Daemon.State.{DaemonState, NowPlaying, LibraryCache}
use ferrosonic.Daemon.World.{Client}
use ferrosonic.Daemon.Core.{
  Core, emit, schedule_queue_save, config_gen_changed, song_rating_changed,
}
use ferrosonic.Daemon.Settings.{SubsonicError, not_configured}
use ferrosonic.Daemon.Stars.{is_copy}

-- The rating before the update, and whether a copy was found.
abbrev pub Found : Type 0
Found = Option ℕ × Bool

-- The first copy tells the old rating.
unfoldable pub note : String → Child → Found → Found
note id s (old, found) =
    if is_copy id s then (if found then (old, found) else (s.user_rating, true)) else (old, found)

unfoldable pub set_rating : String → Option ℕ → Child → Child
set_rating id rating s = if is_copy id s then record s { user_rating = rating } else s

unfoldable pub update_rating_in_list : String → Option ℕ → List Child → Found → List Child × Found
unfolding note set_rating
update_rating_in_list id rating [] acc = ([], acc)
update_rating_in_list id rating (s ∷ ss) acc =
    let rest = update_rating_in_list id rating ss (note id s acc) in
    (set_rating id rating s ∷ rest.0, rest.1)

unfoldable pub update_rating_in_values :
    String → Option ℕ → List (String × List Child) → Found → List (String × List Child) × Found
unfolding update_rating_in_list
update_rating_in_values id rating [] acc = ([], acc)
update_rating_in_values id rating ((k, ss) ∷ m) acc =
    let here = update_rating_in_list id rating ss acc in
    let rest = update_rating_in_values id rating m here.1 in ((k, here.0) ∷ rest.0, rest.1)

-- The playing song comes last; the result is the old rating.
unfoldable pub note_playing : String → Option Child → Found → Option ℕ
note_playing id none acc = acc.0
note_playing id (some np) acc =
    if is_copy id np then (if acc.1 then acc.0 else np.user_rating) else acc.0

unfoldable pub rate_playing : String → Option ℕ → Option Child → Option Child
unfolding set_rating
rate_playing id rating none = none
rate_playing id rating (some np) = some (set_rating id rating np)

module _ {F : Type 0} where
  unfoldable pub apply_rating_to_cached :
      String → Option ℕ → DaemonState F → Option ℕ × DaemonState F
  unfolding update_rating_in_list update_rating_in_values note_playing rate_playing
  apply_rating_to_cached id rating d =
      let starred = update_rating_in_list id rating d.library.starred_songs (none, false) in
      let queue = update_rating_in_list id rating d.queue starred.1 in
      let random = update_rating_in_list id rating d.library.random_songs queue.1 in
      let album = update_rating_in_list id rating d.library.random_album_songs random.1 in
      let quick = update_rating_in_values id rating d.library.quick_play_album_songs album.1 in
      let albums = update_rating_in_values id rating d.library.album_songs_cache quick.1 in
      let lists = update_rating_in_values id rating d.library.playlist_songs_cache albums.1 in
      (
        note_playing id d.now_playing.song lists.1,
        record d {
          queue = queue.0;
          library = record d.library {
            starred_songs = starred.0;
            random_songs = random.0;
            random_album_songs = album.0;
            quick_play_album_songs = quick.0;
            album_songs_cache = albums.0;
            playlist_songs_cache = lists.0;
          };
          now_playing = record d.now_playing { song = rate_playing id rating d.now_playing.song };
        },
      )

-- `rating.min(5)`, and `None` for 0.
unfoldable pub new_rating : ℕ → Option ℕ
new_rating rating =
    let capped = if ltb rating 5 then rating else 5 in if capped == 0 then none else some capped

-- The request of subsonic/client.rs on ratings.
pub record RatingApi (W : Type 0) : Type 0 where
  pub set_rating : Client → String → ℕ → W → Result SubsonicError (Unit {0}) × W

module _ {F W : Type 0} where
  -- The optimistic update: the old rating, and the new one in every copy.
  unfoldable pub rating_begin : String → Option ℕ → Core F W → Option ℕ × Core F W
  unfolding apply_rating_to_cached
  rating_begin id rating c =
      let out = apply_rating_to_cached id rating c.state in (out.0, record c { state = out.1 })

  unfoldable pub rating_failed : String → Option ℕ → Core F W → Core F W
  unfolding apply_rating_to_cached
  rating_failed id old c = record c { state = (apply_rating_to_cached id old c.state).1 }

  unfoldable pub rating_confirmed : String → Option ℕ → Core F W → Core F W
  unfolding apply_rating_to_cached emit schedule_queue_save
  rating_confirmed id rating c =
      emit (song_rating_changed id rating)
        (schedule_queue_save (record c { state = (apply_rating_to_cached id rating c.state).1 }))

  -- What follows the answer, on the daemon as it is by then; another server's answer is not entered.
  unfoldable pub rating_end :
      String
      → Option ℕ
      → Option ℕ
      → ℕ
      → Result SubsonicError (Unit {0})
      → Core F W
      → Result SubsonicError (Option ℕ) × Core F W
  unfolding config_gen_changed rating_failed rating_confirmed
  rating_end id rating old gen (err e) c =
      (err e, if config_gen_changed gen c then c else rating_failed id old c)
  rating_end id rating old gen (ok u) c =
      (ok rating, if config_gen_changed gen c then c else rating_confirmed id rating c)

  module _ (server : RatingApi W) where
    unfoldable pub set_song_rating :
        String → ℕ → Core F W → Result SubsonicError (Option ℕ) × Core F W
    unfolding rating_begin rating_end new_rating
    set_song_rating id rating c = elim c.subsonic [
      | none ↦ (err not_configured, c)
      | some client ↦
          let (old, c1) = rating_begin id (new_rating rating) c in
          let capped = if ltb rating 5 then rating else 5 in
          let rpc = server.set_rating client id capped c1.world in
          rating_end id (new_rating rating) old c.config_gen rpc.0 (record c1 { world = rpc.1 })
    ]
