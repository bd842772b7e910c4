-- ===== src/Daemon/Stars.antt =====
-- daemon/library_ops.rs and daemon/library.rs: the star of a song, in the index and in every copy.
pub mod Laws
use ferrosonic.Prelude.{
  ℕ, Bool, true, false, not, ◌&&◌, ◌||◌, String, str_eq, Option, none, some, List, [], ◌∷◌, ◌++◌,
  map, if◌then◌else◌,
}
use ferrosonic.Prelude.Int.{pos}
use ferrosonic.Prelude.Results.{Result, ok, err}
use ferrosonic.Prelude.Assoc.{contains, without}
use ferrosonic.Prelude.Text.{any}
use ferrosonic.Subsonic.{Child}
use ferrosonic.Daemon.State.{DaemonState, NowPlaying, LibraryCache}
use ferrosonic.Daemon.World.{Client}
use ferrosonic.Daemon.Core.{
  Core, emit, schedule_queue_save, bump_library_version, config_gen_changed, song_star_changed,
  starred_changed,
}
use ferrosonic.Daemon.Settings.{SubsonicError, api}

-- Whether a song is a copy of the one with the id, and has a star.
abbrev pub is_copy : String → Child → Bool
is_copy id s = str_eq s.id id

abbrev pub has_star : Child → Bool
has_star s = elim s.starred [ some _ ↦ true | none ↦ false ]

abbrev pub starred_copy : String → Child → Bool
starred_copy id s = is_copy id s && has_star s

-- `values().flatten()`, as far as a search goes.
unfoldable pub any_value : (Child → Bool) → List (String × List Child) → Bool
any_value p [] = false
any_value p ((k, songs) ∷ m) = any p songs || any_value p m

module _ {F : Type 0} where
  -- The copies outside the starred list, in the order of the searches.
  unfoldable pub any_elsewhere : (Child → Bool) → DaemonState F → Bool
  unfolding any_value
  any_elsewhere p d =
      any p d.queue
      || (any p d.library.random_songs
          || (any p d.library.random_album_songs
              || (any_value p d.library.quick_play_album_songs
                  || (any_value p d.library.album_songs_cache
                      || any_value p d.library.playlist_songs_cache))))

  unfoldable pub song_is_starred : DaemonState F → String → Bool
  unfolding any_elsewhere contains
  song_is_starred d id =
      contains d.library.starred_ids id
      || (any (starred_copy id) d.library.starred_songs || any_elsewhere (starred_copy id) d)

unfoldable pub set_star : String → Option String → Child → Child
set_star id marker s = if is_copy id s then record s { starred = marker } else s

unfoldable pub set_star_values :
    String → Option String → List (String × List Child) → List (String × List Child)
unfolding set_star
set_star_values id marker [] = []
set_star_values id marker ((k, songs) ∷ m) =
    (k, map (set_star id marker) songs) ∷ set_star_values id marker m

-- `find`, and over the values of a map.
unfoldable pub find_copy : String → List Child → Option Child
find_copy id [] = none
find_copy id (s ∷ ss) = let later = find_copy id ss in if is_copy id s then some s else later

unfoldable pub or_else : Option Child → Option Child → Option Child
or_else (some s) other = some s
or_else none other = other

unfoldable pub find_value : String → List (String × List Child) → Option Child
unfolding find_copy or_else
find_value id [] = none
find_value id ((k, songs) ∷ m) = or_else (find_copy id songs) (find_value id m)

-- `HashSet::insert`.
unfoldable pub insert_id : String → List String → List String
unfolding contains
insert_id id ids = if contains ids id then ids else id ∷ ids

-- `retain(|s| s.id != song_id)`.
unfoldable pub drop_copies : String → List Child → List Child
drop_copies id [] = []
drop_copies id (s ∷ ss) = let rest = drop_copies id ss in if is_copy id s then rest else s ∷ rest

module _ {F : Type 0} where
  unfoldable pub find_elsewhere : String → DaemonState F → Option Child
  unfolding find_copy find_value or_else
  find_elsewhere id d = or_else (find_copy id d.queue) (
      or_else (find_copy id d.library.random_songs) (
        or_else (find_copy id d.library.random_album_songs) (
          or_else (find_value id d.library.quick_play_album_songs) (
            or_else (find_value id d.library.album_songs_cache)
              (find_value id d.library.playlist_songs_cache)))))

  -- A star that the list does not have yet comes with a copy from elsewhere, if there is one.
  unfoldable pub starred_list : String → Option String → DaemonState F → List Child
  unfolding find_elsewhere set_star
  starred_list id marker d =
      if any (is_copy id) d.library.starred_songs
      then map (set_star id marker) d.library.starred_songs
      else elim (find_elsewhere id d) [
        | some s ↦ d.library.starred_songs ++ record s { starred = marker } ∷ []
        | none ↦ d.library.starred_songs
      ]

  unfoldable pub sync_starred_songs : String → Bool → Option String → DaemonState F → DaemonState F
  unfolding starred_list insert_id drop_copies without
  sync_starred_songs id true marker d = record d {
    library = record d.library {
      starred_ids = insert_id id d.library.starred_ids;
      starred_songs = starred_list id marker d;
    };
  }
  sync_starred_songs id false marker d = record d {
    library = record d.library {
      starred_ids = without d.library.starred_ids id;
      starred_songs = drop_copies id d.library.starred_songs;
    };
  }

  -- The copies outside the starred list, and the playing song.
  unfoldable pub mark_copies : String → Option String → DaemonState F → DaemonState F
  unfolding set_star set_star_values
  mark_copies id marker d = record d {
    queue = map (set_star id marker) d.queue;
    library = record d.library {
      random_songs = map (set_star id marker) d.library.random_songs;
      random_album_songs = map (set_star id marker) d.library.random_album_songs;
      quick_play_album_songs = set_star_values id marker d.library.quick_play_album_songs;
      album_songs_cache = set_star_values id marker d.library.album_songs_cache;
      playlist_songs_cache = set_star_values id marker d.library.playlist_songs_cache;
    };
    now_playing = record d.now_playing {
      song = elim d.now_playing.song [ some s ↦ some (set_star id marker s) | none ↦ none ];
    };
  }

  unfoldable pub apply_star_to_cached : String → Bool → DaemonState F → DaemonState F
  unfolding mark_copies sync_starred_songs
  apply_star_to_cached id starred d =
      let marker = if starred then some "1" else none in
      sync_starred_songs id starred marker (mark_copies id marker d)

-- `rebuild_starred_index`.
unfoldable pub rebuild_starred_index : LibraryCache → LibraryCache
rebuild_starred_index l = record l { starred_ids = ids_of l.starred_songs }
  where
    ids_of : List Child → List String
    ids_of [] = []
    ids_of (s ∷ ss) = let rest = ids_of ss in if has_star s then s.id ∷ rest else rest

-- The requests of subsonic/client.rs on stars.
pub record StarApi (W : Type 0) : Type 0 where
  pub star_song : Client → String → W → Result SubsonicError (Unit {0}) × W
  pub unstar_song : Client → String → W → Result SubsonicError (Unit {0}) × W
  pub get_starred_songs : Client → W → Option (List Child) × W

module _ {W : Type 0} (server : StarApi W) where
  -- Whether the song has the star decides which request is sent.
  abbrev pub request_star : Client → String → Bool → W → Result SubsonicError (Unit {0}) × W
  request_star client id true = server.unstar_song client id
  request_star client id false = server.star_song client id

module _ {F W : Type 0} where
  -- The toggle before its request: what the star was, and the new one in every copy.
  unfoldable pub star_begin : String → Core F W → Bool × Core F W
  unfolding song_is_starred apply_star_to_cached
  star_begin id c =
      let was = song_is_starred c.state id in
      (was, record c { state = apply_star_to_cached id (not was) c.state })

  -- The list that the server gives, unless another server has been set up meanwhile.
  unfoldable pub adopt_starred : Option (List Child) → ℕ → Core F W → Core F W
  unfolding rebuild_starred_index config_gen_changed
  adopt_starred none gen c = c
  adopt_starred (some list) gen c = if config_gen_changed gen c then c else record c {
    state = record c.state {
      library = rebuild_starred_index (record c.state.library { starred_songs = list });
    };
  }

  unfoldable pub announce_starred : Option (List Child) → ℕ → Core F W → Core F W
  unfolding emit bump_library_version
  announce_starred none gen c = c
  announce_starred (some list) gen c =
      if config_gen_changed gen c
      then c
      else bump_library_version (emit (starred_changed c.state.library.starred_songs) c)

  -- The toggle after its request, on the daemon as it is by then.
  unfoldable pub star_end : String → Bool → ℕ → Option (List Child) → Core F W → Core F W
  unfolding adopt_starred announce_starred schedule_queue_save emit
  star_end id starred gen refreshed c =
      announce_starred refreshed gen
        (emit (song_star_changed id starred) (schedule_queue_save (adopt_starred refreshed gen c)))

  unfoldable pub star_failed : String → Bool → Core F W → Core F W
  unfolding apply_star_to_cached
  star_failed id was c = record c { state = apply_star_to_cached id was c.state }

  module _ (server : StarApi W) where
    unfoldable pub toggle_star_song : String → Core F W → Result SubsonicError Bool × Core F W
    unfolding star_begin star_end star_failed
    toggle_star_song id c = elim c.subsonic [
      | none ↦ (err (api (pos 0) "Subsonic client not configured"), c)
      | some client ↦
          let (was, c1) = star_begin id c in
          let rpc = request_star server client id was c1.world in
          let listed = server.get_starred_songs client rpc.1 in
          elim rpc.0 [
            | err e ↦ (err e, star_failed id was (record c1 { world = rpc.1 }))
            | ok u ↦ (
              ok (not was),
              star_end id (not was) c.config_gen listed.0 (record c1 { world = listed.1 }),
            )
          ]
    ]
