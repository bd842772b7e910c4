-- ===== src/Tests/Marks.antt =====
-- The examples of the properties on stars, ratings, key maps and setters.
use ferrosonic.Prelude.{ℕ, suc, ◌≡◌, ◌⊎◌, refl, arith, true, false, none, some, List, [], ◌∷◌}
use ferrosonic.Prelude.Results.{ok}
use ferrosonic.Prelude.Assoc.{contains}
use ferrosonic.Float.{millis}
use ferrosonic.Files.{FileSystem}
use ferrosonic.Config.Repeat.{all}
use ferrosonic.Config.Secrets.{failed_to_start}
use ferrosonic.Config.Keys.{
  GlobalAction, KeyChord, quit, refresh, ctrl, char, same_action, discriminant, same_chord,
  same_key, same_modifiers, key_kind, key_number, key_text,
}
use ferrosonic.Config.Keys.Keymap.{
  action_at, resolve, effective_chord, is_reserved, chord_of, default_bindings, bind_all, bind,
  reserved_rating_chord,
}
use ferrosonic.Config.Keys.Keymap.Laws.{warned, resolve-effective, resolve-settles}
use ferrosonic.Daemon.State.{DaemonState}
use ferrosonic.Daemon.Stars.{
  is_copy, any_value, any_elsewhere, song_is_starred, apply_star_to_cached, drop_copies,
}
use ferrosonic.Daemon.Stars.Laws.{song_is_starred-apply, restar-loses_song}
use ferrosonic.Daemon.Ratings.{apply_rating_to_cached}
use ferrosonic.Daemon.Ratings.Rollback.{RatedAll, apply_rating-apply}
use ferrosonic.Daemon.Settings.{Host}
use ferrosonic.Daemon.Settings.Requests.{set_cava_size, set_scrobble, settings_run}
use ferrosonic.Daemon.Settings.Ranges.{IsSound, settings_run-IsSound}
use ferrosonic.Tests.{song, state, core_of, ext}

-- Quit on Ctrl+r, the key of Refresh.
abbrev overrides : List (GlobalAction × KeyChord)
overrides = (quit, ctrl (char b'r')) ∷ []

answered : action_at (ctrl (char b'r')) (resolve overrides).0 ≡ some quit
unfolding action_at resolve bind_all bind default_bindings chord_of is_reserved
    reserved_rating_chord same_action discriminant same_chord same_key same_modifiers key_kind
    key_number key_text
answered = refl

resolve-effective_example :
    (effective_chord overrides quit ≡ ctrl (char b'r'))
    × (is_reserved (ctrl (char b'r')) quit ≡ false)
resolve-effective_example = resolve-effective overrides (ctrl (char b'r')) quit answered

resolve-settles_example :
    (action_at (effective_chord overrides refresh) (resolve overrides).0 ≡ some refresh)
    ⊎ (warned refresh (resolve overrides).1 ≡ true)
resolve-settles_example = resolve-settles overrides refresh

song_is_starred-apply_example :
    song_is_starred (apply_star_to_cached "b" true (state all 2)) "b" ≡ true
song_is_starred-apply_example = song_is_starred-apply "b" true (state all 2)

-- A starred song that stands in the starred list only.
abbrev favourite : DaemonState ℕ
favourite = record (state all 2) {
  library = record (state all 2).library { starred_songs = song "z" ∷ []; starred_ids = "z" ∷ [] };
}

nowhere_else : any_elsewhere (is_copy "z") favourite ≡ false
unfolding any_elsewhere any_value
nowhere_else = refl

restar-loses_song_example :
    ((apply_star_to_cached "z" true
        (apply_star_to_cached "z" false favourite)).library.starred_songs
      ≡ [])
    × (contains
          (apply_star_to_cached "z" true
            (apply_star_to_cached "z" false favourite)).library.starred_ids
          "z"
        ≡ true)
unfolding drop_copies
restar-loses_song_example = restar-loses_song "z" favourite nowhere_else

all_three : RatedAll "b" (some 3) (state all 2)
all_three = (
  tt,
  ((λ q. refl, (λ q. refl, (λ q. refl, (λ q. refl, tt)))), (tt, (tt, (tt, (tt, (tt, λ q. refl)))))),
)

apply_rating-apply_example :
    (apply_rating_to_cached "b"
      (apply_rating_to_cached "b" (some 5) (state all 2)).0
      (apply_rating_to_cached "b" (some 5) (state all 2)).1).1
    ≡ state all 2
apply_rating-apply_example = apply_rating-apply "b" (some 3) (some 5) (state all 2) all_three

-- A disk that counts its calls.
abbrev counter : FileSystem ℕ ℕ
counter = record {
  create_dir_all = λ dir n. (ok tt, suc n);
  path_exists = λ p n. true;
  write_then_sync = λ p body mode n. (ok tt, suc n);
  rename = λ q p n. (ok tt, suc n);
  remove_file_if_exists = λ p n. (ok tt, suc n);
  open_and_sync_dir = λ dir n. (ok tt, suc n);
}

abbrev counting_host : Host ℕ ℕ ℕ ℕ
counting_host = record {
  toml = record {
    to_string_pretty = λ disk. ok "";
    from_str = λ t. ok (state all 2).config;
    as_bytes = λ t. [];
  };
  paths = record { parent = λ p. none; extension = λ p. none; with_extension = λ p e. e };
  fs = counter;
  machine = record {
    env = λ n. none;
    read_to_string = λ p n. ok "";
    run_command = λ p args n. (failed_to_start "", n);
    keys = record {
      get = λ a n. (ok none, n);
      set = λ a s n. (ok tt, n);
      delete = λ a n. (ok tt, n);
    };
  };
  config_file = some "config.toml";
}

at_first : IsSound (core_of (state all 2))
at_first = (
  ((omega arith, omega arith), ((omega arith, omega arith), (omega arith, omega arith))),
  (refl, refl),
)

settings_run-IsSound_example : IsSound (
    settings_run counting_host ext
      (set_cava_size 200 ∷ set_scrobble false ∷ [])
      (core_of (state all 2)))
settings_run-IsSound_example =
    settings_run-IsSound counting_host ext (set_cava_size 200 ∷ set_scrobble false ∷ [])
      (core_of (state all 2)) at_first
