-- ===== src/Daemon/Stars/Laws.antt =====
-- A toggle is visible to the next one; and what a failed one leaves.
use ferrosonic.Prelude.{
  ◌≡◌, ◌∙◌, refl, ap, arith, Bool, true, false, String, eq_refl, Option, none, some, List, [], ◌∷◌,
  map,
}
use ferrosonic.Prelude.Assoc.{contains, without}
use ferrosonic.Prelude.Text.{any}
use ferrosonic.Subsonic.{Child}
use ferrosonic.Daemon.State.{DaemonState}
use ferrosonic.Daemon.Stars.{
  is_copy, starred_copy, any_value, any_elsewhere, song_is_starred, set_star, set_star_values,
  find_copy, or_else, find_value, insert_id, drop_copies, find_elsewhere, starred_list,
  sync_starred_songs, mark_copies, apply_star_to_cached,
}

contains-insert_id : (id : String) (ids : List String) → contains (insert_id id ids) id ≡ true
unfolding insert_id contains
contains-insert_id id ids = ground (arith, eq_refl id)

contains-without : (id : String) (ids : List String) → contains (without ids id) id ≡ false
unfolding contains without
contains-without id [] = refl
contains-without id (x ∷ xs) = ground (arith, contains-without id xs)

any-drop_copies :
    (id : String) (ss : List Child) → any (starred_copy id) (drop_copies id ss) ≡ false
unfolding drop_copies
any-drop_copies id [] = refl
any-drop_copies id (s ∷ ss) = ground (arith, any-drop_copies id ss)

any-unmarked :
    (id : String) (ss : List Child) → any (starred_copy id) (map (set_star id none) ss) ≡ false
unfolding set_star
any-unmarked id [] = refl
any-unmarked id (s ∷ ss) = ground (arith, any-unmarked id ss)

any_value-unmarked :
    (id : String) (m : List (String × List Child))
    → any_value (starred_copy id) (set_star_values id none m) ≡ false
unfolding any_value set_star_values
any_value-unmarked id [] = refl
any_value-unmarked id ((k, ss) ∷ m) = ground (arith, any-unmarked id ss, any_value-unmarked id m)

module _ {F : Type 0} where
  -- After a star is set or taken in the caches, the next toggle of the song sees exactly that.
  pub song_is_starred-apply :
      (id : String) (starred : Bool) (d : DaemonState F)
      → song_is_starred (apply_star_to_cached id starred d) id ≡ starred
  unfolding song_is_starred apply_star_to_cached sync_starred_songs mark_copies any_elsewhere
  song_is_starred-apply id true d = ground (arith, contains-insert_id id d.library.starred_ids)
  song_is_starred-apply id false d = ground (
    arith,
    contains-without id d.library.starred_ids,
    any-drop_copies id d.library.starred_songs,
    any-unmarked id d.queue,
    any-unmarked id d.library.random_songs,
    any-unmarked id d.library.random_album_songs,
    any_value-unmarked id d.library.quick_play_album_songs,
    any_value-unmarked id d.library.album_songs_cache,
    any_value-unmarked id d.library.playlist_songs_cache,
  )

find_copy-absent :
    (id : String) (m : Option String) (ss : List Child)
    → any (is_copy id) ss ≡ false
    → find_copy id (map (set_star id m) ss) ≡ none
unfolding find_copy set_star
find_copy-absent id m [] h = refl
find_copy-absent id m (s ∷ ss) h = ground (arith, find_copy-absent id m ss)

any-absent :
    (id : String) (m : Option String) (ss : List Child)
    → any (is_copy id) ss ≡ false
    → any (is_copy id) (map (set_star id m) ss) ≡ false
unfolding set_star
any-absent id m [] h = refl
any-absent id m (s ∷ ss) h = ground (arith, any-absent id m ss)

find_value-absent :
    (id : String) (mk : Option String) (m : List (String × List Child))
    → any_value (is_copy id) m ≡ false
    → find_value id (set_star_values id mk m) ≡ none
unfolding find_value any_value set_star_values or_else
find_value-absent id mk [] h = refl
find_value-absent id mk ((k, ss) ∷ m) h =
    ground (arith, find_copy-absent id mk ss, find_value-absent id mk m)

any_value-absent :
    (id : String) (mk : Option String) (m : List (String × List Child))
    → any_value (is_copy id) m ≡ false
    → any_value (is_copy id) (set_star_values id mk m) ≡ false
unfolding any_value set_star_values
any_value-absent id mk [] h = refl
any_value-absent id mk ((k, ss) ∷ m) h =
    ground (arith, any-absent id mk ss, any_value-absent id mk m)

any-dropped : (id : String) (ss : List Child) → any (is_copy id) (drop_copies id ss) ≡ false
unfolding drop_copies
any-dropped id [] = refl
any-dropped id (s ∷ ss) = ground (arith, any-dropped id ss)

module _ {F : Type 0} where
  find_elsewhere-absent :
      (id : String) (mk : Option String) (d : DaemonState F)
      → any_elsewhere (is_copy id) d ≡ false
      → find_elsewhere id (mark_copies id mk d) ≡ none
  unfolding find_elsewhere any_elsewhere mark_copies or_else
  find_elsewhere-absent id mk d h = ground (
    arith,
    find_copy-absent id mk d.queue,
    find_copy-absent id mk d.library.random_songs,
    find_copy-absent id mk d.library.random_album_songs,
    find_value-absent id mk d.library.quick_play_album_songs,
    find_value-absent id mk d.library.album_songs_cache,
    find_value-absent id mk d.library.playlist_songs_cache,
  )

  any_elsewhere-absent :
      (id : String) (d : DaemonState F)
      → any_elsewhere (is_copy id) d ≡ false
      → any_elsewhere (is_copy id) (apply_star_to_cached id false d) ≡ false
  unfolding any_elsewhere mark_copies apply_star_to_cached sync_starred_songs
  any_elsewhere-absent id d h = ground (
    arith,
    any-absent id none d.queue,
    any-absent id none d.library.random_songs,
    any-absent id none d.library.random_album_songs,
    any_value-absent id none d.library.quick_play_album_songs,
    any_value-absent id none d.library.album_songs_cache,
    any_value-absent id none d.library.playlist_songs_cache,
  )

  mark_copies-keeps :
      (id : String) (mk : Option String) (d : DaemonState F)
      → (mark_copies id mk d).library.starred_songs ≡ d.library.starred_songs
  unfolding mark_copies
  mark_copies-keeps id mk d = refl

  restarred :
      (id : String) (d : DaemonState F)
      → any (is_copy id) d.library.starred_songs ≡ false
      → any_elsewhere (is_copy id) d ≡ false
      → (apply_star_to_cached id true d).library.starred_songs ≡ d.library.starred_songs
  unfolding apply_star_to_cached sync_starred_songs starred_list
  restarred id d unlisted absent =
      ground (arith, find_elsewhere-absent id (some "1") d absent, kept)
    where
      kept : (mark_copies id (some "1") d).library.starred_songs ≡ d.library.starred_songs
      kept = mark_copies-keeps id (some "1") d

  indexed :
      (id : String) (d : DaemonState F)
      → contains (apply_star_to_cached id true d).library.starred_ids id ≡ true
  unfolding apply_star_to_cached sync_starred_songs
  indexed id d = contains-insert_id id (mark_copies id (some "1") d).library.starred_ids

  dropped :
      (id : String) (d : DaemonState F)
      → (apply_star_to_cached id false d).library.starred_songs
        ≡ drop_copies id d.library.starred_songs
  unfolding apply_star_to_cached sync_starred_songs mark_copies
  dropped id d = refl

  -- Where a starred song has no copy but the one in the starred list, taking its star and setting it
  -- again, as the toggle does when the server refuses, loses the song from that list while its id
  -- stays in the index.
  pub restar-loses_song :
      (id : String) (d : DaemonState F)
      → any_elsewhere (is_copy id) d ≡ false
      → ((apply_star_to_cached id true (apply_star_to_cached id false d)).library.starred_songs
          ≡ drop_copies id d.library.starred_songs)
        × (contains
              (apply_star_to_cached id true (apply_star_to_cached id false d)).library.starred_ids
              id
            ≡ true)
  restar-loses_song id d h = (
    restarred id (apply_star_to_cached id false d)
          (ap (any (is_copy id)) (dropped id d) ∙ any-dropped id d.library.starred_songs)
          (any_elsewhere-absent id d h)
        ∙ dropped id d,
    indexed id (apply_star_to_cached id false d),
  )
