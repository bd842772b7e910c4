-- ===== src/Daemon/Ratings/Rollback.antt =====
-- A refused rating leaves the caches as they were, and a confirmed one is in every copy.
use ferrosonic.Prelude.{
  ℕ, ◌≡◌, ◌∙◌, refl, sym, ap, inl, inr, arith, true, false, String, Option, none, some, List, [],
  ◌∷◌, Bool-cases,
}
use mathlib.Core.Path.{ap₂}
use ferrosonic.Prelude.Text.{any}
use ferrosonic.Subsonic.{Child}
use ferrosonic.Daemon.State.{DaemonState}
use ferrosonic.Daemon.Stars.{is_copy, any_value}
use ferrosonic.Daemon.Ratings.{
  Found, note, set_rating, update_rating_in_list, update_rating_in_values, note_playing,
  rate_playing, apply_rating_to_cached,
}

-- Every copy in the list has the rating.
abbrev pub Rated : String → Option ℕ → List Child → Type 0
Rated id r [] = Unit {0}
Rated id r (s ∷ ss) = (is_copy id s ≡ true → s.user_rating ≡ r) × Rated id r ss

abbrev pub RatedValues : String → Option ℕ → List (String × List Child) → Type 0
RatedValues id r [] = Unit {0}
RatedValues id r ((k, ss) ∷ m) = Rated id r ss × RatedValues id r m

abbrev pub RatedSong : String → Option ℕ → Option Child → Type 0
RatedSong id r none = Unit {0}
RatedSong id r (some s) = is_copy id s ≡ true → s.user_rating ≡ r

-- What was found is the rating.
abbrev Tracks : Option ℕ → Found → Type 0
Tracks r (old, found) = found ≡ true → old ≡ r

update-Rated :
    (id : String) (r : Option ℕ) (ss : List Child) (acc : Found)
    → Rated id r (update_rating_in_list id r ss acc).0
unfolding update_rating_in_list set_rating
update-Rated id r [] acc = tt
update-Rated id r (s ∷ ss) acc = (ground arith, update-Rated id r ss (note id s acc))

update_values-Rated :
    (id : String) (r : Option ℕ) (m : List (String × List Child)) (acc : Found)
    → RatedValues id r (update_rating_in_values id r m acc).0
unfolding update_rating_in_values
update_values-Rated id r [] acc = tt
update_values-Rated id r ((k, ss) ∷ m) acc =
    (update-Rated id r ss acc, update_values-Rated id r m (update_rating_in_list id r ss acc).1)

note-Tracks :
    (id : String) (r : Option ℕ) (s : Child) (acc : Found)
    → (is_copy id s ≡ true → s.user_rating ≡ r)
    → Tracks r acc
    → Tracks r (note id s acc)
      × (((acc.1 ≡ true → (note id s acc).1 ≡ true))
          × (is_copy id s ≡ true → (note id s acc).1 ≡ true))
unfolding note
note-Tracks id r s (old, found) h t = ground arith

update-Tracks :
    (id : String) (r x : Option ℕ) (ss : List Child) (acc : Found)
    → Rated id r ss
    → Tracks r acc
    → Tracks r (update_rating_in_list id x ss acc).1
      × ((acc.1 ≡ true → (update_rating_in_list id x ss acc).1.1 ≡ true)
          × (any (is_copy id) ss ≡ true → (update_rating_in_list id x ss acc).1.1 ≡ true))
unfolding update_rating_in_list
update-Tracks id r x [] acc h t = ground arith
update-Tracks id r x (s ∷ ss) acc (h, hs) t =
    let (t', (kept, here)) = note-Tracks id r s acc h t in
    let (t'', (keeps, there)) = update-Tracks id r x ss (note id s acc) hs t' in
    (t'', (λ f. keeps (kept f), ground (arith, here, keeps, there)))

set-set :
    (id : String) (x old : Option ℕ) (s : Child)
    → (is_copy id s ≡ true → s.user_rating ≡ old)
    → set_rating id old (set_rating id x s) ≡ s
unfolding set_rating
set-set id x old s h = elim (Bool-cases (is_copy id s)) [
  | inl q ↦ rw (q, set_rating, q) (ap (λ r. record s { user_rating = r }) (sym (h q)))
  | inr q ↦ rw (q, set_rating, q) refl
]

-- Setting a rating and setting the old one again gives the list back.
update-update :
    (id : String) (r x old : Option ℕ) (ss : List Child) (a b : Found)
    → Rated id r ss
    → (any (is_copy id) ss ≡ true → old ≡ r)
    → (update_rating_in_list id old (update_rating_in_list id x ss a).0 b).0 ≡ ss
unfolding update_rating_in_list set_rating
update-update id r x old [] a b h back = refl
update-update id r x old (s ∷ ss) a b (h, hs) back =
    ap₂ (◌∷◌) (set-set id x old s (λ q. h q ∙ sym (back (here q)))) (
      update-update id r x old ss (note id s a) (note id (set_rating id x s) b) hs
        (λ q. back (there q)))
  where
    here : is_copy id s ≡ true → any (is_copy id) (s ∷ ss) ≡ true
    here q = ground (arith, q)

    there : any (is_copy id) ss ≡ true → any (is_copy id) (s ∷ ss) ≡ true
    there q = ground (arith, q)

update_values-Tracks :
    (id : String) (r x : Option ℕ) (m : List (String × List Child)) (acc : Found)
    → RatedValues id r m
    → Tracks r acc
    → Tracks r (update_rating_in_values id x m acc).1
      × ((acc.1 ≡ true → (update_rating_in_values id x m acc).1.1 ≡ true)
          × (any_value (is_copy id) m ≡ true → (update_rating_in_values id x m acc).1.1 ≡ true))
unfolding update_rating_in_values any_value
update_values-Tracks id r x [] acc h t = ground arith
update_values-Tracks id r x ((k, ss) ∷ m) acc (h, hs) t =
    let here = update_rating_in_list id x ss acc in
    let (t', (kept, found)) = update-Tracks id r x ss acc h t in
    let (t'', (keeps, there)) = update_values-Tracks id r x m here.1 hs t' in
    (t'', (λ f. keeps (kept f), ground (arith, found, keeps, there)))

update_values-update :
    (id : String) (r x old : Option ℕ) (m : List (String × List Child)) (a b : Found)
    → RatedValues id r m
    → (any_value (is_copy id) m ≡ true → old ≡ r)
    → (update_rating_in_values id old (update_rating_in_values id x m a).0 b).0 ≡ m
unfolding update_rating_in_values any_value
update_values-update id r x old [] a b h back = refl
update_values-update id r x old ((k, ss) ∷ m) a b (h, hs) back =
    ap₂ (λ songs rest. (k, songs) ∷ rest)
      (update-update id r x old ss a b h (λ q. back (ground (arith, q))))
      (update_values-update id r x old m (update_rating_in_list id x ss a).1
        (update_rating_in_list id old (update_rating_in_list id x ss a).0 b).1 hs
        (λ q. back (ground (arith, q))))

note_playing-r :
    (id : String) (r : Option ℕ) (np : Option Child) (acc : Found)
    → Tracks r acc
    → RatedSong id r np
    → acc.1 ≡ true
    → note_playing id np acc ≡ r
unfolding note_playing
note_playing-r id r none acc t h f = t f
note_playing-r id r (some s) acc t h f = ground (arith, t, f)

rate-rate :
    (id : String) (r x : Option ℕ) (np : Option Child) (acc : Found)
    → Tracks r acc
    → RatedSong id r np
    → rate_playing id (note_playing id np acc) (rate_playing id x np) ≡ np
unfolding rate_playing note_playing
rate-rate id r x none acc t h = refl
rate-rate id r x (some s) acc t h =
    ap some (set-set id x (note_playing id (some s) acc) s (λ q. ground (arith, q, h q, t)))

rate-RatedSong :
    (id : String) (x : Option ℕ) (np : Option Child) → RatedSong id x (rate_playing id x np)
unfolding rate_playing set_rating
rate-RatedSong id x none = tt
rate-RatedSong id x (some s) = ground arith

module _ {F : Type 0} where
  -- Every copy of the song that the daemon holds has the rating.
  abbrev pub RatedAll : String → Option ℕ → DaemonState F → Type 0
  RatedAll id r d =
      Rated id r d.library.starred_songs
      × (Rated id r d.queue
          × (Rated id r d.library.random_songs
              × (Rated id r d.library.random_album_songs
                  × (RatedValues id r d.library.quick_play_album_songs
                      × (RatedValues id r d.library.album_songs_cache
                          × (RatedValues id r d.library.playlist_songs_cache
                              × RatedSong id r d.now_playing.song))))))

  -- A rating that the server refuses is taken back without a trace, in every list and in the playing
  -- song, whatever the new rating was, if all copies of the song had the same rating before.
  pub apply_rating-apply :
      (id : String) (r x : Option ℕ) (d : DaemonState F)
      → RatedAll id r d
      → (apply_rating_to_cached id
          (apply_rating_to_cached id x d).0
          (apply_rating_to_cached id x d).1).1
        ≡ d
  unfolding apply_rating_to_cached
  apply_rating-apply id r x d (h1, (h2, (h3, (h4, (h5, (h6, (h7, h8))))))) =
      let a1 = update_rating_in_list id x d.library.starred_songs (none, false) in
      let a2 = update_rating_in_list id x d.queue a1.1 in
      let a3 = update_rating_in_list id x d.library.random_songs a2.1 in
      let a4 = update_rating_in_list id x d.library.random_album_songs a3.1 in
      let a5 = update_rating_in_values id x d.library.quick_play_album_songs a4.1 in
      let a6 = update_rating_in_values id x d.library.album_songs_cache a5.1 in
      let a7 = update_rating_in_values id x d.library.playlist_songs_cache a6.1 in
      let old = note_playing id d.now_playing.song a7.1 in
      let (t1, (k1, f1)) =
        update-Tracks id r x d.library.starred_songs (none, false) h1
          (λ q. absurd (ground arith)) in
      let (t2, (k2, f2)) = update-Tracks id r x d.queue a1.1 h2 t1 in
      let (t3, (k3, f3)) = update-Tracks id r x d.library.random_songs a2.1 h3 t2 in
      let (t4, (k4, f4)) = update-Tracks id r x d.library.random_album_songs a3.1 h4 t3 in
      let (t5, (k5, f5)) =
        update_values-Tracks id r x d.library.quick_play_album_songs a4.1 h5 t4 in
      let (t6, (k6, f6)) = update_values-Tracks id r x d.library.album_songs_cache a5.1 h6 t5 in
      let (t7, (k7, f7)) = update_values-Tracks id r x d.library.playlist_songs_cache a6.1 h7 t6 in
      let final = note_playing-r id r d.now_playing.song a7.1 t7 h8 in
      let b1 = update_rating_in_list id old a1.0 (none, false) in
      let b2 = update_rating_in_list id old a2.0 b1.1 in
      let b3 = update_rating_in_list id old a3.0 b2.1 in
      let b4 = update_rating_in_list id old a4.0 b3.1 in
      let b5 = update_rating_in_values id old a5.0 b4.1 in
      let b6 = update_rating_in_values id old a6.0 b5.1 in
      let e1 =
        update-update id r x old d.library.starred_songs (none, false) (none, false) h1
          (λ q. final (k7 (k6 (k5 (k4 (k3 (k2 (f1 q)))))))) in
      let e2 =
        update-update id r x old d.queue a1.1 b1.1 h2
          (λ q. final (k7 (k6 (k5 (k4 (k3 (f2 q))))))) in
      let e3 =
        update-update id r x old d.library.random_songs a2.1 b2.1 h3
          (λ q. final (k7 (k6 (k5 (k4 (f3 q)))))) in
      let e4 =
        update-update id r x old d.library.random_album_songs a3.1 b3.1 h4
          (λ q. final (k7 (k6 (k5 (f4 q))))) in
      let e5 =
        update_values-update id r x old d.library.quick_play_album_songs a4.1 b4.1 h5
          (λ q. final (k7 (k6 (f5 q)))) in
      let e6 =
        update_values-update id r x old d.library.album_songs_cache a5.1 b5.1 h6
          (λ q. final (k7 (f6 q))) in
      let e7 =
        update_values-update id r x old d.library.playlist_songs_cache a6.1 b6.1 h7
          (λ q. final (f7 q)) in
      let e8 = rate-rate id r x d.now_playing.song a7.1 t7 h8 in
      λ i. record d {
        queue = e2 i;
        library = record d.library {
          starred_songs = e1 i;
          random_songs = e3 i;
          random_album_songs = e4 i;
          quick_play_album_songs = e5 i;
          album_songs_cache = e6 i;
          playlist_songs_cache = e7 i;
        };
        now_playing = record d.now_playing { song = e8 i };
      }

  -- A rating that is set stands in every copy that the daemon holds.
  pub apply_rating-RatedAll :
      (id : String) (x : Option ℕ) (d : DaemonState F)
      → RatedAll id x (apply_rating_to_cached id x d).1
  unfolding apply_rating_to_cached
  apply_rating-RatedAll id x d = (
    update-Rated id x d.library.starred_songs _,
    (
      update-Rated id x d.queue _,
      (
        update-Rated id x d.library.random_songs _,
        (
          update-Rated id x d.library.random_album_songs _,
          (
            update_values-Rated id x d.library.quick_play_album_songs _,
            (
              update_values-Rated id x d.library.album_songs_cache _,
              (
                update_values-Rated id x d.library.playlist_songs_cache _,
                rate-RatedSong id x d.now_playing.song,
              ),
            ),
          ),
        ),
      ),
    ),
  )
