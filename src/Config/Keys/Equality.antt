-- ===== src/Config/Keys/Equality.antt =====
-- The derived equalities decide.
use ferrosonic.Prelude.{
  ℕ, ◌≡◌, refl, sym, arith, Bool, true, false, String, eq_iff, eq_refl, some, none, List, [], ◌∷◌,
  get_elem?,
}
use ferrosonic.Config.Keys.{
  KeyCode, KeyModifiers, KeyChord, GlobalAction, char, f_key, enter, esc, tab, back_tab, backspace,
  delete, insert, home, end, page_up, page_down, up, down, left, right, other, key_kind, key_number,
  key_text, same_key, same_flag, same_modifiers, same_chord, same_action, discriminant, quit,
  next_track, previous_track, toggle_pause, star_playing, toggle_lyrics, shuffle_library,
  cycle_repeat, refresh, go_to_library, go_to_queue, go_to_quick_play, go_to_playlists,
  go_to_server, go_to_settings,
}

abbrev get_or : {A : Type 0} → A → ℕ → List A → A
get_or d n xs = elim (get_elem? xs n) [ some a ↦ a | none ↦ d ]

-- The key of a number, by the enum's order.
of_kind : ℕ → ℕ → String → KeyCode
of_kind kind n s = get_or enter kind (
    char n
    ∷ f_key n
    ∷ enter
    ∷ esc
    ∷ tab
    ∷ back_tab
    ∷ backspace
    ∷ delete
    ∷ insert
    ∷ home
    ∷ end
    ∷ page_up
    ∷ page_down
    ∷ up
    ∷ down
    ∷ left
    ∷ right
    ∷ other s
    ∷ [])

of_kind_lem : (k : KeyCode) → of_kind (key_kind k) (key_number k) (key_text k) ≡ k
unfolding of_kind key_kind key_number key_text
of_kind_lem (char c) = refl
of_kind_lem (f_key n) = refl
of_kind_lem enter = refl
of_kind_lem esc = refl
of_kind_lem tab = refl
of_kind_lem back_tab = refl
of_kind_lem backspace = refl
of_kind_lem delete = refl
of_kind_lem insert = refl
of_kind_lem home = refl
of_kind_lem end = refl
of_kind_lem page_up = refl
of_kind_lem page_down = refl
of_kind_lem up = refl
of_kind_lem down = refl
of_kind_lem left = refl
of_kind_lem right = refl
of_kind_lem (other s) = refl

same_key→eq : (k l : KeyCode) → same_key k l ≡ true → k ≡ l
unfolding same_key
same_key→eq k l h = ground (arith, eq_iff (key_text k) (key_text l), of_kind_lem k, of_kind_lem l)

same_flag→eq : (a b : Bool) → same_flag a b ≡ true → a ≡ b
same_flag→eq true b h = sym h
same_flag→eq false true h = ground arith
same_flag→eq false false h = refl

same_modifiers→eq : (m n : KeyModifiers) → same_modifiers m n ≡ true → m ≡ n
unfolding same_modifiers
same_modifiers→eq m n h = ground (
  arith,
  same_flag→eq m.control n.control,
  same_flag→eq m.alt n.alt,
  same_flag→eq m.shift n.shift,
)

pub same_chord→eq : (a b : KeyChord) → same_chord a b ≡ true → a ≡ b
unfolding same_chord
same_chord→eq a b h =
    ground (arith, same_key→eq a.code b.code, same_modifiers→eq a.modifiers b.modifiers)

same_flag_refl : (a : Bool) → same_flag a a ≡ true
same_flag_refl true = refl
same_flag_refl false = refl

pub same_chord_refl : (a : KeyChord) → same_chord a a ≡ true
unfolding same_chord same_key same_modifiers
same_chord_refl a = ground (
  arith,
  same_flag_refl a.modifiers.control,
  same_flag_refl a.modifiers.alt,
  same_flag_refl a.modifiers.shift,
  eq_refl (key_text a.code),
)

of_discriminant : ℕ → GlobalAction
of_discriminant n = get_or quit n (
    quit ∷ next_track ∷ previous_track ∷ toggle_pause ∷ star_playing ∷ toggle_lyrics
    ∷ shuffle_library ∷ cycle_repeat ∷ refresh ∷ go_to_library ∷ go_to_queue ∷ go_to_quick_play
    ∷ go_to_playlists ∷ go_to_server ∷ go_to_settings ∷ [])

of_discriminant_lem : (a : GlobalAction) → of_discriminant (discriminant a) ≡ a
unfolding of_discriminant discriminant
of_discriminant_lem quit = refl
of_discriminant_lem next_track = refl
of_discriminant_lem previous_track = refl
of_discriminant_lem toggle_pause = refl
of_discriminant_lem star_playing = refl
of_discriminant_lem toggle_lyrics = refl
of_discriminant_lem shuffle_library = refl
of_discriminant_lem cycle_repeat = refl
of_discriminant_lem refresh = refl
of_discriminant_lem go_to_library = refl
of_discriminant_lem go_to_queue = refl
of_discriminant_lem go_to_quick_play = refl
of_discriminant_lem go_to_playlists = refl
of_discriminant_lem go_to_server = refl
of_discriminant_lem go_to_settings = refl

pub same_action→eq : (a b : GlobalAction) → same_action a b ≡ true → a ≡ b
unfolding same_action
same_action→eq a b h = ground (arith, of_discriminant_lem a, of_discriminant_lem b)

pub same_action_refl : (a : GlobalAction) → same_action a a ≡ true
unfolding same_action
same_action_refl a = ground arith
