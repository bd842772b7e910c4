-- ===== src/Config/Keys/Keymap.antt =====
-- config/keybind.rs `DEFAULT_BINDINGS`, `effective_chord` and `resolve`.
pub mod Laws
use ferrosonic.Prelude.{
  ℕ, Bool, true, false, not, ◌&&◌, ◌||◌, Option, none, some, List, [], ◌∷◌, ◌++◌, leb, ◌==◌,
  if◌then◌else◌,
}
use ferrosonic.Config.Keys.{
  KeyCode, KeyModifiers, KeyChord, GlobalAction, char, f_key, other, plain, ctrl, shifted, quit,
  next_track, previous_track, toggle_pause, star_playing, toggle_lyrics, shuffle_library,
  cycle_repeat, refresh, go_to_library, go_to_queue, go_to_quick_play, go_to_playlists,
  go_to_server, go_to_settings, same_action, same_chord, same_modifiers, same_key, no_modifiers,
}

unfoldable pub default_bindings : List (GlobalAction × KeyChord)
default_bindings =
    (quit, plain (char b'q'))
    ∷ (go_to_library, plain (f_key 1))
    ∷ (go_to_queue, plain (f_key 2))
    ∷ (go_to_quick_play, plain (f_key 3))
    ∷ (go_to_playlists, plain (f_key 4))
    ∷ (go_to_server, plain (f_key 5))
    ∷ (go_to_settings, plain (f_key 6))
    ∷ (toggle_pause, plain (char b' '))
    ∷ (next_track, plain (char b'l'))
    ∷ (previous_track, plain (char b'h'))
    ∷ (star_playing, plain (char b'n'))
    ∷ (shuffle_library, shifted (char b'T'))
    ∷ (cycle_repeat, plain (char b'r'))
    ∷ (refresh, ctrl (char b'r'))
    ∷ (toggle_lyrics, plain (char b'y'))
    ∷ []

unfoldable pub chord_of : GlobalAction → List (GlobalAction × KeyChord) → Option KeyChord
chord_of action [] = none
chord_of action ((candidate, chord) ∷ rest) =
    let later = chord_of action rest in if same_action candidate action then some chord else later

abbrev pub unwrap_or : Option KeyChord → KeyChord → KeyChord
unwrap_or none chord = chord
unwrap_or (some chord) _ = chord

unfoldable pub default_chord : GlobalAction → KeyChord
unfolding chord_of default_bindings
default_chord action = unwrap_or (chord_of action default_bindings) (plain (other "Null"))

unfoldable pub effective_chord : List (GlobalAction × KeyChord) → GlobalAction → KeyChord
unfolding chord_of default_chord
effective_chord overrides action = unwrap_or (chord_of action overrides) (default_chord action)

unfoldable pub action_at : KeyChord → List (KeyChord × GlobalAction) → Option GlobalAction
action_at chord [] = none
action_at chord ((bound, action) ∷ rest) =
    let later = action_at chord rest in if same_chord bound chord then some action else later

-- Why an action is left out; the source makes a message of it.
pub data Conflict : Type 0 where
  reserved : KeyChord → GlobalAction → Conflict
  bound_already : KeyChord → (existing : GlobalAction) → GlobalAction → Conflict

-- `1` to `5`, bare or with Alt.
unfoldable pub reserved_rating_chord : KeyChord → Bool
unfolding same_modifiers
reserved_rating_chord chord =
    elim chord.code [ char c ↦ leb b'1' c && leb c b'5' | _ ↦ false ]
    && (same_modifiers chord.modifiers no_modifiers
        || same_modifiers chord.modifiers (record no_modifiers { alt = true }))

unfoldable pub is_reserved : KeyChord → GlobalAction → Bool
unfolding reserved_rating_chord same_modifiers same_key same_action
is_reserved chord action =
    reserved_rating_chord chord
    || (same_modifiers chord.modifiers no_modifiers
        && (same_key chord.code (char b'p') && not (same_action action toggle_pause)))

abbrev pub Keymap : Type 0
Keymap = List (KeyChord × GlobalAction) × List Conflict

-- One turn of the loop.
unfoldable pub bind : KeyChord → GlobalAction → Keymap → Keymap
bind chord action (resolved, warnings) =
    if is_reserved chord action
    then (resolved, warnings ++ reserved chord action ∷ [])
    else elim (action_at chord resolved) [
      | some existing ↦ (resolved, warnings ++ bound_already chord existing action ∷ [])
      | none ↦ ((chord, action) ∷ resolved, warnings)
    ]

unfoldable pub bind_all :
    List (GlobalAction × KeyChord) → List (GlobalAction × KeyChord) → Keymap → Keymap
bind_all overrides [] m = m
bind_all overrides ((action, chord) ∷ rest) m =
    bind_all overrides rest (bind (unwrap_or (chord_of action overrides) chord) action m)

unfoldable pub resolve : List (GlobalAction × KeyChord) → Keymap
resolve overrides = bind_all overrides default_bindings ([], [])
