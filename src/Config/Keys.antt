-- ===== src/Config/Keys.antt =====
-- config/keybind.rs: the global actions, their key chords, and the map from a key press to an action.
-- `HashMap<GlobalAction, KeyChord>` is an association list.
pub mod Chord
pub mod Equality
pub mod Keymap
use ferrosonic.Prelude.{ℕ, Bool, true, false, not, ◌&&◌, String, str_eq, ◌==◌}

-- The keys of crossterm that the program names, and the others by their debug text; a character is
-- its code point.
pub data KeyCode : Type 0 where
  char : ℕ → KeyCode
  f_key : ℕ → KeyCode
  enter esc tab back_tab backspace delete insert home end page_up page_down up down left right :
      KeyCode
  other : String → KeyCode

-- The modifiers that the program tests; crossterm's set has others, which no chord of it holds.
pub record KeyModifiers : Type 0 where
  pub control : Bool
  pub alt : Bool
  pub shift : Bool

pub record KeyChord : Type 0 where
  pub code : KeyCode
  pub modifiers : KeyModifiers

pub data GlobalAction : Type 0 where
  quit next_track previous_track toggle_pause star_playing toggle_lyrics shuffle_library :
      GlobalAction
  cycle_repeat refresh : GlobalAction
  go_to_library go_to_queue go_to_quick_play go_to_playlists go_to_server go_to_settings :
      GlobalAction

abbrev pub no_modifiers : KeyModifiers
no_modifiers = record { control = false; alt = false; shift = false }

abbrev pub plain : KeyCode → KeyChord
plain k = record { code = k; modifiers = no_modifiers }

abbrev pub ctrl : KeyCode → KeyChord
ctrl k = record { code = k; modifiers = record no_modifiers { control = true } }

abbrev pub shifted : KeyCode → KeyChord
shifted k = record { code = k; modifiers = record no_modifiers { shift = true } }

unfoldable pub is_page_switch : GlobalAction → Bool
is_page_switch go_to_library = true
is_page_switch go_to_queue = true
is_page_switch go_to_quick_play = true
is_page_switch go_to_playlists = true
is_page_switch go_to_server = true
is_page_switch go_to_settings = true
is_page_switch _ = false

-- The place of an action in the enum, by which the derived equality compares.
unfoldable pub discriminant : GlobalAction → ℕ
discriminant quit = 0
discriminant next_track = 1
discriminant previous_track = 2
discriminant toggle_pause = 3
discriminant star_playing = 4
discriminant toggle_lyrics = 5
discriminant shuffle_library = 6
discriminant cycle_repeat = 7
discriminant refresh = 8
discriminant go_to_library = 9
discriminant go_to_queue = 10
discriminant go_to_quick_play = 11
discriminant go_to_playlists = 12
discriminant go_to_server = 13
discriminant go_to_settings = 14

unfoldable pub same_action : GlobalAction → GlobalAction → Bool
unfolding discriminant
same_action a b = discriminant a == discriminant b

-- The derived equality of keys: their number, and what they carry.
unfoldable pub key_kind : KeyCode → ℕ
key_kind (char c) = 0
key_kind (f_key n) = 1
key_kind enter = 2
key_kind esc = 3
key_kind tab = 4
key_kind back_tab = 5
key_kind backspace = 6
key_kind delete = 7
key_kind insert = 8
key_kind home = 9
key_kind end = 10
key_kind page_up = 11
key_kind page_down = 12
key_kind up = 13
key_kind down = 14
key_kind left = 15
key_kind right = 16
key_kind (other s) = 17

unfoldable pub key_number : KeyCode → ℕ
key_number (char c) = c
key_number (f_key n) = n
key_number _ = 0

unfoldable pub key_text : KeyCode → String
key_text (other s) = s
key_text _ = ""

unfoldable pub same_key : KeyCode → KeyCode → Bool
unfolding key_kind key_number key_text
same_key k l =
    (key_kind k == key_kind l)
    && ((key_number k == key_number l) && str_eq (key_text k) (key_text l))

abbrev pub same_flag : Bool → Bool → Bool
same_flag true b = b
same_flag false b = not b

unfoldable pub same_modifiers : KeyModifiers → KeyModifiers → Bool
same_modifiers m n =
    same_flag m.control n.control && (same_flag m.alt n.alt && same_flag m.shift n.shift)

unfoldable pub same_chord : KeyChord → KeyChord → Bool
unfolding same_key same_modifiers
same_chord a b = same_key a.code b.code && same_modifiers a.modifiers b.modifiers
