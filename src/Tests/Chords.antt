-- ===== src/Tests/Chords.antt =====
-- The examples of the properties on key chords.
use ferrosonic.Prelude.{ℕ, ◌≡◌, refl, Bool, true, false, ◌&&◌, leb, none, arith}
use ferrosonic.Prelude.Text.{codes, codes_eq}
use ferrosonic.Prelude.Results.{ok}
use ferrosonic.Config.Keys.{KeyChord, char, no_modifiers}
use ferrosonic.Config.Keys.Chord.{
  display, key_name, strip_codes, next_modifier, strip_modifiers, find_named, f_digits, parse_char,
  to_ascii_uppercase, parse_key, from_str,
}
use ferrosonic.Config.Keys.Chord.Modifiers.{strip_modifiers-ends}
use ferrosonic.Config.Keys.Chord.RoundTrip.{from_str-display}

-- Unicode's uppercase letters, as far as ASCII goes.
abbrev ascii_uppercase : ℕ → Bool
ascii_uppercase c = leb b'A' c && leb c b'Z'

abbrev capital : KeyChord
capital = record {
  code = char b'T';
  modifiers = record { control = true; alt = false; shift = true };
}

capital_read : from_str ascii_uppercase (codes "Ctrl+T") ≡ ok capital
unfolding from_str parse_key parse_char to_ascii_uppercase f_digits find_named codes_eq
    strip_modifiers next_modifier strip_codes
capital_read = refl

capital_shown : display capital ≡ codes "Ctrl+Shift+T"
unfolding display key_name
capital_shown = refl

from_str-display_example : from_str ascii_uppercase (display capital) ≡ ok capital
from_str-display_example = from_str-display ascii_uppercase (codes "Ctrl+T") capital capital_read

strip_modifiers-ends_example :
    next_modifier
      (strip_modifiers 8 no_modifiers (codes "Ctrl+F12")).0
      (strip_modifiers 8 no_modifiers (codes "Ctrl+F12")).1
    ≡ none
strip_modifiers-ends_example = strip_modifiers-ends 8 no_modifiers (codes "Ctrl+F12") (omega arith)
