-- ===== src/Config/Keys/Chord.antt =====
-- config/keybind.rs: the text of a key chord, `Display` and `FromStr` of `KeyChord`. A text is the list
-- of its code points; `char::is_uppercase`, a table of Unicode, is a parameter.
pub mod Modifiers
pub mod RoundTrip
use ferrosonic.Prelude.{
  ℕ, zero, suc, ◌+◌, ◌-◌, ◌*◌, ◌/◌, ◌%◌, Bool, true, false, ◌&&◌, ◌||◌, not, Option, none, some,
  String, List, [], ◌∷◌, ◌++◌, length, ltb, leb, ◌==◌, if◌then◌else◌,
}
use ferrosonic.Prelude.Text.{codes, codes_eq}
use ferrosonic.Prelude.Results.{Result, ok_or}
use ferrosonic.Config.Keys
use ferrosonic.Config.Keys.{
  KeyCode, char, f_key, enter, esc, tab, back_tab, backspace, delete, insert, home, end, page_up,
  page_down, up, down, left, right, other, KeyModifiers, KeyChord, no_modifiers,
}

-- `Display` of a `u8`.
unfoldable pub digits : ℕ → List ℕ
digits n =
    if ltb n 10
    then (b'0' + n) ∷ []
    else if ltb n 100
    then (b'0' + n / 10) ∷ (b'0' + n % 10) ∷ []
    else (b'0' + n / 100) ∷ (b'0' + n / 10 % 10) ∷ (b'0' + n % 10) ∷ []

unfoldable pub key_name : KeyCode → List ℕ
unfolding digits
key_name (char c) = if c == b' ' then codes "Space" else c ∷ []
key_name (f_key n) = b'F' ∷ digits n
key_name enter = codes "Enter"
key_name esc = codes "Esc"
key_name tab = codes "Tab"
key_name back_tab = codes "BackTab"
key_name backspace = codes "Backspace"
key_name delete = codes "Delete"
key_name insert = codes "Insert"
key_name home = codes "Home"
key_name end = codes "End"
key_name page_up = codes "PageUp"
key_name page_down = codes "PageDown"
key_name up = codes "Up"
key_name down = codes "Down"
key_name left = codes "Left"
key_name right = codes "Right"
key_name (other s) = codes s

abbrev pub flag_text : Bool → String → List ℕ
flag_text true s = codes s
flag_text false s = []

unfoldable pub display : KeyChord → List ℕ
unfolding key_name
display k =
    flag_text k.modifiers.control "Ctrl+"
    ++ (flag_text k.modifiers.alt "Alt+"
        ++ (flag_text k.modifiers.shift "Shift+" ++ key_name k.code))

unfoldable pub strip_codes : List ℕ → List ℕ → Option (List ℕ)
strip_codes [] s = some s
strip_codes (p ∷ ps) [] = none
strip_codes (p ∷ ps) (c ∷ cs) = let rest = strip_codes ps cs in if p == c then rest else none

-- One turn of the loop over the modifiers.
unfoldable pub next_modifier : KeyModifiers → List ℕ → Option (KeyModifiers × List ℕ)
unfolding strip_codes
next_modifier m rest = elim (strip_codes (codes "Ctrl+") rest) [
  | some r ↦ some (record m { control = true }, r)
  | none ↦ elim (strip_codes (codes "Alt+") rest) [
    | some r ↦ some (record m { alt = true }, r)
    | none ↦ elim (strip_codes (codes "Shift+") rest) [
      | some r ↦ some (record m { shift = true }, r)
      | none ↦ none
    ]
  ]
]

-- The loop, on fuel.
unfoldable pub strip_modifiers : ℕ → KeyModifiers → List ℕ → KeyModifiers × List ℕ
unfolding next_modifier
strip_modifiers zero m rest = (m, rest)
strip_modifiers (suc n) m rest = elim (next_modifier m rest) [
  | some step ↦ strip_modifiers n step.0 step.1
  | none ↦ (m, rest)
]

-- The literal arms of the match, in its order.
abbrev pub named_keys : List (List ℕ × KeyCode)
named_keys =
    (codes "Space", char b' ')
    ∷ (codes "Enter", enter)
    ∷ (codes "Esc", esc)
    ∷ (codes "Escape", esc)
    ∷ (codes "Tab", tab)
    ∷ (codes "BackTab", back_tab)
    ∷ (codes "Backspace", backspace)
    ∷ (codes "Delete", delete)
    ∷ (codes "Insert", insert)
    ∷ (codes "Home", home)
    ∷ (codes "End", end)
    ∷ (codes "PageUp", page_up)
    ∷ (codes "PageDown", page_down)
    ∷ (codes "Up", up)
    ∷ (codes "Down", down)
    ∷ (codes "Left", left)
    ∷ (codes "Right", right)
    ∷ []

unfoldable pub find_named : List ℕ → List (List ℕ × KeyCode) → Option KeyCode
unfolding codes_eq
find_named rest [] = none
find_named rest ((name, k) ∷ table) =
    let later = find_named rest table in if codes_eq rest name then some k else later

unfoldable pub is_ascii_digit : ℕ → Bool
is_ascii_digit b = leb b'0' b && leb b b'9'

unfoldable pub all_digits : List ℕ → Bool
unfolding is_ascii_digit
all_digits [] = true
all_digits (d ∷ ds) = is_ascii_digit d && all_digits ds

-- The guard of the arm for function keys: `F` and at least one digit, and nothing else.
unfoldable pub f_digits : List ℕ → Option (List ℕ)
unfolding all_digits
f_digits [] = none
f_digits (c ∷ []) = none
f_digits (c ∷ d ∷ ds) = if (c == b'F') && all_digits (d ∷ ds) then some (d ∷ ds) else none

unfoldable pub decimal : ℕ → List ℕ → ℕ
decimal acc [] = acc
decimal acc (d ∷ ds) = decimal (acc * 10 + (d - b'0')) ds

-- `u8::from_str` on digits, which fails where the number is too large.
unfoldable pub parse_u8 : List ℕ → Option ℕ
unfolding decimal
parse_u8 ds = if leb (decimal 0 ds) 255 then some (decimal 0 ds) else none

unfoldable pub to_ascii_uppercase : ℕ → ℕ
to_ascii_uppercase c = if leb b'a' c && leb c b'z' then c - 32 else c

module _ (is_uppercase : ℕ → Bool) where
  -- The last arm: a single character.
  unfoldable pub parse_char : KeyModifiers → List ℕ → Option KeyChord
  unfolding to_ascii_uppercase
  parse_char m [] = none
  parse_char m (c ∷ d ∷ ds) = none
  parse_char m (c ∷ []) =
      let shift = is_uppercase c || m.shift in
      some record {
        code = char (if shift then to_ascii_uppercase c else c);
        modifiers = record m { shift = shift };
      }

  unfoldable pub parse_key : KeyModifiers → List ℕ → Option KeyChord
  unfolding find_named f_digits parse_u8 parse_char
  parse_key m rest = elim (find_named rest named_keys) [
    | some k ↦ some record { code = k; modifiers = m }
    | none ↦ elim (f_digits rest) [
      | some ds ↦ elim (parse_u8 ds) [
        | some n ↦ some record { code = f_key n; modifiers = m }
        | none ↦ none
      ]
      | none ↦ parse_char m rest
    ]
  ]

  -- The error holds the text.
  unfoldable pub from_str : List ℕ → Result (List ℕ) KeyChord
  unfolding strip_modifiers parse_key
  from_str s =
      let out = strip_modifiers (length s) no_modifiers s in ok_or (parse_key out.0 out.1) s
