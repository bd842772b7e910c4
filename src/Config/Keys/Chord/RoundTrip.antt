-- ===== src/Config/Keys/Chord/RoundTrip.antt =====
-- A key chord that was read is read again from the text that is written for it.
use ferrosonic.Prelude.{
  ℕ, ◌≡◌, ◌≤◌, refl, sym, ap, subst, inl, inr, arith, List, [], ◌∷◌, length, none, some, Bool, true,
  false, not, ◌&&◌, ◌||◌, Bool-cases, Option-cases, ◌==◌, leb, ==→eq,
}
use ferrosonic.Prelude.Text.{codes_eq}
use ferrosonic.Prelude.Results.{ok, ok_or}
use ferrosonic.Config.Keys
use ferrosonic.Config.Keys.{KeyModifiers, KeyChord, KeyCode}
use ferrosonic.Config.Keys.Chord.{
  digits, key_name, display, strip_codes, next_modifier, strip_modifiers, named_keys, find_named,
  all_digits, is_ascii_digit, f_digits, decimal, parse_u8, to_ascii_uppercase, parse_char,
  parse_key, from_str,
}
use ferrosonic.Config.Keys.Chord.Modifiers.{strip_modifiers-flags}

-- What `Display` writes for a byte is the number again.
parse_u8-digits : (n : ℕ) → n ≤ 255 → parse_u8 (digits n) ≡ some n
unfolding parse_u8 decimal digits
parse_u8-digits n h = ground arith

f_digits-digits : (n : ℕ) → n ≤ 255 → f_digits (b'F' ∷ digits n) ≡ some (digits n)
unfolding f_digits all_digits is_ascii_digit digits
f_digits-digits n h = ground arith

parse_u8-bound : (ds : List ℕ) (n : ℕ) → parse_u8 ds ≡ some n → n ≤ 255
unfolding parse_u8
parse_u8-bound ds n h = ground arith

upper_idem : (c : ℕ) → to_ascii_uppercase (to_ascii_uppercase c) ≡ to_ascii_uppercase c
unfolding to_ascii_uppercase
upper_idem c = ground arith

-- A single character is none of the keys with a name.
abbrev longer : List (List ℕ × KeyCode) → Bool
longer [] = true
longer ((name, k) ∷ table) = leb 2 (length name) && longer table

codes_eq-single :
    (c : ℕ) (name : List ℕ) → leb 2 (length name) ≡ true → codes_eq (c ∷ []) name ≡ false
unfolding codes_eq
codes_eq-single c [] h = absurd cc
codes_eq-single c (x ∷ []) h = absurd cc
codes_eq-single c (x ∷ y ∷ name) h = ground arith

find_named-single :
    (c : ℕ) (table : List (List ℕ × KeyCode))
    → longer table ≡ true
    → find_named (c ∷ []) table ≡ none
unfolding find_named
find_named-single c [] h = refl
find_named-single c ((name, k) ∷ table) h =
    ground (arith, codes_eq-single c name, find_named-single c table)

next_modifier-single : (c : ℕ) (m : KeyModifiers) → next_modifier m (c ∷ []) ≡ none
unfolding next_modifier strip_codes
next_modifier-single c m = ground arith

module _ (is_uppercase : ℕ → Bool) where
  -- The chords that a text stands for: an uppercase letter comes with shift, shift with an uppercase
  -- letter, a function key's number is a byte, and every key is one the program names.
  abbrev canonical : KeyCode → KeyModifiers → Bool
  canonical (Keys.char c) m =
      (c == b' ')
      || ((not (is_uppercase c) || m.shift) && (not m.shift || (to_ascii_uppercase c == c)))
  canonical (Keys.f_key n) m = leb n 255
  canonical (Keys.other s) m = false
  canonical _ m = true

  parse_char-name :
      (c : ℕ) (m : KeyModifiers)
      → canonical (Keys.char c) m ≡ true
      → parse_key is_uppercase m (key_name (Keys.char c))
        ≡ some record { code = Keys.char c; modifiers = m }
  unfolding parse_key key_name f_digits parse_char
  parse_char-name c m h = elim (Bool-cases (c == b' ')) [
    | inl q ↦ ground (arith, q, ==→eq c b' ' q)
    | inr q ↦ ground (arith, q, h, find_named-single c named_keys refl)
  ]

  next_modifier-char : (c : ℕ) (m : KeyModifiers) → next_modifier m (key_name (Keys.char c)) ≡ none
  unfolding key_name next_modifier strip_codes
  next_modifier-char c m = elim (Bool-cases (c == b' ')) [
    | inl q ↦ rw q refl
    | inr q ↦ rw (q, next_modifier-single c m) refl
  ]

  parse_f_key :
      (n : ℕ) (m : KeyModifiers)
      → n ≤ 255
      → parse_key is_uppercase m (b'F' ∷ digits n)
        ≡ some record { code = Keys.f_key n; modifiers = m }
  unfolding parse_key find_named codes_eq
  parse_f_key n m h = ground (arith, f_digits-digits n h, parse_u8-digits n h)

  -- What is left after the modifiers, for a canonical key, is its name, and stands for the key.
  parse_key-name :
      (k : KeyCode) (m : KeyModifiers)
      → canonical k m ≡ true
      → (parse_key is_uppercase m (key_name k) ≡ some record { code = k; modifiers = m })
        × ((n : KeyModifiers) → next_modifier n (key_name k) ≡ none)
  unfolding parse_key key_name next_modifier strip_codes find_named codes_eq f_digits all_digits
  parse_key-name (Keys.char c) m h = (parse_char-name c m h, next_modifier-char c)
  parse_key-name (Keys.f_key n) m h = (parse_f_key n m (ground arith), λ o. refl)
  parse_key-name (Keys.other s) m h = absurd cc
  parse_key-name Keys.enter m h = (refl, λ n. refl)
  parse_key-name Keys.esc m h = (refl, λ n. refl)
  parse_key-name Keys.tab m h = (refl, λ n. refl)
  parse_key-name Keys.back_tab m h = (refl, λ n. refl)
  parse_key-name Keys.backspace m h = (refl, λ n. refl)
  parse_key-name Keys.delete m h = (refl, λ n. refl)
  parse_key-name Keys.insert m h = (refl, λ n. refl)
  parse_key-name Keys.home m h = (refl, λ n. refl)
  parse_key-name Keys.end m h = (refl, λ n. refl)
  parse_key-name Keys.page_up m h = (refl, λ n. refl)
  parse_key-name Keys.page_down m h = (refl, λ n. refl)
  parse_key-name Keys.up m h = (refl, λ n. refl)
  parse_key-name Keys.down m h = (refl, λ n. refl)
  parse_key-name Keys.left m h = (refl, λ n. refl)
  parse_key-name Keys.right m h = (refl, λ n. refl)

  abbrev all_canonical : KeyModifiers → List (List ℕ × KeyCode) → Bool
  all_canonical m [] = true
  all_canonical m ((name, k) ∷ table) = canonical k m && all_canonical m table

  find_named-canonical :
      (m : KeyModifiers) (rest : List ℕ) (k : KeyCode) (table : List (List ℕ × KeyCode))
      → all_canonical m table ≡ true
      → find_named rest table ≡ some k
      → canonical k m ≡ true
  unfolding find_named
  find_named-canonical m rest k [] h e = absurd cc
  find_named-canonical m rest k ((name, l) ∷ table) h e = elim (Bool-cases (codes_eq rest name)) [
    | inl q ↦ ground (arith, q, e, h)
    | inr q ↦ ground (arith, q, e, h, find_named-canonical m rest k table)
  ]

  parse_char-canonical :
      (m : KeyModifiers) (rest : List ℕ) (k : KeyChord)
      → parse_char is_uppercase m rest ≡ some k
      → canonical k.code k.modifiers ≡ true
  unfolding parse_char
  parse_char-canonical m [] k h = absurd cc
  parse_char-canonical m (c ∷ d ∷ ds) k h = absurd cc
  parse_char-canonical m (c ∷ []) k h = ground (arith, h, upper_idem c)

  parse_key-canonical :
      (m : KeyModifiers) (rest : List ℕ) (k : KeyChord)
      → parse_key is_uppercase m rest ≡ some k
      → canonical k.code k.modifiers ≡ true
  unfolding parse_key
  parse_key-canonical m rest k h = elim (Option-cases (find_named rest named_keys)) [
    | inr (key, q) ↦ ground (arith, q, h, find_named-canonical m rest key named_keys refl q)
    | inl q ↦ elim (Option-cases (f_digits rest)) [
      | inl n ↦ parse_char-canonical m rest k (ground (arith, q, n, h))
      | inr (ds, f) ↦ elim (Option-cases (parse_u8 ds)) [
        | inl n ↦ absurd (ground (arith, q, f, n, h))
        | inr (n, p) ↦ ground (arith, q, f, p, h, parse_u8-bound ds n p)
      ]
    ]
  ]

  from_str-canonical :
      (s : List ℕ) (k : KeyChord)
      → from_str is_uppercase s ≡ ok k
      → canonical k.code k.modifiers ≡ true
  unfolding from_str
  from_str-canonical s k h =
      let out = strip_modifiers (length s) Keys.no_modifiers s in
      elim (Option-cases (parse_key is_uppercase out.0 out.1)) [
        | inl n ↦ absurd (ground (arith, n, h))
        | inr (got, q) ↦ ground (arith, q, h, parse_key-canonical out.0 out.1 got q)
      ]

  from_str-shown :
      (k : KeyChord)
      → canonical k.code k.modifiers ≡ true
      → from_str is_uppercase (display k) ≡ ok k
  unfolding from_str display
  from_str-shown k h =
      let name = parse_key-name k.code k.modifiers h in
      subst (λ out. ok_or (parse_key is_uppercase out.0 out.1) (display k) ≡ ok k)
        (sym (strip_modifiers-flags k.modifiers (key_name k.code) name.1))
        (ap (λ o. ok_or o (display k)) name.0)

  -- A key chord that was read from some text is read again from the text that is written for it,
  -- whatever letters Unicode takes for uppercase.
  pub from_str-display :
      (s : List ℕ) (k : KeyChord)
      → from_str is_uppercase s ≡ ok k
      → from_str is_uppercase (display k) ≡ ok k
  from_str-display s k h = from_str-shown k (from_str-canonical s k h)
