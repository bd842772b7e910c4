-- ===== src/Config/Keys/Chord/Modifiers.antt =====
-- The loop of `KeyChord::from_str` over the modifiers.
use ferrosonic.Prelude.{
  ℕ, zero, suc, ◌≡◌, ◌≤◌, refl, inl, inr, arith, List, [], ◌∷◌, ◌++◌, length, none, some, true,
  false, Option-cases, Bool,
}
use ferrosonic.Prelude.Text.{codes}
use ferrosonic.Config.Keys.{KeyModifiers, no_modifiers}
use ferrosonic.Config.Keys.Chord.{strip_codes, next_modifier, strip_modifiers, flag_text}

strip_codes-shortens :
    (p : ℕ) (ps s r : List ℕ) → strip_codes (p ∷ ps) s ≡ some r → suc (length r) ≤ length s
unfolding strip_codes
strip_codes-shortens p ps [] r h = absurd cc
strip_codes-shortens p [] (c ∷ s) r h = ground arith
strip_codes-shortens p (q ∷ ps) (c ∷ s) r h = ground (arith, strip_codes-shortens q ps s r)

next_modifier-shortens :
    (m : KeyModifiers) (s : List ℕ) (step : KeyModifiers × List ℕ)
    → next_modifier m s ≡ some step
    → suc (length step.1) ≤ length s
unfolding next_modifier
next_modifier-shortens m s step h = elim (Option-cases (strip_codes (codes "Ctrl+") s)) [
  | inr (r, q) ↦ ground (arith, q, h, strip_codes-shortens b'C' (codes "trl+") s r q)
  | inl n ↦ elim (Option-cases (strip_codes (codes "Alt+") s)) [
    | inr (r, q) ↦ ground (arith, n, q, h, strip_codes-shortens b'A' (codes "lt+") s r q)
    | inl p ↦ elim (Option-cases (strip_codes (codes "Shift+") s)) [
      | inr (r, q) ↦ ground (arith, n, p, q, h, strip_codes-shortens b'S' (codes "hift+") s r q)
      | inl q ↦ absurd (ground (arith, n, p, q, h))
    ]
  ]
]

-- The loop over the modifiers ends: with as much fuel as there are characters, it stops because no
-- modifier stands in front of what is left.
pub strip_modifiers-ends :
    (n : ℕ) (m : KeyModifiers) (s : List ℕ)
    → length s ≤ n
    → next_modifier (strip_modifiers n m s).0 (strip_modifiers n m s).1 ≡ none
unfolding strip_modifiers
strip_modifiers-ends zero m [] h = refl
strip_modifiers-ends zero m (c ∷ s) h = absurd (omega arith)
strip_modifiers-ends (suc n) m s h = elim (Option-cases (next_modifier m s)) [
  | inl e ↦ ground (arith, e)
  | inr (step, e) ↦
      ground (arith, e, next_modifier-shortens m s step e, strip_modifiers-ends n step.0 step.1)
]

pub strip_modifiers-ended :
    (n : ℕ) (m : KeyModifiers) (s : List ℕ)
    → next_modifier m s ≡ none
    → strip_modifiers n m s ≡ (m, s)
unfolding strip_modifiers
strip_modifiers-ended zero m s h = refl
strip_modifiers-ended (suc n) m s h = ground (arith, h)

abbrev pub flags : KeyModifiers → List ℕ → List ℕ
flags m s =
    flag_text m.control "Ctrl+" ++ (flag_text m.alt "Alt+" ++ (flag_text m.shift "Shift+" ++ s))

strip_modifiers-bits :
    (c a h : Bool) (s : List ℕ)
    → ((k : KeyModifiers) → next_modifier k s ≡ none)
    → let m : KeyModifiers = record { control = c; alt = a; shift = h } in
      strip_modifiers (length (flags m s)) no_modifiers (flags m s) ≡ (m, s)
unfolding strip_modifiers next_modifier strip_codes
strip_modifiers-bits false false false s none_next = strip_modifiers-ended _ _ s (none_next _)
strip_modifiers-bits false false true s none_next =
    strip_modifiers-ended (length (codes "hift+" ++ s)) _ s (none_next _)
strip_modifiers-bits false true false s none_next =
    strip_modifiers-ended (length (codes "lt+" ++ s)) _ s (none_next _)
strip_modifiers-bits false true true s none_next =
    strip_modifiers-ended (length (codes "lt+" ++ (codes "hift+" ++ s))) _ s (none_next _)
strip_modifiers-bits true false false s none_next =
    strip_modifiers-ended (length (codes "trl+" ++ s)) _ s (none_next _)
strip_modifiers-bits true false true s none_next =
    strip_modifiers-ended (length (codes "trl+" ++ (codes "hift+" ++ s))) _ s (none_next _)
strip_modifiers-bits true true false s none_next =
    strip_modifiers-ended (length (codes "trl+" ++ (codes "lt+" ++ s))) _ s (none_next _)
strip_modifiers-bits true true true s none_next =
    strip_modifiers-ended (length (codes "trl+" ++ (codes "lt+" ++ (codes "hift+" ++ s)))) _ s
      (none_next _)

-- The modifiers that `Display` writes are those that are read, and the key's name is left.
pub strip_modifiers-flags :
    (m : KeyModifiers) (s : List ℕ)
    → ((k : KeyModifiers) → next_modifier k s ≡ none)
    → strip_modifiers (length (flags m s)) no_modifiers (flags m s) ≡ (m, s)
strip_modifiers-flags m s h = strip_modifiers-bits m.control m.alt m.shift s h
