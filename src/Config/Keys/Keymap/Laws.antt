-- ===== src/Config/Keys/Keymap/Laws.antt =====
-- The key map and the overrides.
use ferrosonic.Prelude.{
  ◌≡◌, subst, ◌⊎◌, refl, ap, inl, inr, arith, Bool, true, false, ◌||◌, some, List, [], ◌∷◌, ◌++◌,
  Bool-cases, Option-cases,
}
use ferrosonic.Config.Keys.{
  KeyChord, GlobalAction, same_action, same_chord, discriminant, quit, next_track, previous_track,
  toggle_pause, star_playing, toggle_lyrics, shuffle_library, cycle_repeat, refresh, go_to_library,
  go_to_queue, go_to_quick_play, go_to_playlists, go_to_server, go_to_settings,
}
use ferrosonic.Config.Keys.Equality.{
  same_chord→eq, same_chord_refl, same_action→eq, same_action_refl,
}
use ferrosonic.Config.Keys.Keymap.{
  Keymap, Conflict, reserved, bound_already, is_reserved, action_at, chord_of, unwrap_or, bind,
  bind_all, resolve, effective_chord, default_chord, default_bindings,
}

-- What is bound is the chord that the overrides give the action, and it is not reserved.
abbrev Sound : List (GlobalAction × KeyChord) → List (KeyChord × GlobalAction) → Type 0
Sound o [] = Unit {0}
Sound o ((c, a) ∷ m) = ((effective_chord o a ≡ c) × (is_reserved c a ≡ false)) × Sound o m

abbrev Defaults : List (GlobalAction × KeyChord) → Type 0
Defaults [] = Unit {0}
Defaults ((a, c) ∷ bs) = (default_chord a ≡ c) × Defaults bs

defaults : Defaults default_bindings
unfolding default_bindings default_chord chord_of same_action discriminant
defaults = (
  refl,
  (
    refl,
    (
      refl,
      (
        refl,
        (refl, (refl, (refl, (refl, (refl, (refl, (refl, (refl, (refl, (refl, (refl, tt))))))))))),
      ),
    ),
  ),
)

bind-Sound :
    (o : List (GlobalAction × KeyChord)) (a : GlobalAction) (k : KeyChord) (m : Keymap)
    → effective_chord o a ≡ k
    → Sound o m.0
    → Sound o (bind k a m).0
unfolding bind
bind-Sound o a k (resolved, warnings) e h = elim (Bool-cases (is_reserved k a)) [
  | inl r ↦ ground (arith, r)
  | inr r ↦ elim (Option-cases (action_at k resolved)) [
    | inl n ↦ rw (r, n) ((e, r), h)
    | inr (b, q) ↦ rw (r, q) h
  ]
]

effective :
    (o : List (GlobalAction × KeyChord)) (a : GlobalAction) (c : KeyChord)
    → default_chord a ≡ c
    → effective_chord o a ≡ unwrap_or (chord_of a o) c
unfolding effective_chord
effective o a c eq = ap (unwrap_or (chord_of a o)) eq

bind_all-Sound :
    (o bs : List (GlobalAction × KeyChord)) (m : Keymap)
    → Defaults bs
    → Sound o m.0
    → Sound o (bind_all o bs m).0
unfolding bind_all
bind_all-Sound o [] m d h = h
bind_all-Sound o ((a, c) ∷ bs) m (eq, d) h =
    bind_all-Sound o bs (bind (unwrap_or (chord_of a o) c) a m) d
      (bind-Sound o a (unwrap_or (chord_of a o) c) m (effective o a c eq) h)

Sound-action_at :
    (o : List (GlobalAction × KeyChord)) (m : List (KeyChord × GlobalAction)) (c : KeyChord)
    (a : GlobalAction)
    → Sound o m
    → action_at c m ≡ some a
    → (effective_chord o a ≡ c) × (is_reserved c a ≡ false)
unfolding action_at
Sound-action_at o [] c a h q = ground arith
Sound-action_at o ((b, x) ∷ m) c a h q = elim (Bool-cases (same_chord b c)) [
  | inl e ↦ ground (arith, e, same_chord→eq b c e)
  | inr e ↦ Sound-action_at o m c a h.1 (ground (arith, e))
]

-- A key press that the map answers is the one that overrides and defaults give the action, and is
-- none of the keys that rate songs or pause.
pub resolve-effective :
    (overrides : List (GlobalAction × KeyChord)) (chord : KeyChord) (action : GlobalAction)
    → action_at chord (resolve overrides).0 ≡ some action
    → (effective_chord overrides action ≡ chord) × (is_reserved chord action ≡ false)
unfolding resolve
resolve-effective overrides chord action =
    Sound-action_at overrides (resolve overrides).0 chord action
      (bind_all-Sound overrides default_bindings ([], []) defaults tt)

-- The action that a conflict leaves out.
unfoldable pub left_out : Conflict → GlobalAction
left_out (reserved c a) = a
left_out (bound_already c b a) = a

unfoldable pub warned : GlobalAction → List Conflict → Bool
warned a [] = false
warned a (w ∷ ws) = same_action (left_out w) a || warned a ws

-- Either the key works, or the user is told.
abbrev Settled : List (GlobalAction × KeyChord) → GlobalAction → Keymap → Type 0
Settled o a m = (action_at (effective_chord o a) m.0 ≡ some a) ⊎ (warned a m.1 ≡ true)

warned-append :
    (a : GlobalAction) (ws : List Conflict) (w : Conflict)
    → warned a (ws ++ w ∷ []) ≡ warned a ws || same_action (left_out w) a
unfolding warned
warned-append a [] w = ground arith
warned-append a (v ∷ ws) w = ground (arith, warned-append a ws w)

bind-keeps :
    (o : List (GlobalAction × KeyChord)) (a b : GlobalAction) (c : KeyChord) (m : Keymap)
    → Settled o a m
    → Settled o a (bind c b m)
unfolding bind action_at
bind-keeps o a b c (resolved, warnings) h = elim (Bool-cases (is_reserved c b)) [
  | inl r ↦ ground (arith, r, h, warned-append a warnings (reserved c b))
  | inr r ↦ elim (Option-cases (action_at c resolved)) [
    | inr (x, q) ↦ ground (arith, r, q, h, warned-append a warnings (bound_already c x b))
    | inl n ↦ elim (Bool-cases (same_chord c (effective_chord o a))) [
      | inl e ↦ ground (arith, r, n, h, same_chord→eq c (effective_chord o a) e)
      | inr e ↦ ground (arith, r, n, h, e)
    ]
  ]
]

bind-settles :
    (o : List (GlobalAction × KeyChord)) (a : GlobalAction) (k : KeyChord) (m : Keymap)
    → effective_chord o a ≡ k
    → Settled o a (bind k a m)
unfolding bind action_at left_out
bind-settles o a k (resolved, warnings) e = elim (Bool-cases (is_reserved k a)) [
  | inl r ↦ inr (ground (arith, r, warned-append a warnings (reserved k a), same_action_refl a))
  | inr r ↦ elim (Option-cases (action_at k resolved)) [
    | inl n ↦ inl (ground (arith, r, n, e, same_chord_refl k))
    | inr (b, q) ↦
        inr
          (ground (arith, r, q, warned-append a warnings (bound_already k b a), same_action_refl a))
  ]
]

bind_all-keeps :
    (o bs : List (GlobalAction × KeyChord)) (a : GlobalAction) (m : Keymap)
    → Settled o a m
    → Settled o a (bind_all o bs m)
unfolding bind_all
bind_all-keeps o [] a m h = h
bind_all-keeps o ((b, c) ∷ bs) a m h =
    let k = unwrap_or (chord_of b o) c in
    bind_all-keeps o bs a (bind k b m) (bind-keeps o a b k m h)

bind_all-settles :
    (o bs : List (GlobalAction × KeyChord)) (a : GlobalAction) (c : KeyChord) (m : Keymap)
    → Defaults bs
    → chord_of a bs ≡ some c
    → Settled o a (bind_all o bs m)
unfolding bind_all chord_of
bind_all-settles o [] a c m d h = absurd (ground arith)
bind_all-settles o ((b, x) ∷ bs) a c m (eq, d) h = elim (Bool-cases (same_action b a)) [
  | inl e ↦ bind_all-keeps o bs a (bind (unwrap_or (chord_of b o) x) b m) (
      subst (λ z. Settled o z (bind (unwrap_or (chord_of b o) x) b m)) (same_action→eq b a e)
        (bind-settles o b (unwrap_or (chord_of b o) x) m (effective o b x eq)))
  | inr e ↦ bind_all-settles o bs a c (bind (unwrap_or (chord_of b o) x) b m) d (ground (arith, e))
]

listed : (a : GlobalAction) → (c : KeyChord) × (chord_of a default_bindings ≡ some c)
unfolding default_bindings chord_of same_action discriminant
listed quit = (_, refl)
listed next_track = (_, refl)
listed previous_track = (_, refl)
listed toggle_pause = (_, refl)
listed star_playing = (_, refl)
listed toggle_lyrics = (_, refl)
listed shuffle_library = (_, refl)
listed cycle_repeat = (_, refl)
listed refresh = (_, refl)
listed go_to_library = (_, refl)
listed go_to_queue = (_, refl)
listed go_to_quick_play = (_, refl)
listed go_to_playlists = (_, refl)
listed go_to_server = (_, refl)
listed go_to_settings = (_, refl)

-- No action is lost in silence: whatever the overrides say, every action either is what its
-- effective chord does, or stands in a warning.
pub resolve-settles :
    (overrides : List (GlobalAction × KeyChord)) (action : GlobalAction)
    → (action_at (effective_chord overrides action) (resolve overrides).0 ≡ some action)
      ⊎ (warned action (resolve overrides).1 ≡ true)
unfolding resolve
resolve-settles overrides action =
    let (c, there) = listed action in
    bind_all-settles overrides default_bindings action c ([], []) defaults there
