-- ===== src/Daemon/Admission/Pick.antt =====
-- What auto-continue picks, over all attempts.
use ferrosonic.Prelude.{
  ℕ, zero, suc, ◌≤◌, ◌≡◌, ◌⊎◌, ◌∙◌, refl, sym, ap, subst, inl, inr, true, false, String, some, List,
  [], ◌∷◌, arith, length, take, if◌then◌else◌, Bool-cases, Option-cases,
}
use ferrosonic.Prelude.Assoc.{contains}
use ferrosonic.Subsonic.{Child}
use ferrosonic.Config.Filters.{PlaybackFilters}
use ferrosonic.Daemon.World.{World, Client}
use ferrosonic.Daemon.Core.{Core}
use ferrosonic.Daemon.Admission.{
  is_empty, take_fresh, lookahead, picked, attempt, attempts, pick_unplayed_random,
}
use ferrosonic.Daemon.Admission.Fresh.{
  ids, Picks, Grown, NoneFits, take_fresh-Taken, take_fresh-NoneFits,
}

is_empty→eq : (xs : List Child) → is_empty xs ≡ true → xs ≡ []
is_empty→eq [] h = refl
is_empty→eq (x ∷ xs) h = absurd cc

picked-some : (xs rest : List Child) → is_empty xs ≡ false → picked xs rest ≡ xs
picked-some [] rest h = absurd cc
picked-some (x ∷ xs) rest h = refl

module _ {F W : Type 0} (ext : World F W) (client : Client) (filters : PlaybackFilters)
    (first : List String) where
  -- A batch that the server answered with, and of which no song is new.
  abbrev pub IsSpent : List Child → Type 0
  IsSpent batch =
      (w : W) × (((ext.random_songs client w).0 ≡ some batch) × NoneFits filters first batch)

  -- New songs, or, where a batch has none, its beginning.
  abbrev pub IsFair : List Child → Type 0
  IsFair songs =
      (Picks filters first songs × (length songs ≤ lookahead))
      ⊎ ((batch : List Child) × (IsSpent batch × (songs ≡ take lookahead batch)))

  abbrev Kept : List String → List Child → Type 0
  Kept seen fallback =
      ((fallback ≡ []) × (seen ≡ first)) ⊎ ((is_empty fallback ≡ false) × IsSpent fallback)

  fallen :
      (seen : List String) (fallback songs : List Child)
      → Kept seen fallback
      → take lookahead fallback ≡ songs
      → IsFair songs
  fallen seen fallback songs (inl (none_yet, same)) h = inl (
      subst (λ xs. Picks filters first xs × (length xs ≤ lookahead))
        (sym (ap (take lookahead) none_yet) ∙ h) (tt, omega arith))
  fallen seen fallback songs (inr (there, spent)) h = inr (fallback, (spent, sym h))

  Kept-next :
      (seen seen' : List String) (fallback batch : List Child) (w : W)
      → (ext.random_songs client w).0 ≡ some batch
      → is_empty batch ≡ false
      → length (take_fresh filters batch seen []).1 ≡ 0
      → Kept seen fallback
      → Kept seen' (if is_empty fallback then batch else fallback)
  Kept-next seen seen' fallback batch w answered full h (inl (none_yet, same)) =
      let nothing =
        take_fresh-NoneFits filters batch seen first
          (λ k i. subst (λ ks. contains ks k ≡ true) same i) h in
      subst (λ fb. Kept seen' (if is_empty fb then batch else fb)) (sym none_yet)
        (inr (full, (w, (answered, nothing))))
  Kept-next seen seen' fallback batch w answered full h (inr (there, spent)) =
      subst (λ b. Kept seen' (if b then batch else fallback)) (sym there) (inr (there, spent))

  attempt-IsFair :
      (n : ℕ) (seen : List String) (fallback songs : List Child) (w : W)
      → Grown filters first seen []
      → Kept seen fallback
      → (attempt ext n client filters seen [] fallback w).0 ≡ some songs
      → IsFair songs
  unfolding attempt contains
  attempt-IsFair zero seen fallback songs w g k h = fallen seen fallback songs k (ground arith)
  attempt-IsFair (suc n) seen fallback songs w g k h =
      let (answer, w') = ext.random_songs client w in
      elim (Option-cases (ext.random_songs client w).0) [
        | inl n ↦ absurd (ground (arith, n, h))
        | inr (batch, q) ↦ elim (Bool-cases (is_empty batch)) [
          | inl e ↦ fallen seen fallback songs k (ground (arith, q, e, h))
          | inr e ↦
              let got = take_fresh filters batch seen [] in
              let later = if is_empty fallback then batch else fallback in
              let taken = take_fresh-Taken filters first batch seen [] (g, tt, omega arith) in
              elim (Bool-cases (is_empty got.1)) [
                | inr f ↦ inl (
                    subst (λ xs. Picks filters first xs × (length xs ≤ lookahead))
                      (sym (picked-some got.1 later f) ∙ ground (arith, q, e, f, h))
                      (taken.1, taken.2))
                | inl f ↦
                    let nothing = is_empty→eq got.1 f in
                    attempt-IsFair n got.0 later songs w' (λ j i. ((taken.0 j i).0, ground arith))
                      (Kept-next seen got.0 fallback batch w q e (ap length nothing) k)
                      (subst (λ xs. (attempt ext n client filters got.0 xs later w').0 ≡ some songs)
                        nothing (ground (arith, q, e, f, h)))
              ]
        ]
      ]

-- When auto-continue gets an answer, it picks at most twenty songs that pass the filters, each once,
-- and none in the queue; or, where a batch of the server's holds no such song, the first twenty of
-- that batch as they are.
pub pick_unplayed_random-IsFair :
    {F W : Type 0} (ext : World F W) (client : Client) (c : Core F W) (songs : List Child)
    → (pick_unplayed_random ext client c).0 ≡ some songs
    → IsFair ext client c.state.config.playback_filters (ids c.state.queue) songs
unfolding pick_unplayed_random contains
pick_unplayed_random-IsFair ext client c songs h =
    attempt-IsFair ext client c.state.config.playback_filters (ids c.state.queue) attempts
      (ids c.state.queue) [] songs c.world (λ k i. (i, refl)) (inl (refl, refl)) h
