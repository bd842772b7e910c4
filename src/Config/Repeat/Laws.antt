-- ===== src/Config/Repeat/Laws.antt =====
-- Where the repeat modes of config/mod.rs lead.
use native.Mathlib.Nat.{mod_self}
use ferrosonic.Prelude.{ℕ, ◌+◌, ◌-◌, ◌%◌, ◌≤◌, ◌<◌, ◌≡◌, ◌↔◌, ◌⊎◌, none, some, arith}
use ferrosonic.Config.Repeat.{RepeatMode, off, one, all, next_auto, next_manual, prev_wrap}

-- From a position inside the queue, both the automatic and the manual successor, if there is one,
-- lie inside the queue, and so does the track that Previous wraps to.
pub successors_in_range :
    (m : RepeatMode) (c n p : ℕ)
    → c < n
    → (next_auto m c n ≡ some p) ⊎ (next_manual m c n ≡ some p) ⊎ (prev_wrap m n ≡ some p)
    → p < n
unfolding next_auto next_manual prev_wrap
successors_in_range off c n p h e = ground arith
successors_in_range one c n p h e = ground arith
successors_in_range all c n p h e = ground arith

-- Playback runs out automatically exactly when the queue is empty, or repeat is off and the
-- current position is the last one or past it.
pub next_auto-none_iff :
    (m : RepeatMode) (c n : ℕ) → (next_auto m c n ≡ none) ↔ ((n ≡ 0) ⊎ ((m ≡ off) × (n ≤ c + 1)))
unfolding next_auto
next_auto-none_iff off c n = (λ h. ground arith, λ h. ground arith)
next_auto-none_iff one c n = (λ h. ground arith, λ h. ground arith)
next_auto-none_iff all c n = (λ h. ground arith, λ h. ground arith)

wrap_last : (n p : ℕ) → 0 < n → p ≡ n - 1 → (p + 1) % n ≡ 0
wrap_last n p h e = rw (e) (rw (whole) (mod_self n))
  where
    whole : n - 1 + 1 ≡ n
    whole = omega arith

-- Under a wrapping mode, Next from the track that Previous wraps to leads back to the first.
pub next_manual-prev_wrap :
    (m : RepeatMode) (n p : ℕ) → prev_wrap m n ≡ some p → next_manual m p n ≡ some 0
unfolding next_manual prev_wrap
next_manual-prev_wrap off n p e = ground arith
next_manual-prev_wrap one n p e = ground (arith, wrap_last n p)
next_manual-prev_wrap all n p e = ground (arith, wrap_last n p)
