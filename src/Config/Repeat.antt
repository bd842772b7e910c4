-- ===== src/Config/Repeat.antt =====
-- config/mod.rs: `RepeatMode`, which decides the track after the current one. Queue indices are
-- far below `usize::MAX`, so `current + 1` does not wrap.
pub mod Laws
use ferrosonic.Prelude.{ℕ, ◌+◌, ◌-◌, ◌%◌, Option, none, some, String, ltb, ◌==◌, if◌then◌else◌}

pub data RepeatMode : Type 0 where
  off one all : RepeatMode

pub label : RepeatMode → String
label off = "off"
label one = "one"
label all = "all"

unfoldable pub cycle : RepeatMode → RepeatMode
cycle off = one
cycle one = all
cycle all = off

-- The last arm of both `next_auto` and `next_manual`.
abbrev next_or_end : ℕ → ℕ → Option ℕ
next_or_end current queue_len = if ltb (current + 1) queue_len then some (current + 1) else none

auto_arm : RepeatMode → ℕ → ℕ → Option ℕ
auto_arm one current queue_len = some current
auto_arm all current queue_len = some ((current + 1) % queue_len)
auto_arm off current queue_len = next_or_end current queue_len

unfoldable pub next_auto : RepeatMode → ℕ → ℕ → Option ℕ
unfolding auto_arm
next_auto mode current queue_len = if queue_len == 0 then none else auto_arm mode current queue_len

manual_arm : RepeatMode → ℕ → ℕ → Option ℕ
manual_arm off current queue_len = next_or_end current queue_len
manual_arm _ current queue_len = some ((current + 1) % queue_len)

unfoldable pub next_manual : RepeatMode → ℕ → ℕ → Option ℕ
unfolding manual_arm
next_manual mode current queue_len =
    if queue_len == 0 then none else manual_arm mode current queue_len

prev_arm : RepeatMode → ℕ → Option ℕ
prev_arm off queue_len = none
prev_arm _ queue_len = some (queue_len - 1)

unfoldable pub prev_wrap : RepeatMode → ℕ → Option ℕ
unfolding prev_arm
prev_wrap mode queue_len = if queue_len == 0 then none else prev_arm mode queue_len
