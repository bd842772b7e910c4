-- ===== src/Tests/Queues.antt =====
-- The examples of the queue's properties.
use mathlib.Core.List.{Perm}
use mathlib.Core.List.Perm
use ferrosonic.Prelude.{ℕ, ◌≡◌, refl, inr, false, some, List, [], ◌∷◌, arith, get_elem?, keep_if}
use ferrosonic.Float.{millis}
use ferrosonic.Config.Repeat.{off}
use ferrosonic.Config.Filters.{
  passes_filters, rating_excludes, year_excludes, duration_excludes, name_excludes,
}
use ferrosonic.Prelude.Text.{eq_ignore_ascii_case}
use ferrosonic.Daemon.State.{current_song}
use ferrosonic.Daemon.Core.Commit.{preload_target}
use ferrosonic.Daemon.Queue.{move_state, next_maybe_changed, remove_state, insert_state}
use ferrosonic.Daemon.Queue.Moves.{move_state-keeps_current}
use ferrosonic.Daemon.Queue.Edits.{remove_state-keeps_current, insert_state-keeps_current}
use ferrosonic.Daemon.Queue.Preload.{move-keeps_preload}
use ferrosonic.Daemon.Queue.Shuffle.{shuffle_queue-keeps_current}
use ferrosonic.Daemon.Queue.Requests.{move_queue_item, shuffle_queue}
use ferrosonic.Daemon.Router
use ferrosonic.Daemon.Router.{Event, run}
use ferrosonic.Daemon.Router.Invariant.{InRange}
use ferrosonic.Daemon.Router.Invariant.Run.{run-InRange}
use ferrosonic.Daemon.Admission.{filter_tracking}
use ferrosonic.Daemon.Admission.Laws.{Lands, filter_tracking-keeps_index}
use ferrosonic.Daemon.Admission.Fresh.{ids}
use ferrosonic.Daemon.Admission.Pick.{IsFair, pick_unplayed_random-IsFair}
use ferrosonic.Daemon.World.{World}
use ferrosonic.Prelude.Assoc.{contains}
use ferrosonic.Daemon.Admission.{take_fresh, attempt, pick_unplayed_random}
use ferrosonic.Tests.{client, ext, song, filters, state, third}

abbrev events : List (Event ℕ)
events =
    Router.requested (Router.move_queue_item 0 3)
    ∷ Router.ticked
    ∷ Router.requested Router.shuffle_queue
    ∷ Router.advance_claimed
    ∷ Router.requested (Router.remove_from_queue 1)
    ∷ Router.advance_granted 7
    ∷ Router.next_granted false
    ∷ Router.resume_granted 1 500
    ∷ Router.requested Router.clear_queue_history
    ∷ []

third-InRange : InRange third.state
unfolding InRange
third-InRange = omega arith

run-InRange_example : InRange (run ext events third).state
run-InRange_example = run-InRange ext (λ xs w. Perm.rfl) events third third-InRange

move_state-keeps_current_example :
    Perm (move_state 0 3 (state off 2)).queue (state off 2).queue
    × (current_song (move_state 0 3 (state off 2)) ≡ current_song (state off 2))
move_state-keeps_current_example =
    move_state-keeps_current (state off 2) 0 3 (omega arith) (omega arith)

quiet : next_maybe_changed 0 1 (some 2) ≡ false
unfolding next_maybe_changed
quiet = refl

move-keeps_preload_example :
    ((move_queue_item ext 0 1 third).world ≡ 10)
    × (cur' : ℕ) × ((move_queue_item ext 0 1 third).state.queue_position ≡ some cur')
    × (preload_target cur' (move_queue_item ext 0 1 third).state ≡ preload_target 2 third.state)
move-keeps_preload_example =
    move-keeps_preload ext third 0 1 2 (omega arith) (omega arith) (omega arith) refl (omega arith)
      quiet (inr (omega arith))

remove_state-keeps_current_example :
    (cur' : ℕ) × ((remove_state 0 (state off 2)).queue_position ≡ some cur')
    × (get_elem? (remove_state 0 (state off 2)).queue cur' ≡ some (song "c"))
remove_state-keeps_current_example = remove_state-keeps_current (state off 2) 0 2 refl (omega arith)

insert_state-keeps_current_example :
    (cur' : ℕ) × ((insert_state 0 (song "x" ∷ []) (state off 2)).queue_position ≡ some cur')
    × (get_elem? (insert_state 0 (song "x" ∷ []) (state off 2)).queue cur' ≡ some (song "c"))
insert_state-keeps_current_example =
    insert_state-keeps_current (state off 2) 0 2 (song "x" ∷ []) refl

shuffle_queue-keeps_current_example :
    Perm (shuffle_queue ext third).state.queue third.state.queue
    × ((shuffle_queue ext third).state.queue_position ≡ some 2)
    × (get_elem? (shuffle_queue ext third).state.queue 2 ≡ some (song "c"))
shuffle_queue-keeps_current_example =
    shuffle_queue-keeps_current ext (λ xs w. Perm.rfl) third 2 refl (omega arith)

filter_tracking-keeps_index_example :
    ((filter_tracking filters (some 1) (state off 2).queue).0
      ≡ keep_if (λ s. passes_filters s filters) (state off 2).queue)
    × Lands filters (song "b") (filter_tracking filters (some 1) (state off 2).queue)
filter_tracking-keeps_index_example =
    filter_tracking-keeps_index filters (state off 2).queue 1 (song "b") refl

-- A server with one song that stands in the queue and one, twice, that does not.
abbrev radio : World ℕ ℕ
radio = record ext { random_songs = λ client w. (some (song "a" ∷ song "z" ∷ song "z" ∷ []), w) }

one_picked : (pick_unplayed_random radio client third).0 ≡ some (song "z" ∷ [])
unfolding pick_unplayed_random attempt take_fresh contains passes_filters rating_excludes
    year_excludes duration_excludes name_excludes eq_ignore_ascii_case
one_picked = refl

pick_unplayed_random-IsFair_example :
    IsFair radio client
      (state off 2).config.playback_filters
      (ids (state off 2).queue)
      (song "z" ∷ [])
pick_unplayed_random-IsFair_example =
    pick_unplayed_random-IsFair radio client third (song "z" ∷ []) one_picked
