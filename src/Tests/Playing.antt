-- ===== src/Tests/Playing.antt =====
-- The examples of the transport's, the advance's and the loads' properties.
use ferrosonic.Prelude.{ℕ, ◌≡◌, refl, true, false, String, none, some, arith}
use ferrosonic.Float.{millis}
use ferrosonic.Config.Repeat.{off, next_auto}
use ferrosonic.Daemon.State.{DaemonState, playing, paused, current_song}
use ferrosonic.Daemon.Mpv
use ferrosonic.Daemon.Core.{Core, direct}
use ferrosonic.Daemon.Core.Commit.{song_duration}
use ferrosonic.Daemon.Core.Dispatch.{load_at, start_offset, dispatch_direct}
use ferrosonic.Daemon.Playback.{
  play_queue_position_at, pause_playback, resume_playback, start, is_start, set_status,
}
use ferrosonic.Daemon.Playback.Transport.{play_at-commits, pause-resume, PlaysAt}
use ferrosonic.Daemon.Advance.{next_track, advance_request, advance_locked, advance_auto}
use ferrosonic.Daemon.Advance.Races.{advance-coalesces, advance_locked-superseded}
use ferrosonic.Daemon.Settle.{settle_rate_then_unpause}
use ferrosonic.Daemon.Settle.Loads.{dispatch_direct-supersedes, settle-unpauses}
use ferrosonic.Daemon.Tick.{update_playback_info}
use ferrosonic.Daemon.Tick.Decide.{
  decide, gather, near_end, count_is_one, pos_is_one, advance_on_idle, within_just_loaded_window,
}
use ferrosonic.Daemon.Tick.Gapless.{try_gapless_advance}
use ferrosonic.Daemon.Tick.Priority.{tick-paused, try_gapless_advance-follows}
use ferrosonic.Tests.{ext, song, client, state, core_of, third}

abbrev stream : String
stream = "http://host/stream"

abbrev pausing : Core ℕ ℕ
pausing = set_status paused third

play_at-commits_example :
    PlaysAt 1 (song "b") 0 (state off 2) (play_queue_position_at ext 1 direct 0 start third).state
    × ((play_queue_position_at ext 1 direct 0 start third).play_instance ≡ 8)
unfolding is_start
play_at-commits_example =
    play_at-commits ext client (song "b") stream 1 direct 0 start third refl refl refl

pause-resume_example :
    PlaysAt 2 (song "c") 42000 (state off 2) (resume_playback ext (pause_playback ext third)).state
    × ((resume_playback ext (pause_playback ext third)).play_instance ≡ 7)
pause-resume_example =
    pause-resume ext client (song "c") (λ w. (stream, refl)) 2 third refl refl refl refl

advance-coalesces_example :
    (advance_request ext (advance_request ext third).1 ≡ (none, (advance_request ext third).1))
    × (next_track ext (advance_request ext third).1 ≡ (advance_request ext third).1)
    × ((advance_auto ext third).advance_in_flight ≡ false)
advance-coalesces_example = advance-coalesces ext third

advance_locked-superseded_example :
    advance_locked ext 7 (play_queue_position_at ext 1 direct 0 start third)
    ≡ record (play_queue_position_at ext 1 direct 0 start third) { advance_in_flight = false }
advance_locked-superseded_example =
    advance_locked-superseded ext client (song "b") stream 1 direct 0 third refl refl refl

abbrev last : Core ℕ ℕ
last = core_of (state off 3)

taken : (load_at ext (some (0, 38)) stream (start_offset ext 0) 10).0 ≡ true
unfolding load_at Mpv.loadfile_paused Mpv.run_both Mpv.run start_offset
taken = refl

dispatch_direct-supersedes_example :
    settle_rate_then_unpause ext 5 none (dispatch_direct ext stream 1 0 third)
    ≡ dispatch_direct ext stream 1 0 third
dispatch_direct-supersedes_example =
    dispatch_direct-supersedes ext stream 1 0 third 5 none taken (omega arith)

settle-unpauses_example :
    (w : ℕ) × ((settle_rate_then_unpause ext 5 none third).world ≡ (Mpv.resume ext w).1)
settle-unpauses_example = settle-unpauses ext none third refl

-- mpv idles, and the last load is two seconds old.
abbrev idle : Core ℕ ℕ
idle = record third { world = 2000 }

idling : decide (gather ext idle).0 ≡ advance_on_idle
unfolding decide gather Mpv.is_idle Mpv.get_playlist_count Mpv.get_playlist_pos Mpv.query near_end
    count_is_one pos_is_one within_just_loaded_window
idling = refl

tick-paused_example :
    ((update_playback_info ext pausing).state.now_playing.position ≡ 42000)
    × ((update_playback_info ext pausing).state.now_playing.state ≡ paused)
    × ((update_playback_info ext pausing).state.now_playing.song ≡ some (song "c"))
    × ((update_playback_info ext pausing).state.queue_position ≡ some 2)
    × ((update_playback_info ext pausing).state.queue ≡ (state off 2).queue)
tick-paused_example = tick-paused ext pausing refl

try_gapless_advance-follows_example :
    let after : DaemonState ℕ = (try_gapless_advance ext third).1.state in
    (after.queue_position ≡ some 3)
    × (after.now_playing.song ≡ some (song "d"))
    × (after.now_playing.position ≡ 0)
    × (after.now_playing.duration ≡ song_duration (song "d"))
    × (after.now_playing.state ≡ playing)
    × (after.queue ≡ (state off 2).queue)
    × (current_song (try_gapless_advance ext third).1.state
        ≡ (try_gapless_advance ext third).1.state.now_playing.song)
    × ((try_gapless_advance ext third).1.play_instance ≡ 8)
unfolding next_auto
try_gapless_advance-follows_example =
    try_gapless_advance-follows ext third 2 3 (song "d") refl refl refl
