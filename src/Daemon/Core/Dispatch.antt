-- ===== src/Daemon/Core/Dispatch.antt =====
-- daemon/core.rs `dispatch_play`: how a committed track reaches mpv.
use text.Mathlib.Text.{starts_with}
use ferrosonic.Prelude.{ℕ, ◌+◌, Bool, true, false, ◌&&◌, String, Option, none, some, if◌then◌else◌}
use ferrosonic.Float.{Float, milli, lt_f}
use ferrosonic.Daemon.World.{World}
use ferrosonic.Daemon.Mpv
use ferrosonic.Daemon.Mpv.{supports_loadfile_index, unwrap_or}
use ferrosonic.Daemon.Core.{
  Core, PlayMode, direct, buffered, notification, settle, prebuffer, set_flag, emit, spawn,
  cancel_prebuffer, stamp_loadfile, spawn_cache_population,
}
use ferrosonic.Daemon.Core.Commit.{preload_next_track}

module _ {F W : Type 0} ⦃f : Float F⦄ (ext : World F W) where
  -- Offsets that are not finite or not positive become 0.
  unfoldable pub start_offset : F → F
  start_offset start_at =
      if f.is_finite start_at && lt_f (milli 0) start_at then start_at else milli 0

  -- The paused load, and the offset that is left to seek to where mpv cannot load at one.
  unfoldable pub load_at : Option (ℕ × ℕ) → String → F → W → Bool × W × Option F
  load_at version url start_at w =
      let (plain, w1) = Mpv.loadfile_paused ext url w in
      let (placed, w2) = Mpv.loadfile_at_paused ext url start_at w in
      if lt_f (milli 0) start_at
      then if supports_loadfile_index version
        then (placed, w2, none)
        else (plain, w1, some start_at)
      else (plain, w1, none)

  unfoldable pub loaded : String → ℕ → Option F → Core F W → Core F W
  loaded url pos seek_after c =
      let c1 = stamp_loadfile ext c in
      let c2 = spawn (settle c1.loadfile_gen seek_after) c1 in
      spawn_cache_population ext pos url (preload_next_track ext pos c2)

  -- A direct load supersedes a download in flight. A failed load is only reported.
  unfoldable pub dispatch_direct : String → ℕ → F → Core F W → Core F W
  unfolding load_at loaded emit
  dispatch_direct url pos start_at c =
      let c1 = cancel_prebuffer c in
      let (ok, w, seek_after) = load_at c.mpv_version url (start_offset start_at) c1.world in
      let c2 = record c1 { world = w } in
      if ok then loaded url pos seek_after c2 else emit (notification "MPV error" true) c2

  -- New flags for this request: loading up, cancel down; the token of the request before is raised.
  unfoldable pub claim_flags : Core F W → Core F W
  claim_flags c =
      let loading = c.next_flag in
      let cancel = c.next_flag + 1 in
      record c {
        next_flag = c.next_flag + 2;
        loading = set_flag loading true c.loading;
        cancelled = elim c.prebuffer_cancel [
          | none ↦ set_flag cancel false c.cancelled
          | some prev ↦ set_flag prev true (set_flag cancel false c.cancelled)
        ];
        prebuffer_cancel = some cancel;
        prebuffer_loading = some loading;
      }

  -- mpv is unpaused, and stopped where something is loaded.
  unfoldable pub silence : W → W
  silence w =
      let (is_paused, w1) = Mpv.is_paused ext w in
      let w2 = if unwrap_or false is_paused then (Mpv.resume ext w1).1 else w1 in
      let (running, w3) = ext.is_running w2 in
      let (idle, w4) = Mpv.is_idle ext w3 in
      if running then (if unwrap_or true idle then w4 else (Mpv.stop ext w4).1) else w3

  unfoldable pub dispatch_buffered : String → ℕ → Core F W → Core F W
  unfolding claim_flags silence spawn
  dispatch_buffered url pos c =
      let c1 = claim_flags c in
      let c2 = record c1 { world = silence c1.world } in
      spawn (prebuffer url pos c.next_flag (c.next_flag + 1)) c2

  unfoldable pub by_mode : PlayMode → String → ℕ → F → Core F W → Core F W
  by_mode direct url pos start_at c = dispatch_direct url pos start_at c
  by_mode buffered url pos start_at c = dispatch_buffered url pos c

  -- A local file is always loaded directly.
  unfoldable pub dispatch_play : String → ℕ → PlayMode → F → Core F W → Core F W
  unfolding by_mode
  dispatch_play url pos mode start_at c =
      by_mode (if starts_with url "/" then direct else mode) url pos start_at c
