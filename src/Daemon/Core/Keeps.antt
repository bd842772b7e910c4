-- ===== src/Daemon/Core/Keeps.antt =====
-- The operations of daemon/core.rs that talk to mpv, PipeWire or the cache leave the state alone.
use ferrosonic.Prelude.{ℕ, ◌≡◌, refl, ◌∙◌, String, Option, none, some, arith}
use ferrosonic.Float.{Float}
use ferrosonic.Subsonic.{Child}
use ferrosonic.Daemon.State.{PlaybackState, stopped, playing, paused}
use ferrosonic.Daemon.World.{World}
use ferrosonic.Daemon.Core.{
  Core, PlayMode, direct, buffered, emit_queue, spawn, mpv, stamp_loadfile, cancel_prebuffer,
  set_rate, release_pipewire_rate, cached_track_path, spawn_cache_population,
}
use ferrosonic.Daemon.Core.Commit.{
  prefer_cached, preload_url, preload_append, preload_next_track, drop_preload, resync_at,
  resync_gapless_preload,
}
use ferrosonic.Daemon.Core.Dispatch.{loaded, dispatch_direct, dispatch_buffered, dispatch_play}

module _ {F W : Type 0} ⦃f : Float F⦄ (ext : World F W) where
  pub emit_queue-state : (c : Core F W) → (emit_queue c).state ≡ c.state
  unfolding emit_queue
  emit_queue-state c = refl

  pub release-state : (c : Core F W) → (release_pipewire_rate ext c).state ≡ c.state
  unfolding release_pipewire_rate
  release-state c = ground arith

  pub set_rate-state : (rate : ℕ) (c : Core F W) → (set_rate ext rate c).state ≡ c.state
  unfolding set_rate
  set_rate-state rate c = ground arith

  pub prefer_cached-state :
      (id url : String) (c : Core F W) → (prefer_cached ext id url c).1.state ≡ c.state
  unfolding prefer_cached cached_track_path
  prefer_cached-state id url c = ground arith

  preload_url-state : (song : Child) (c : Core F W) → (preload_url ext song c).1.state ≡ c.state
  unfolding preload_url
  preload_url-state song c = grind (arith, prefer_cached-state)

  preload_append-state :
      (gen : ℕ) (url : String) (c : Core F W) → (preload_append ext gen url c).state ≡ c.state
  unfolding preload_append mpv
  preload_append-state gen url c = ground arith

  pub preload_next_track-state :
      (pos : ℕ) (c : Core F W) → (preload_next_track ext pos c).state ≡ c.state
  unfolding preload_next_track
  preload_next_track-state pos c = grind (arith, preload_url-state, preload_append-state)

  pub drop_preload-state : (c : Core F W) → (drop_preload ext c).state ≡ c.state
  unfolding drop_preload mpv
  drop_preload-state c = ground arith

  resync_at-state :
      (st : PlaybackState) (p : Option ℕ) (c : Core F W) → (resync_at ext st p c).state ≡ c.state
  unfolding resync_at
  resync_at-state playing (some pos) c =
      preload_next_track-state pos (drop_preload ext c) ∙ drop_preload-state c
  resync_at-state playing none c = refl
  resync_at-state stopped p c = refl
  resync_at-state paused p c = refl

  pub resync-state : (c : Core F W) → (resync_gapless_preload ext c).state ≡ c.state
  unfolding resync_gapless_preload
  resync-state c = resync_at-state c.state.now_playing.state c.state.queue_position c

  spawn_cache_population-state :
      (pos : ℕ) (url : String) (c : Core F W)
      → (spawn_cache_population ext pos url c).state ≡ c.state
  unfolding spawn_cache_population
  spawn_cache_population-state pos url c = ground arith

  loaded-state :
      (url : String) (pos : ℕ) (seek_after : Option F) (c : Core F W)
      → (loaded ext url pos seek_after c).state ≡ c.state
  unfolding loaded stamp_loadfile spawn
  loaded-state url pos seek_after c =
      spawn_cache_population-state pos url _ ∙ preload_next_track-state pos _

  dispatch_direct-state :
      (url : String) (pos : ℕ) (at : F) (c : Core F W)
      → (dispatch_direct ext url pos at c).state ≡ c.state
  unfolding dispatch_direct cancel_prebuffer
  dispatch_direct-state url pos at c = grind (arith, loaded-state)

  dispatch_buffered-state :
      (url : String) (pos : ℕ) (c : Core F W) → (dispatch_buffered ext url pos c).state ≡ c.state
  unfolding dispatch_buffered
  dispatch_buffered-state url pos c = refl

  pub dispatch_play-state :
      (url : String) (pos : ℕ) (mode : PlayMode) (at : F) (c : Core F W)
      → (dispatch_play ext url pos mode at c).state ≡ c.state
  unfolding dispatch_play
  dispatch_play-state url pos direct at c =
      ground (arith, dispatch_direct-state url pos at c, dispatch_buffered-state url pos c)
  dispatch_play-state url pos buffered at c =
      ground (arith, dispatch_direct-state url pos at c, dispatch_buffered-state url pos c)
