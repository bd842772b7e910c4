-- ===== src/Daemon/Core/Instances.antt =====
-- The operations of daemon/core.rs that talk to mpv, PipeWire or the cache start no play instance.
use ferrosonic.Prelude.{ℕ, ◌≡◌, refl, ◌∙◌, String, Option, none, some, arith}
use ferrosonic.Float.{Float}
use ferrosonic.Subsonic.{Child}
use ferrosonic.Daemon.State.{PlaybackState, stopped, playing, paused}
use ferrosonic.Daemon.World.{World}
use ferrosonic.Daemon.Core.{
  Core, PlayMode, direct, buffered, emit_queue, spawn, mpv, stamp_loadfile, cancel_prebuffer,
  set_rate, release_pipewire_rate, cached_track_path, spawn_cache_population,
}
use ferrosonic.Daemon.Core.Commit.{
  prefer_cached, preload_url, preload_append, preload_next_track, drop_preload, resync_at,
  resync_gapless_preload,
}
use ferrosonic.Daemon.Core.Dispatch.{loaded, dispatch_direct, dispatch_buffered, dispatch_play}

module _ {F W : Type 0} ⦃f : Float F⦄ (ext : World F W) where
  pub emit_queue-instance : (c : Core F W) → (emit_queue c).play_instance ≡ c.play_instance
  unfolding emit_queue
  emit_queue-instance c = refl

  pub release-instance :
      (c : Core F W) → (release_pipewire_rate ext c).play_instance ≡ c.play_instance
  unfolding release_pipewire_rate
  release-instance c = ground arith

  pub set_rate-instance :
      (rate : ℕ) (c : Core F W) → (set_rate ext rate c).play_instance ≡ c.play_instance
  unfolding set_rate
  set_rate-instance rate c = ground arith

  pub prefer_cached-instance :
      (id url : String) (c : Core F W)
      → (prefer_cached ext id url c).1.play_instance ≡ c.play_instance
  unfolding prefer_cached cached_track_path
  prefer_cached-instance id url c = ground arith

  preload_url-instance :
      (song : Child) (c : Core F W) → (preload_url ext song c).1.play_instance ≡ c.play_instance
  unfolding preload_url
  preload_url-instance song c = grind (arith, prefer_cached-instance)

  preload_append-instance :
      (gen : ℕ) (url : String) (c : Core F W)
      → (preload_append ext gen url c).play_instance ≡ c.play_instance
  unfolding preload_append mpv
  preload_append-instance gen url c = ground arith

  pub preload_next_track-instance :
      (pos : ℕ) (c : Core F W) → (preload_next_track ext pos c).play_instance ≡ c.play_instance
  unfolding preload_next_track
  preload_next_track-instance pos c = grind (arith, preload_url-instance, preload_append-instance)

  drop_preload-instance : (c : Core F W) → (drop_preload ext c).play_instance ≡ c.play_instance
  unfolding drop_preload mpv
  drop_preload-instance c = ground arith

  resync_at-instance :
      (st : PlaybackState) (p : Option ℕ) (c : Core F W)
      → (resync_at ext st p c).play_instance ≡ c.play_instance
  unfolding resync_at
  resync_at-instance playing (some pos) c =
      preload_next_track-instance pos (drop_preload ext c) ∙ drop_preload-instance c
  resync_at-instance playing none c = refl
  resync_at-instance stopped p c = refl
  resync_at-instance paused p c = refl

  pub resync-instance :
      (c : Core F W) → (resync_gapless_preload ext c).play_instance ≡ c.play_instance
  unfolding resync_gapless_preload
  resync-instance c = resync_at-instance c.state.now_playing.state c.state.queue_position c

  spawn_cache_population-instance :
      (pos : ℕ) (url : String) (c : Core F W)
      → (spawn_cache_population ext pos url c).play_instance ≡ c.play_instance
  unfolding spawn_cache_population
  spawn_cache_population-instance pos url c = ground arith

  loaded-instance :
      (url : String) (pos : ℕ) (seek_after : Option F) (c : Core F W)
      → (loaded ext url pos seek_after c).play_instance ≡ c.play_instance
  unfolding loaded stamp_loadfile spawn
  loaded-instance url pos seek_after c =
      spawn_cache_population-instance pos url _ ∙ preload_next_track-instance pos _

  dispatch_direct-instance :
      (url : String) (pos : ℕ) (at : F) (c : Core F W)
      → (dispatch_direct ext url pos at c).play_instance ≡ c.play_instance
  unfolding dispatch_direct cancel_prebuffer
  dispatch_direct-instance url pos at c = grind (arith, loaded-instance)

  dispatch_buffered-instance :
      (url : String) (pos : ℕ) (c : Core F W)
      → (dispatch_buffered ext url pos c).play_instance ≡ c.play_instance
  unfolding dispatch_buffered
  dispatch_buffered-instance url pos c = refl

  pub dispatch_play-instance :
      (url : String) (pos : ℕ) (mode : PlayMode) (at : F) (c : Core F W)
      → (dispatch_play ext url pos mode at c).play_instance ≡ c.play_instance
  unfolding dispatch_play
  dispatch_play-instance url pos direct at c =
      ground (arith, dispatch_direct-instance url pos at c, dispatch_buffered-instance url pos c)
  dispatch_play-instance url pos buffered at c =
      ground (arith, dispatch_direct-instance url pos at c, dispatch_buffered-instance url pos c)
