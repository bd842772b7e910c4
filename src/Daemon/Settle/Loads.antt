-- ===== src/Daemon/Settle/Loads.antt =====
-- Which load wins: what a newer load does to the tasks and downloads of an older one.
use ferrosonic.Prelude.{
  ℕ, zero, suc, ◌+◌, ◌≡◌, ◌≢◌, ◌<◌, refl, true, false, String, Option, none, some, arith,
}
use ferrosonic.Float.{Float}
use ferrosonic.Subsonic.{Child}
use ferrosonic.Daemon.World.{World}
use ferrosonic.Daemon.Mpv
use ferrosonic.Daemon.Core.{
  Core, emit_now_playing, mpv, stamp_loadfile, spawn, cancel_prebuffer, spawn_cache_population,
  cached_track_path,
}
use ferrosonic.Daemon.Core.Commit.{prefer_cached, preload_url, preload_append, preload_next_track}
use ferrosonic.Daemon.Core.Dispatch.{
  start_offset, load_at, loaded, dispatch_direct, claim_flags, dispatch_buffered,
}
use ferrosonic.Daemon.Settle.{
  settle_superseded, probe_audio_params, pin, unpause, settled, settle_rate_then_unpause,
  probe_max_iters, AudioParams,
}

module _ {F W : Type 0} ⦃f : Float F⦄ (ext : World F W) where
  prefer_cached-gen :
      (id url : String) (c : Core F W)
      → (prefer_cached ext id url c).1.loadfile_gen ≡ c.loadfile_gen
  unfolding prefer_cached cached_track_path
  prefer_cached-gen id url c = ground arith

  preload_url-gen :
      (song : Child) (c : Core F W) → (preload_url ext song c).1.loadfile_gen ≡ c.loadfile_gen
  unfolding preload_url
  preload_url-gen song c = grind (arith, prefer_cached-gen)

  preload_append-gen :
      (gen : ℕ) (url : String) (c : Core F W)
      → (preload_append ext gen url c).loadfile_gen ≡ c.loadfile_gen
  unfolding preload_append mpv
  preload_append-gen gen url c = ground arith

  preload_next_track-gen :
      (pos : ℕ) (c : Core F W) → (preload_next_track ext pos c).loadfile_gen ≡ c.loadfile_gen
  unfolding preload_next_track
  preload_next_track-gen pos c = grind (arith, preload_url-gen, preload_append-gen)

  loaded-gen :
      (url : String) (pos : ℕ) (seek_after : Option F) (c : Core F W)
      → (loaded ext url pos seek_after c).loadfile_gen ≡ c.loadfile_gen + 1
  unfolding loaded stamp_loadfile spawn spawn_cache_population
  loaded-gen url pos seek_after c = grind (arith, preload_next_track-gen)

  dispatch_direct-gen :
      (url : String) (pos : ℕ) (at : F) (c : Core F W)
      → (load_at ext c.mpv_version url (start_offset ext at) c.world).0 ≡ true
      → (dispatch_direct ext url pos at c).loadfile_gen ≡ c.loadfile_gen + 1
  unfolding dispatch_direct cancel_prebuffer
  dispatch_direct-gen url pos at c ok = grind (arith, loaded-gen)

  superseded : (gen : ℕ) (c : Core F W) → gen < c.loadfile_gen → settle_superseded gen c ≡ true
  unfolding settle_superseded
  superseded gen c h = ground arith

  settle-superseded :
      (gen : ℕ) (seek_after : Option F) (c : Core F W)
      → gen < c.loadfile_gen
      → settle_rate_then_unpause ext gen seek_after c ≡ c
  unfolding settle_rate_then_unpause
  settle-superseded gen seek_after c h = rw (superseded gen c h) refl

  -- A direct load that mpv takes supersedes every load up to then: the settling task of each finds
  -- that a newer one came, and changes nothing, mpv's pause included.
  pub dispatch_direct-supersedes :
      (url : String) (pos : ℕ) (at : F) (c : Core F W) (gen : ℕ) (seek_after : Option F)
      → (load_at ext c.mpv_version url (start_offset ext at) c.world).0 ≡ true
      → gen < c.loadfile_gen + 1
      → settle_rate_then_unpause ext gen seek_after (dispatch_direct ext url pos at c)
        ≡ dispatch_direct ext url pos at c
  dispatch_direct-supersedes url pos at c gen seek_after ok h =
      settle-superseded gen seek_after (dispatch_direct ext url pos at c)
        (omega (arith, h, dispatch_direct-gen url pos at c ok))

  -- A preload whose load generation was read before another load leaves mpv's playlist alone.
  pub preload_append-after_load :
      (gen : ℕ) (url url' : String) (pos : ℕ) (seek_after : Option F) (c : Core F W)
      → gen < c.loadfile_gen + 1
      → preload_append ext gen url' (loaded ext url pos seek_after c)
        ≡ loaded ext url pos seek_after c
  unfolding preload_append
  preload_append-after_load gen url url' pos seek_after c h =
      ground (arith, loaded-gen url pos seek_after c)

  -- A buffered start supersedes the download in flight: its token is raised, and the slots hold
  -- new flags, one up for loading and one down for cancelling, where the flag numbers handed out
  -- so far are below the next one.
  pub dispatch_buffered-supersedes :
      (url : String) (pos : ℕ) (c : Core F W) (token : ℕ)
      → c.prebuffer_cancel ≡ some token
      → token < c.next_flag
      → ((dispatch_buffered ext url pos c).cancelled token ≡ true)
        × (loading cancel : ℕ) × ((dispatch_buffered ext url pos c).prebuffer_loading
            ≡ some loading)
        × ((dispatch_buffered ext url pos c).prebuffer_cancel ≡ some cancel)
        × ((dispatch_buffered ext url pos c).loading loading ≡ true)
        × ((dispatch_buffered ext url pos c).cancelled cancel ≡ false)
        × (cancel ≢ token)
  unfolding dispatch_buffered claim_flags spawn
  dispatch_buffered-supersedes url pos c token h lt = (
    ground arith,
    c.next_flag,
    c.next_flag + 1,
    refl,
    refl,
    ground arith,
    ground arith,
    ground arith,
  )

  probe-gen :
      (n gen : ℕ) (c : Core F W)
      → ((probe_audio_params ext n gen c).1.loadfile_gen ≡ c.loadfile_gen)
        × ((probe_audio_params ext n gen c).1.shutdown ≡ c.shutdown)
        × ((probe_audio_params ext n gen c).1.state ≡ c.state)
  unfolding probe_audio_params
  probe-gen zero gen c = (refl, refl, refl)
  probe-gen (suc n) gen c = grind (arith, probe-gen n gen)

  unpause-world :
      (seek_after : Option F) (c : Core F W)
      → (w : W) × ((unpause ext seek_after c).world ≡ (Mpv.resume ext w).1)
  unfolding unpause mpv emit_now_playing
  unpause-world none c = (c.world, refl)
  unpause-world (some offset) c = ((Mpv.seek ext offset c.world).1, refl)

  settled-world :
      (gen : ℕ) (seek_after : Option F) (r : Option AudioParams × Core F W)
      → settle_superseded gen r.1 ≡ false
      → (w : W) × ((settled ext gen seek_after r).world ≡ (Mpv.resume ext w).1)
  unfolding settled
  settled-world gen seek_after (none, c) h = rw (h) (unpause-world seek_after c)
  settled-world gen seek_after (some p, c) h =
      rw (h) (unpause-world seek_after (pin ext (some p) c))

  -- A load that is still the newest is unpaused at the end whether or not mpv ever told the rate:
  -- the last command that mpv gets is the one that clears `pause`.
  pub settle-unpauses :
      (seek_after : Option F) (c : Core F W)
      → c.shutdown ≡ false
      → (w : W) × ((settle_rate_then_unpause ext c.loadfile_gen seek_after c).world
          ≡ (Mpv.resume ext w).1)
  unfolding settle_rate_then_unpause settle_superseded
  settle-unpauses seek_after c h =
      let p = probe-gen probe_max_iters c.loadfile_gen c in
      let (w, e) =
        settled-world c.loadfile_gen seek_after
          (probe_audio_params ext probe_max_iters c.loadfile_gen c) (ground (arith, p)) in
      (w, ground (arith, e))
