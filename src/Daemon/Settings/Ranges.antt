-- ===== src/Daemon/Settings/Ranges.antt =====
-- What every sequence of settings requests keeps.
use ferrosonic.Prelude.{
  ℕ, ◌≡◌, ◌≤◌, ◌⊎◌, subst, sym, refl, inl, inr, arith, String, List, [], ◌∷◌, Option-cases,
}
use ferrosonic.Prelude.Results.{ok, err, Result-cases}
use ferrosonic.Float.{Float}
use ferrosonic.Subsonic.{Child}
use ferrosonic.Config.{Config}
use ferrosonic.Config.Loading.{validate_replay_gain_preamp}
use ferrosonic.Daemon.World.{World}
use ferrosonic.Daemon.Core.{
  Core, emit, emit_config_changed, repeat_mode_changed, mpv, cached_track_path,
}
use ferrosonic.Daemon.Core.Commit.{
  prefer_cached, preload_url, preload_append, preload_next_track, drop_preload,
}
use ferrosonic.Daemon.Core.Keeps.{preload_next_track-state, drop_preload-state}
use ferrosonic.Daemon.Settings.{Error, config, Host, save, persist_config, commit_config}
use ferrosonic.Daemon.Settings.Setters
use ferrosonic.Daemon.Settings.Setters.{clamp, finish, persist_then, renew_preload}
use ferrosonic.Daemon.Settings.Requests
use ferrosonic.Daemon.Settings.Requests.{SettingsRequest, settings_request, settings_run}

pub clamp_bounds : (v lo hi : ℕ) → lo ≤ hi → (lo ≤ clamp v lo hi) × (clamp v lo hi ≤ hi)
unfolding clamp
clamp_bounds v lo hi h = ground arith

module _ {F : Type 0} where
  -- The sizes are in their ranges, and the offline cache's copies agree with the settings.
  abbrev pub WithinRange : Config F → Type 0
  WithinRange k =
      ((8 ≤ k.cover_art_size) × (k.cover_art_size ≤ 24))
      × (((10 ≤ k.cava_size) × (k.cava_size ≤ 80))
          × ((1 ≤ k.offline_cache_max_mb) × (k.offline_cache_max_mb ≤ 102400)))

module _ {F W : Type 0} where
  abbrev pub Mirrored : Core F W → Type 0
  Mirrored c =
      (c.offline_cache_on ≡ c.state.config.offline_cache_enabled)
      × (c.offline_cache_max_mb ≡ c.state.config.offline_cache_max_mb)

  abbrev pub IsSound : Core F W → Type 0
  IsSound c = WithinRange c.state.config × Mirrored c

module _ {F W T X : Type 0} ⦃f : Float F⦄ (host : Host F W T X) where
  persist_config-cases :
      (mutate : Config F → Config F) (c : Core F W)
      → ((w : W) × (persist_config host mutate c
            ≡ (ok tt, commit_config host (mutate c.state.config) w c)))
        ⊎ ((e : Error T X) × ((w : W) × (persist_config host mutate c
                ≡ (err e, record c { world = w }))))
  unfolding persist_config
  persist_config-cases mutate c =
      elim (Result-cases (save host (mutate c.state.config) c.world).0) [
        | inl (u, q) ↦
            inl ((save host (mutate c.state.config) c.world).1, rw (q, persist_config) refl)
        | inr (e, q) ↦
            inr (
              config e,
              ((save host (mutate c.state.config) c.world).1, rw (q, persist_config) refl),
            )
      ]

  -- A setter keeps what its change and its announcement keep, on whatever disk the save leaves.
  persist_then-IsSound :
      (mutate : Config F → Config F) (after : Core F W → Core F W) (c : Core F W)
      → ((w : W) → IsSound (after (commit_config host (mutate c.state.config) w c)))
      → IsSound c
      → IsSound (persist_then host mutate after c).1
  unfolding persist_then finish
  persist_then-IsSound mutate after c kept sound = elim (persist_config-cases mutate c) [
    | inl (w, q) ↦ subst (λ out. IsSound (finish host after out).1) (sym q) (kept w)
    | inr (e, (w, q)) ↦ subst (λ out. IsSound (finish host after out).1) (sym q) sound
  ]

  module _ (ext : World F W) where
    abbrev Mirrors : Core F W → Core F W → Type 0
    Mirrors a b =
        (a.offline_cache_on ≡ b.offline_cache_on)
        × (a.offline_cache_max_mb ≡ b.offline_cache_max_mb)

    prefer_cached-Mirrors :
        (id url : String) (c : Core F W) → Mirrors (prefer_cached ext id url c).1 c
    unfolding prefer_cached cached_track_path
    prefer_cached-Mirrors id url c = ground arith

    preload_url-Mirrors : (song : Child) (c : Core F W) → Mirrors (preload_url ext song c).1 c
    unfolding preload_url
    preload_url-Mirrors song c = grind (arith, prefer_cached-Mirrors)

    preload_append-Mirrors :
        (gen : ℕ) (url : String) (c : Core F W) → Mirrors (preload_append ext gen url c) c
    unfolding preload_append mpv
    preload_append-Mirrors gen url c = ground arith

    preload_next_track-Mirrors : (at : ℕ) (c : Core F W) → Mirrors (preload_next_track ext at c) c
    unfolding preload_next_track
    preload_next_track-Mirrors at c = grind (arith, preload_url-Mirrors, preload_append-Mirrors)

    drop_preload-Mirrors : (c : Core F W) → Mirrors (drop_preload ext c) c
    unfolding drop_preload mpv
    drop_preload-Mirrors c = ground arith

    renew_preload-IsSound : (c : Core F W) → IsSound c → IsSound (renew_preload host ext c)
    unfolding renew_preload
    renew_preload-IsSound c s = elim (Option-cases c.state.queue_position) [
      | inl n ↦ rw (n, renew_preload) s
      | inr (at, q) ↦ ground (
        arith,
        q,
        preload_next_track-state ext at (drop_preload ext c),
        drop_preload-state ext c,
        preload_next_track-Mirrors at (drop_preload ext c),
        drop_preload-Mirrors c,
      )
    ]

    push-IsSound :
        (v : F) (c : Core F W)
        → IsSound c
        → IsSound (emit_config_changed (Setters.set_replaygain_preamp host ext v c))
    unfolding Setters.set_replaygain_preamp mpv emit_config_changed emit
    push-IsSound v c s = ground arith

    preamp :
        (db : F) (c : Core F W)
        → IsSound c
        → IsSound (Setters.set_replay_gain_preamp host ext db c).1
    unfolding Setters.set_replay_gain_preamp
    preamp db c s = elim (Result-cases (validate_replay_gain_preamp {T = T} {X = X} db)) [
      | inr (e, q) ↦ rw (q, Setters.set_replay_gain_preamp) s
      | inl (u, q) ↦
          let v = Setters.clamp_preamp host ext db in
          rw (q, Setters.set_replay_gain_preamp)
            (persist_then-IsSound (λ k. record k { replay_gain_preamp = v })
              (λ k. emit_config_changed (Setters.set_replaygain_preamp host ext v k)) c
              (λ w. push-IsSound v _ s) s)
    ]

    pub settings_request-IsSound :
        (r : SettingsRequest F) (c : Core F W)
        → IsSound c
        → IsSound (settings_request host ext r c).1
    unfolding settings_request emit_config_changed emit mpv Setters.set_theme
        Setters.set_cava_enabled Setters.set_daemon_enabled Setters.set_auto_continue
        Setters.set_stream_on_start Setters.set_resume_on_start Setters.set_autoplay_on_start
        Setters.set_scrobble Setters.set_notifications Setters.set_cover_art_enabled
        Setters.set_playback_filters Setters.set_keybindings Setters.set_offline_cache_enabled
        Setters.set_offline_cache_max_mb Setters.set_cover_art_size Setters.set_cava_size
        Setters.set_replay_gain_mode Setters.set_replay_gain_clip Setters.set_repeat_mode
        Setters.set_replaygain_mode Setters.set_replaygain_clip
    settings_request-IsSound (Requests.set_theme name) c s =
        persist_then-IsSound (λ k. record k { theme = name }) emit_config_changed c (λ w. s) s
    settings_request-IsSound (Requests.set_cava_enabled on) c s =
        persist_then-IsSound (λ k. record k { cava = on }) emit_config_changed c (λ w. s) s
    settings_request-IsSound (Requests.set_daemon_enabled on) c s =
        persist_then-IsSound (λ k. record k { daemon = on }) emit_config_changed c (λ w. s) s
    settings_request-IsSound (Requests.set_auto_continue on) c s =
        persist_then-IsSound (λ k. record k { auto_continue = on }) emit_config_changed c (λ w. s) s
    settings_request-IsSound (Requests.set_stream_on_start on) c s =
        persist_then-IsSound (λ k. record k { stream_on_start = on }) emit_config_changed c (λ w. s)
          s
    settings_request-IsSound (Requests.set_resume_on_start on) c s =
        persist_then-IsSound (λ k. record k { resume_on_start = on }) emit_config_changed c (λ w. s)
          s
    settings_request-IsSound (Requests.set_autoplay_on_start on) c s =
        persist_then-IsSound (λ k. record k { autoplay_on_start = on }) emit_config_changed c
          (λ w. s) s
    settings_request-IsSound (Requests.set_scrobble on) c s =
        persist_then-IsSound (λ k. record k { scrobble = on }) emit_config_changed c (λ w. s) s
    settings_request-IsSound (Requests.set_notifications on) c s =
        persist_then-IsSound (λ k. record k { notifications = on }) emit_config_changed c (λ w. s) s
    settings_request-IsSound (Requests.set_cover_art_enabled on) c s =
        persist_then-IsSound (λ k. record k { cover_art = on }) emit_config_changed c (λ w. s) s
    settings_request-IsSound (Requests.set_playback_filters fs) c s =
        persist_then-IsSound (λ k. record k { playback_filters = fs }) emit_config_changed c
          (λ w. s) s
    settings_request-IsSound (Requests.set_keybindings bs) c s =
        persist_then-IsSound (λ k. record k { keybindings = bs }) emit_config_changed c (λ w. s) s
    settings_request-IsSound (Requests.set_offline_cache_enabled on) c s =
        persist_then-IsSound (λ k. record k { offline_cache_enabled = on })
          (λ k. emit_config_changed (record k { offline_cache_on = on })) c
          (λ w. (s.0, (refl, s.1.1))) s
    settings_request-IsSound (Requests.set_offline_cache_max_mb mb) c s =
        persist_then-IsSound (λ k. record k { offline_cache_max_mb = clamp mb 1 102400 })
          (λ k. emit_config_changed (record k { offline_cache_max_mb = clamp mb 1 102400 })) c
          (λ w. ((s.0.0, (s.0.1.0, clamp_bounds mb 1 102400 (omega arith))), (s.1.0, refl))) s
    settings_request-IsSound (Requests.set_cover_art_size size) c s =
        persist_then-IsSound (λ k. record k { cover_art_size = clamp size 8 24 })
          emit_config_changed c (λ w. ((clamp_bounds size 8 24 (omega arith), s.0.1), s.1)) s
    settings_request-IsSound (Requests.set_cava_size size) c s =
        persist_then-IsSound (λ k. record k { cava_size = clamp size 10 80 }) emit_config_changed c
          (λ w. ((s.0.0, (clamp_bounds size 10 80 (omega arith), s.0.1.1)), s.1)) s
    settings_request-IsSound (Requests.set_replay_gain_mode mode) c s =
        persist_then-IsSound (λ k. record k { replay_gain_mode = mode })
          (λ k. emit_config_changed (Setters.set_replaygain_mode host ext mode k)) c (λ w. s) s
    settings_request-IsSound (Requests.set_replay_gain_clip on) c s =
        persist_then-IsSound (λ k. record k { replay_gain_clip = on })
          (λ k. emit_config_changed (Setters.set_replaygain_clip host ext on k)) c (λ w. s) s
    settings_request-IsSound (Requests.set_replay_gain_preamp db) c s = preamp db c s
    settings_request-IsSound (Requests.set_repeat_mode mode) c s =
        persist_then-IsSound (λ k. record k { repeat_mode = mode })
          (λ k. renew_preload host ext (emit_config_changed (emit (repeat_mode_changed mode) k))) c
          (λ w. renew_preload-IsSound _ s) s

    -- Whatever settings are asked for, one request after the other, and whether their saves succeed or
    -- fail: if the cover, cava and cache sizes are in their ranges at first, and the offline cache's
    -- copies of its settings, which playback reads, agree with the settings, then they still are and do.
    pub settings_run-IsSound :
        (rs : List (SettingsRequest F)) (c : Core F W)
        → IsSound c
        → IsSound (settings_run host ext rs c)
    unfolding settings_run
    settings_run-IsSound [] c s = s
    settings_run-IsSound (r ∷ rs) c s =
        settings_run-IsSound rs (settings_request host ext r c).1 (settings_request-IsSound r c s)
