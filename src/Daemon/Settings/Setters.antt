-- ===== src/Daemon/Settings/Setters.antt =====
-- daemon/settings_ops.rs: one setter for each setting.
use ferrosonic.Prelude.{ℕ, Bool, not, String, none, some, List, [], ◌∷◌, ltb, if◌then◌else◌}
use ferrosonic.Prelude.Int.{pos, negsuc}
use ferrosonic.Prelude.Results.{Result, ok, err}
use ferrosonic.Float.{Float, int_f}
use ferrosonic.Config.{Config}
use ferrosonic.Config.Repeat.{RepeatMode}
use ferrosonic.Config.Modes.{ReplayGainMode, mpv_value}
use ferrosonic.Config.Filters.{PlaybackFilters}
use ferrosonic.Config.Keys.{GlobalAction, KeyChord}
use ferrosonic.Config.Loading.{validate_replay_gain_preamp}
use ferrosonic.Daemon.World.{World, str, bool, float}
use ferrosonic.Daemon.Mpv
use ferrosonic.Daemon.Core.{Core, emit, emit_config_changed, repeat_mode_changed, mpv}
use ferrosonic.Daemon.Core.Commit.{drop_preload, preload_next_track}
use ferrosonic.Daemon.Settings.{Error, config, Host, persist_config}

-- `clamp` on unsigned integers.
unfoldable pub clamp : (v lo hi : ℕ) → ℕ
clamp v lo hi = if ltb v lo then lo else if ltb hi v then hi else v

module _ {F W T X : Type 0} ⦃f : Float F⦄ (host : Host F W T X) where
  -- What a setter does once the change is persisted; an error ends it.
  unfoldable pub finish :
      (Core F W → Core F W)
      → Result (Error T X) (Unit {0}) × Core F W
      → Result (Error T X) (Unit {0}) × Core F W
  finish after (ok u, c) = (ok tt, after c)
  finish after (err e, c) = (err e, c)

  unfoldable pub persist_then :
      (Config F → Config F)
      → (Core F W → Core F W)
      → Core F W
      → Result (Error T X) (Unit {0}) × Core F W
  unfolding persist_config finish
  persist_then mutate after c = finish after (persist_config host mutate c)

  abbrev Setter : Type 0
  Setter = Core F W → Result (Error T X) (Unit {0}) × Core F W

  unfoldable pub set_scrobble : Bool → Setter
  unfolding persist_then emit_config_changed
  set_scrobble on = persist_then (λ c. record c { scrobble = on }) emit_config_changed

  unfoldable pub set_notifications : Bool → Setter
  unfolding persist_then emit_config_changed
  set_notifications on = persist_then (λ c. record c { notifications = on }) emit_config_changed

  unfoldable pub set_theme : String → Setter
  unfolding persist_then emit_config_changed
  set_theme name = persist_then (λ c. record c { theme = name }) emit_config_changed

  unfoldable pub set_cava_enabled : Bool → Setter
  unfolding persist_then emit_config_changed
  set_cava_enabled on = persist_then (λ c. record c { cava = on }) emit_config_changed

  unfoldable pub set_daemon_enabled : Bool → Setter
  unfolding persist_then emit_config_changed
  set_daemon_enabled on = persist_then (λ c. record c { daemon = on }) emit_config_changed

  unfoldable pub set_auto_continue : Bool → Setter
  unfolding persist_then emit_config_changed
  set_auto_continue on = persist_then (λ c. record c { auto_continue = on }) emit_config_changed

  unfoldable pub set_stream_on_start : Bool → Setter
  unfolding persist_then emit_config_changed
  set_stream_on_start on = persist_then (λ c. record c { stream_on_start = on }) emit_config_changed

  unfoldable pub set_resume_on_start : Bool → Setter
  unfolding persist_then emit_config_changed
  set_resume_on_start on = persist_then (λ c. record c { resume_on_start = on }) emit_config_changed

  unfoldable pub set_autoplay_on_start : Bool → Setter
  unfolding persist_then emit_config_changed
  set_autoplay_on_start on =
      persist_then (λ c. record c { autoplay_on_start = on }) emit_config_changed

  -- The two settings of the offline cache have a copy beside the state.
  unfoldable pub set_offline_cache_enabled : Bool → Setter
  unfolding persist_then emit_config_changed
  set_offline_cache_enabled on =
      persist_then (λ c. record c { offline_cache_enabled = on })
        (λ c. emit_config_changed (record c { offline_cache_on = on }))

  unfoldable pub set_offline_cache_max_mb : ℕ → Setter
  unfolding persist_then emit_config_changed
  set_offline_cache_max_mb mb =
      let clamped = clamp mb 1 102400 in
      persist_then (λ c. record c { offline_cache_max_mb = clamped })
        (λ c. emit_config_changed (record c { offline_cache_max_mb = clamped }))

  unfoldable pub set_cover_art_enabled : Bool → Setter
  unfolding persist_then emit_config_changed
  set_cover_art_enabled on = persist_then (λ c. record c { cover_art = on }) emit_config_changed

  unfoldable pub set_cover_art_size : ℕ → Setter
  unfolding persist_then emit_config_changed
  set_cover_art_size size =
      let clamped = clamp size 8 24 in
      persist_then (λ c. record c { cover_art_size = clamped }) emit_config_changed

  unfoldable pub set_cava_size : ℕ → Setter
  unfolding persist_then emit_config_changed
  set_cava_size size =
      let clamped = clamp size 10 80 in
      persist_then (λ c. record c { cava_size = clamped }) emit_config_changed

  unfoldable pub set_playback_filters : PlaybackFilters → Setter
  unfolding persist_then emit_config_changed
  set_playback_filters filters =
      persist_then (λ c. record c { playback_filters = filters }) emit_config_changed

  unfoldable pub set_keybindings : List (GlobalAction × KeyChord) → Setter
  unfolding persist_then emit_config_changed
  set_keybindings bindings =
      persist_then (λ c. record c { keybindings = bindings }) emit_config_changed

  module _ (ext : World F W) where
    -- audio/mpv.rs `set_replaygain_mode`, `set_replaygain_preamp` and `set_replaygain_clip`; mpv's own
    -- flag permits clipping. The controller's copies, for a respawned process, are not modelled.
    unfoldable pub set_replaygain_mode : ReplayGainMode → Core F W → Core F W
    set_replaygain_mode mode =
        mpv ext (Mpv.run ext (str "set_property" ∷ str "replaygain" ∷ str (mpv_value mode) ∷ []))

    -- `f64::clamp` to 15 dB either way.
    unfoldable pub clamp_preamp : F → F
    clamp_preamp v = f.max (int_f (negsuc 14)) (f.min v (int_f (pos 15)))

    unfoldable pub set_replaygain_preamp : F → Core F W → Core F W
    unfolding clamp_preamp
    set_replaygain_preamp v c =
        if f.is_finite v
        then mpv ext
            (Mpv.run ext
              (str "set_property" ∷ str "replaygain-preamp" ∷ float (clamp_preamp v) ∷ []))
            c
        else c

    unfoldable pub set_replaygain_clip : Bool → Core F W → Core F W
    set_replaygain_clip clip =
        mpv ext (Mpv.run ext (str "set_property" ∷ str "replaygain-clip" ∷ bool (not clip) ∷ []))

    unfoldable pub set_replay_gain_mode : ReplayGainMode → Setter
    unfolding persist_then emit_config_changed set_replaygain_mode
    set_replay_gain_mode mode =
        persist_then (λ c. record c { replay_gain_mode = mode })
          (λ c. emit_config_changed (set_replaygain_mode mode c))

    unfoldable pub set_replay_gain_clip : Bool → Setter
    unfolding persist_then emit_config_changed set_replaygain_clip
    set_replay_gain_clip on =
        persist_then (λ c. record c { replay_gain_clip = on })
          (λ c. emit_config_changed (set_replaygain_clip on c))

    unfoldable pub set_replay_gain_preamp : F → Setter
    unfolding persist_then emit_config_changed clamp_preamp validate_replay_gain_preamp
        set_replaygain_preamp
    set_replay_gain_preamp preamp c = elim (validate_replay_gain_preamp {T = T} {X = X} preamp) [
      | err e ↦ (err (config e), c)
      | ok u ↦
          persist_then (λ k. record k { replay_gain_preamp = clamp_preamp preamp })
            (λ k. emit_config_changed (set_replaygain_preamp (clamp_preamp preamp) k)) c
    ]

    -- The entry that is queued up in mpv is the one of the new mode.
    unfoldable pub renew_preload : Core F W → Core F W
    renew_preload c = elim c.state.queue_position [
      | none ↦ c
      | some cur_pos ↦ preload_next_track ext cur_pos (drop_preload ext c)
    ]

    unfoldable pub set_repeat_mode : RepeatMode → Setter
    unfolding persist_then emit_config_changed emit renew_preload
    set_repeat_mode mode =
        persist_then (λ c. record c { repeat_mode = mode })
          (λ c. renew_preload (emit_config_changed (emit (repeat_mode_changed mode) c)))
