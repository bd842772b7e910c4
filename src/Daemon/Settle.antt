-- ===== src/Daemon/Settle.antt =====
-- daemon/core.rs `settle_rate_then_unpause`: the task that every paused load starts. The two
-- sleeps, between polls and after a change of the rate, are left out.
pub mod Loads
use ferrosonic.Prelude.{
  ℕ, zero, suc, Bool, true, not, ◌||◌, String, Option, none, some, ◌==◌, if◌then◌else◌,
}
use ferrosonic.Float.{Float}
use ferrosonic.Daemon.World.{World}
use ferrosonic.Daemon.Mpv
use ferrosonic.Daemon.Mpv.{flatten_option}
use ferrosonic.Daemon.Core.{Core, emit_now_playing, mpv, set_rate}
use ferrosonic.Daemon.Tick.{set_audio}

pub record AudioParams : Type 0 where
  pub rate : ℕ
  pub bit_depth : Option ℕ
  pub format : Option String
  pub channels : Option String

abbrev pub probe_max_iters : ℕ
probe_max_iters = 50

module _ {F W : Type 0} where
  unfoldable pub settle_superseded : ℕ → Core F W → Bool
  settle_superseded gen c = c.shutdown || not (c.loadfile_gen == gen)

module _ {F W : Type 0} ⦃f : Float F⦄ (ext : World F W) where
  poll : W → Option AudioParams × W
  poll w =
      let (sr, w1) = Mpv.get_sample_rate ext w in
      let (bd, w2) = Mpv.get_bit_depth ext w1 in
      let (fmt, w3) = Mpv.get_audio_format ext w2 in
      let (ch, w4) = Mpv.get_channels ext w3 in
      (
        elim (flatten_option sr) [
          | none ↦ none
          | some rate ↦ some (record {
            rate = rate;
            bit_depth = flatten_option bd;
            format = flatten_option fmt;
            channels = flatten_option ch;
          })
        ],
        w4,
      )

  -- The loop of `probe_audio_params`, with the iterations that are left.
  unfoldable pub probe_audio_params : ℕ → ℕ → Core F W → Option AudioParams × Core F W
  unfolding poll settle_superseded
  probe_audio_params zero gen c = (none, c)
  probe_audio_params (suc n) gen c =
      let (answer, w) = poll c.world in
      let again = probe_audio_params n gen (record c { world = w }) in
      if settle_superseded gen c
      then (none, c)
      else elim answer [ none ↦ again | some p ↦ (some p, record c { world = w }) ]

  -- The rate is pinned, and the properties shown.
  unfoldable pub pin : Option AudioParams → Core F W → Core F W
  pin none c = c
  pin (some p) c = set_audio (some p.rate) p.bit_depth p.format p.channels (set_rate ext p.rate c)

  unfoldable pub unpause : Option F → Core F W → Core F W
  unpause none c = emit_now_playing (mpv ext (Mpv.resume ext) c)
  unpause (some offset) c =
      emit_now_playing (mpv ext (Mpv.resume ext) (mpv ext (Mpv.seek ext offset) c))

  unfoldable pub settled : ℕ → Option F → Option AudioParams × Core F W → Core F W
  unfolding settle_superseded pin unpause
  settled gen seek_after (none, c) = if settle_superseded gen c then c else unpause seek_after c
  settled gen seek_after (some p, c) =
      if settle_superseded gen c then c else unpause seek_after (pin (some p) c)

  unfoldable pub settle_rate_then_unpause : ℕ → Option F → Core F W → Core F W
  unfolding settled settle_superseded probe_audio_params
  settle_rate_then_unpause gen seek_after c =
      let probed = probe_audio_params probe_max_iters gen c in
      if settle_superseded gen c then c else settled gen seek_after probed
