-- ===== src/Daemon/Settings/InSync.antt =====
-- The settings in the daemon and those on disk.
use ferrosonic.Prelude.{ℕ, ◌≡◌, ◌≢◌, ◌∙◌, ap, refl, inl, inr, arith, String, Option, some, List}
use ferrosonic.Prelude.Results.{Result, ok, err, Result-cases}
use ferrosonic.Float.{Float}
use ferrosonic.Files.{tmp_of, atomic_write_bytes_private, atomic_write_bytes_with_fs_mode}
use ferrosonic.Files.Crash.{IsFileSystem, atomic_write-Replaced}
use ferrosonic.Config.{Config}
use ferrosonic.Config.Disk.{ConfigOnDisk, as_on_disk}
use ferrosonic.Config.Loading.{
  validate_replay_gain_preamp, ConfigError, contents_of, save_to_file, save_default, io_result,
}
use ferrosonic.Daemon.Core.{Core}
use ferrosonic.Daemon.Settings.{Host, save, persist_config}

module _ {F W T X : Type 0} ⦃f : Float F⦄ (host : Host F W T X)
    (content : W → String → Option (List ℕ)) (path : String) where
  open host use {toml, paths, fs}

  -- The file holds the text of these settings.
  abbrev pub Stored : Config F → W → Type 0
  Stored cfg w =
      (text : String) × ((contents_of {X = X} toml paths fs cfg ≡ ok text)
        × (content w path ≡ some (toml.as_bytes text)))

  abbrev pub InSync : Core F W → Type 0
  InSync c = Stored c.state.config c.world

  -- The file holds the text that the toml library makes of these values.
  abbrev pub Holds : ConfigOnDisk F → W → Type 0
  Holds disk w =
      (text : String) × ((toml.to_string_pretty disk ≡ ok text)
        × (content w path ≡ some (toml.as_bytes text)))

  pub Stored-Holds : (cfg : Config F) (w : W) → Stored cfg w → Holds (as_on_disk cfg) w
  unfolding contents_of
  Stored-Holds cfg w (text, (made, held)) =
      elim (Result-cases (validate_replay_gain_preamp {T = T} {X = X} cfg.replay_gain_preamp)) [
        | inr (e, v) ↦ absurd (ground (arith, v, made))
        | inl (u, v) ↦ elim (Result-cases (toml.to_string_pretty (as_on_disk cfg))) [
          | inr (e, q) ↦ absurd (ground (arith, v, q, made))
          | inl (t, q) ↦ (text, (ground (arith, v, q, made), held))
        ]
      ]

  pub Holds-moved :
      (disk disk' : ConfigOnDisk F) (w w' : W)
      → disk' ≡ disk
      → content w' path ≡ content w path
      → Holds disk w
      → Holds disk' w'
  Holds-moved disk disk' w w' same kept (text, (made, held)) =
      (text, (ap toml.to_string_pretty same ∙ made, kept ∙ held))

  -- A save either stores its settings, or reports an error and leaves the file as it was.
  abbrev pub Outcome : Config F → W → Result (ConfigError T X) (Unit {0}) × W → Type 0
  Outcome cfg w (ok u, w') = Stored cfg w'
  Outcome cfg w (err e, w') = content w' path ≡ content w path

  pub stored :
      (cfg : Config F) (w : W) (out : Result (ConfigError T X) (Unit {0}) × W) (u : Unit {0})
      → out.0 ≡ ok u
      → Outcome cfg w out
      → Stored cfg out.1
  stored cfg w (ok v, w') u q h = h
  stored cfg w (err e, w') u q h = absurd (ground arith)

  pub unchanged :
      (cfg : Config F) (w : W) (out : Result (ConfigError T X) (Unit {0}) × W) (e : ConfigError T X)
      → out.0 ≡ err e
      → Outcome cfg w out
      → content out.1 path ≡ content w path
  unchanged cfg w (ok v, w') e q h = absurd (ground arith)
  unchanged cfg w (err x, w') e q h = h

  write-Outcome :
      (cfg : Config F) (text : String) (w : W)
      → contents_of {X = X} toml paths fs cfg ≡ ok text
      → IsFileSystem fs content
      → tmp_of paths path ≢ path
      → Outcome cfg w (save_to_file toml paths fs path cfg w)
  unfolding save_to_file io_result atomic_write_bytes_private
  write-Outcome cfg text w made law apart =
      let wrote = atomic_write_bytes_with_fs_mode paths fs path (toml.as_bytes text) (some 384) w in
      let after =
        atomic_write-Replaced paths fs content path (toml.as_bytes text) (some 384) w law apart in
      elim (Result-cases wrote.0) [
        | inl (u, q) ↦
            rw (made, q, save_to_file, atomic_write_bytes_private)
              (text, (made, ground (arith, q, after)))
        | inr (e, q) ↦
            rw (made, q, save_to_file, atomic_write_bytes_private) (ground (arith, q, after))
      ]

  pub save-Outcome :
      (cfg : Config F) (w : W)
      → host.config_file ≡ some path
      → IsFileSystem fs content
      → tmp_of paths path ≢ path
      → Outcome cfg w (save host cfg w)
  unfolding save_default
  save-Outcome cfg w at law apart = elim (Result-cases (contents_of {X = X} toml paths fs cfg)) [
    | inl (text, q) ↦ rw (at, save_default) (write-Outcome cfg text w q law apart)
    | inr (e, q) ↦ rw (at, save_default, save_to_file, q) refl
  ]

  -- A change of the settings keeps disk and daemon in step, whether it succeeds or fails: with the
  -- settings in the file at first, they are in the file afterwards, for a file system that keeps
  -- what POSIX promises and a temporary name other than the file's.
  pub persist_config-InSync :
      (mutate : Config F → Config F) (c : Core F W)
      → host.config_file ≡ some path
      → IsFileSystem fs content
      → tmp_of paths path ≢ path
      → InSync c
      → InSync (persist_config host mutate c).1
  unfolding persist_config
  persist_config-InSync mutate c at law apart (text, (made, held)) =
      let candidate = mutate c.state.config in
      let out = save-Outcome candidate c.world at law apart in
      elim (Result-cases (save host candidate c.world).0) [
        | inl (u, q) ↦
            rw (q, persist_config) (stored candidate c.world (save host candidate c.world) u q out)
        | inr (e, q) ↦
            rw (q, persist_config)
              (
                text,
                (made, unchanged candidate c.world (save host candidate c.world) e q out ∙ held),
              )
      ]
