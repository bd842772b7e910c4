-- ===== src/Daemon/Settings/Transactions.antt =====
-- New credentials: what a failed change leaves, and where the secret ends up.
use ferrosonic.Prelude.{
  ℕ, List, Option, some, ◌≡◌, ◌≢◌, ◌∙◌, subst, refl, ap, inl, inr, arith, true, false, String, none,
  Bool-cases,
}
use ferrosonic.Prelude.Results.{Result, ok, err, Result-cases}
use ferrosonic.Float.{Float}
use ferrosonic.Files.{tmp_of}
use ferrosonic.Files.Crash.{IsFileSystem}
use ferrosonic.SecretStore
use ferrosonic.Config.{Config}
use ferrosonic.Config.Disk.{as_on_disk, held_outside, pw_file_set}
use ferrosonic.Config.Filters.{is_some_and}
use ferrosonic.Config.Secrets.{or_empty}
use ferrosonic.Config.PasswordFile.{write_password_file_atomic}
use ferrosonic.Daemon.World.{Client}
use ferrosonic.Daemon.Core.{Core}
use ferrosonic.Daemon.Settings.{Error, Host, save}
use ferrosonic.Daemon.Settings.InSync.{Holds, Holds-moved, Stored-Holds, stored, save-Outcome}
use ferrosonic.Daemon.Settings.Server.{
  PasswordStorage, keyring, password_file, password_eval, inline, MakeClient, set_music_folder,
  place_in_keyring, place_in_file, place_secret, drop_orphan, commit_server, save_server,
  server_transaction,
}

module _ {F : Type 0} where
  held-as_on_disk :
      (cfg : Config F) (password : String)
      → held_outside cfg ≡ true
      → (as_on_disk (record cfg { password = password }) ≡ as_on_disk cfg)
        × ((as_on_disk cfg).password ≡ none)
  unfolding as_on_disk held_outside
  held-as_on_disk cfg password h = (rw (h) refl, rw (h) refl)

  in_keyring-held : (cfg : Config F) → cfg.password_keyring ≡ true → held_outside cfg ≡ true
  unfolding held_outside
  in_keyring-held cfg h = ground arith

  in_file-held : (cfg : Config F) → pw_file_set cfg.password_file ≡ true → held_outside cfg ≡ true
  unfolding held_outside
  in_file-held cfg h = ground arith

  by_eval-held :
      (cfg : Config F) → is_some_and (λ e. true) cfg.password_eval ≡ true → held_outside cfg ≡ true
  unfolding held_outside
  by_eval-held cfg h = ground arith

module _ {F W T X : Type 0} ⦃f : Float F⦄ (host : Host F W T X) where
  save_server-err :
      (password : String) (client : Client) (s : Config F × PasswordStorage) (w : W) (c : Core F W)
      (e : Error T X)
      → (save_server host password client s w c).0 ≡ err e
      → (save_server host password client s w c).1
        ≡ record c { world = (save_server host password client s w c).1.world }
  unfolding save_server
  save_server-err password client (cfg, storage) w c e h = elim (Result-cases (save host cfg w).0) [
    | inl (u, q) ↦ absurd (ground (arith, q))
    | inr (x, q) ↦ rw (q, save_server) refl
  ]

  -- New credentials that are refused, cannot be stored or cannot be saved change nothing in the
  -- daemon: settings, client, generation and events are what they were.
  pub server_transaction-err :
      (make : MakeClient) (base_url username password : String) (c : Core F W) (e : Error T X)
      → (server_transaction host make base_url username password c).0 ≡ err e
      → (server_transaction host make base_url username password c).1
        ≡ record c { world = (server_transaction host make base_url username password c).1.world }
  unfolding server_transaction
  server_transaction-err make base_url username password c e h =
      let candidate = record c.state.config {
        base_url = base_url;
        username = username;
        password_from_env = false;
      } in
      let placed = place_secret host password candidate c.world in
      elim (Result-cases (make base_url username password)) [
        | inr (x, q) ↦ rw (q, server_transaction) refl
        | inl (client, q) ↦ elim (Result-cases placed.0) [
          | inr (x, p) ↦ rw (q, p, server_transaction) refl
          | inl (secret, p) ↦
              rw (q, p, server_transaction)
                (save_server-err password (set_music_folder c.state.config.music_folder_id client)
                  secret placed.1 c e (ground (arith, q, p)))
        ]
      ]

  -- The typed password in the live settings does not change what goes to disk; and only inline
  -- storage puts a secret there.
  abbrev Placed : String → Result (Error T X) (Config F × PasswordStorage) → Type 0
  Placed password (err e) = Unit {0}
  Placed password (ok (cfg, storage)) =
      (as_on_disk (record cfg { password = password }) ≡ as_on_disk cfg)
      × (storage ≢ inline → (as_on_disk cfg).password ≡ none)

  Placed-outside :
      (cfg : Config F) (password : String) (storage : PasswordStorage)
      → held_outside cfg ≡ true
      → Placed password (ok (cfg, storage))
  Placed-outside cfg password storage h =
      let (same, gone) = held-as_on_disk cfg password h in (same, λ outside. gone)

  place_in_keyring-Placed :
      (password : String) (cfg : Config F) (w : W)
      → Placed password (place_in_keyring host password cfg w).0
  unfolding place_in_keyring
  place_in_keyring-Placed password cfg w =
      let out = SecretStore.store host.machine.keys cfg.base_url cfg.username password w in
      elim (Result-cases out.0) [
        | inl (u, q) ↦
            rw (q, Placed, place_in_keyring)
              (Placed-outside (record cfg { password_keyring = true; password = "" }) password
                keyring
                (in_keyring-held (record cfg { password_keyring = true; password = "" }) refl))
        | inr (SecretStore.unavailable e, q) ↦
            rw (q, Placed, place_in_keyring) (refl, λ outside. absurd (outside refl))
        | inr (SecretStore.backend e, q) ↦ rw (q, Placed, place_in_keyring) tt
      ]

  place_secret-Placed :
      (password : String) (cfg : Config F) (w : W)
      → Placed password (place_secret host password cfg w).0
  unfolding place_secret place_in_file
  place_secret-Placed password cfg w =
      let wrote =
        write_password_file_atomic host.paths host.fs host.toml.as_bytes host.machine
          (or_empty cfg.password_file) password w in
      let outside = record cfg { password_keyring = false; password = "" } in
      elim (Bool-cases (is_some_and (λ e. true) cfg.password_eval)) [
        | inl e ↦
            rw (e, Placed, place_secret)
              (Placed-outside outside password password_eval (by_eval-held outside e))
        | inr e ↦ elim (Bool-cases (pw_file_set cfg.password_file)) [
          | inr p ↦ rw (e, p, Placed, place_secret) (place_in_keyring-Placed password cfg w)
          | inl p ↦ elim (Result-cases wrote.0) [
            | inl (u, q) ↦
                rw (e, p, q, Placed, place_secret, place_in_file)
                  (Placed-outside outside password password_file (in_file-held outside p))
            | inr (x, q) ↦ rw (e, p, q, Placed, place_secret, place_in_file) tt
          ]
        ]
      ]

  save_server-ok :
      (password : String) (client : Client) (cfg : Config F) (st storage : PasswordStorage) (w : W)
      (c : Core F W)
      → (save_server host password client (cfg, st) w c).0 ≡ ok storage
      → (storage ≡ st)
        × ((save host cfg w).0 ≡ ok tt)
        × ((save_server host password client (cfg, st) w c).1.state.config
            ≡ record cfg { password = password })
        × ((save_server host password client (cfg, st) w c).1.world
            ≡ drop_orphan host c.state.config cfg st (save host cfg w).1)
  unfolding save_server commit_server
  save_server-ok password client cfg st storage w c h = elim (Result-cases (save host cfg w).0) [
    | inl (u, q) ↦ ground (arith, q)
    | inr (x, q) ↦ absurd (ground (arith, q))
  ]

  module _ (content : W → String → Option (List ℕ)) (path : String) where
    -- The keychain does not touch the settings file.
    abbrev pub KeepsFile : Type 0
    KeepsFile =
        (base_url username : String) (w : W)
        → content (SecretStore.delete host.machine.keys base_url username w).1 path ≡ content w path

    drop_orphan-keeps :
        (old cfg : Config F) (st : PasswordStorage) (w : W)
        → KeepsFile
        → content (drop_orphan host old cfg st w) path ≡ content w path
    unfolding drop_orphan
    drop_orphan-keeps old cfg st w keeps = ground (arith, keeps old.base_url old.username w)

    -- Settings with the secret outside, once saved and live with the typed password.
    saved_outside :
        (password : String) (cfg : Config F) (st : PasswordStorage) (live old : Config F) (w w' : W)
        → host.config_file ≡ some path
        → IsFileSystem host.fs content
        → tmp_of host.paths path ≢ path
        → KeepsFile
        → Placed password (ok (cfg, st))
        → st ≢ inline
        → (save host cfg w).0 ≡ ok tt
        → live ≡ record cfg { password = password }
        → w' ≡ drop_orphan host old cfg st (save host cfg w).1
        → Holds host content path (as_on_disk live) w' × ((as_on_disk live).password ≡ none)
    saved_outside password cfg st live old w w' at law apart keeps (same, gone) outside saved eq
          moved =
        let disk : as_on_disk live ≡ as_on_disk cfg = ap as_on_disk eq ∙ same in
        let done = (save host cfg w).1 in
        let out = save-Outcome host content path cfg w at law apart in
        (
          Holds-moved host content path (as_on_disk cfg) (as_on_disk live) done w' disk
              (ap (λ v. content v path) moved ∙ drop_orphan-keeps old cfg st done keeps)
              (Stored-Holds host content path cfg done
                (stored host content path cfg w (save host cfg w) tt saved out)),
          ap (λ d. d.password) disk ∙ gone outside,
        )

    -- After a successful change of credentials that does not report inline storage, the settings file
    -- holds the text that the toml library makes of the live settings as they go to disk, and these
    -- hold no password. The file system keeps what POSIX promises, the temporary name is not the
    -- file's, and the keychain leaves the file alone.
    pub server_transaction-secret :
        (make : MakeClient) (base_url username password : String) (c : Core F W)
        (storage : PasswordStorage)
        → host.config_file ≡ some path
        → IsFileSystem host.fs content
        → tmp_of host.paths path ≢ path
        → KeepsFile
        → (server_transaction host make base_url username password c).0 ≡ ok storage
        → storage ≢ inline
        → let after : Core F W = (server_transaction host make base_url username password c).1 in
          Holds host content path (as_on_disk after.state.config) after.world
          × ((as_on_disk after.state.config).password ≡ none)
    unfolding server_transaction
    server_transaction-secret make base_url username password c storage at law apart keeps h
          outside =
        let candidate = record c.state.config {
          base_url = base_url;
          username = username;
          password_from_env = false;
        } in
        let placed = place_secret host password candidate c.world in
        elim (Result-cases (make base_url username password)) [
          | inr (x, q) ↦ absurd (ground (arith, q))
          | inl (client, q) ↦ elim (Result-cases placed.0) [
            | inr (x, p) ↦ absurd (ground (arith, q, p))
            | inl ((cfg, st), p) ↦
                let (eq, saved, live, moved) =
                  save_server-ok password (set_music_folder c.state.config.music_folder_id client)
                    cfg st storage placed.1 c (ground (arith, q, p)) in
                rw (q, p, server_transaction)
                  (saved_outside password cfg st _ c.state.config placed.1 _ at law apart keeps
                    (subst (Placed password) p (place_secret-Placed password candidate c.world))
                    (subst (λ s. s ≢ inline) eq outside) saved live moved)
          ]
        ]
