-- ===== src/Config/Loading/RoundTrip.antt =====
-- What is saved is what is loaded.
use ferrosonic.Prelude.{
  ℕ, ◌≡◌, ◌≢◌, ◌∙◌, refl, sym, ap, inl, inr, arith, true, false, Option, some, String, eq_iff, List,
  if◌then◌else◌, Bool-cases,
}
use ferrosonic.Prelude.Results.{ok, Result-cases}
use ferrosonic.Float.{Float}
use ferrosonic.Files.{
  FileSystem, Paths, tmp_of, atomic_write_bytes_private, atomic_write_bytes_with_fs_mode,
}
use ferrosonic.Files.Crash.{IsFileSystem, atomic_write-Replaced}
use ferrosonic.Config.{Config}
use ferrosonic.Config.Disk.{ConfigOnDisk, as_on_disk, of_disk, held_outside}
use ferrosonic.Config.Secrets.{Machine, resolve_password}
use ferrosonic.Config.Secrets.Independence.{named_source, resolve_password-independent}
use ferrosonic.Config.Loading.{
  Toml, io_result, contents_of, save_to_file, load_from_file, parsed, validate_replay_gain_preamp,
}

-- The toml library reads these settings back from the text that it made of them.
pub record IsFaithful {F T : Type 0} (toml : Toml F T) (disk : ConfigOnDisk F) : Type 0 where
  pub back :
      (text : String)
      → toml.to_string_pretty disk ≡ ok text
      → toml.from_str text ≡ ok (of_disk disk)

-- A file that holds a text is there, and is read as that text.
pub record IsReadable {F T D X : Type 0} (toml : Toml F T) (fs : FileSystem D X) (m : Machine D X)
    (content : D → String → Option (List ℕ)) (path text : String) : Type 0 where
  pub exists : (d : D) → content d path ≡ some (toml.as_bytes text) → fs.path_exists path d ≡ true
  pub reads :
      (d : D) → content d path ≡ some (toml.as_bytes text) → m.read_to_string path d ≡ ok text

module _ {F : Type 0} where
  password-kept :
      (c : Config F)
      → (of_disk (as_on_disk c)).password ≡ (if held_outside c then "" else c.password)
  unfolding of_disk as_on_disk
  password-kept c = ground (arith, eq_iff c.password "")

  -- Only a secret that another place holds stays out of the file.
  of_disk-as_on_disk :
      (c : Config F)
      → c.password_from_env ≡ false
      → of_disk (as_on_disk c) ≡ record c { password = if held_outside c then "" else c.password }
  unfolding of_disk as_on_disk
  of_disk-as_on_disk c h =
      ap (λ p. record c { password = p; password_from_env = false }) (password-kept c)
      ∙ ap
          (λ b. record c {
            password = if held_outside c then "" else c.password;
            password_from_env = b;
          })
          (sym h)

  held_outside-named :
      (c : Config F) → c.password_from_env ≡ false → held_outside c ≡ true → named_source c ≡ true
  unfolding held_outside named_source
  held_outside-named c h held = ground arith

  resolves_alike :
      {D X : Type 0} (m : Machine D X) (c : Config F) (d : D)
      → c.password_from_env ≡ false
      → resolve_password m (of_disk (as_on_disk c)) d ≡ resolve_password m c d
  resolves_alike m c d h =
      ap (λ k. resolve_password m k d) (of_disk-as_on_disk c h)
      ∙ elim (Bool-cases (held_outside c)) [
        | inl held ↦ rw (held) (resolve_password-independent m c "" d (held_outside-named c h held))
        | inr inline ↦ rw (inline) refl
      ]

module _ {F T D X : Type 0} ⦃f : Float F⦄ (toml : Toml F T) (paths : Paths) (fs : FileSystem D X)
    (m : Machine D X) (content : D → String → Option (List ℕ)) where
  contents_of-ok :
      (c : Config F) (text : String)
      → contents_of {X = X} toml paths fs c ≡ ok text
      → toml.to_string_pretty (as_on_disk c) ≡ ok text
  unfolding contents_of validate_replay_gain_preamp
  contents_of-ok c text h = elim (Bool-cases (f.is_finite c.replay_gain_preamp)) [
    | inr infinite ↦ absurd (ground (arith, infinite))
    | inl finite ↦ elim (Result-cases (toml.to_string_pretty (as_on_disk c))) [
      | inl (t, q) ↦ ground (arith, finite, q)
      | inr (e, q) ↦ absurd (ground (arith, finite, q))
    ]
  ]

  -- After a save that succeeds the file holds the text of the settings.
  save-content :
      (path : String) (c : Config F) (d : D)
      → IsFileSystem fs content
      → tmp_of paths path ≢ path
      → (save_to_file toml paths fs path c d).0 ≡ ok tt
      → (text : String) × ((contents_of {X = X} toml paths fs c ≡ ok text)
          × (content (save_to_file toml paths fs path c d).1 path ≡ some (toml.as_bytes text)))
  unfolding save_to_file io_result atomic_write_bytes_private
  save-content path c d law apart h = elim (Result-cases (contents_of {X = X} toml paths fs c)) [
    | inr (e, q) ↦ absurd (ground (arith, q))
    | inl (text, q) ↦
        let wrote =
          atomic_write_bytes_with_fs_mode paths fs path (toml.as_bytes text) (some 384) d in
        let after =
          atomic_write-Replaced paths fs content path (toml.as_bytes text) (some 384) d law apart in
        elim (Result-cases wrote.0) [
          | inl (u, w) ↦ (text, (q, ground (arith, q, w, after)))
          | inr (e, w) ↦ absurd (ground (arith, q, w))
        ]
  ]

  load-parsed :
      (path text : String) (k : Config F) (d : D)
      → fs.path_exists path d ≡ true
      → m.read_to_string path d ≡ ok text
      → toml.from_str text ≡ ok k
      → (load_from_file toml paths fs m path d).0 ≡ ok (resolve_password m k d).0
  unfolding load_from_file parsed
  load-parsed path text k d there read back = rw (there, read, back, load_from_file, parsed) refl

  -- Settings that were saved are loaded again, the password from where it would have come for the
  -- saved settings themselves: the file system keeps what POSIX promises, the temporary name is
  -- not the file's, the file is read as the text that was written, the toml library reads these
  -- settings back from it, the password was not from the environment, and the save succeeded.
  pub load-save :
      (path : String) (c : Config F) (d : D)
      → IsFileSystem fs content
      → ((text : String)
          → toml.to_string_pretty (as_on_disk c) ≡ ok text
          → IsReadable toml fs m content path text)
      → IsFaithful toml (as_on_disk c)
      → tmp_of paths path ≢ path
      → c.password_from_env ≡ false
      → (save_to_file toml paths fs path c d).0 ≡ ok tt
      → (load_from_file toml paths fs m path (save_to_file toml paths fs path c d).1).0
        ≡ ok (resolve_password m c (save_to_file toml paths fs path c d).1).0
  load-save path c d law readable faithful apart inline saved =
      let d' = (save_to_file toml paths fs path c d).1 in
      let (text, (made, holds)) = save-content path c d law apart saved in
      let printed = contents_of-ok c text made in
      let file = readable text printed in
      load-parsed path text (of_disk (as_on_disk c)) d' (file.exists d' holds) (file.reads d' holds)
        (faithful.back text printed)
      ∙ ap (λ out. ok out.0) (resolves_alike m c d' inline)
