-- ===== src/Config/PasswordFile/RoundTrip.antt =====
-- A password that was written to its file is the password that is read from it.
use Prim.Native.String.{◌++◌ as str_append}
use ferrosonic.Prelude.{ℕ, ◌≡◌, inl, inr, arith, String, Option, some, List, true}
use ferrosonic.Prelude.Results.{ok, Result-cases}
use ferrosonic.Files.{FileSystem, Paths, ensure_parent}
use ferrosonic.Files.Crash.{IsFileSystem, fsync-keeps}
use ferrosonic.Config.{Config}
use ferrosonic.Config.Secrets.{Machine, expand_tilde, from_file}
use ferrosonic.Config.Secrets.Lines.{is_line, extract_secret_line-append}
use ferrosonic.Config.PasswordFile.{move_into, write_at, write_password_file_atomic}

module _ {D X : Type 0} (paths : Paths) (fs : FileSystem D X) (as_bytes : String → List ℕ)
    (m : Machine D X) (content : D → String → Option (List ℕ)) where
  write_at-content :
      (p password : String) (d : D)
      → IsFileSystem fs content
      → (write_at paths fs as_bytes p password d).0 ≡ ok tt
      → content (write_at paths fs as_bytes p password d).1 p
        ≡ some (as_bytes (str_append password "\n"))
  unfolding write_at move_into
  write_at-content p password d law h =
      let tmp = paths.with_extension p "tmp" in
      let made = ensure_parent paths fs p d in
      let wrote = fs.write_then_sync tmp (as_bytes (str_append password "\n")) (some 384) made.1 in
      let moved = fs.rename tmp p wrote.1 in
      elim (Result-cases made.0) [
        | inr (e, q) ↦ absurd (ground (arith, q))
        | inl (u, q) ↦ elim (Result-cases wrote.0) [
          | inr (e, w) ↦ absurd (ground (arith, q, w))
          | inl (v, w) ↦ elim (Result-cases moved.0) [
            | inr (e, r) ↦ absurd (ground (arith, q, w, r))
            | inl (x, r) ↦ ground (
              arith,
              q,
              w,
              r,
              law.write-ok tmp (as_bytes (str_append password "\n")) (some 384) made.1 w,
              law.rename-ok tmp p wrote.1 r,
              fsync-keeps paths fs content p p moved.1 law,
            )
          ]
        ]
      ]

  -- A password that was written to its file is the one that the settings get from that file, if it
  -- is a line (it holds no line feed and does not end in a carriage return): the file system keeps
  -- what POSIX promises, the file is read as it was written, and the write succeeded.
  pub from_file-write :
      {F : Type 0} (c : Config F) (path password : String) (d : D)
      → IsFileSystem fs content
      → ((e : D)
          → content e (expand_tilde m path) ≡ some (as_bytes (str_append password "\n"))
          → m.read_to_string (expand_tilde m path) e ≡ ok (str_append password "\n"))
      → is_line password ≡ true
      → (write_password_file_atomic paths fs as_bytes m path password d).0 ≡ ok tt
      → (from_file m path c
          (write_password_file_atomic paths fs as_bytes m path password d).1).0.password
        ≡ password
  unfolding from_file write_password_file_atomic
  from_file-write c path password d law reads line h =
      let p = expand_tilde m path in
      let d' = (write_at paths fs as_bytes p password d).1 in
      let holds = write_at-content p password d law h in
      rw (reads d' holds) (extract_secret_line-append password "" line)
