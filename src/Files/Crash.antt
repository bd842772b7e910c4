-- ===== src/Files/Crash.antt =====
-- A replaced file is never seen half written, whatever fails and wherever the power goes.
use ferrosonic.Prelude.{ℕ, ◌≡◌, ◌∙◌, ◌≢◌, inl, inr, arith, String, Option, some, List, Option-cases}
use ferrosonic.Prelude.Results.{Result, ok, err, Result-cases}
use ferrosonic.Files.{
  FileSystem, Paths, tmp_of, fsync_parent_dir_with_fs, ensure_parent, publish, write_and_publish,
  atomic_write_bytes_with_fs_mode,
}

-- What POSIX promises of each call, on what a file holds: only the named file changes; a write that
-- reports success has written all; a renaming takes place as a whole or not at all.
pub record IsFileSystem {D X : Type 0} (fs : FileSystem D X)
    (content : D → String → Option (List ℕ)) : Type 0 where
  pub create_dir_all-keeps :
      (dir p : String) (d : D) → content (fs.create_dir_all dir d).1 p ≡ content d p
  pub sync_dir-keeps :
      (dir p : String) (d : D) → content (fs.open_and_sync_dir dir d).1 p ≡ content d p
  pub remove-keeps :
      (q p : String) (d : D) → q ≢ p → content (fs.remove_file_if_exists q d).1 p ≡ content d p
  pub write-keeps :
      (q p : String) (body : List ℕ) (mode : Option ℕ) (d : D)
      → q ≢ p
      → content (fs.write_then_sync q body mode d).1 p ≡ content d p
  pub write-ok :
      (q : String) (body : List ℕ) (mode : Option ℕ) (d : D)
      → (fs.write_then_sync q body mode d).0 ≡ ok tt
      → content (fs.write_then_sync q body mode d).1 q ≡ some body
  pub rename-ok :
      (q p : String) (d : D)
      → (fs.rename q p d).0 ≡ ok tt
      → content (fs.rename q p d).1 p ≡ content d q
  pub rename-keeps :
      (q p r : String) (d : D) → q ≢ r → p ≢ r → content (fs.rename q p d).1 r ≡ content d r
  pub rename-err :
      (q p r : String) (d : D) (e : X)
      → (fs.rename q p d).0 ≡ err e
      → content (fs.rename q p d).1 r ≡ content d r

module _ {D X : Type 0} (paths : Paths) (fs : FileSystem D X)
    (content : D → String → Option (List ℕ)) where
  -- The outcomes of a replacement: the new bytes, or an error and the old ones.
  abbrev pub Replaced : String → List ℕ → D → Result X (Unit {0}) × D → Type 0
  Replaced path body d (ok u, d') = content d' path ≡ some body
  Replaced path body d (err e, d') = content d' path ≡ content d path

  pub fsync-keeps :
      (path p : String) (d : D)
      → IsFileSystem fs content
      → content (fsync_parent_dir_with_fs paths fs path d) p ≡ content d p
  unfolding fsync_parent_dir_with_fs
  fsync-keeps path p d law = elim (Option-cases (paths.parent path)) [
    | inl n ↦ ground (arith, n)
    | inr (dir, q) ↦ ground (arith, q, law.sync_dir-keeps dir p d)
  ]

  ensure_parent-keeps :
      (path p : String) (d : D)
      → IsFileSystem fs content
      → content (ensure_parent paths fs path d).1 p ≡ content d p
  unfolding ensure_parent
  ensure_parent-keeps path p d law = elim (Option-cases (paths.parent path)) [
    | inl n ↦ ground (arith, n)
    | inr (dir, q) ↦ ground (arith, q, law.create_dir_all-keeps dir p d)
  ]

  publish-Replaced :
      (path : String) (body : List ℕ) (d : D)
      → IsFileSystem fs content
      → tmp_of paths path ≢ path
      → content d (tmp_of paths path) ≡ some body
      → Replaced path body d (publish paths fs path d)
  unfolding publish
  publish-Replaced path body d law apart h =
      elim (Result-cases (fs.rename (tmp_of paths path) path d).0) [
        | inl (u, q) ↦ ground (
          arith,
          q,
          law.rename-ok (tmp_of paths path) path d q,
          fsync-keeps path path (fs.rename (tmp_of paths path) path d).1 law,
        )
        | inr (e, q) ↦ ground (
          arith,
          q,
          law.rename-err (tmp_of paths path) path path d e q,
          law.remove-keeps (tmp_of paths path) path (fs.rename (tmp_of paths path) path d).1 apart,
        )
      ]

  -- What is replaced after steps that keep the file is replaced.
  Replaced-after :
      (path : String) (body : List ℕ) (d d' : D) (out : Result X (Unit {0}) × D)
      → content d' path ≡ content d path
      → Replaced path body d' out
      → Replaced path body d out
  Replaced-after path body d d' (ok u, e) same h = h
  Replaced-after path body d d' (err x, e) same h = h ∙ same

  write_and_publish-Replaced :
      (path : String) (body : List ℕ) (mode : Option ℕ) (d : D)
      → IsFileSystem fs content
      → tmp_of paths path ≢ path
      → Replaced path body d (write_and_publish paths fs path body mode d)
  unfolding write_and_publish
  write_and_publish-Replaced path body mode d law apart =
      let tmp = tmp_of paths path in
      let wrote = fs.write_then_sync tmp body mode d in
      let same = law.write-keeps tmp path body mode d apart in
      elim (Result-cases wrote.0) [
        | inl (u, q) ↦
            rw (q, Replaced, write_and_publish)
              (Replaced-after path body d wrote.1 (publish paths fs path wrote.1) same
                (publish-Replaced path body wrote.1 law apart (law.write-ok tmp body mode d q)))
        | inr (e, q) ↦ ground (arith, q, same, law.remove-keeps tmp path wrote.1 apart)
      ]

  -- Writing a file in one go either succeeds, and the file holds the new bytes, or fails, and it
  -- holds what it held, provided that the file system keeps what POSIX promises and that the
  -- temporary name is not the file's.
  pub atomic_write-Replaced :
      (path : String) (body : List ℕ) (mode : Option ℕ) (d : D)
      → IsFileSystem fs content
      → tmp_of paths path ≢ path
      → Replaced path body d (atomic_write_bytes_with_fs_mode paths fs path body mode d)
  unfolding atomic_write_bytes_with_fs_mode
  atomic_write-Replaced path body mode d law apart =
      let made = ensure_parent paths fs path d in
      let same = ensure_parent-keeps path path d law in
      elim (Result-cases made.0) [
        | inl (u, q) ↦
            rw (q, Replaced, atomic_write_bytes_with_fs_mode)
              (Replaced-after path body d made.1 (write_and_publish paths fs path body mode made.1)
                same (write_and_publish-Replaced path body mode made.1 law apart))
        | inr (e, q) ↦ ground (arith, q, same)
      ]
