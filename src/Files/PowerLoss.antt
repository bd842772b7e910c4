-- ===== src/Files/PowerLoss.antt =====
-- A power loss in the course of a replacement: the calls end at some point, and of those that were
-- made only what had reached the disk is left.
use ferrosonic.Prelude.{
  ℕ, zero, suc, Bool, true, ◌≡◌, ◌≢◌, ◌⊎◌, refl, sym, inl, arith, String, Option, some, List, ltb,
}
use ferrosonic.Prelude.Results.{Result, ok, err}
use ferrosonic.Files.{FileSystem, Paths, tmp_of, atomic_write_bytes_with_fs_mode}
use ferrosonic.Files.WriteBack.{IsWriteBack, Lasts, atomic_write-Lasts}

-- There are calls left.
abbrev pub is_on : {D : Type 0} → ℕ × D → Bool
is_on s = ltb 0 s.0

module _ {D X : Type 0} (off : X) where
  -- A call that takes place only while there are calls left.
  unfoldable pub budget : (D → Result X (Unit {0}) × D) → ℕ × D → Result X (Unit {0}) × (ℕ × D)
  budget f (zero, d) = (err off, (zero, d))
  budget f (suc n, d) = let out = f d in (out.0, (n, out.1))

  -- The file system whose power goes after as many calls as the state counts.
  unfoldable pub cut : FileSystem D X → FileSystem (ℕ × D) X
  cut fs = record {
    create_dir_all = λ dir. budget (fs.create_dir_all dir);
    path_exists = λ p s. fs.path_exists p s.1;
    write_then_sync = λ p body mode. budget (fs.write_then_sync p body mode);
    rename = λ q p. budget (fs.rename q p);
    remove_file_if_exists = λ p. budget (fs.remove_file_if_exists p);
    open_and_sync_dir = λ dir. budget (fs.open_and_sync_dir dir);
  }

  module _ (view : D → Option (List ℕ)) where
    budget-keeps :
        (f : D → Result X (Unit {0}) × D) (s : ℕ × D)
        → view (f s.1).1 ≡ view s.1
        → view (budget f s).1.1 ≡ view s.1
    unfolding budget
    budget-keeps f (zero, d) h = refl
    budget-keeps f (suc n, d) h = h

    budget-ok :
        (f : D → Result X (Unit {0}) × D) (v : Option (List ℕ)) (s : ℕ × D)
        → ((f s.1).0 ≡ ok tt → view (f s.1).1 ≡ v)
        → (budget f s).0 ≡ ok tt
        → view (budget f s).1.1 ≡ v
    unfolding budget
    budget-ok f v (zero, d) h e = ground arith
    budget-ok f v (suc n, d) h e = h e

    budget-err :
        (f : D → Result X (Unit {0}) × D) (e : X) (s : ℕ × D)
        → ((x : X) → (f s.1).0 ≡ err x → view (f s.1).1 ≡ view s.1)
        → (budget f s).0 ≡ err e
        → view (budget f s).1.1 ≡ view s.1
    unfolding budget
    budget-err f e (zero, d) h q = refl
    budget-err f e (suc n, d) h q = h e q

    budget-or :
        (f : D → Result X (Unit {0}) × D) (R : Option (List ℕ) → Type 0) (s : ℕ × D)
        → (view (f s.1).1 ≡ view s.1) ⊎ R (view (f s.1).1)
        → (view (budget f s).1.1 ≡ view s.1) ⊎ R (view (budget f s).1.1)
    unfolding budget
    budget-or f R (zero, d) h = inl refl
    budget-or f R (suc n, d) h = h

    budget-on :
        (f : D → Result X (Unit {0}) × D) (v : Option (List ℕ)) (s : ℕ × D)
        → view (f s.1).1 ≡ v
        → ltb 0 (budget f s).1.0 ≡ true
        → view (budget f s).1.1 ≡ v
    unfolding budget
    budget-on f v (zero, d) h up = absurd (ground arith)
    budget-on f v (suc n, d) h up = h

  module _ (paths : Paths) (fs : FileSystem D X)
      (written durable : D → String → Option (List ℕ)) where
    cut-IsWriteBack :
        IsWriteBack paths fs written durable (λ d. true)
        → IsWriteBack paths (cut fs) (λ s. written s.1) (λ s. durable s.1) is_on
    unfolding cut
    cut-IsWriteBack law = record {
      create_dir_all-written = λ dir p s.
          budget-keeps (λ d. written d p) (fs.create_dir_all dir) s
            (law.create_dir_all-written dir p s.1);
      create_dir_all-durable = λ dir p s.
          budget-or (λ d. durable d p) (fs.create_dir_all dir) (λ v. v ≡ written s.1 p) s
            (law.create_dir_all-durable dir p s.1);
      write-written = λ q p body mode s h.
          budget-keeps (λ d. written d p) (fs.write_then_sync q body mode) s
            (law.write-written q p body mode s.1 h);
      write-durable = λ q p body mode s h.
          budget-or (λ d. durable d p) (fs.write_then_sync q body mode) (λ v. v ≡ written s.1 p) s
            (law.write-durable q p body mode s.1 h);
      write-ok = λ q body mode s.
          budget-ok (λ d. written d q) (fs.write_then_sync q body mode) (some body) s
            (law.write-ok q body mode s.1);
      remove-durable = λ q p s h.
          budget-or (λ d. durable d p) (fs.remove_file_if_exists q) (λ v. v ≡ written s.1 p) s
            (law.remove-durable q p s.1 h);
      rename-ok = λ q p s.
          budget-ok (λ d. written d p) (fs.rename q p) (written s.1 q) s (law.rename-ok q p s.1);
      rename-err =
          λ q p s e. budget-err (λ d. written d p) (fs.rename q p) e s (law.rename-err q p s.1);
      rename-durable = λ q p s.
          budget-or (λ d. durable d p) (fs.rename q p)
            (λ v. (v ≡ written s.1 p) ⊎ (v ≡ written s.1 q)) s (law.rename-durable q p s.1);
      sync_dir-durable = λ dir p s.
          budget-or (λ d. durable d p) (fs.open_and_sync_dir dir) (λ v. v ≡ written s.1 p) s
            (law.sync_dir-durable dir p s.1);
      sync_dir-on = λ dir p s above.
          budget-on (λ d. durable d p) (fs.open_and_sync_dir dir) (written s.1 p) s
            (law.sync_dir-on dir p s.1 above refl);
    }

    -- When the power goes after any number of calls, the file's name stands afterwards for what it
    -- stood for before, or for all of the new bytes; and a success reported before the power goes is
    -- kept whenever it goes later. What is not synced may be lost or not; the disk keeps what POSIX
    -- promises, directories can be synced, nothing of an earlier change is on its way to the disk, the
    -- file stands in a directory, and the temporary name is not the file's.
    pub atomic_write-survives_power_loss :
        (calls : ℕ) (path dir : String) (body : List ℕ) (mode : Option ℕ) (d : D)
        → IsWriteBack paths fs written durable (λ d. true)
        → tmp_of paths path ≢ path
        → paths.parent path ≡ some dir
        → durable d path ≡ written d path
        → Lasts paths
            (cut fs)
            (λ s. written s.1)
            (λ s. durable s.1)
            is_on
            path
            dir
            (durable d path)
            body
            (atomic_write_bytes_with_fs_mode paths (cut fs) path body mode (calls, d))
    atomic_write-survives_power_loss calls path dir body mode d law apart above settled =
        atomic_write-Lasts paths (cut fs) (λ s. written s.1) (λ s. durable s.1) is_on path dir
          (durable d path) body mode (calls, d) (cut-IsWriteBack law) apart above
          (refl, sym settled)
