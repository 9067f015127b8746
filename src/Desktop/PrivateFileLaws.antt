-- ===== src/Desktop/PrivateFileLaws.antt =====
-- src/desktop.rs, `write_private_file`: what is at the destination after it.
use rust_ssh.Prelude.{
  ℕ, ◌≡◌, refl, List, [], ◌∷◌, Bool, true, false, Option, none, some, Text, Event, Always,
}
use rust_ssh.Desktop.PrivateFile.{
  FileCall, create_private, write_all, flush, rename, remove_file, FileReply, Written, written,
  failed_write, failed_rename, give_up, renamed, flushed, filled, created, write_private_file,
}

abbrev pub FileLog : Type 0
FileLog = List (Event FileCall FileReply)

-- What the calls have made of the two files: the bytes of the temporary one, if there is one, and the
-- new bytes of the destination, if it was replaced. A call that fails changes nothing, but a failed
-- `write_all` may have written a part: then the bytes are not known, the `none` inside.
pub record Disk : Type 0 where
  pub temporary : Option (Option (List ℕ))
  pub destination : Option (Option (List ℕ))

abbrev pub clean : Disk
clean = record { temporary = none; destination = none }

unfoldable pub disk : FileLog → Disk
disk [] = clean
disk ((create_private, none) ∷ log) = record (disk log) { temporary = some (some []) }
disk ((write_all bytes, none) ∷ log) = record (disk log) { temporary = some (some bytes) }
disk ((write_all bytes, some e) ∷ log) = record (disk log) { temporary = some none }
disk ((rename, none) ∷ log) = record { temporary = none; destination = (disk log).temporary }
disk ((remove_file, none) ∷ log) = record (disk log) { temporary = none }
disk (event ∷ log) = disk log

-- The last call, if it was the removal, succeeded.
abbrev pub is_removed : FileLog → Bool
is_removed ((remove_file, some e) ∷ log) = false
is_removed log = true

pub record IsAtomic (bytes : List ℕ) (log : FileLog) (result : Written) : Type 0 where
  pub replaced :
      result ≡ written → disk log ≡ record { temporary = none; destination = some (some bytes) }
  pub kept : ¬ (result ≡ written) → (disk log).destination ≡ none
  pub tidy : is_removed log ≡ true → (disk log).temporary ≡ none

module _ (bytes : List ℕ) where
  -- A removal on top of calls that did not touch the destination.
  give_up-IsAtomic :
      (log : FileLog) (result : Written)
      → ¬ (result ≡ written)
      → (disk log).destination ≡ none
      → Always (IsAtomic bytes) log (give_up result)
  unfolding give_up disk
  give_up-IsAtomic log result not_written kept none = record {
    replaced = λ e. absurd (not_written e);
    kept = λ _. kept;
    tidy = λ _. refl;
  }
  give_up-IsAtomic log result not_written kept (some e) = record {
    replaced = λ h. absurd (not_written h);
    kept = λ _. kept;
    tidy = λ h. cc;
  }

  write_failed : (e : Text) → ¬ (failed_write e ≡ written)
  write_failed e h = cc

  rename_failed : (e : Text) → ¬ (failed_rename e ≡ written)
  rename_failed e h = cc

  abbrev filling : FileLog
  filling = (write_all bytes, none) ∷ (create_private, none) ∷ []

  renamed-IsAtomic :
      (r : Option Text)
      → Always (IsAtomic bytes) ((rename, r) ∷ (flush, none) ∷ filling) (renamed r)
  unfolding renamed disk
  renamed-IsAtomic none = record {
    replaced = λ _. refl;
    kept = λ h. absurd (h refl);
    tidy = λ _. refl;
  }
  renamed-IsAtomic (some e) = give_up-IsAtomic _ (failed_rename e) (rename_failed e) refl

  flushed-IsAtomic : (r : Option Text) → Always (IsAtomic bytes) ((flush, r) ∷ filling) (flushed r)
  unfolding flushed disk
  flushed-IsAtomic none = renamed-IsAtomic
  flushed-IsAtomic (some e) = give_up-IsAtomic _ (failed_write e) (write_failed e) refl

  filled-IsAtomic :
      (r : Option Text)
      → Always (IsAtomic bytes) ((write_all bytes, r) ∷ (create_private, none) ∷ []) (filled r)
  unfolding filled disk
  filled-IsAtomic none = flushed-IsAtomic
  filled-IsAtomic (some e) = give_up-IsAtomic _ (failed_write e) (write_failed e) refl

  created-IsAtomic :
      (r : Option Text) → Always (IsAtomic bytes) ((create_private, r) ∷ []) (created bytes r)
  unfolding created disk
  created-IsAtomic none = filled-IsAtomic
  created-IsAtomic (some e) = give_up-IsAtomic _ (failed_write e) (write_failed e) refl

-- Whatever the file system answers, on every run of write_private_file the destination is replaced by
-- all the bytes if it succeeds and is left alone if it fails, and no temporary file is left unless its
-- removal failed.
pub write_private_file-IsAtomic :
    (file_name : Option Text) (bytes : List ℕ)
    → Always (IsAtomic bytes) [] (write_private_file file_name bytes)
unfolding write_private_file disk
write_private_file-IsAtomic none bytes = record {
  replaced = λ e. cc;
  kept = λ _. refl;
  tidy = λ _. refl;
}
write_private_file-IsAtomic (some file_name) bytes = created-IsAtomic bytes
