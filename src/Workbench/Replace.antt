-- ===== src/Workbench/Replace.antt =====
-- sandbox/write.go: `replaceFile`, which writes a temporary file and renames it over the target. What the
-- file system and the context do is a record of faults; nobody else writes the two names meanwhile.
-- `workbenchFileMode` is a parameter. Only these two files are modelled, not the modes of directories.
pub mod Atomic
use lib_agent_harness.Prelude.{
  ℕ, Bool, true, false, not, ◌&&◌, ◌||◌, Option, none, some, List, [], ◌∷◌, ◌==◌, if◌then◌else◌,
}
use lib_agent_harness.Text.{Text}

pub record Entry : Type 0 where
  pub file : ℕ  -- what `os.SameFile` compares
  pub content : Text
  pub mode : ℕ

-- the two names of the directory
pub record Directory : Type 0 where
  pub target : Option Entry
  pub temp : Option Entry

-- `Rename` may report an error although the file has moved.
pub data Renaming : Type 0 where
  moves stays moves_with_error : Renaming

-- What goes wrong, step by step: `true` for a fault, an error or a cancellation there.
pub record Faults : Type 0 where
  pub stopped : Bool
  pub no_random : Bool
  pub no_create : Bool
  pub no_write : Bool
  pub written : Text  -- what there is of the content then
  pub no_sync : Bool
  pub no_chmod : Bool
  pub cancelled : Bool  -- after the mode is set
  pub no_stat : Bool
  pub no_close : Bool
  pub renaming : Renaming
  pub target_unseen : Bool
  pub temp_unseen : Bool
  pub no_remove : Bool
  pub directories : List Bool  -- opening, modes and syncs of the directories

pub data Written : Type 0 where
  wrote write_failed write_unknown : Written

abbrev pub is_some {ℓ} : {A : Type ℓ} → Option A → Bool
is_some none = false
is_some (some _) = true

abbrev pub any_fault : List Bool → Bool
any_fault [] = false
any_fault (f ∷ fs) = f || any_fault fs

-- `os.SameFile` of a name and the new file
abbrev pub is_file : ℕ → Option Entry → Bool
is_file fresh none = false
is_file fresh (some e) = e.file == fresh

module _ (file_mode : ℕ → ℕ) (fresh : ℕ) (content : Text) (mode : ℕ) (f : Faults) where
  abbrev pub with_temp : Directory → Text → ℕ → Directory
  with_temp d text m = record d { temp = some (record { file = fresh; content = text; mode = m }) }

  -- the deferred `Remove`, where the write has failed
  abbrev pub failing : Directory → Directory × Written
  failing d = (if f.no_remove then d else record d { temp = none }, write_failed)

  -- after the rename
  abbrev pub committed : Directory → Directory × Written
  committed d = (d, if any_fault f.directories then write_unknown else wrote)

  -- where `Rename` reports an error
  unfoldable pub after_error : Directory → Directory × Written
  after_error d =
      if not f.target_unseen && is_file fresh d.target
      then committed d
      else if not f.temp_unseen && is_file fresh d.temp
      then failing d
      else (d, write_unknown)

  abbrev pub moved : Directory → Directory
  moved d = record { target = d.temp; temp = none }

  unfoldable pub rename_file : Renaming → Directory → Directory × Written
  unfolding after_error
  rename_file moves d = committed (moved d)
  rename_file stays d = after_error d
  rename_file moves_with_error d = after_error (moved d)

  -- after the temporary file is there; 384 is 0600
  unfoldable pub fill_file : Directory → Directory × Written
  unfolding rename_file
  fill_file d =
      if f.no_write
      then failing (with_temp d f.written 384)
      else if f.no_sync || f.no_chmod
      then failing (with_temp d content 384)
      else if f.cancelled || f.no_stat || f.no_close
      then failing (with_temp d content (file_mode mode))
      else rename_file f.renaming (with_temp d content (file_mode mode))

  -- `replaceFile`; it creates the temporary file only where there is none
  unfoldable pub replace_file : Directory → Directory × Written
  unfolding fill_file
  replace_file d =
      if f.stopped || f.no_random || f.no_create || is_some d.temp
      then (d, write_failed)
      else fill_file d
