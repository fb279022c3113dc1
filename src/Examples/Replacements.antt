-- ===== src/Examples/Replacements.antt =====
-- A replacement whose rename reports an error although the file has moved.
use lib_agent_harness.Prelude.{ℕ, false, [], ◌∷◌, some, none, codes, ◌≡◌, refl}
use lib_agent_harness.Workbench.Replace.{
  Directory, Faults, moves_with_error, stays, wrote, write_failed, after_error, rename_file,
  fill_file, replace_file,
}
use lib_agent_harness.Workbench.Replace.Atomic.{IsAtomic, replace_file-IsAtomic}

abbrev before : Directory
before = record {
  target = some (record { file = 1; content = codes "old"; mode = 420 });
  temp = none;
}

abbrev odd_rename : Faults
odd_rename = record {
  stopped = false;
  no_random = false;
  no_create = false;
  no_write = false;
  written = [];
  no_sync = false;
  no_chmod = false;
  cancelled = false;
  no_stat = false;
  no_close = false;
  renaming = moves_with_error;
  target_unseen = false;
  temp_unseen = false;
  no_remove = false;
  directories = false ∷ false ∷ [];
}

abbrev same_mode : ℕ → ℕ
same_mode mode = mode

replace_file-IsAtomic_example :
    IsAtomic same_mode 2
      (codes "new")
      420
      odd_rename
      before
      (replace_file same_mode 2 (codes "new") 420 odd_rename before)
replace_file-IsAtomic_example =
    replace_file-IsAtomic same_mode 2 (codes "new") 420 odd_rename before refl

sees_the_move : replace_file same_mode 2 (codes "new") 420 odd_rename before ≡ (
  record { target = some (record { file = 2; content = codes "new"; mode = 420 }); temp = none },
  wrote,
)
unfolding replace_file fill_file rename_file after_error
sees_the_move = refl

removes_what_stayed :
    replace_file same_mode 2 (codes "new") 420 (record odd_rename { renaming = stays }) before
    ≡ (before, write_failed)
unfolding replace_file fill_file rename_file after_error
removes_what_stayed = refl
