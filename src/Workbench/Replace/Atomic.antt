-- ===== src/Workbench/Replace/Atomic.antt =====
-- sandbox/write.go: a replacement is all or nothing.
use lib_agent_harness.Prelude.{
  ℕ, Bool, true, false, not, ◌&&◌, ◌||◌, Option, none, some, ◌==◌, if◌then◌else◌, ◌≡◌, refl, sym,
  ap, ◌⊎◌, inl, inr, arith,
}
use lib_agent_harness.Text.{Text}
use lib_agent_harness.Workbench.Replace.{
  Entry, Directory, Renaming, moves, stays, moves_with_error, Faults, Written, wrote, write_failed,
  write_unknown, is_some, any_fault, is_file, with_temp, failing, committed, after_error, moved,
  rename_file, fill_file, replace_file,
}

abbrev pub is_clean : Renaming → Bool
is_clean moves = true
is_clean _ = false

-- Nothing goes wrong, and the temporary name is free.
abbrev pub is_smooth : Faults → Directory → Bool
is_smooth f d =
    not (f.stopped || f.no_random || f.no_create || is_some d.temp)
    && not (f.no_write || f.no_sync || f.no_chmod || f.cancelled || f.no_stat || f.no_close)
    && is_clean f.renaming
    && not (any_fault f.directories)

module _ (file_mode : ℕ → ℕ) (fresh : ℕ) (content : Text) (mode : ℕ) (f : Faults)
    (d : Directory) where
  abbrev pub new_entry : Entry
  new_entry = record { file = fresh; content = content; mode = file_mode mode }

  -- What the answer says of the two names.
  abbrev pub IsAtomic : Directory × Written → Type 0
  IsAtomic (d', wrote) = (d'.target ≡ some new_entry) × (d'.temp ≡ none)
  IsAtomic (d', write_failed) =
      (d'.target ≡ d.target) × ((f.no_remove ≡ true) ⊎ (d'.temp ≡ d.temp)) × (is_smooth f d ≡ false)
  IsAtomic (d', write_unknown) =
      ((d'.target ≡ d.target) ⊎ (d'.target ≡ some new_entry)) × (is_smooth f d ≡ false)

  failing-IsAtomic :
      (t : Directory)
      → t.target ≡ d.target
      → d.temp ≡ none
      → is_smooth f d ≡ false
      → IsAtomic (failing file_mode fresh content mode f t)
  failing-IsAtomic t same free rough = each f.no_remove refl
    where
      each :
          (b : Bool)
          → f.no_remove ≡ b
          → IsAtomic (if b then t else record t { temp = none }, write_failed)
      each true e = (same, inl e, rough)
      each false e = (same, inr (sym free), rough)

  committed-IsAtomic :
      (t : Directory)
      → t.target ≡ some new_entry
      → t.temp ≡ none
      → IsAtomic (committed file_mode fresh content mode f t)
  committed-IsAtomic t there gone = each (any_fault f.directories) refl
    where
      each :
          (b : Bool)
          → any_fault f.directories ≡ b
          → IsAtomic (t, if b then write_unknown else wrote)
      each true e = (inr there, ground (arith, e))
      each false e = (there, gone)

  itself : (fresh == fresh) ≡ true
  itself = ground arith

  abbrev ready : Directory
  ready = with_temp file_mode fresh content mode f d content (file_mode mode)

  rename_file-IsAtomic :
      (r : Renaming)
      → f.renaming ≡ r
      → is_file fresh d.target ≡ false
      → d.temp ≡ none
      → IsAtomic (rename_file file_mode fresh content mode f r ready)
  unfolding rename_file after_error
  rename_file-IsAtomic moves e other free =
      committed-IsAtomic (moved file_mode fresh content mode f ready) refl refl
  rename_file-IsAtomic stays e other free =
      rw (other, and_false f.target_unseen) (each f.temp_unseen)
    where
      rough : is_smooth f d ≡ false
      rough = ground (arith, ap is_clean e)

      and_false : (b : Bool) → (not b && false) ≡ false
      and_false true = refl
      and_false false = refl

      each :
          (b : Bool)
          → IsAtomic (
              if not b && (fresh == fresh)
              then failing file_mode fresh content mode f ready
              else (ready, write_unknown))
      each true = (inl refl, rough)
      each false = rw itself (failing-IsAtomic ready refl free rough)
  rename_file-IsAtomic moves_with_error e other free = each f.target_unseen refl
    where
      t : Directory
      t = moved file_mode fresh content mode f ready

      nothing : (b : Bool) → (not b && false) ≡ false
      nothing true = refl
      nothing false = refl

      each :
          (b : Bool)
          → f.target_unseen ≡ b
          → IsAtomic (
              if not b && (fresh == fresh)
              then committed file_mode fresh content mode f t
              else if not f.temp_unseen && false
              then failing file_mode fresh content mode f t
              else (t, write_unknown))
      each true u = rw (nothing f.temp_unseen) (inr refl, ground (arith, ap is_clean e))
      each false u = rw itself (committed-IsAtomic t refl refl)

  fill_file-IsAtomic :
      is_file fresh d.target ≡ false
      → d.temp ≡ none
      → IsAtomic (fill_file file_mode fresh content mode f d)
  unfolding fill_file
  fill_file-IsAtomic other free =
      each f.no_write (f.no_sync || f.no_chmod) (f.cancelled || f.no_stat || f.no_close) refl refl
        refl
    where
      each :
          (a b c : Bool)
          → f.no_write ≡ a
          → (f.no_sync || f.no_chmod) ≡ b
          → (f.cancelled || f.no_stat || f.no_close) ≡ c
          → IsAtomic (
              if a
              then failing file_mode fresh content mode f
                  (with_temp file_mode fresh content mode f d f.written 384)
              else if b
              then failing file_mode fresh content mode f
                  (with_temp file_mode fresh content mode f d content 384)
              else if c
              then failing file_mode fresh content mode f ready
              else rename_file file_mode fresh content mode f f.renaming ready)
      each true b c p q r =
          failing-IsAtomic (with_temp file_mode fresh content mode f d f.written 384) refl free
            (ground (arith, p))
      each false true c p q r =
          failing-IsAtomic (with_temp file_mode fresh content mode f d content 384) refl free
            (ground (arith, q))
      each false false true p q r = failing-IsAtomic ready refl free (ground (arith, r))
      each false false false p q r = rename_file-IsAtomic f.renaming refl other free

-- A replacement is all or nothing, whatever goes wrong, where the file that it creates is not the target.
-- If it answers that it wrote, the target is the new file, with its content and its mode, and the
-- temporary file is gone. If it answers that the write failed, the target is what it was, and so is the
-- temporary name unless removing the file failed too. If it answers that it does not know, the target is
-- either. It answers in the last two ways only where something went wrong or the temporary name was taken.
pub replace_file-IsAtomic :
    (file_mode : ℕ → ℕ) (fresh : ℕ) (content : Text) (mode : ℕ) (f : Faults) (d : Directory)
    → is_file fresh d.target ≡ false
    → IsAtomic file_mode fresh content mode f d (replace_file file_mode fresh content mode f d)
unfolding replace_file
replace_file-IsAtomic file_mode fresh content mode f d other =
    each (f.stopped || f.no_random || f.no_create || is_some d.temp) refl
  where
    free : (t : Option Entry) → is_some t ≡ false → t ≡ none
    free none h = refl
    free (some e) h = absurd (ground (arith, h))

    each :
        (b : Bool)
        → (f.stopped || f.no_random || f.no_create || is_some d.temp) ≡ b
        → IsAtomic file_mode fresh content mode f d
            (if b then (d, write_failed) else fill_file file_mode fresh content mode f d)
    each true e = (refl, inr refl, ground (arith, e))
    each false e =
        fill_file-IsAtomic file_mode fresh content mode f d other (free d.temp (ground (arith, e)))
