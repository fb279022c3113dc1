-- ===== src/Examples/Edits.antt =====
-- An edit of a small file, with one match and with two.
use lib_agent_harness.Prelude.{codes, true, false, ◌≡◌, refl, arith}
use lib_agent_harness.Text.{Text}
use lib_agent_harness.Workbench.Edit.{
  is_prefix, count_from, replace_from, edited_length, edited, refused, match_not_unique, apply_edit,
}
use lib_agent_harness.Workbench.Parts.{join}
use lib_agent_harness.Workbench.Exact.{parts, Explains, edit_explained}

abbrev source : Text
source = codes "let a = b; let c = b"

edit_explained_example :
    (source ≡ join (codes "let") (parts 108 (codes "et") source))
    × Explains 108
        (codes "et")
        source
        (codes "var")
        true
        (apply_edit source (codes "let") (codes "var") true)
edit_explained_example =
    edit_explained 108 (codes "et") source (codes "var") true (omega arith) (omega arith)

edits_all :
    apply_edit source (codes "let") (codes "var") true ≡ edited (codes "var a = b; var c = b")
unfolding apply_edit count_from replace_from edited_length is_prefix
edits_all = refl

refuses_two : apply_edit source (codes "let") (codes "var") false ≡ refused match_not_unique
unfolding apply_edit count_from is_prefix
refuses_two = refl

-- Two matches that overlap count as one.
overlap_is_unique : apply_edit (codes "aaa") (codes "aa") (codes "b") false ≡ edited (codes "ba")
unfolding apply_edit count_from replace_from edited_length is_prefix
overlap_is_unique = refl
