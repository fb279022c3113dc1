-- ===== src/Workbench.antt =====
-- sandbox/write.go: `applyEdit`, with what it uses of strings.Count and strings.Replace, and
-- `replaceFile`, which puts the content in place. `writeFile` refuses an empty old text before.
pub mod Edit
pub mod Exact
pub mod Parts
pub mod Replace
