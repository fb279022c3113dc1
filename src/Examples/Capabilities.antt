-- ===== src/Examples/Capabilities.antt =====
-- Claims of the capability table.
use lib_agent_harness.Prelude.{true, ◌≡◌, refl}
use lib_agent_harness.Capability.Vocabulary.{claude, session, available, resume, usable}
use lib_agent_harness.Capability.{linux, support_for, from_table, on_platform}
use lib_agent_harness.Capability.Table.{support_table}
use lib_agent_harness.Capability.Bounds.{feature_needs_operation}

resume_usable : usable (support_for linux claude session resume) ≡ true
unfolding support_for usable from_table support_table on_platform
resume_usable = refl

feature_needs_operation_example : usable (support_for linux claude session available) ≡ true
feature_needs_operation_example = feature_needs_operation linux claude session resume resume_usable
