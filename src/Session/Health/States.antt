-- ===== src/Session/Health/States.antt =====
-- session/health.go: when each state is reported.
use lib_agent_harness.Session.Health.{Session}
