-- ===== src/Block/Sequential/Fallback.antt =====
-- The fallback mode changes nothing where every resource group can be serialised.
use test_suites.Block.Environment.{Environment}
