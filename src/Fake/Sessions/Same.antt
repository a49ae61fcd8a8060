-- ===== src/Fake/Sessions/Same.antt =====
-- `exec` applies what `try_exec` returns.
use Prim.Native.String.{String}
use test_suites.Prelude.{ℕ, ◌≡◌}
use test_suites.Prelude.Attempt.{Attempt}
use test_suites.Fake.{Crates}
use test_suites.Fake.Sessions.{Sessions, enable_all, testing}

module _ (k : Crates) (s : Sessions k) where
  open k use {Bytes, ModuleId, Store, VmStatus, Features}
  open s use {TypeTag, Session, Vm}

  -- The testing profile of the timed features makes no difference to the VM.
  abbrev pub SameProfile : Type 0
  SameProfile =
      (chain : ℕ) (features : Features) (store : Store)
      → s.new_vm chain features testing store ≡ s.new_vm chain features enable_all store
