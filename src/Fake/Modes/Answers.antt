-- ===== src/Fake/Modes/Answers.antt =====
-- What an executor answers in each mode, and what `execute_and_apply` has established.
use test_suites.Prelude.{◌≡◌, ◌≢◌}
use test_suites.Prelude.Outcome.{Outcome}
use test_suites.Prelude.Attempt.{panicked}
use test_suites.Fake.{Crates, ExecutorMode, sequential_only, parallel_only, both_comparison}
use test_suites.Fake.Modes.{BlockResult}

module _ (k : Crates) where
  open k use {Output, VmStatus, Transaction, SignedTransaction, Store, Execution, Code}

  -- The answer of a mode to a sequential and a parallel result.
  abbrev pub Answers : ExecutorMode → BlockResult k → BlockResult k → BlockResult k → Type 0
  Answers sequential_only sequential parallel answer = answer ≡ sequential
  Answers parallel_only sequential parallel answer = answer ≡ parallel
  Answers both_comparison sequential parallel answer =
      (sequential ≡ parallel → answer ≡ sequential) × (sequential ≢ parallel → answer ≡ panicked)
