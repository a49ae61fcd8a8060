-- ===== src/Block/Entry.antt =====
-- `execute_block` and the frame of `execute_transactions_parallel`
-- (codes/aptos/modified/block-executor/src/executor.rs). What the worker threads do between the
-- start and the end of their scope is the argument `scope`.
pub mod Outcomes
use test_suites.Prelude.{
  ℕ, ◌≡◌, Bool, true, false, Option, none, some, List, [], ◌∷◌, ◌++◌, ltb, is_empty, if◌then◌else◌,
  length, replicate, map,
}
use test_suites.Prelude.Outcome.{Outcome, returns, panics}
use test_suites.Prelude.Attempt.{Attempt, ok, err, panicked}
use test_suites.Block.Status.{
  LocalConfig, BlockExecutionError, fatal_block_executor_error, fatal_vm_error, PanicError,
  code_invariant_error, SequentialBlockExecutionError, error_to_return,
  resource_group_serialization_error, HookCall, StatusCode,
  delayed_materialization_code_invariant_error, unknown_invariant_violation_error,
}
use test_suites.Block.Environment.{Environment}
use test_suites.Block.Sequential.{execute_transactions_sequential}

-- How a worker loop ended; the errors differ only in what is logged.
pub data WorkerResult : Type 0 where
  finished : WorkerResult
  failed : WorkerResult

module _ (env : Environment) where
  open env use {Txn, Output, Error}

  -- The scope of the workers: from their number, the block and the initial results to the result
  -- of each worker and the final results, or a panic.
  abbrev pub Scope : Type 0
  Scope = ℕ → List Txn → List Output → Outcome (List WorkerResult × List Output)

  -- `shared_maybe_error`: some worker returned an error.
  unfoldable pub maybe_error : List WorkerResult → Bool
  maybe_error [] = false
  maybe_error (failed ∷ rest) = true
  maybe_error (finished ∷ rest) = maybe_error rest

  -- `none` is the error `()`.
  unfoldable pub execute_transactions_parallel :
      Scope → LocalConfig → List Txn → Outcome (Option (List Output))
  unfolding maybe_error
  execute_transactions_parallel scope local block =
      if ltb 1 local.concurrency_level
      then if is_empty block
        then returns (some [])
        else elim (scope local.concurrency_level block (replicate (length block) env.skip_output)) [
          | returns (results, outputs) ↦
              returns (if maybe_error results then none else some outputs)
          | panics ↦ panics
        ]
      else panics

  -- The status code of the discarded outputs.
  unfoldable pub error_code : BlockExecutionError Error → StatusCode
  error_code (fatal_block_executor_error e) = delayed_materialization_code_invariant_error
  error_code (fatal_vm_error e) = unknown_invariant_violation_error

  -- What is returned once sequential execution has failed.
  unfoldable pub on_error :
      LocalConfig
      → List Txn
      → BlockExecutionError Error
      → Attempt (BlockExecutionError Error) (List Output)
  unfolding error_code
  on_error local block e =
      if local.discard_failed_blocks
      then ok (map (λ _. env.discard_output (error_code e)) block)
      else err e

  abbrev pub Result : Type 0
  Result = Attempt (BlockExecutionError Error) (List Output) × List (HookCall Output)

  -- The second sequential pass, in the fallback mode; the calls of the first pass stand.
  unfoldable pub bcs_fallback : LocalConfig → Bool → List Txn → List (HookCall Output) → Result
  unfolding on_error
  bcs_fallback local has_hook block calls =
      let (result, more) = execute_transactions_sequential env has_hook block true in
      (
        elim result [
          | ok outputs ↦ ok outputs
          | err resource_group_serialization_error ↦ on_error local block (
              fatal_block_executor_error (
                code_invariant_error
                  "resource group serialization during bcs fallback should not happen"))
          | err (error_to_return e) ↦ on_error local block e
          | panicked ↦ panicked
        ],
        calls ++ more,
      )

  unfoldable pub run_sequential : LocalConfig → Bool → List Txn → Result
  unfolding bcs_fallback
  run_sequential local has_hook block =
      let (result, calls) = execute_transactions_sequential env has_hook block false in
      elim result [
        | ok outputs ↦ (ok outputs, calls)
        | err resource_group_serialization_error ↦
            if local.allow_fallback
            then bcs_fallback local has_hook block calls
            else (panicked, calls)
        | err (error_to_return e) ↦ (on_error local block e, calls)
        | panicked ↦ (panicked, calls)
      ]

  -- The calls on the hook are those of the sequential passes; those of the workers are not shown.
  unfoldable pub execute_block : Scope → LocalConfig → Bool → List Txn → Result
  unfolding run_sequential execute_transactions_parallel
  execute_block scope local has_hook block =
      if ltb 1 local.concurrency_level
      then elim (execute_transactions_parallel scope local block) [
        | returns (some outputs) ↦ (ok outputs, [])
        | returns none ↦
            if local.allow_fallback then run_sequential local has_hook block else (panicked, [])
        | panics ↦ (panicked, [])
      ]
      else run_sequential local has_hook block
