-- ===== src/Block/Status.antt =====
-- The statuses, errors and configuration that codes/aptos/modified/block-executor/src/executor.rs
-- works with; they are declared in other files of its crate and of `aptos_types`.
use Prim.Native.String.{String}
use test_suites.Prelude.{ℕ, Bool, Option}

-- What the VM reports of one transaction.
pub data ExecutionStatus (O E : Type 0) : Type 0 where
  success : O → ExecutionStatus O E
  skip_rest : O → ExecutionStatus O E
  abort : E → ExecutionStatus O E
  speculative_execution_abort_error : String → ExecutionStatus O E
  delayed_fields_code_invariant_error : String → ExecutionStatus O E

pub data PanicError : Type 0 where
  code_invariant_error : String → PanicError

pub data BlockExecutionError (E : Type 0) : Type 0 where
  fatal_block_executor_error : PanicError → BlockExecutionError E
  fatal_vm_error : E → BlockExecutionError E

pub data SequentialBlockExecutionError (E : Type 0) : Type 0 where
  resource_group_serialization_error : SequentialBlockExecutionError E
  error_to_return : BlockExecutionError E → SequentialBlockExecutionError E

-- `From<PanicError>`
abbrev pub from_panic : {E : Type 0} → PanicError → SequentialBlockExecutionError E
from_panic e = error_to_return (fatal_block_executor_error e)

pub data StatusCode : Type 0 where
  delayed_materialization_code_invariant_error : StatusCode
  unknown_invariant_violation_error : StatusCode

-- `BlockExecutorLocalConfig`
pub record LocalConfig : Type 0 where
  pub concurrency_level : ℕ
  pub allow_fallback : Bool
  pub discard_failed_blocks : Bool

-- The parts of `BlockGasLimitType` that the executor reads.
pub record GasLimitConfig : Type 0 where
  pub block_output_limit : Option ℕ
  pub include_user_txn_size_in_block_output : Bool
  pub conflict_penalty_window : Option ℕ

-- The calls made on the commit hook.
pub data HookCall (O : Type 0) : Type 0 where
  on_transaction_committed : ℕ → O → HookCall O
  on_execution_aborted : ℕ → HookCall O
