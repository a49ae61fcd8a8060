-- ===== src/Block/Sequential.antt =====
-- `execute_transactions_sequential` (codes/aptos/modified/block-executor/src/executor.rs). The
-- loop over the block is a recursion on the transactions left; logs and counters are left out.
pub mod Advance
pub mod Commits
pub mod Fallback
pub mod Hook
use test_suites.Prelude.{
  ℕ, ◌+◌, ◌-◌, ◌≡◌, Bool, true, false, Option, none, some, List, [], ◌∷◌, ◌++◌, ltb, if◌then◌else◌,
  length, take, replicate, map,
}
use mathlib.Core.Option
use test_suites.Prelude.Words.{add64}
use test_suites.Prelude.Maps.{Dict, insert, erase}
use test_suites.Prelude.Attempt.{
  Attempt, ok, err, panicked, ◌>>=◌, ◌>>◌, map_err, unwrap, or_err, traverse, any,
}
use test_suites.Block.Status.{
  ExecutionStatus, success, skip_rest, abort, speculative_execution_abort_error,
  delayed_fields_code_invariant_error, code_invariant_error, BlockExecutionError, fatal_vm_error,
  SequentialBlockExecutionError, error_to_return, resource_group_serialization_error, from_panic,
  HookCall, on_transaction_committed, on_execution_aborted,
  delayed_materialization_code_invariant_error,
}
use test_suites.Block.Environment.{Environment}
use test_suites.Block.Delayed.{apply_output_sequential}

-- `Vec::resize_with`
unfoldable pub resize_with : {A : Type 0} → ℕ → A → List A → List A
resize_with n d xs = take n xs ++ replicate (n - length xs) d

module _ (env : Environment) where
  open env use {Txn, Output, Error, Write, GroupOp, Bytes, Map, Reads, Limit, Conflicts, Summary}

  -- What the loop carries: the map, the gas limit processor, the record of module conflicts, the
  -- outputs so far and the calls made on the commit hook.
  pub record State : Type 0 where
    pub values : Map
    pub limit : Limit
    pub conflicts : Conflicts
    pub ret : List Output
    pub hooks : List (HookCall Output)

  abbrev pub Failure : Type 0
  Failure = SequentialBlockExecutionError Error

  -- How the iteration of one transaction ends.
  pub data Flow : Type 0 where
    next : State → Flow
    stop : State → Flow
    fail : State → Failure → Flow
    crash : Flow

  unfoldable pub notify : Bool → HookCall Output → State → State
  notify has_hook call s = if has_hook then record s { hooks = s.hooks ++ call ∷ [] } else s

  unfoldable pub approx_output_size : Txn → Output → Option ℕ
  approx_output_size txn output =
      Option.map
        (λ _. add64 (env.output_approx_size output) (
          if env.config.include_user_txn_size_in_block_output
          then env.user_txn_bytes_len txn
          else 0))
        env.config.block_output_limit

  unfoldable pub read_write_summary : Reads → Output → Option Summary
  read_write_summary reads output =
      Option.map (λ _. env.read_write_summary reads output) env.config.conflict_penalty_window

  -- The gas and conflict accounting of a committed transaction.
  unfoldable pub account_for : Txn → Output → Reads → State → State
  unfolding approx_output_size read_write_summary
  account_for txn output reads s =
      let (conflicts', conflict) =
        env.check_and_append_module_rw_conflict s.conflicts reads output in
      let limit' = if conflict then env.process_module_rw_conflict s.limit else s.limit in
      record s {
        conflicts = conflicts';
        limit =
            env.accumulate_fee_statement limit' (env.fee_statement output)
              (read_write_summary reads output) (approx_output_size txn output);
      }

  -- `finalize`: deletions should have been applied already.
  unfoldable pub finalized_bytes : {F : Type 0} → Dict (Option Bytes) → Attempt F (Dict Bytes)
  finalized_bytes [] = ok []
  finalized_bytes ((tag, value) ∷ rest) = do
    bytes ← unwrap value
    group ← finalized_bytes rest
    ok ((tag, bytes) ∷ group)

  unfoldable pub update_group :
      {F : Type 0} → Dict Bytes → List (ℕ × GroupOp) → Attempt F (Dict Bytes)
  update_group group [] = ok group
  update_group group ((tag, op) ∷ rest) =
      let deleted = update_group (erase tag group) rest in
      let written = (do
        bytes ← unwrap (env.op_bytes op)
        update_group (insert tag bytes group) rest) in
      if env.is_deletion op then deleted else written

  -- Whether a group that the output reads or writes cannot be serialised.
  unfoldable pub serialization_error : {F : Type 0} → Map → Output → Attempt F Bool
  unfolding finalized_bytes update_group
  serialization_error m output = do
    reads_fail ←
        any
          (λ key. finalized_bytes (env.finalize_group m key) >>= λ group. ok (env.bcs_fails group))
          (env.group_reads_needing_delayed_field_exchange output)
    let writes_fail =
        any
          (λ entry. finalized_bytes (env.finalize_group m entry.0) >>= λ group.
            update_group group entry.2 >>= λ updated. ok (env.bcs_fails updated))
          (env.resource_group_write_set output)
    if reads_fail then ok true else writes_fail

  -- The materialisation of one output once its writes are in the map.
  unfoldable pub materialize : Map → Dict Write → Output → Attempt Failure Output
  materialize m resource_writes output = do
    finalized ← map_err from_panic (
        traverse (λ g. env.map_finalized_group g.0 (env.finalize_group m g.0) g.1 g.2)
          (env.groups_to_finalize output))
    groups ← map_err from_panic (env.map_id_to_values_in_group_writes finalized m)
    serialized ← or_err (env.serialize_groups groups) resource_group_serialization_error
    writes ← map_err from_panic (env.resource_writes_to_materialize resource_writes output m)
    materialized ← map_err from_panic (env.map_id_to_values_in_write_set writes m)
    events ← map_err from_panic (env.map_id_to_values_events output m)
    map_err from_panic
        (env.incorporate_materialized_txn_output output materialized serialized events)

  -- What is done with an output that is not discarded: its writes, its materialisation and the
  -- check of the view.
  unfoldable pub commit_output : Map → Reads → Output → Attempt Failure (Map × Output)
  unfolding materialize
  commit_output m reads output = do
    m' ← apply_output_sequential env m output (env.resource_write_set output)
    output' ← materialize m' (env.resource_write_set output) output
    if env.is_incorrect_use reads output'
        then err (from_panic (code_invariant_error "Incorrect use in sequential execution"))
        else ok (m', output')

  -- The two tests at the end of an iteration.
  unfoldable pub after_push : ℕ → ℕ → Bool → State → Flow
  after_push num_txns idx must_skip s =
      if must_skip
      then stop s
      else if ltb idx (num_txns - 1)
      then if env.should_end_block_sequential s.limit then stop s else next s
      else next s

  -- The calls once an output is known not to be discarded.
  unfoldable pub push_output : Bool → ℕ → ℕ → Bool → State → Reads → Output → Flow
  unfolding notify after_push
  push_output has_hook num_txns idx must_skip s reads output =
      elim (commit_output s.values reads output) [
        | ok (m', output') ↦
            let s' = record s { values = m'; ret = s.ret ++ output' ∷ [] } in
            after_push num_txns idx must_skip
              (notify has_hook (on_transaction_committed idx output') s')
        | err e ↦ fail s e
        | panicked ↦ crash
      ]

  -- A transaction whose groups do not serialise is discarded, and the loop continues at once.
  unfoldable pub discard_or_push : Bool → Bool → ℕ → ℕ → Bool → State → Reads → Output → Flow
  unfolding push_output serialization_error
  discard_or_push has_hook fallback num_txns idx must_skip s reads output =
      let push = push_output has_hook num_txns idx must_skip s reads output in
      if fallback
      then elim (serialization_error {F = Failure} s.values output) [
        | ok true ↦ next (record s {
          ret = s.ret ++ env.discard_output delayed_materialization_code_invariant_error ∷ [];
        })
        | ok false ↦ push
        | err e ↦ fail s e
        | panicked ↦ crash
      ]
      else push

  -- The branch of a transaction that succeeded, with or without skipping the rest.
  unfoldable pub on_output : Bool → Bool → ℕ → ℕ → Bool → Txn → State → Reads → Output → Flow
  unfolding account_for discard_or_push
  on_output has_hook fallback num_txns idx must_skip txn s reads output =
      let s₁ = account_for txn output reads s in
      let output₁ = env.materialize_agg_v1 output s₁.values in
      elim (env.aggregator_v1_delta_set output₁) [
        | [] ↦ discard_or_push has_hook fallback num_txns idx must_skip s₁ reads output₁
        | _ ↦ crash
      ]

  -- The branches of a transaction that did not succeed.
  unfoldable pub on_failure : Bool → ℕ → State → BlockExecutionError Error → Flow
  unfolding notify
  on_failure has_hook idx s e =
      fail (notify has_hook (on_execution_aborted idx) s) (error_to_return e)

  -- The `match` on the status.
  unfoldable pub dispatch :
      Bool → Bool → ℕ → ℕ → Txn → State → Reads → ExecutionStatus Output Error → Flow
  unfolding on_output on_failure
  dispatch has_hook fallback num_txns idx txn s reads (success output) =
      on_output has_hook fallback num_txns idx false txn s reads output
  dispatch has_hook fallback num_txns idx txn s reads (skip_rest output) =
      on_output has_hook fallback num_txns idx true txn s reads output
  dispatch has_hook fallback num_txns idx txn s reads (abort e) =
      on_failure has_hook idx s (fatal_vm_error e)
  dispatch has_hook fallback num_txns idx txn s reads (speculative_execution_abort_error msg) =
      on_failure has_hook idx s
        (BlockExecutionError.fatal_block_executor_error (code_invariant_error msg))
  dispatch has_hook fallback num_txns idx txn s reads (delayed_fields_code_invariant_error msg) =
      on_failure has_hook idx s
        (BlockExecutionError.fatal_block_executor_error (code_invariant_error msg))

  -- One iteration of the loop.
  unfoldable pub step : Bool → Bool → ℕ → ℕ → Txn → State → Flow
  unfolding dispatch
  step has_hook fallback num_txns idx txn s =
      let (status, m', reads) = env.execute_transaction s.values txn idx in
      dispatch has_hook fallback num_txns idx txn (record s { values = m' }) reads status

  -- The loop from the transaction `idx` on: the last state, and the failure if there is one.
  unfoldable pub run : Bool → Bool → ℕ → ℕ → List Txn → State → Flow
  run has_hook fallback num_txns idx [] s = stop s
  run has_hook fallback num_txns idx (txn ∷ rest) s =
      elim (step has_hook fallback num_txns idx txn s) [
        | next s' ↦ run has_hook fallback num_txns (idx + 1) rest s'
        | stop s' ↦ stop s'
        | fail s' e ↦ fail s' e
        | crash ↦ crash
      ]

  unfoldable pub start : ℕ → State
  start num_txns = record {
    values = env.new_map;
    limit = env.new_limit num_txns;
    conflicts = env.new_conflicts;
    ret = [];
    hooks = [];
  }

  -- The result, with the calls made on the hook.
  unfoldable pub finish : ℕ → Flow → Attempt Failure (List Output) × List (HookCall Output)
  finish num_txns (next s) = (ok (resize_with num_txns env.skip_output s.ret), s.hooks)
  finish num_txns (stop s) = (ok (resize_with num_txns env.skip_output s.ret), s.hooks)
  finish num_txns (fail s e) = (err e, s.hooks)
  finish num_txns crash = (panicked, [])

  unfoldable pub execute_transactions_sequential :
      Bool → List Txn → Bool → Attempt Failure (List Output) × List (HookCall Output)
  unfolding run start finish
  execute_transactions_sequential has_hook block fallback =
      let n = length block in finish n (run has_hook fallback n 0 block (start n))
