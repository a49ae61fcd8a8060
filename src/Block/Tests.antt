-- ===== src/Block/Tests.antt =====
-- A small block executor, a run of it, and the theorems of sequential execution at that run.
use test_suites.Prelude.{
  ◌≡◌, ℕ, ◌+◌, sym, ap, true, false, none, some, [], ◌∷◌, length, ◌==◌, if◌then◌else◌, ltb,
}
use test_suites.Prelude.Maps.{Dict, insert, lookup}
use test_suites.Prelude.Outcome.{returns, returns-injective}
use test_suites.Prelude.Attempt.{ok}
use test_suites.Block.Status.{ExecutionStatus, success, skip_rest, abort, LocalConfig}
use test_suites.Block.Environment.{Environment, Changes, ApplyBase}
use test_suites.Block.Sequential.{execute_transactions_sequential}
use test_suites.Block.Sequential.Hook.{hook_independent}
use test_suites.Block.Entry.{execute_block, Scope, finished}
use test_suites.Block.Entry.Outcomes.{execute_block-Allowed, IsAllowed}

abbrev pub sample_changes : Changes
sample_changes = record {
  Value = ℕ;
  Apply = ℕ;
  get_apply_base_id = λ a id. ApplyBase.previous id;
  apply_to_base = λ a base. some (a + base);
}

-- A transaction is a number: 7 skips the rest, 8 aborts, and any other writes itself.
abbrev pub sample_status : ℕ → ExecutionStatus ℕ ℕ
sample_status t = if t == 7 then skip_rest t else if t == 8 then abort t else success t

abbrev pub sample_environment : Environment
sample_environment = record {
  changes = sample_changes;
  Txn = ℕ;
  Output = ℕ;
  Error = ℕ;
  Write = ℕ;
  Metadata = ℕ;
  GroupOp = ℕ;
  Bytes = ℕ;
  Fee = ℕ;
  Summary = ℕ;
  Map = Dict ℕ;
  Reads = ℕ;
  Limit = ℕ;
  Conflicts = ℕ;
  config = record {
    block_output_limit = none;
    include_user_txn_size_in_block_output = true;
    conflict_penalty_window = none;
  };
  user_txn_bytes_len = λ t. t;
  execute_transaction = λ m t idx. (sample_status t, m, idx);
  is_incorrect_use = λ reads o. false;
  skip_output = 0;
  discard_output = λ code. 1_000;
  fee_statement = λ o. o;
  output_approx_size = λ o. o;
  materialize_agg_v1 = λ o m. o;
  aggregator_v1_delta_set = λ o. [];
  resource_write_set = λ o. (o, o) ∷ [];
  resource_group_write_set = λ o. [];
  aggregator_v1_write_set = λ o. [];
  module_write_set = λ o. [];
  delayed_field_change_set = λ o. [];
  group_reads_needing_delayed_field_exchange = λ o. [];
  groups_to_finalize = λ o. [];
  new_map = [];
  write = λ m k w. insert k w m;
  write_metadata = λ m k w. m;
  write_module = λ m k w. insert k w m;
  insert_group_op = λ m k tag op. ok m;
  fetch_delayed_field = λ m id. lookup id m;
  write_delayed_field = λ m id v. insert id v m;
  finalize_group = λ m k. [];
  is_deletion = λ op. op == 0;
  op_bytes = λ op. some op;
  bcs_fails = λ group. false;
  new_limit = λ n. 0;
  new_conflicts = 0;
  read_write_summary = λ reads o. 0;
  check_and_append_module_rw_conflict = λ c reads o. (c, false);
  process_module_rw_conflict = λ l. l;
  accumulate_fee_statement = λ l fee summary size. l + fee;
  should_end_block_sequential = λ l. ltb 100 l;
  FinalizedGroup = ℕ;
  GroupWrites = ℕ;
  Serialized = ℕ;
  Materialized = ℕ;
  Events = ℕ;
  map_finalized_group = λ k group meta is_read. ok k;
  map_id_to_values_in_group_writes = λ groups m. ok 0;
  serialize_groups = λ groups. some groups;
  resource_writes_to_materialize = λ writes o m. ok writes;
  map_id_to_values_in_write_set = λ writes m. ok 0;
  map_id_to_values_events = λ o m. ok 0;
  incorporate_materialized_txn_output = λ o writes groups events. ok o;
}

-- Workers that leave the initial results.
abbrev idle : Scope sample_environment
idle = λ workers block initial. returns (finished ∷ [], initial)

abbrev one_worker : LocalConfig
one_worker = record { concurrency_level = 1; allow_fallback = true; discard_failed_blocks = true }

execute_block-Allowed_example :
    IsAllowed sample_environment idle one_worker false
      (3 ∷ 8 ∷ [])
      (execute_block sample_environment idle one_worker false (3 ∷ 8 ∷ [])).0
execute_block-Allowed_example =
    execute_block-Allowed sample_environment idle one_worker false (3 ∷ 8 ∷ [])
      (λ workers block initial final results e. ap (λ r. length r.1) (sym (returns-injective e)))

hook_independent_example :
    (execute_transactions_sequential sample_environment true (3 ∷ 8 ∷ []) false).0
    ≡ (execute_transactions_sequential sample_environment false (3 ∷ 8 ∷ []) false).0
hook_independent_example = hook_independent sample_environment (3 ∷ 8 ∷ []) false
