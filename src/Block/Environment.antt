-- ===== src/Block/Environment.antt =====
-- What sequential block execution uses of other crates and files: the VM, the outputs, the
-- unsynchronised map with the view on it, the gas limit processor and the materialisation helpers
-- of `executor_utilities`. Keys, tags and delayed field ids are numbers.
use test_suites.Prelude.{ℕ, Bool, Option, List}
use test_suites.Prelude.Maps.{Dict}
use test_suites.Prelude.Attempt.{Attempt}
use test_suites.Block.Status.{ExecutionStatus, PanicError, StatusCode, GasLimitConfig}

-- Where the base value of a change is read.
pub data ApplyBase : Type 0 where
  previous : ℕ → ApplyBase
  current : ℕ → ApplyBase

pub data DelayedChange (Value Apply : Type 0) : Type 0 where
  create : Value → DelayedChange Value Apply
  apply : Apply → DelayedChange Value Apply

-- `aptos_aggregator`: the base of a change and its value from that base, `none` if it fails.
pub record Changes : Type 1 where
  pub Value : Type 0
  pub Apply : Type 0
  pub get_apply_base_id : Apply → ℕ → ApplyBase
  pub apply_to_base : Apply → Value → Option Value

-- The outputs and operations of one kind of transaction.
pub record Environment : Type 1 where
  pub changes : Changes
  pub Txn : Type 0
  pub Output : Type 0
  pub Error : Type 0
  pub Write : Type 0
  pub Metadata : Type 0
  pub GroupOp : Type 0
  pub Bytes : Type 0
  pub Fee : Type 0
  pub Summary : Type 0
  -- The map with the view's counter, and the reads that a view captured.
  pub Map : Type 0
  pub Reads : Type 0
  pub Limit : Type 0
  pub Conflicts : Type 0
  pub config : GasLimitConfig
  pub user_txn_bytes_len : Txn → ℕ
  -- The VM.
  pub execute_transaction : Map → Txn → ℕ → ExecutionStatus Output Error × Map × Reads
  -- Whether the view of these reads was misused, up to the materialisation of the output.
  pub is_incorrect_use : Reads → Output → Bool
  -- Outputs.
  pub skip_output : Output
  pub discard_output : StatusCode → Output
  pub fee_statement : Output → Fee
  pub output_approx_size : Output → ℕ
  pub materialize_agg_v1 : Output → Map → Output
  pub aggregator_v1_delta_set : Output → Dict Write
  pub resource_write_set : Output → Dict Write
  pub resource_group_write_set : Output → List (ℕ × Metadata × List (ℕ × GroupOp))
  pub aggregator_v1_write_set : Output → Dict Write
  pub module_write_set : Output → Dict Write
  pub delayed_field_change_set : Output → Dict (DelayedChange changes.Value changes.Apply)
  pub group_reads_needing_delayed_field_exchange : Output → List ℕ
  pub groups_to_finalize : Output → List (ℕ × Metadata × Bool)
  -- The unsynchronised map.
  pub new_map : Map
  pub write : Map → ℕ → Write → Map
  pub write_metadata : Map → ℕ → Metadata → Map
  pub write_module : Map → ℕ → Write → Map
  pub insert_group_op : Map → ℕ → ℕ → GroupOp → Attempt PanicError Map
  pub fetch_delayed_field : Map → ℕ → Option changes.Value
  pub write_delayed_field : Map → ℕ → changes.Value → Map
  pub finalize_group : Map → ℕ → Dict (Option Bytes)
  pub is_deletion : GroupOp → Bool
  pub op_bytes : GroupOp → Option Bytes
  pub bcs_fails : Dict Bytes → Bool
  -- The gas limit processor and the record of module reads and writes.
  pub new_limit : ℕ → Limit
  pub new_conflicts : Conflicts
  pub read_write_summary : Reads → Output → Summary
  pub check_and_append_module_rw_conflict : Conflicts → Reads → Output → Conflicts × Bool
  pub process_module_rw_conflict : Limit → Limit
  pub accumulate_fee_statement : Limit → Fee → Option Summary → Option ℕ → Limit
  pub should_end_block_sequential : Limit → Bool
  -- Materialisation.
  pub FinalizedGroup : Type 0
  pub GroupWrites : Type 0
  pub Serialized : Type 0
  pub Materialized : Type 0
  pub Events : Type 0
  pub map_finalized_group :
      ℕ → Dict (Option Bytes) → Metadata → Bool → Attempt PanicError FinalizedGroup
  pub map_id_to_values_in_group_writes : List FinalizedGroup → Map → Attempt PanicError GroupWrites
  pub serialize_groups : GroupWrites → Option Serialized
  pub resource_writes_to_materialize : Dict Write → Output → Map → Attempt PanicError (Dict Write)
  pub map_id_to_values_in_write_set : Dict Write → Map → Attempt PanicError Materialized
  pub map_id_to_values_events : Output → Map → Attempt PanicError Events
  pub incorporate_materialized_txn_output :
      Output → Materialized → Serialized → Events → Attempt PanicError Output
