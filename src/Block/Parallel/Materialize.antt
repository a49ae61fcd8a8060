-- ===== src/Block/Parallel/Materialize.antt =====
-- What follows a commit: `materialize_aggregator_v1_delta_writes` and `materialize_txn_commit`
-- (codes/aptos/modified/block-executor/src/executor.rs). The record of inputs and outputs, the
-- multi-version map and the storage belong to other files.
pub mod Results
use test_suites.Prelude.{
  ℕ, ◌≡◌, Bool, true, false, Option, none, some, List, [], ◌∷◌, ◌++◌, ltb, if◌then◌else◌, length,
  set,
}
use test_suites.Prelude.Maps.{Dict}
use test_suites.Prelude.Attempt.{Attempt, ok, err, panicked, ◌>>=◌, unwrap, or_err}
use test_suites.Block.Status.{
  ExecutionStatus, success, skip_rest, abort, speculative_execution_abort_error,
  delayed_fields_code_invariant_error, PanicError, code_invariant_error, HookCall,
  on_transaction_committed, on_execution_aborted,
}
use test_suites.Block.Environment.{Environment}
use test_suites.Block.Parallel.{Versioned}

-- `materialize_delta`: a committed value, or a delta whose base value is not known.
pub data DeltaResult (Delta : Type 0) : Type 0 where
  committed_delta : ℕ → DeltaResult Delta
  missing_base : Delta → DeltaResult Delta

-- The finalised groups, the recorded writes and events, the deltas with the storage below them,
-- and the outputs.
pub record Materializing (env : Environment) (v : Versioned env) : Type 1 where
  pub Delta : Type 0
  pub StateValue : Type 0
  pub take_finalized_group : v.Recorder → ℕ → List env.FinalizedGroup × v.Recorder
  pub group_writes : List env.FinalizedGroup → v.Cache → Attempt PanicError env.GroupWrites
  pub take_resource_write_set : v.Recorder → ℕ → Dict env.Write × v.Recorder
  pub resource_writes_to_materialize :
      Dict env.Write → v.Recorder → v.Cache → ℕ → Attempt PanicError (Dict env.Write)
  pub write_set : Dict env.Write → v.Cache → Attempt PanicError env.Materialized
  pub events : v.Recorder → ℕ → v.Cache → Attempt PanicError env.Events
  pub aggregator_v1_delta_keys : v.Recorder → ℕ → List ℕ
  pub materialize_delta : v.Cache → ℕ → ℕ → v.Cache × DeltaResult Delta
  pub get_state_value : ℕ → Option StateValue
  pub from_state_value : StateValue → env.Write
  -- `none` where deserialisation fails, and `some none` where there is no value.
  pub as_u128 : env.Write → Option (Option ℕ)
  pub set_base_value : v.Cache → ℕ → env.Write → v.Cache
  pub apply_delta : Delta → ℕ → Option ℕ
  pub legacy_modification : ℕ → env.Write
  pub record_materialized_txn_output :
      v.Recorder
      → ℕ
      → Dict env.Write
      → env.Materialized
      → env.Serialized
      → env.Events
      → Attempt PanicError v.Recorder
  pub txn_output : v.Recorder → ℕ → Option (ExecutionStatus env.Output env.Error)
  pub take_output : v.Recorder → ℕ → ExecutionStatus env.Output env.Error × v.Recorder

module _ (env : Environment) (v : Versioned env) (mat : Materializing env v) where
  open env use {Output, Error, Write}
  open v use {Cache, Recorder}

  pub record Committing : Type 0 where
    pub cache : Cache
    pub recorder : Recorder
    pub hooks : List (HookCall Output)
    pub final_results : List Output

  -- The committed value of a key, from the storage where its base value is not in the map.
  unfoldable pub committed_value : ℕ → ℕ → Cache → Attempt PanicError (ℕ × Cache)
  committed_value idx key cache =
      let (cache', result) = mat.materialize_delta cache key idx in
      elim result as (λ _. Attempt PanicError (ℕ × Cache)) [
        | committed_delta value ↦ ok (value, cache')
        | missing_base op ↦ (do
          storage_value ← unwrap (mat.get_state_value key)
          let w = mat.from_state_value storage_value
          deserialized ← unwrap (mat.as_u128 w)
          value_u128 ← unwrap deserialized
          value ← unwrap (mat.apply_delta op value_u128)
          ok (value, mat.set_base_value cache' key w))
      ]

  unfoldable pub delta_writes : ℕ → List ℕ → Cache → Attempt PanicError (Dict Write × Cache)
  unfolding committed_value
  delta_writes idx [] cache = ok ([], cache)
  delta_writes idx (key ∷ keys) cache = do
    (value, cache') ← committed_value idx key cache
    (writes, cache'') ← delta_writes idx keys cache'
    ok ((key, mat.legacy_modification value) ∷ writes, cache'')

  unfoldable pub materialize_aggregator_v1_delta_writes :
      ℕ → Recorder → Cache → Attempt PanicError (Dict Write × Cache)
  unfolding delta_writes
  materialize_aggregator_v1_delta_writes idx recorder cache =
      delta_writes idx (mat.aggregator_v1_delta_keys recorder idx) cache

  -- The call on the hook for a status.
  unfoldable pub call_of : ℕ → ExecutionStatus Output Error → Attempt PanicError (HookCall Output)
  call_of idx (success output) = ok (on_transaction_committed idx output)
  call_of idx (skip_rest output) = ok (on_transaction_committed idx output)
  call_of idx (abort e) = ok (on_execution_aborted idx)
  call_of idx (speculative_execution_abort_error msg) = panicked
  call_of idx (delayed_fields_code_invariant_error msg) = panicked

  unfoldable pub notify_listener :
      Bool → ℕ → Recorder → List (HookCall Output) → Attempt PanicError (List (HookCall Output))
  unfolding call_of
  notify_listener false idx recorder hooks = ok hooks
  notify_listener true idx recorder hooks = do
    status ← unwrap (mat.txn_output recorder idx)
    call ← call_of idx status
    ok (hooks ++ call ∷ [])

  -- `final_results[txn_idx as usize] = t`
  unfoldable pub store_at : ℕ → Output → List Output → Attempt PanicError (List Output)
  store_at idx output results =
      if ltb idx (length results) then ok (set results idx output) else panicked

  unfoldable pub store_result :
      ℕ → ExecutionStatus Output Error → List Output → Attempt PanicError (List Output)
  unfolding store_at
  store_result idx (success output) results = store_at idx output results
  store_result idx (skip_rest output) results = store_at idx output results
  store_result idx (abort e) results = ok results
  store_result idx (speculative_execution_abort_error msg) results = panicked
  store_result idx (delayed_fields_code_invariant_error msg) results = panicked

  -- The part up to the record of the materialised output.
  unfoldable pub materialize_output : ℕ → Recorder → Cache → Attempt PanicError (Recorder × Cache)
  unfolding materialize_aggregator_v1_delta_writes
  materialize_output idx recorder cache = do
    let (finalized_groups, recorder₁) = mat.take_finalized_group recorder idx
    groups ← mat.group_writes finalized_groups cache
    serialized_groups ←
        or_err (env.serialize_groups groups)
          (code_invariant_error "Panic error in serializing groups")
    let (resource_write_set, recorder₂) = mat.take_resource_write_set recorder₁ idx
    writes ← mat.resource_writes_to_materialize resource_write_set recorder₂ cache idx
    materialized ← mat.write_set writes cache
    events ← mat.events recorder₂ idx cache
    (aggregator_v1_delta_writes, cache') ←
        materialize_aggregator_v1_delta_writes idx recorder₂ cache
    recorder₃ ←
        mat.record_materialized_txn_output recorder₂ idx aggregator_v1_delta_writes materialized
          serialized_groups events
    ok (recorder₃, cache')

  unfoldable pub materialize_txn_commit : Bool → ℕ → Committing → Attempt PanicError Committing
  unfolding materialize_output notify_listener store_result
  materialize_txn_commit has_hook idx s = do
    (recorder₁, cache₁) ← materialize_output idx s.recorder s.cache
    hooks₁ ← notify_listener has_hook idx recorder₁ s.hooks
    let (status, recorder₂) = mat.take_output recorder₁ idx
    results ← store_result idx status s.final_results
    ok (record { cache = cache₁; recorder = recorder₂; hooks = hooks₁; final_results = results })
