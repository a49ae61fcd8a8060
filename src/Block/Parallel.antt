-- ===== src/Block/Parallel.antt =====
-- Speculative execution of one transaction: `execute`
-- (codes/aptos/modified/block-executor/src/executor.rs). The multi-version map and the record of
-- inputs and outputs belong to other files; a key is a number.
pub mod Outside
pub mod Leftover
mod Tests
pub mod Validation
pub mod Commit
pub mod Materialize
use test_suites.Prelude.{
  ℕ, ◌≡◌, Bool, true, false, Option, none, some, List, [], ◌∷◌, ◌++◌, ◌==◌, if◌then◌else◌,
}
use test_suites.Prelude.Maps.{Dict, insert, erase, contains_key}
use test_suites.Prelude.Attempt.{Attempt, ok, err, panicked, ◌>>=◌}
use test_suites.Block.Status.{
  ExecutionStatus, success, skip_rest, abort, speculative_execution_abort_error,
  delayed_fields_code_invariant_error, PanicError, code_invariant_error,
}
use test_suites.Block.Environment.{Environment, DelayedChange}

pub data KeyKind : Type 0 where
  resource : KeyKind
  module_path : KeyKind
  group : KeyKind

-- `PanicOr<ParallelBlockExecutionError>`
pub data ParallelError : Type 0 where
  panic_error : PanicError → ParallelError
  module_path_read_write_error : ParallelError

-- How the recording of a delayed field's change ends.
pub data Recorded : Type 0 where
  recorded : Recorded
  broken_invariant : Recorded
  not_applicable : Recorded

-- `MVHashMap` and `TxnLastInputOutput`. Entries are written for a transaction and an incarnation.
pub record Versioned (env : Environment) : Type 1 where
  pub Cache : Type 0
  pub Reads : Type 0
  pub Recorder : Type 0
  pub execute_transaction :
      Cache → env.Txn → ℕ → ExecutionStatus env.Output env.Error × Cache × Reads
  pub capture_delayed_field_read_error : Reads → Reads
  pub write_data : Cache → ℕ → ℕ → ℕ → env.Write → Cache
  pub write_metadata : Cache → ℕ → ℕ → ℕ → env.Metadata → Cache
  pub write_group : Cache → ℕ → ℕ → ℕ → List (ℕ × env.GroupOp) → Cache × Bool
  pub write_module : Cache → ℕ → ℕ → env.Write → Cache
  pub add_delta : Cache → ℕ → ℕ → env.Write → Cache
  pub record_change :
      Cache → ℕ → ℕ → DelayedChange env.changes.Value env.changes.Apply → Cache × Recorded
  pub remove_data : Cache → ℕ → ℕ → Cache
  pub remove_module : Cache → ℕ → ℕ → Cache
  pub remove_group : Cache → ℕ → ℕ → Cache
  pub remove_delayed_field : Cache → ℕ → ℕ → Cache
  pub modified_keys : Recorder → ℕ → Option (List (ℕ × KeyKind))
  pub delayed_field_keys : Recorder → ℕ → Option (List ℕ)
  -- Whether recording found no module both read and written.
  pub record_execution :
      Recorder → ℕ → Reads → ExecutionStatus env.Output env.Error → Dict env.Write → Recorder × Bool

-- `collect()` into a map.
unfoldable pub collect_keys : Dict KeyKind → List (ℕ × KeyKind) → Dict KeyKind
collect_keys m [] = m
collect_keys m (entry ∷ rest) = collect_keys (insert entry.0 entry.1 m) rest

unfoldable pub without : ℕ → List ℕ → List ℕ
without id [] = []
without id (x ∷ xs) = if x == id then without id xs else x ∷ without id xs

module _ (env : Environment) (v : Versioned env) (idx incarnation : ℕ) where
  open env use {Output, Error, Write, Metadata, GroupOp, Txn}
  open v use {Cache, Reads, Recorder}

  -- What `apply_updates` changes.
  pub record Updating : Type 0 where
    pub cache : Cache
    pub prev_modified_keys : Dict KeyKind
    pub prev_modified_delayed_fields : List ℕ
    pub updates_outside : Bool
    pub read_set : Reads

  -- `if prev_modified_keys.remove(&key).is_none() { updates_outside = true; }`
  unfoldable pub take_key : ℕ → Updating → Updating
  take_key key s = record s {
    prev_modified_keys = erase key s.prev_modified_keys;
    updates_outside = if contains_key key s.prev_modified_keys then s.updates_outside else true;
  }

  unfoldable pub apply_groups : List (ℕ × Metadata × List (ℕ × GroupOp)) → Updating → Updating
  unfolding take_key
  apply_groups [] s = s
  apply_groups ((key, metadata_op, ops) ∷ rest) s =
      let s₁ = take_key key s in
      let (cache, outside) =
        v.write_group (v.write_metadata s₁.cache key idx incarnation metadata_op) key idx
          incarnation ops in
      apply_groups rest (record s₁ {
        cache = cache;
        updates_outside = if outside then true else s₁.updates_outside;
      })

  unfoldable pub apply_data : Dict Write → Updating → Updating
  unfolding take_key
  apply_data [] s = s
  apply_data ((key, op) ∷ rest) s =
      let s₁ = take_key key s in
      apply_data rest (record s₁ { cache = v.write_data s₁.cache key idx incarnation op })

  unfoldable pub apply_modules : Dict Write → Updating → Updating
  unfolding take_key
  apply_modules [] s = s
  apply_modules ((key, op) ∷ rest) s =
      let s₁ = take_key key s in
      apply_modules rest (record s₁ { cache = v.write_module s₁.cache key idx op })

  unfoldable pub apply_deltas : Dict Write → Updating → Updating
  unfolding take_key
  apply_deltas [] s = s
  apply_deltas ((key, delta) ∷ rest) s =
      let s₁ = take_key key s in
      apply_deltas rest (record s₁ { cache = v.add_delta s₁.cache key idx delta })

  unfoldable pub apply_delayed :
      Dict (DelayedChange env.changes.Value env.changes.Apply)
      → Updating
      → Attempt ParallelError Updating
  unfolding without
  apply_delayed [] s = ok s
  apply_delayed ((id, change) ∷ rest) s =
      let (cache, status) = v.record_change s.cache id idx change in
      let s₁ = record s {
        cache = cache;
        prev_modified_delayed_fields = without id s.prev_modified_delayed_fields;
      } in
      elim status [
        | recorded ↦ apply_delayed rest s₁
        | broken_invariant ↦ err (panic_error (code_invariant_error "Record change failed"))
        | not_applicable ↦
            apply_delayed rest
              (record s₁ { read_set = v.capture_delayed_field_read_error s₁.read_set })
      ]

  -- `apply_updates`
  unfoldable pub apply_updates : Output → Updating → Attempt ParallelError Updating
  unfolding apply_groups apply_data apply_modules apply_deltas apply_delayed
  apply_updates output s = apply_delayed (env.delayed_field_change_set output) (
      apply_deltas (env.aggregator_v1_delta_set output) (
        apply_modules (env.module_write_set output) (
          apply_data (env.resource_write_set output ++ env.aggregator_v1_write_set output)
            (apply_groups (env.resource_group_write_set output) s))))

  -- The `match` on the status: the updates and the cached resource writes.
  unfoldable pub apply_status :
      ExecutionStatus Output Error → Updating → Attempt ParallelError (Updating × Dict Write)
  unfolding apply_updates
  apply_status (success output) s = do
    s' ← apply_updates output s
    ok (s', env.resource_write_set output)
  apply_status (skip_rest output) s = do
    s' ← apply_updates output s
    ok (s', env.resource_write_set output)
  apply_status (speculative_execution_abort_error msg) s =
      ok (record s { read_set = v.capture_delayed_field_read_error s.read_set }, [])
  apply_status (abort e) s = ok (s, [])
  apply_status (delayed_fields_code_invariant_error msg) s =
      err (panic_error (code_invariant_error msg))

  -- The entries of the execution before that were not overwritten.
  unfoldable pub remove_leftover : Dict KeyKind → Cache → Cache
  remove_leftover [] cache = cache
  remove_leftover ((key, resource) ∷ rest) cache =
      remove_leftover rest (v.remove_data cache key idx)
  remove_leftover ((key, module_path) ∷ rest) cache =
      remove_leftover rest (v.remove_module cache key idx)
  remove_leftover ((key, group) ∷ rest) cache =
      remove_leftover rest (v.remove_group (v.remove_data cache key idx) key idx)

  unfoldable pub remove_leftover_fields : List ℕ → Cache → Cache
  remove_leftover_fields [] cache = cache
  remove_leftover_fields (id ∷ rest) cache =
      remove_leftover_fields rest (v.remove_delayed_field cache id idx)

  -- Before the updates.
  unfoldable pub begin : Recorder → Cache → Reads → Updating
  unfolding collect_keys
  begin recorder cache reads = record {
    cache = cache;
    prev_modified_keys = elim (v.modified_keys recorder idx) [
      | none ↦ []
      | some keys ↦ collect_keys [] keys
    ];
    prev_modified_delayed_fields = elim (v.delayed_field_keys recorder idx) [
      | none ↦ []
      | some ids ↦ ids
    ];
    updates_outside = false;
    read_set = reads;
  }

  -- Whether the execution wrote outside of the previous write set, with the cache and the record
  -- after it.
  unfoldable pub execute : Recorder → Cache → Txn → Attempt ParallelError (Bool × Cache × Recorder)
  unfolding begin apply_status remove_leftover remove_leftover_fields
  execute recorder cache txn =
      let (status, cache₁, reads) = v.execute_transaction cache txn idx in
      apply_status status (begin recorder cache₁ reads) >>= λ applied.
      let s = applied.0 in
      let cache₂ =
        remove_leftover_fields s.prev_modified_delayed_fields
          (remove_leftover s.prev_modified_keys s.cache) in
      let (recorder', no_module_conflict) =
        v.record_execution recorder idx s.read_set status applied.1 in
      if no_module_conflict
      then ok (s.updates_outside, cache₂, recorder')
      else err module_path_read_write_error
