-- ===== src/Block/Parallel/Tests.antt =====
-- Small runs of the parts of parallel execution, and the theorems at them.
use test_suites.Prelude.{
  ◌≡◌, List, refl, ℕ, ◌+◌, true, false, none, some, [], ◌∷◌, length, ◌==◌, if◌then◌else◌, ltb, All,
  arith, inl, Option, ◌<◌, ◌⊎◌, not, is_empty,
}
use test_suites.Prelude.Maps.{contains_key}
use test_suites.Prelude.Attempt.{ok}
use test_suites.Block.Status.{success, on_transaction_committed}
use test_suites.Block.Parallel.{
  Versioned, KeyKind, resource, recorded, without, execute, begin, collect_keys, apply_status,
  apply_updates, apply_data, take_key, apply_groups, apply_modules, apply_deltas, apply_delayed,
  remove_leftover, remove_leftover_fields,
}
use test_suites.Block.Parallel.Validation.{Scheduling, committed}
use test_suites.Block.Parallel.Materialize.{
  Materializing, committed_delta, missing_base, Committing, materialize_txn_commit,
  materialize_output, materialize_aggregator_v1_delta_writes, delta_writes, committed_value,
  notify_listener, call_of, store_result, store_at,
}
use test_suites.Block.Parallel.Materialize.Results.{
  materialize_txn_commit-IsMaterialized, IsMaterialized,
}
use test_suites.Block.Parallel.Commit.{
  Committable, Committer, go_on, commit_transaction, account_for_fee, charge, approx_size,
  finalize_groups, queue_commit,
}
use test_suites.Block.Parallel.Commit.Limit.{commit_transaction-below}
use test_suites.Block.Parallel.Outside.{execute_inside, previous_keys, keys_of_status}
use test_suites.Block.Parallel.Leftover.{execute_leaves, DataLaws, IsData, has}
use test_suites.Block.Tests.{sample_environment, sample_status}

-- A multi-version map that is the list of the keys of its data, and a record that is the list of
-- the keys that were written.
abbrev sample_versioned : Versioned sample_environment
sample_versioned = record {
  Cache = List ℕ;
  Reads = ℕ;
  Recorder = List (ℕ × KeyKind);
  execute_transaction = λ c t idx. (sample_status t, c, 0);
  capture_delayed_field_read_error = λ r. r;
  write_data = λ c k idx incarnation w. k ∷ c;
  write_metadata = λ c k idx incarnation m. k ∷ c;
  write_group = λ c k idx incarnation ops. (c, false);
  write_module = λ c k idx w. c;
  add_delta = λ c k idx d. k ∷ c;
  record_change = λ c k idx d. (c, recorded);
  remove_data = λ c k idx. without k c;
  remove_module = λ c k idx. c;
  remove_group = λ c k idx. c;
  remove_delayed_field = λ c k idx. c;
  modified_keys = λ r idx. some r;
  delayed_field_keys = λ r idx. none;
  record_execution = λ r idx reads status writes. (r, true);
}

has-without :
    (k : ℕ) (c : List ℕ) (j : ℕ) → has j (without k c) ≡ (if k == j then false else has j c)
unfolding without
has-without k [] j = ground arith
has-without k (x ∷ c) j = ground (arith, has-without k c j)

abbrev sample_laws : DataLaws sample_environment sample_versioned 0 1
sample_laws = record {
  holds = λ c j. has j c;
  holds-execute_transaction = λ c t j. refl;
  holds-write_data = λ c k w j. refl;
  holds-write_metadata = λ c k m j. refl;
  holds-add_delta = λ c k d j. refl;
  holds-write_group = λ c k ops j. refl;
  holds-write_module = λ c k w j. refl;
  holds-record_change = λ c k d j. refl;
  holds-remove_data = λ c k j. has-without k c j;
  holds-remove_module = λ c k j. refl;
  holds-remove_group = λ c k j. refl;
  holds-remove_delayed_field = λ c k j. refl;
}

-- The execution before wrote the keys 3 and 5; this one writes 3.
abbrev before_keys : List (ℕ × KeyKind)
before_keys = (3, resource) ∷ (5, resource) ∷ []

execute_inside_example :
    All
      (λ k.
        contains_key k (previous_keys sample_environment sample_versioned 0 1 before_keys) ≡ true)
      (keys_of_status sample_environment sample_versioned 0 1
        (sample_versioned.execute_transaction (3 ∷ 5 ∷ []) 3 0).0)
unfolding execute begin collect_keys apply_status apply_updates apply_data take_key apply_groups
    apply_modules apply_deltas apply_delayed remove_leftover remove_leftover_fields without
execute_inside_example =
    execute_inside sample_environment sample_versioned 0 1 before_keys before_keys (3 ∷ 5 ∷ [])
      (3 ∷ 3 ∷ []) 3 refl

recorded_before :
    (k : ℕ)
    → has k (3 ∷ 5 ∷ []) ≡ true
    → IsData (previous_keys sample_environment sample_versioned 0 1 before_keys) k
unfolding collect_keys
recorded_before k h = inl (ground arith)

execute_leaves_example :
    has 3 (
      keys_of_status sample_environment sample_versioned 0 1
        (sample_versioned.execute_transaction (3 ∷ 5 ∷ []) 3 0).0)
    ≡ true
unfolding execute begin collect_keys apply_status apply_updates apply_data take_key apply_groups
    apply_modules apply_deltas apply_delayed remove_leftover remove_leftover_fields without
execute_leaves_example =
    execute_leaves sample_environment sample_versioned 0 1 sample_laws before_keys before_keys
      (3 ∷ 5 ∷ []) (3 ∷ 3 ∷ []) 3 false 3 recorded_before refl refl

-- Inputs are valid where the data has an entry.
abbrev sample_scheduling : Scheduling sample_environment sample_versioned
sample_scheduling = record {
  read_set = λ r idx. some 0;
  is_incorrect_use = λ reads. false;
  validate_data_reads = λ reads c idx. true;
  validate_group_reads = λ reads c idx. true;
  validate_delayed_field_reads = λ reads c idx. ok (ltb 0 (length c));
  try_commit_fields = λ c idx ids. (c, committed);
  mark_data = λ c k idx. c;
  mark_module = λ c k idx. c;
  mark_group = λ c k idx. c;
  mark_delayed_field = λ c k idx. c;
  Scheduler = ℕ;
  Task = ℕ;
  retry = 0;
  try_abort = λ s idx incarnation. (true, s);
  finish_abort = λ s idx incarnation. ok (1, s);
  finish_validation = λ s idx wave. s;
  queueing_commits_arm = λ s. s;
  finish_execution_during_commit = λ s idx. ok (s + 1);
}

-- Every transaction succeeds with its index as the output. The key 1 has a committed delta, and
-- the base of the key 2 is read in the storage.
abbrev sample_materializing : Materializing sample_environment sample_versioned
sample_materializing = record {
  Delta = ℕ;
  StateValue = ℕ;
  take_finalized_group = λ r idx. ([], r);
  group_writes = λ groups c. ok 0;
  take_resource_write_set = λ r idx. ([], r);
  resource_writes_to_materialize = λ writes r c idx. ok writes;
  write_set = λ writes c. ok 0;
  events = λ r idx c. ok 0;
  aggregator_v1_delta_keys = λ r idx. 1 ∷ 2 ∷ [];
  materialize_delta = λ c k idx. (c, if k == 1 then committed_delta 5 else missing_base 7);
  get_state_value = λ k. some 10;
  from_state_value = λ value. value;
  as_u128 = λ w. some (some w);
  set_base_value = λ c k w. k ∷ c;
  apply_delta = λ op base. some (op + base);
  legacy_modification = λ value. value;
  record_materialized_txn_output = λ r idx deltas materialized serialized events. ok r;
  txn_output = λ r idx. some (success idx);
  take_output = λ r idx. (success idx, r);
}

abbrev before_commit : Committing sample_environment sample_versioned sample_materializing
before_commit = record { cache = []; recorder = []; hooks = []; final_results = 0 ∷ 0 ∷ [] }

abbrev after_commit : Committing sample_environment sample_versioned sample_materializing
after_commit = record {
  cache = 2 ∷ [];
  recorder = [];
  hooks = on_transaction_committed 1 1 ∷ [];
  final_results = 0 ∷ 1 ∷ [];
}

second_commits :
    materialize_txn_commit sample_environment sample_versioned sample_materializing true 1
      before_commit
    ≡ ok after_commit
unfolding materialize_txn_commit materialize_output materialize_aggregator_v1_delta_writes
    delta_writes committed_value notify_listener call_of store_result store_at
second_commits = refl

materialize_txn_commit-IsMaterialized_example :
    (r : List (ℕ × KeyKind)) × ◌≡◌ {A = List (ℕ × KeyKind)} r []
    × IsMaterialized sample_environment sample_versioned sample_materializing true 1 before_commit
        after_commit
        (success 1)
materialize_txn_commit-IsMaterialized_example =
    materialize_txn_commit-IsMaterialized sample_environment sample_versioned sample_materializing
      (λ r idx status e. cc) true 1 before_commit after_commit second_commits

-- Three transactions with a fee of 1 each; a record that is not empty skips the rest, and the
-- scheduler counts the commits in its queue.
abbrev sample_committable : Committable sample_environment sample_versioned sample_scheduling
sample_committable = record {
  check_fatal_vm_error = λ r idx. ok tt;
  check_execution_status_during_commit = λ r idx. ok tt;
  fee_statement = λ r idx. some 1;
  output_approx_size = λ r idx. some 0;
  get_txn_read_write_summary = λ r idx. 0;
  update_to_skip_rest = λ r idx. (idx, resource) ∷ r;
  block_skips_rest_at_idx = λ r idx. not (is_empty r);
  groups_to_finalize = λ r idx. [];
  record_finalized_group = λ r idx groups. r;
  get_last_committed_group = λ c key. [];
  finalize_group = λ c key idx. (c, []);
  should_end_block_parallel = λ l. ltb 100 l;
  num_txns = λ s. 3;
  try_commit = λ s. (some (s, 0), s);
  add_to_commit_queue = λ s idx. s + 1;
  halt = λ s. s;
  is_execution_task = λ task. false;
}

abbrev committing :
    ℕ → ℕ → Committer sample_environment sample_versioned sample_scheduling sample_committable
committing s l = record { recorder = []; cache = []; scheduler = s; limit = l }

second_goes_on :
    commit_transaction sample_environment sample_versioned sample_scheduling sample_committable
      (5 ∷ 3 ∷ 4 ∷ [])
      1
      0
      (committing 1 50)
    ≡ ok (go_on (committing 2 51))
unfolding commit_transaction account_for_fee charge approx_size finalize_groups queue_commit
second_goes_on = refl

commit_transaction-below_example :
    ◌≡◌ {A = ℕ} 2 2 × (2 < 3) × (◌≡◌ {A = Option ℕ} (some 1) none ⊎ (ltb 100 51 ≡ false))
commit_transaction-below_example =
    commit_transaction-below sample_environment sample_versioned sample_scheduling
      sample_committable (record { skips = λ r idx fee e. refl; keeps = λ r idx groups. refl })
      (5 ∷ 3 ∷ 4 ∷ []) 1 0 (committing 1 50) (committing 2 51) (omega arith) second_goes_on
