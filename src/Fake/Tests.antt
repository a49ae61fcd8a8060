-- ===== src/Fake/Tests.antt =====
-- A small VM, an executor over it, and the theorems at runs of it.
use test_suites.Prelude.{
  ℕ, ◌+◌, ◌≡◌, ◌↔◌, refl, true, false, Option, none, some, List, [], ◌∷◌, ◌==◌, if◌then◌else◌,
  get_elem?,
}
use test_suites.Prelude.Words.{add64}
use test_suites.Prelude.Outcome.{returns}
use test_suites.Prelude.Attempt.{ok}
use test_suites.Fake.{FakeExecutor, keep, apply_write_set, set_block_time}
use test_suites.Fake.Outputs.{
  assert_outputs_equal, assert_each_equal, assert_output_equal, differences, differing, collect_set,
  insert_key,
}
use test_suites.Fake.Outputs.Agreement.{assert_outputs_equal_iff}
use test_suites.Fake.Modes.{
  mode_of, execute_transaction_block_impl_with_state_view, execute_block,
  execute_transaction_block_with_state_view, execute_transaction_block, execute_in_mode,
  execute_both, compare_results, execute_and_apply,
}
use test_suites.Fake.Modes.Answers.{Answers}
use test_suites.Fake.Modes.Applies.{execute_and_apply_iff}
use test_suites.Fake.Blocks.{
  apply_outputs, check_new_block_event, run_block_with_metadata, new_block_with_metadata,
  new_block_with_timestamp, new_block,
}
use test_suites.Fake.Blocks.Applied.{settled, new_block-Advances}
use test_suites.Fake.Timing.{Timed}
use test_suites.Fake.Sessions.{Sessions}
use test_suites.Fake.Sample.{sample_crates, sample_status, fresh}

assert_outputs_equal_iff_example :
    (assert_outputs_equal sample_crates (3 ∷ 4 ∷ []) (3 ∷ 5 ∷ []) ≡ returns tt)
    ↔ (◌≡◌ {A = List ℕ} (3 ∷ 4 ∷ []) (3 ∷ 5 ∷ []))
assert_outputs_equal_iff_example = assert_outputs_equal_iff sample_crates (3 ∷ 4 ∷ []) (3 ∷ 5 ∷ [])

abbrev after_three : FakeExecutor sample_crates
after_three = record fresh { data_store = (3, 3) ∷ [] }

execute_and_apply_iff_example :
    (execute_and_apply sample_crates false 3 fresh ≡ returns (3, after_three)) ↔ (
      (execute_block sample_crates false (3 ∷ []) fresh ≡ ok (3 ∷ []))
      × (sample_status 3 ≡ keep 0)
      × (apply_write_set sample_crates ((3, 3) ∷ []) fresh ≡ after_three))
execute_and_apply_iff_example = execute_and_apply_iff sample_crates false 3 fresh after_three 3

abbrev after_block : FakeExecutor sample_crates
after_block = record fresh { data_store = (15, 15) ∷ (3, 3) ∷ (8, 8) ∷ [] }

abbrev after_new_block : FakeExecutor sample_crates
after_new_block = record fresh { block_time = 11; data_store = (16, 16) ∷ [] }

new_block_runs : new_block sample_crates false fresh ≡ returns after_new_block
unfolding new_block new_block_with_timestamp new_block_with_metadata set_block_time add64
    run_block_with_metadata execute_transaction_block execute_transaction_block_with_state_view
    mode_of execute_in_mode execute_both compare_results assert_outputs_equal assert_each_equal
    assert_output_equal differences differing collect_set insert_key
    execute_transaction_block_impl_with_state_view check_new_block_event apply_outputs
    apply_write_set
new_block_runs = refl

new_block-Advances_example :
    (outputs : List ℕ) × (proposer : ℕ) × (vs : List ℕ) × (◌≡◌ {A = Option (List ℕ)}
      (some (5 ∷ 6 ∷ []))
      (some vs))
    × (get_elem? vs 0 ≡ some proposer)
    × (execute_transaction_block sample_crates false
          ((proposer + add64 10 1) ∷ [])
          (record fresh { block_time = add64 10 1 })
        ≡ ok outputs)
    × (record fresh { block_time = add64 10 1; data_store = settled sample_crates outputs [] }
        ≡ after_new_block)
new_block-Advances_example =
    new_block-Advances sample_crates false fresh after_new_block new_block_runs

abbrev sample_timed : Timed sample_crates
sample_timed = record {
  random_address = λ i. i + 100;
  address_bytes = λ a. a;
  TypeTag = ℕ;
  elapsed = λ s meter id name types args i. if i == 0 then 50 else i;
}

-- A session is the list of the arguments that it ran with.
abbrev sample_sessions : Sessions sample_crates
sample_sessions = record {
  TypeTag = ℕ;
  Vm = ℕ;
  Session = List ℕ;
  ChangeSet = List ℕ;
  Expression = ℕ;
  Function = ℕ;
  is_identifier = λ name. true;
  new_vm = λ chain features timed s. some 0;
  new_session = λ vm s. [];
  run_unmetered = λ session id name types args. (args, none);
  run_calibrated = λ session id name types args. (args, []);
  finish = λ session. some session;
  into_storage_change_set = λ c. some ([], c);
  gas_parameters = λ features s. true;
  load_function = λ session id name types. ok 0;
  combine_args = λ session senders args function features. ok args;
  run_entry = λ session id name types args. (args, none);
  materialize_deltas = λ c s. ok c;
}
