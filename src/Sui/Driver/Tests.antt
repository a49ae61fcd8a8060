-- ===== src/Sui/Driver/Tests.antt =====
-- Two transactions in memory, of which checkpoints are built.
use test_suites.Prelude.{
  ℕ, ◌+◌, ◌≡◌, refl, true, false, some, none, List, [], ◌∷◌, ◌++◌, map, length, arith,
}
use test_suites.Prelude.Words.{add64}
use test_suites.Prelude.Outcome.{returns}
use test_suites.Prelude.Attempt.{ok}
use test_suites.Sui.Accounts.{ObjectRef}
use test_suites.Sui.Effects.{TransactionEffects}
use test_suites.Sui.Node.{Validator}
use test_suites.Sui.Store.{
  ObjectApi, InputObjectKind, imm_or_owned_move_object, InMemoryObjectStore,
}
use test_suites.Sui.Checkpoints.{Builder}
use test_suites.Sui.Checkpoints.Partition.{IsPartition}
use test_suites.Sui.Memory.{Executor, execute_transactions_in_memory}
use test_suites.Sui.Driver.{execute_and_build}
use test_suites.Sui.Driver.Checkpointed.{execute_and_build-IsPartition, dict}

abbrev gas : ObjectRef
gas = record { id = 1; version = 1; digest = 0 }

abbrev effects_of : ℕ → TransactionEffects
effects_of d = record {
  transaction_digest = d;
  is_ok = true;
  created = [];
  mutated = [];
  all_changed_objects = [];
  gas_object = gas;
}

-- A certificate is its digest.
abbrev plain : Validator
plain = record {
  Node = ℕ;
  Transaction = ℕ;
  Certificate = ℕ;
  Executable = ℕ;
  Response = ℕ;
  Signed = ℕ;
  from_transaction = λ t. t;
  from_certificate = λ c. c;
  into_unsigned = λ c. c;
  contains_shared_object = λ c. false;
  try_execute_immediately = λ n x. some (effects_of x, n);
  enqueue_certificates_for_execution = λ n cs. n;
  execute_certificate = λ n c. some (effects_of c, n);
  execute_certificate_for_testing = λ n c. some (effects_of c, n);
  handle_transaction_for_testing = λ n t. some (t, n);
  handle_transaction = λ n t. some (t, n);
  sign = λ n t. t;
  new_certificate = λ n t s. some t;
  assign_versions = λ n xs. some n;
  commit_transaction_outputs = λ n d. some n;
}

abbrev versions : ObjectApi
versions = record {
  Object = ℕ;
  version = λ o. o;
  object_owner = λ o. none;
  SuiError = InputObjectKind;
  object_not_found_error = λ kind. kind;
  Cache = ℕ;
  new_cache = 0;
  get_package_object = λ cache get id. (ok (get id), cache, 1);
}

-- Every transaction reads object 1 at the version that is its digest, and raises the version.
abbrev raise : Executor plain versions
raise = record {
  Inputs = ℕ;
  digest = λ c. c;
  input_objects = λ c. some (imm_or_owned_move_object 1 c ∷ []);
  shared_locks = λ c. ok [];
  check_certificate_input = λ c objects. some (length objects);
  execute_transaction_to_effects = λ store c n.
      (record { mutable_inputs = 1 ∷ []; written = (1, c + 1) ∷ [] }, effects_of c, store);
  transaction_digest-execute = λ store c n. refl;
  iter_live_object_set = λ n. [];
}

abbrev list_builder : Builder
list_builder = record {
  Transaction = ℕ;
  Effects = TransactionEffects;
  Checkpoint = List (ℕ × TransactionEffects);
  State = List (ℕ × TransactionEffects);
  digest = λ t. t;
  push_transaction = λ s t e. s ++ (t, e) ∷ [];
  size = length;
  build = λ s. (s, []);
  held = λ s. s;
  contents = λ c. c;
  held-push_transaction = λ s t e. refl;
  size-length = λ s. refl;
  contents-build = λ s. refl;
  held-build = λ s. refl;
}

abbrev one_object : ℕ → ℕ → InMemoryObjectStore versions
one_object version reads = record {
  objects = (1, version) ∷ [];
  package_cache = 0;
  num_object_reads = reads;
}

-- The second reads what the first wrote.
execute_and_build-IsPartition_example :
    (cs : List (List (ℕ × TransactionEffects))) × (execute_and_build plain versions raise
        (λ T xs. xs)
        list_builder
        (λ c. c)
        (λ e. e)
        []
        1
        (one_object 4 0)
        (4 ∷ 5 ∷ [])
      ≡ returns cs)
    × IsPartition list_builder 1
        (4 ∷ 5 ∷ [])
        (dict plain versions raise
          (λ T xs. xs)
          list_builder
          (λ c. c)
          (λ e. e)
          (effects_of 4 ∷ effects_of 5 ∷ [])
          [])
        (map (λ c. c) cs)
unfolding execute_transactions_in_memory add64
execute_and_build-IsPartition_example =
    execute_and_build-IsPartition plain versions raise (λ T xs. xs) list_builder (λ c. c) (λ e. e)
      (λ c. refl) (λ P certs h. h) [] 1 (one_object 4 0) (4 ∷ 5 ∷ [])
      {results = effects_of 4 ∷ effects_of 5 ∷ []} {end = one_object 6 2} refl
      ((λ e. omega arith, tt), (tt, tt)) (omega arith) refl
