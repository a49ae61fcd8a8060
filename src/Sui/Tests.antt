-- ===== src/Sui/Tests.antt =====
-- The in-memory store, the checkpoints, the accounts and the generators on small inputs.
use test_suites.Prelude.{
  ℕ, ◌+◌, ◌≡◌, refl, true, false, none, List, [], ◌∷◌, ◌++◌, map, length, arith, All,
}
use test_suites.Prelude.Words.{add64}
use test_suites.Prelude.Maps.{Dict, lookup}
use test_suites.Prelude.Attempt.{ok}
use test_suites.Sui.Store.{
  ObjectApi, InputObjectKind, imm_or_owned_move_object, shared_move_object, InnerTemporaryStore,
  InMemoryObjectStore, read_objects_for_execution, commit_objects,
}
use test_suites.Sui.Store.Commit.{lookup-commit_objects}
use test_suites.Sui.Store.Reads.{read_objects-IsCurrent, IsCurrent}
use test_suites.Sui.Checkpoints.{Builder, build_checkpoints}
use test_suites.Sui.Checkpoints.Partition.{build_checkpoints-IsPartition, IsPartition}
use test_suites.Sui.Accounts.{Object, ObjectRef, batch_create_account_and_gas}
use test_suites.Sui.Accounts.Ids.{genesis_ids, Distinct, ids}
use test_suites.Sui.Effects.{Owner, TransactionEffects}
use test_suites.Sui.Context.{
  BenchmarkContext, Call, refresh_gas_objects, generate_erc20_tx_from_csv,
}
use test_suites.Sui.Context.Csv.{generate_erc20-IsNumbered, IsNumbered}
use test_suites.Sui.Context.Refresh.{refresh_renews, renewed_accounts}
use test_suites.Sui.MoveTx.{MoveTxGenerator}

-- An object is its version.
abbrev sample_objects : ObjectApi
sample_objects = record {
  Object = ℕ;
  version = λ o. o;
  object_owner = λ o. none;
  SuiError = InputObjectKind;
  object_not_found_error = λ kind. kind;
  Cache = ℕ;
  new_cache = 0;
  get_package_object = λ cache get id. (ok (get id), cache, 1);
}

abbrev two_objects : InMemoryObjectStore sample_objects
two_objects = record { objects = (1, 4) ∷ (2, 6) ∷ []; package_cache = 0; num_object_reads = 0 }

-- Object 1 is consumed, object 2 written, and object 3 created.
abbrev effects : InnerTemporaryStore ℕ
effects = record { mutable_inputs = 1 ∷ 2 ∷ []; written = (2, 7) ∷ (3, 7) ∷ [] }

lookup-commit_objects_example :
    lookup 1 (commit_objects sample_objects two_objects effects).objects ≡ none
lookup-commit_objects_example =
    lookup-commit_objects sample_objects two_objects effects 1 (refl, (refl, tt))

abbrev both_kinds : List InputObjectKind
both_kinds = imm_or_owned_move_object 1 4 ∷ shared_move_object 2 ∷ []

abbrev both_results : List (InputObjectKind × ℕ)
both_results = (imm_or_owned_move_object 1 4, 4) ∷ (shared_move_object 2, 6) ∷ []

read_objects-IsCurrent_example :
    (map (λ r. r.0) both_results ≡ both_kinds)
    × All (IsCurrent sample_objects two_objects.objects (ok ((2, 6) ∷ []))) both_results
    × (two_objects.objects ≡ two_objects.objects)
unfolding read_objects_for_execution add64
read_objects-IsCurrent_example =
    read_objects-IsCurrent sample_objects (ok ((2, 6) ∷ [])) two_objects both_kinds
      {results = both_results} {store' = record two_objects { num_object_reads = 2 }} refl

-- A builder that is the list of what it holds.
abbrev list_builder : Builder
list_builder = record {
  Transaction = ℕ;
  Effects = ℕ;
  Checkpoint = List (ℕ × ℕ);
  State = List (ℕ × ℕ);
  digest = λ t. t;
  push_transaction = λ s t e. s ++ (t, e) ∷ [];
  size = length;
  build = λ s. (s, []);
  held = λ s. s;
  contents = λ c. c;
  held-push_transaction = λ s t e. refl;
  size-length = λ s. refl;
  contents-build = λ s. refl;
  held-build = λ s. refl;
}

abbrev known_effects : Dict ℕ
known_effects = (1, 10) ∷ (2, 20) ∷ (3, 30) ∷ []

abbrev chunks : List (List (ℕ × ℕ))
chunks = ((3, 30) ∷ (1, 10) ∷ []) ∷ ((2, 20) ∷ []) ∷ []

build_checkpoints-IsPartition_example :
    IsPartition list_builder 2 (3 ∷ 1 ∷ 2 ∷ []) known_effects (map list_builder.contents chunks)
unfolding build_checkpoints
build_checkpoints-IsPartition_example =
    build_checkpoints-IsPartition list_builder [] (3 ∷ 1 ∷ 2 ∷ []) known_effects 2 {cs = chunks}
      (omega arith) refl refl

abbrev reference : Object → ObjectRef
reference = λ o. record { id = o.id; version = 1; digest = 0 }

genesis_ids_example :
    Distinct (ids (batch_create_account_and_gas reference (λ k. 100 + k) (2 ∷ 0 ∷ []) 2).1)
    × (length (batch_create_account_and_gas reference (λ k. 100 + k) (2 ∷ 0 ∷ []) 2).1 ≡ 4)
genesis_ids_example =
    genesis_ids reference (λ k. 100 + k) 3 2 (omega arith) (2 ∷ 0 ∷ [])
      (omega arith, (omega arith, tt)) ((λ e. omega arith, tt), (tt, tt))

abbrev ref_at : ℕ → ℕ → ObjectRef
ref_at id version = record { id = id; version = version; digest = 0 }

abbrev two_users : BenchmarkContext
two_users = record {
  user_accounts =
      (101, record { sender = 101; gas_objects = ref_at 1 1 ∷ ref_at 2 1 ∷ [] })
      ∷ (102, record { sender = 102; gas_objects = ref_at 3 1 ∷ [] })
      ∷ [];
  admin_account = record { sender = 100; gas_objects = [] };
  account_indexes = [];
}

abbrev new_refs : Dict ObjectRef
new_refs = (3, ref_at 3 2) ∷ (1, ref_at 1 2) ∷ []

refresh_renews_example :
    refresh_gas_objects two_users new_refs
    ≡ record two_users { user_accounts = renewed_accounts new_refs two_users.user_accounts }
refresh_renews_example =
    refresh_renews two_users new_refs
      ((λ e. omega arith, (λ e. omega arith, tt)), ((λ e. omega arith, tt), (tt, tt)))

abbrev shared_owner : Owner
shared_owner = record { get_address_owner_address = none; is_shared = true; is_immutable = false }

abbrev land_effects : ℕ → ℕ → TransactionEffects
land_effects land gas = record {
  transaction_digest = gas;
  is_ok = true;
  created = (ref_at land 1, shared_owner) ∷ [];
  mutated = [];
  all_changed_objects = [];
  gas_object = ref_at gas 2;
}

abbrev created_land : List TransactionEffects
created_land = land_effects 40 1 ∷ land_effects 41 3 ∷ []

abbrev land_generator : MoveTxGenerator
land_generator = record {
  num_transfers = 0;
  use_native_transfer = false;
  computation = 0;
  root_objects = [];
  shared_objects = [];
  erc20_transfer = false;
  kitty_objects = [];
  land_objects = (0, (40, 1)) ∷ (1, (41, 1)) ∷ [];
}

abbrev indexed_users : BenchmarkContext
indexed_users = record two_users { account_indexes = (1, 101) ∷ (2, 102) ∷ [] }

abbrev call_of : ℕ → ℕ → List ObjectRef → ℕ → Call
call_of from to objects index = record {
  from = record { sender = from; gas_objects = objects };
  to = to;
  args = (1, index) ∷ [];
  objects = [];
}

abbrev csv_calls : List Call
csv_calls =
    call_of 101 102 (ref_at 1 1 ∷ ref_at 2 1 ∷ []) 0
    ∷ call_of 102 101 (ref_at 3 1 ∷ []) 0
    ∷ call_of 101 102 (ref_at 1 1 ∷ ref_at 2 1 ∷ []) 1
    ∷ []

generate_erc20-IsNumbered_example :
    IsNumbered indexed_users [] ((1, 2) ∷ (2, 1) ∷ (1, 2) ∷ []) csv_calls
unfolding generate_erc20_tx_from_csv add64
generate_erc20-IsNumbered_example =
    generate_erc20-IsNumbered indexed_users ((1, 2) ∷ (2, 1) ∷ (1, 2) ∷ []) {calls = csv_calls}
      (omega arith) refl
