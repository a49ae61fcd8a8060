-- ===== src/Fake/Sample.antt =====
-- A small VM and an executor over it, for the tests.
use test_suites.Prelude.{ℕ, ◌+◌, true, false, some, [], ◌∷◌, ◌++◌, ◌==◌, ==_iff, if◌then◌else◌}
use test_suites.Prelude.Maps.{Dict, lookup, insert}
use test_suites.Prelude.Attempt.{ok}
use test_suites.Prelude.Equality.{Eq}
use test_suites.Fake.{
  Crates, FakeExecutor, TransactionStatus, keep, discard, retry, both_comparison,
}

abbrev pub number_eq : Eq ℕ
number_eq = record { eq = λ a b. a == b; eq_iff = ==_iff }

-- Every transaction is answered by itself; 9 is discarded and 8 fails.
abbrev pub sample_status : ℕ → TransactionStatus ℕ ℕ
sample_status o = if o == 9 then discard 1 else if o == 8 then keep 1 else keep 0

abbrev pub sample_crates : Crates
sample_crates = record {
  SignedTransaction = ℕ;
  Transaction = ℕ;
  Metadata = ℕ;
  user_transaction = λ t. t;
  block_metadata = λ m. m;
  Output = ℕ;
  output_eq = number_eq;
  Fee = ℕ;
  fee_eq = number_eq;
  fee_statement = λ o. o;
  Op = ℕ;
  op_eq = number_eq;
  write_set = λ o. (o, o) ∷ [];
  Event = ℕ;
  events = λ o. 0 ∷ o ∷ [];
  Execution = ℕ;
  execution_eq = number_eq;
  success = 0;
  Code = ℕ;
  status = sample_status;
  is_discarded = λ s. elim s [ keep x ↦ false | discard c ↦ true | retry ↦ true ];
  gas_used = λ o. 1;
  is_v1 = λ e. true;
  is_new_block_event = λ e. true;
  decodes = λ e. true;
  Store = Dict ℕ;
  empty = [];
  add_write_set = λ s ws. s ++ ws;
  StateValue = ℕ;
  Bytes = ℕ;
  get_state_value = λ s key. lookup key s;
  get_state_value_bytes = λ s key. lookup key s;
  set = λ s key v. insert key v s;
  new_legacy = λ b. b;
  ModuleId = ℕ;
  module_id = λ name. 1;
  add_module = λ s id blob. s;
  add_coin_info = λ s. s;
  validators = λ s. some (5 ∷ 6 ∷ []);
  Account = ℕ;
  AccountData = ℕ;
  KeyGen = ℕ;
  from_seed = 0;
  address = λ a. a;
  account_from_seed = λ g. (g, g + 1);
  data_from_seed = λ g balance seq. (g, g + 1);
  genesis_account = λ addr. addr;
  with_account = λ a balance seq. a;
  into_account = λ d. d;
  add_account_data = λ s d. insert d 0 s;
  num_cpus = 8;
  VmStatus = ℕ;
  vm_status_eq = number_eq;
  SignatureVerified = ℕ;
  into_signature_verified = λ t. t;
  execute_block = λ config block s. ok block;
  new_metadata = λ proposer n failed time. proposer + time;
  test_chain = 4;
  Features = ℕ;
  default_features = 0;
}

abbrev pub fresh : FakeExecutor sample_crates
fresh = record {
  data_store = [];
  event_store = [];
  block_time = 10;
  rng = 0;
  executor_mode = some both_comparison;
  features = 0;
  chain_id = 4;
  allow_block_executor_fallback = true;
}
