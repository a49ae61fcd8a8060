-- ===== src/Fake.antt =====
-- `FakeExecutor` (codes/aptos/modified/e2e-tests/src/executor.rs): its state, what it uses of other
-- files and crates, its constructors and the accessors of its store. Golden files, traces and
-- printed lines are left out.
mod Tests
pub mod Sample
pub mod Outputs
pub mod Sessions
pub mod Timing
pub mod Blocks
pub mod Modes
use Prim.Native.String.{String}
use test_suites.Prelude.{
  ℕ, zero, suc, ◌+◌, ◌/◌, ◌≡◌, Bool, true, false, Option, none, some, List, [], ◌∷◌, ◌++◌,
}
use test_suites.Prelude.Maps.{Dict}
use test_suites.Prelude.Outcome.{Outcome, returns, panics, ◌>>=◌, unwrap}
use test_suites.Prelude.Attempt.{Attempt}
use test_suites.Prelude.Equality.{Eq}
use test_suites.Block.Status.{LocalConfig}

-- `TransactionStatus`
pub data TransactionStatus (Execution Code : Type 0) : Type 0 where
  keep : Execution → TransactionStatus Execution Code
  discard : Code → TransactionStatus Execution Code
  retry : TransactionStatus Execution Code

pub data ExecutorMode : Type 0 where
  sequential_only : ExecutorMode
  parallel_only : ExecutorMode
  both_comparison : ExecutorMode

-- The VM with its outputs, the data store, the accounts and the key generator. Keys and addresses
-- are numbers, and a write set is an association list.
pub record Crates : Type 1 where
  pub SignedTransaction : Type 0
  pub Transaction : Type 0
  pub Metadata : Type 0
  pub user_transaction : SignedTransaction → Transaction
  pub block_metadata : Metadata → Transaction
  -- Outputs.
  pub Output : Type 0
  pub output_eq : Eq Output
  pub Fee : Type 0
  pub fee_eq : Eq Fee
  pub fee_statement : Output → Fee
  pub Op : Type 0
  pub op_eq : Eq Op
  pub write_set : Output → Dict Op
  pub Event : Type 0
  pub events : Output → List Event
  pub Execution : Type 0
  pub execution_eq : Eq Execution
  pub success : Execution
  pub Code : Type 0
  pub status : Output → TransactionStatus Execution Code
  pub is_discarded : TransactionStatus Execution Code → Bool
  pub gas_used : Output → ℕ
  -- Whether an event is a version 1 event, that of a new block, and can be decoded.
  pub is_v1 : Event → Bool
  pub is_new_block_event : Event → Bool
  pub decodes : Event → Bool
  -- The data store.
  pub Store : Type 0
  pub empty : Store
  pub add_write_set : Store → Dict Op → Store
  pub StateValue : Type 0
  pub Bytes : Type 0
  pub get_state_value : Store → ℕ → Option StateValue
  pub get_state_value_bytes : Store → ℕ → Option Bytes
  pub set : Store → ℕ → StateValue → Store
  pub new_legacy : Bytes → StateValue
  pub ModuleId : Type 0
  pub module_id : String → ModuleId
  pub add_module : Store → ModuleId → Bytes → Store
  pub add_coin_info : Store → Store
  -- The configured validators: their addresses, in order.
  pub validators : Store → Option (List ℕ)
  -- Accounts.
  pub Account : Type 0
  pub AccountData : Type 0
  pub KeyGen : Type 0
  pub from_seed : KeyGen
  pub address : Account → ℕ
  pub account_from_seed : KeyGen → Account × KeyGen
  pub data_from_seed : KeyGen → ℕ → ℕ → AccountData × KeyGen
  pub genesis_account : ℕ → Account
  pub with_account : Account → ℕ → ℕ → AccountData
  pub into_account : AccountData → Account
  pub add_account_data : Store → AccountData → Store
  -- The VM.
  pub num_cpus : ℕ
  pub VmStatus : Type 0
  pub vm_status_eq : Eq VmStatus
  pub SignatureVerified : Type 0
  pub into_signature_verified : Transaction → SignatureVerified
  pub execute_block : LocalConfig → List SignatureVerified → Store → Attempt VmStatus (List Output)
  pub new_metadata : ℕ → ℕ → List ℕ → ℕ → Metadata
  -- `ChainId::test().id()`
  pub test_chain : ℕ
  pub Features : Type 0
  pub default_features : Features

module _ (k : Crates) where
  open k use {Store, Event, KeyGen, Features, Op, Account, AccountData, ModuleId, Bytes, StateValue}

  pub record FakeExecutor : Type 0 where
    pub data_store : Store
    pub event_store : List Event
    pub block_time : ℕ
    pub rng : KeyGen
    pub executor_mode : Option ExecutorMode
    pub features : Features
    pub chain_id : ℕ
    pub allow_block_executor_fallback : Bool

  unfoldable pub no_genesis : FakeExecutor
  no_genesis = record {
    data_store = k.empty;
    event_store = [];
    block_time = 0;
    rng = k.from_seed;
    executor_mode = none;
    features = k.default_features;
    chain_id = k.test_chain;
    allow_block_executor_fallback = true;
  }

  unfoldable pub apply_write_set : Dict Op → FakeExecutor → FakeExecutor
  apply_write_set writes e = record e { data_store = k.add_write_set e.data_store writes }

  unfoldable pub from_genesis : Dict Op → ℕ → FakeExecutor
  unfolding no_genesis apply_write_set
  from_genesis writes chain = apply_write_set writes (record no_genesis { chain_id = chain })

  unfoldable pub set_executor_mode : ExecutorMode → FakeExecutor → FakeExecutor
  set_executor_mode mode e = record e { executor_mode = some mode }

  unfoldable pub set_not_parallel : FakeExecutor → FakeExecutor
  unfolding set_executor_mode
  set_not_parallel e = set_executor_mode sequential_only e

  unfoldable pub set_parallel : FakeExecutor → FakeExecutor
  unfolding set_executor_mode
  set_parallel e = set_executor_mode both_comparison e

  unfoldable pub disable_block_executor_fallback : FakeExecutor → FakeExecutor
  disable_block_executor_fallback e = record e { allow_block_executor_fallback = false }

  unfoldable pub add_account_data : AccountData → FakeExecutor → FakeExecutor
  add_account_data d e = record e { data_store = k.add_account_data e.data_store d }

  unfoldable pub create_raw_account : FakeExecutor → Account × FakeExecutor
  create_raw_account e =
      let (account, rng') = k.account_from_seed e.rng in (account, record e { rng = rng' })

  unfoldable pub create_raw_account_data : ℕ → ℕ → FakeExecutor → AccountData × FakeExecutor
  create_raw_account_data balance seq_num e =
      let (d, rng') = k.data_from_seed e.rng balance seq_num in (d, record e { rng = rng' })

  unfoldable pub create_accounts : ℕ → ℕ → ℕ → FakeExecutor → List Account × FakeExecutor
  unfolding add_account_data
  create_accounts zero balance seq_num e = ([], e)
  create_accounts (suc size) balance seq_num e =
      let (d, rng') = k.data_from_seed e.rng balance seq_num in
      let (accounts, e') =
        create_accounts size balance seq_num (add_account_data d (record e { rng = rng' })) in
      (k.into_account d ∷ accounts, e')

  -- 10 million coins, with 8 decimals.
  unfoldable pub new_account_data_at : ℕ → FakeExecutor → AccountData × FakeExecutor
  unfolding add_account_data
  new_account_data_at addr e =
      let d = k.with_account (k.genesis_account addr) 1_000_000_000_000_000 0 in
      (d, add_account_data d e)

  unfoldable pub new_account_at : ℕ → FakeExecutor → Account × FakeExecutor
  unfolding new_account_data_at
  new_account_at addr e = let (d, e') = new_account_data_at addr e in (k.into_account d, e')

  unfoldable pub append_events : List Event → FakeExecutor → FakeExecutor
  append_events events e = record e { event_store = e.event_store ++ events }

  unfoldable pub add_coin_info : FakeExecutor → FakeExecutor
  add_coin_info e = record e { data_store = k.add_coin_info e.data_store }

  unfoldable pub add_module : ModuleId → Bytes → FakeExecutor → FakeExecutor
  add_module id blob e = record e { data_store = k.add_module e.data_store id blob }

  -- The modules of the standard library are published one by one.
  unfoldable pub add_modules : List (ModuleId × Bytes) → FakeExecutor → FakeExecutor
  unfolding add_module
  add_modules [] e = e
  add_modules ((id, blob) ∷ rest) e = add_modules rest (add_module id blob e)

  unfoldable pub stdlib_only_genesis : List (ModuleId × Bytes) → FakeExecutor
  unfolding add_modules no_genesis
  stdlib_only_genesis modules = add_modules modules no_genesis

  -- A resource that is not there is a panic, and one that cannot be decoded is `none`.
  unfoldable pub read_resource :
      {R : Type 0} → (ℕ → ℕ) → (Bytes → Option R) → ℕ → FakeExecutor → Outcome (Option R)
  read_resource state_key from_bytes addr e = do
    data_blob ← unwrap (k.get_state_value_bytes e.data_store (state_key addr))
    returns (from_bytes data_blob)

  unfoldable pub read_state_value : ℕ → FakeExecutor → Option StateValue
  read_state_value key e = k.get_state_value e.data_store key

  unfoldable pub read_state_value_bytes : ℕ → FakeExecutor → Option Bytes
  read_state_value_bytes key e = k.get_state_value_bytes e.data_store key

  unfoldable pub write_state_value : ℕ → Bytes → FakeExecutor → FakeExecutor
  write_state_value key blob e = record e {
    data_store = k.set e.data_store key (k.new_legacy blob);
  }

  unfoldable pub set_block_time : ℕ → FakeExecutor → FakeExecutor
  set_block_time time e = record e { block_time = time }

  unfoldable pub get_block_time_seconds : FakeExecutor → ℕ
  get_block_time_seconds e = e.block_time / 1_000_000
