-- ===== src/Sui/Genesis.antt =====
-- `BenchmarkContext::new`
-- (codes/sui/modified/sui-single-node-benchmark/src/benchmark_context.rs), the numbers of
-- codes/sui/modified/sui-single-node-benchmark/src/workload.rs and of .../src/command.rs. The
-- validator that starts from the genesis objects belongs to other crates.
mod Keys
pub mod Users
mod Tests
use test_suites.Prelude.{
  ℕ, Bool, true, false, Option, some, none, List, [], ◌∷◌, length, if◌then◌else◌, ◌==◌, ltb,
}
use test_suites.Prelude.Words.{add64, mul64}
use test_suites.Prelude.Maps.{Dict, lookup, erase}
use test_suites.Prelude.Outcome.{Outcome, returns, panics, ◌>>=◌, ◌>>◌, unwrap, ensure}
use test_suites.Sui.Accounts.{
  Object, ObjectRef, Account, batch_create_account_and_gas, batch_create_account_and_gas_by_index,
}
use test_suites.Sui.Context.{BenchmarkContext}

pub record Ptb : Type 0 where
  pub num_transfers : ℕ
  pub use_native_transfer : Bool
  pub num_dynamic_fields : ℕ
  pub computation : ℕ
  pub num_shared_objects : ℕ
  pub erc20_transfer : Bool
  pub test_kitty : Bool
  pub num_land_objects : ℕ

-- A publication names its manifest file.
pub data WorkloadKind : Type 0 where
  ptb : Ptb → WorkloadKind
  publish : ℕ → WorkloadKind

-- One gas object, and the objects that are transferred.
unfoldable pub gas_object_num_per_account : WorkloadKind → ℕ
gas_object_num_per_account (ptb options) = add64 options.num_transfers 1
gas_object_num_per_account (publish manifest_file) = 1

unfoldable pub is_test_kitty : WorkloadKind → Bool
is_test_kitty (ptb options) = options.test_kitty
is_test_kitty (publish manifest_file) = false

pub record Workload : Type 0 where
  pub tx_count : ℕ
  pub workload_kind : WorkloadKind

-- One account is for the package, and one for the sample transaction.
unfoldable pub num_accounts : Workload → Bool → ℕ
num_accounts workload print_sample_tx =
    if print_sample_tx then add64 (add64 workload.tx_count 1) 1 else add64 workload.tx_count 1

-- The greatest key of a map with this key and those of the entries.
unfoldable pub greatest : ℕ → Dict Account → ℕ
greatest key [] = key
greatest key (e ∷ rest) = if ltb key e.0 then greatest e.0 rest else greatest key rest

-- `BTreeMap::pop_last`
unfoldable pub pop_last : Dict Account → Option (Account × Dict Account)
unfolding greatest
pop_last [] = none
pop_last (e ∷ rest) =
    let key = greatest e.0 rest in
    elim (lookup key (e ∷ rest)) [ none ↦ none | some last ↦ some (last, erase key (e ∷ rest)) ]

module _ (compute_object_reference : Object → ObjectRef) (key_of : ℕ → ℕ) where
  -- Without a file of accounts, from the order in which the tasks of the accounts finish.
  unfoldable pub new : Workload → Bool → List ℕ → Outcome (BenchmarkContext × List Object)
  unfolding num_accounts gas_object_num_per_account pop_last batch_create_account_and_gas
  new workload print_sample_tx order = do
    let per = gas_object_num_per_account workload.workload_kind
    let total = mul64 (num_accounts workload print_sample_tx) per
    let (accounts, genesis) = batch_create_account_and_gas compute_object_reference key_of order per
    ensure (length genesis == total)
    (admin_account, user_accounts) ← unwrap (pop_last accounts)
    returns (
      record { user_accounts = user_accounts; admin_account = admin_account; account_indexes = [] },
      genesis,
    )

  -- With the records of a file.
  unfoldable pub new_from_csv : List (ℕ × ℕ) → List ℕ → Outcome (BenchmarkContext × List Object)
  unfolding batch_create_account_and_gas_by_index
  new_from_csv records order = do
    (created, admin_account) ←
        batch_create_account_and_gas_by_index compute_object_reference key_of records order
    returns (
      record {
        user_accounts = created.accounts;
        admin_account = admin_account;
        account_indexes = created.account_indexes;
      },
      created.genesis_gas_objects,
    )
