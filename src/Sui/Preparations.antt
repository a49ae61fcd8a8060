-- ===== src/Sui/Preparations.antt =====
-- The preparations of `BenchmarkContext`
-- (codes/sui/modified/sui-single-node-benchmark/src/benchmark_context.rs) and the generators of
-- their transactions (.../src/tx_generator). The loop over the effects is one pass for each thing
-- that it keeps. `schedule` is the order in which spawned tasks finish; a task is one step.
use test_suites.Prelude.{
  ℕ, zero, suc, ◌+◌, ◌%◌, Bool, true, false, Option, List, [], ◌∷◌, map, take, leb, length,
  get_elem?, set,
}
use test_suites.Prelude.Maps.{Dict, insert}
use test_suites.Prelude.Outcome.{Outcome, returns, ◌>>=◌, ◌>>◌, unwrap, ensure}
use test_suites.Sui.Accounts.{Account, ObjectRef}
use test_suites.Sui.Effects.{TransactionEffects, first_owned, first_shared, new_gas_objects}
use test_suites.Sui.Node.{
  Validator, execute_raw_transaction, run_tasks, commit_all, publish_package as publish_package_at,
}
use test_suites.Sui.Context.{BenchmarkContext, refresh_gas_objects}

-- The functions of the benchmark's package that create objects.
pub data CreateFunction : Type 0 where
  generate_dynamic_fields : ℕ → CreateFunction
  create_shared_counter : CreateFunction
  mint : ℕ → CreateFunction
  create_land_records : CreateFunction

-- A `move_call` of the transaction builder.
pub record MoveCall : Type 0 where
  pub sender : ℕ
  pub gas_object : ObjectRef
  pub move_package : ℕ
  pub function : CreateFunction

-- `generate_tx` of the generators that create objects.
unfoldable pub generate_create : ℕ → CreateFunction → Account → Outcome MoveCall
generate_create move_package function account = do
  gas_object ← unwrap (get_elem? account.gas_objects 0)
  returns (record {
    sender = account.sender;
    gas_object = gas_object;
    move_package = move_package;
    function = function;
  })

-- The same for each account; `gene_id` is drawn for each kitty.
unfoldable pub generate_creates :
    ℕ → (Account → CreateFunction) → List Account → Outcome (List MoveCall)
unfolding generate_create
generate_creates move_package function [] = returns []
generate_creates move_package function (account ∷ rest) = do
  call ← generate_create move_package (function account) account
  calls ← generate_creates move_package function rest
  returns (call ∷ calls)

-- The objects that the effects give, by owner: of two with one owner the later counts.
unfoldable pub collect_by :
    (TransactionEffects → Option (ℕ × ObjectRef))
    → List TransactionEffects
    → Dict ObjectRef
    → Outcome (Dict ObjectRef)
collect_by object_of [] objects = returns objects
collect_by object_of (e ∷ rest) objects = do
  (owner, object) ← unwrap (object_of e)
  collect_by object_of rest (insert owner object objects)

-- The created object that an address owns.
unfoldable pub created_of : TransactionEffects → Option (ℕ × ObjectRef)
unfolding first_owned
created_of e = first_owned e.created

unfoldable pub collect_owned_objects : List TransactionEffects → Outcome (Dict ObjectRef)
unfolding collect_by created_of
collect_owned_objects results = collect_by created_of results []

-- The loop over the effects in `prepare_land_objects`; `i` is 16 bits wide.
unfoldable pub collect_land_objects :
    List TransactionEffects → ℕ → Dict (ℕ × ℕ) → Outcome (Dict (ℕ × ℕ))
unfolding first_shared
collect_land_objects [] i land = returns land
collect_land_objects (e ∷ rest) i land = do
  land_object ← unwrap (first_shared e.created)
  collect_land_objects rest ((i + 1) % 65536) (insert i land_object land)

-- The shared objects in the order of the effects.
unfoldable pub collect_shared_objects : List TransactionEffects → Outcome (List (ℕ × ℕ))
unfolding first_shared
collect_shared_objects [] = returns []
collect_shared_objects (e ∷ rest) = do
  shared_object ← unwrap (first_shared e.created)
  shared_objects ← collect_shared_objects rest
  returns (shared_object ∷ shared_objects)

-- The values of the map of users.
abbrev pub users : BenchmarkContext → List Account
users ctx = map (λ entry. entry.1) ctx.user_accounts

unfoldable pub refresh_from : BenchmarkContext → List TransactionEffects → BenchmarkContext
unfolding refresh_gas_objects new_gas_objects
refresh_from ctx results = refresh_gas_objects ctx (new_gas_objects [] results)

module _ (v : Validator) (build : MoveCall → v.Transaction)
    (schedule : (T : Type 0) → List T → List T) where
  open v use {Node, Transaction}

  unfoldable pub execute_raw_transactions :
      Node → List Transaction → Outcome (List TransactionEffects × Node)
  unfolding run_tasks execute_raw_transaction
  execute_raw_transactions node txs =
      run_tasks (execute_raw_transaction v) node (schedule Transaction txs)

  -- What the preparations share: the transactions of the accounts are built, executed and
  -- committed.
  unfoldable pub execute_creates :
      Node
      → ℕ
      → (Account → CreateFunction)
      → List Account
      → Outcome (List TransactionEffects × Node)
  unfolding execute_raw_transactions commit_all generate_creates
  execute_creates node move_package function accounts = do
    calls ← generate_creates move_package function accounts
    (results, node₁) ← execute_raw_transactions node (map build calls)
    node₂ ← commit_all v node₁ results
    returns (results, node₂)

  unfoldable pub preparing_dynamic_fields :
      BenchmarkContext → Node → ℕ → ℕ → Outcome (Dict ObjectRef × BenchmarkContext × Node)
  unfolding execute_creates collect_owned_objects refresh_from
  preparing_dynamic_fields ctx node move_package zero = returns ([], ctx, node)
  preparing_dynamic_fields ctx node move_package (suc n) = do
    (results, node') ←
        execute_creates node move_package (λ account. generate_dynamic_fields (suc n))
          (schedule Account (users ctx))
    objects ← collect_owned_objects results
    returns (objects, refresh_from ctx results, node')

  unfoldable pub prepare_shared_objects :
      BenchmarkContext → Node → ℕ → ℕ → Outcome (List (ℕ × ℕ) × BenchmarkContext × Node)
  unfolding execute_creates collect_shared_objects refresh_from
  prepare_shared_objects ctx node move_package zero = returns ([], ctx, node)
  prepare_shared_objects ctx node move_package (suc n) = do
    ensure (leb (suc n) (length ctx.user_accounts))
    (results, node') ←
        execute_creates node move_package (λ account. create_shared_counter)
          (take (suc n) (users ctx))
    shared ← collect_shared_objects results
    returns (shared, refresh_from ctx results, node')

  unfoldable pub prepare_kitty_objects :
      (Account → ℕ)
      → BenchmarkContext
      → Node
      → ℕ
      → Bool
      → Outcome (Dict ObjectRef × BenchmarkContext × Node)
  unfolding execute_creates collect_owned_objects refresh_from
  prepare_kitty_objects gene_id ctx node move_package false = returns ([], ctx, node)
  prepare_kitty_objects gene_id ctx node move_package true = do
    (results, node') ←
        execute_creates node move_package (λ account. mint (gene_id account)) (users ctx)
    kitties ← collect_owned_objects results
    returns (kitties, refresh_from ctx results, node')

  unfoldable pub prepare_land_objects :
      BenchmarkContext → Node → ℕ → ℕ → Outcome (Dict (ℕ × ℕ) × BenchmarkContext × Node)
  unfolding execute_creates collect_land_objects refresh_from
  prepare_land_objects ctx node move_package zero = returns ([], ctx, node)
  prepare_land_objects ctx node move_package (suc n) = do
    (results, node') ←
        execute_creates node move_package (λ account. create_land_records)
          (take (suc n) (users ctx))
    land ← collect_land_objects results 0 []
    returns (land, refresh_from ctx results, node')

  -- The package is published with the administrator's first gas object, which is renewed.
  unfoldable pub publish_package :
      (Account → ObjectRef → Transaction)
      → BenchmarkContext
      → Node
      → Outcome (ObjectRef × BenchmarkContext × Node)
  publish_package publish ctx node = do
    gas ← unwrap (get_elem? ctx.admin_account.gas_objects 0)
    (published, updated_gas, node') ← publish_package_at v node (publish ctx.admin_account gas)
    returns (
      published,
      record ctx {
        admin_account = record ctx.admin_account {
          gas_objects = set ctx.admin_account.gas_objects 0 updated_gas;
        };
      },
      node',
    )
