-- ===== src/Sui/Context.antt =====
-- The accounts of `BenchmarkContext` and what it generates from them
-- (codes/sui/modified/sui-single-node-benchmark/src/benchmark_context.rs).
pub mod Refresh
pub mod Csv
use test_suites.Prelude.{
  ℕ, zero, suc, ◌+◌, ◌%◌, ◌≡◌, Bool, true, false, Option, some, none, List, [], ◌∷◌, map, take, leb,
  length, if◌then◌else◌, ◌==◌,
}
use test_suites.Prelude.Words.{add64}
use test_suites.Prelude.Maps.{Dict, lookup, insert, erase}
use test_suites.Prelude.Outcome.{Outcome, returns, panics, ◌>>=◌, ◌>>◌, unwrap, ensure}
use test_suites.Sui.Accounts.{Account, ObjectRef}

pub record BenchmarkContext : Type 0 where
  pub user_accounts : Dict Account
  pub admin_account : Account
  pub account_indexes : Dict ℕ

-- The new reference of every object that has one, which leaves the map.
unfoldable pub refresh_refs : List ObjectRef → Dict ObjectRef → List ObjectRef × Dict ObjectRef
refresh_refs [] new_gas = ([], new_gas)
refresh_refs (oref ∷ rest) new_gas =
    let (kept, left) = refresh_refs rest new_gas in
    let (taken, left') = refresh_refs rest (erase oref.id new_gas) in
    elim (lookup oref.id new_gas) [
      | none ↦ (oref ∷ kept, left)
      | some new_oref ↦ (new_oref ∷ taken, left')
    ]

unfoldable pub refresh_accounts : Dict Account → Dict ObjectRef → Dict Account
unfolding refresh_refs
refresh_accounts [] new_gas = []
refresh_accounts ((address, account) ∷ rest) new_gas =
    let (refs, left) = refresh_refs account.gas_objects new_gas in
    (address, record account { gas_objects = refs }) ∷ refresh_accounts rest left

unfoldable pub refresh_gas_objects : BenchmarkContext → Dict ObjectRef → BenchmarkContext
unfolding refresh_accounts
refresh_gas_objects ctx new_gas = record ctx {
  user_accounts = refresh_accounts ctx.user_accounts new_gas;
}

-- What a generator is called with.
pub record Call : Type 0 where
  pub from : Account
  pub to : ℕ
  pub args : List (ℕ × ℕ)
  pub objects : List ObjectRef

-- The arguments of the generators: `shared_obj_index`, `obj_index`, `kitty_fn`.
abbrev pub shared_obj_index : ℕ
shared_obj_index = 0

abbrev pub obj_index : ℕ
obj_index = 1

abbrev pub kitty_fn : ℕ
kitty_fn = 2

-- The loop of `generate_transactions`, after `i` accounts.
unfoldable pub calls_from : ℕ → ℕ → List Account → List Call
calls_from shared_obj_num i [] = []
calls_from shared_obj_num i (account ∷ rest) =
    let index : ℕ = elim shared_obj_num [ zero ↦ 0 | suc n ↦ (i + 1) % suc n ] in
    record {
      from = account;
      to = account.sender;
      args = (shared_obj_index, index) ∷ [];
      objects = [];
    }
    ∷ calls_from shared_obj_num (i + 1) rest

unfoldable pub generate_transactions : BenchmarkContext → ℕ → List Call
unfolding calls_from
generate_transactions ctx shared_obj_num =
    calls_from shared_obj_num 0 (map (λ entry. entry.1) ctx.user_accounts)

-- The loop of `generate_erc20_tx_from_csv` over the records `(from_index, to_index)`, with the
-- number of transactions from each index so far.
unfoldable pub erc20_calls : BenchmarkContext → List (ℕ × ℕ) → Dict ℕ → Outcome (List Call)
erc20_calls ctx [] obj_index_map = returns []
erc20_calls ctx (r ∷ records) obj_index_map = do
  from_addr ← unwrap (lookup r.0 ctx.account_indexes)
  from ← unwrap (lookup from_addr ctx.user_accounts)
  to ← unwrap (lookup r.1 ctx.account_indexes)
  let index : ℕ = elim (lookup r.0 obj_index_map) [ none ↦ 0 | some n ↦ n ]
  calls ← erc20_calls ctx records (insert r.0 (add64 index 1) obj_index_map)
  returns (record { from = from; to = to; args = (obj_index, index) ∷ []; objects = [] } ∷ calls)

unfoldable pub generate_erc20_tx_from_csv : BenchmarkContext → List (ℕ × ℕ) → Outcome (List Call)
unfolding erc20_calls
generate_erc20_tx_from_csv ctx records = erc20_calls ctx records []

-- The loop of `generate_kitty_provide_gene_transactions`.
unfoldable pub provide_gene_calls : List Account → List Call
provide_gene_calls [] = []
provide_gene_calls (account ∷ rest) =
    record { from = account; to = account.sender; args = (kitty_fn, 1) ∷ []; objects = [] }
    ∷ provide_gene_calls rest

unfoldable pub generate_kitty_provide_gene_transactions : BenchmarkContext → List Call
unfolding provide_gene_calls
generate_kitty_provide_gene_transactions ctx =
    provide_gene_calls (map (λ entry. entry.1) ctx.user_accounts)

-- The loop of `generate_kitty_breed_transactions`.
unfoldable pub breed_calls : Dict ObjectRef → Dict ObjectRef → List Account → Outcome (List Call)
breed_calls gene_objects new_kitty_objects [] = returns []
breed_calls gene_objects new_kitty_objects (account ∷ rest) = do
  gene_object ← unwrap (lookup account.sender gene_objects)
  new_kitty_object ← unwrap (lookup account.sender new_kitty_objects)
  calls ← breed_calls gene_objects new_kitty_objects rest
  returns (
      record {
        from = account;
        to = account.sender;
        args = (kitty_fn, 2) ∷ [];
        objects = gene_object ∷ new_kitty_object ∷ [];
      }
      ∷ calls)

unfoldable pub generate_kitty_breed_transactions :
    BenchmarkContext → Dict ObjectRef → Dict ObjectRef → Outcome (List Call)
unfolding breed_calls
generate_kitty_breed_transactions ctx gene_objects new_kitty_objects =
    breed_calls gene_objects new_kitty_objects (map (λ entry. entry.1) ctx.user_accounts)
