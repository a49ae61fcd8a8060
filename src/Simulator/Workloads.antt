-- ===== src/Simulator/Workloads.antt =====
-- The workloads `run_airdrop` to `run_empty`
-- (codes/aptos/modified/aptos-transaction-benchmarks/src/simulator.rs). The state of the random
-- numbers is passed along; proposal names are the bytes of "aa", "bb" and "cc".
pub mod Numbered
pub mod Ends
use test_suites.Prelude.{
  ℕ, zero, suc, ◌+◌, ◌-◌, ◌*◌, ◌%◌, ◌≡◌, Bool, true, false, none, List, [], ◌∷◌, ◌++◌,
  if◌then◌else◌, ◌==◌, length, get_elem?,
}
use test_suites.Prelude.Outcome.{Outcome, returns, panics, ◌>>=◌, ◌>>◌, unwrap}
use test_suites.Transactions.{
  SignedTransaction, airdrop_initialize_txn, airdrop_transfer_txn, ballot_initialize_txn,
  ballot_vote_txn, million_pixel_initialize_txn, million_pixel_occupy_txn, kitty_initialize_txn,
  kitty_mint_txn, kitty_breed_txn, empty_empty_txn,
}
use test_suites.Universe.Account.{AccountApi, AccountCurrent}
use test_suites.Simulator.{
  Rng, Vm, Similator, execute_and_apply_transactions, execute_blockstm_benchmark,
}
use test_suites.Simulator.Generate.{draw, split_at_mut, Accounts, address_of, issue, issue_each}

abbrev pub proposals : List (List ℕ)
proposals = (97 ∷ 97 ∷ []) ∷ (98 ∷ 98 ∷ []) ∷ (99 ∷ 99 ∷ []) ∷ []

module _ (api : AccountApi) (rng : Rng) where
  open api use {AccountData}
  open rng use {Seed}

  -- One round of a loop.
  abbrev pub Round : Type 0
  Round = ℕ → Accounts api → Seed → Outcome (SignedTransaction × Accounts api × Seed)

  -- Round `i` of an initialisation: account `i` signs, and nothing is drawn.
  unfoldable pub initialize : (AccountCurrent AccountData → SignedTransaction) → Round
  unfolding issue
  initialize build i accounts s = do
    (txn, accounts') ← issue api accounts i build
    returns (txn, accounts', s)

  -- The sender is drawn, and signs.
  unfoldable pub from_random : (AccountCurrent AccountData → SignedTransaction) → Round
  unfolding issue draw
  from_random build i accounts s = do
    (sender_index, s') ← draw rng 0 (length accounts) s
    (txn, accounts') ← issue api accounts sender_index build
    returns (txn, accounts', s')

  unfoldable pub receivers_of : ℕ → Accounts api → Seed → Outcome (List ℕ × Seed)
  unfolding draw
  receivers_of zero accounts s = returns ([], s)
  receivers_of (suc n) accounts s = do
    (random_number, s') ← draw rng 0 (length accounts) s
    receiver ← unwrap (get_elem? accounts random_number)
    (receivers, s'') ← receivers_of n accounts s'
    returns (address_of api receiver ∷ receivers, s'')

  unfoldable pub airdrop_transfer : Round
  unfolding draw receivers_of issue
  airdrop_transfer i accounts s = do
    (sender_index, s₁) ← draw rng 0 (length accounts) s
    (receivers, s₂) ← receivers_of 5 accounts s₁
    (txn, accounts') ←
        issue api accounts sender_index
          (λ a. airdrop_transfer_txn (address_of api a) receivers a.sequence_number 100)
    returns (txn, accounts', s₂)

  unfoldable pub vote : Accounts api → Round
  unfolding draw from_random
  vote forums i accounts s = do
    (proposal_index, s₁) ← draw rng 0 3 s
    forum ← unwrap (get_elem? forums 0)
    from_random
        (λ a.
          ballot_vote_txn (address_of api a) (address_of api forum) proposal_index a.sequence_number
            100)
        i accounts s₁

  -- `address().to_vec()[31] % shard_num as u8`, which panics where the byte of `shard_num` is 0.
  unfoldable pub forums_index : ℕ → ℕ → Outcome ℕ
  forums_index address shard_num =
      if (shard_num % 256) == 0 then panics else returns ((address % 256) % (shard_num % 256))

  unfoldable pub vote_sharding : ℕ → Accounts api → Round
  unfolding draw issue forums_index
  vote_sharding shard_num forums i accounts s = do
    (proposal_index, s₁) ← draw rng 0 3 s
    (sender_index, s₂) ← draw rng 0 (length accounts) s₁
    sender ← unwrap (get_elem? accounts sender_index)
    index ← forums_index (address_of api sender) shard_num
    forum ← unwrap (get_elem? forums index)
    (txn, accounts') ← issue api accounts sender_index (λ a.
        ballot_vote_txn (address_of api a) (address_of api forum) proposal_index a.sequence_number
          100)
    returns (txn, accounts', s₂)

  unfoldable pub occupy : Accounts api → Round
  unfolding draw from_random
  occupy globalstore i accounts s = do
    (x, s₁) ← draw rng 0 100 s
    (y, s₂) ← draw rng 0 100 s₁
    store ← unwrap (get_elem? globalstore 0)
    from_random
        (λ a.
          million_pixel_occupy_txn (address_of api a) (address_of api store) x y a.sequence_number
            100)
        i accounts s₂

  unfoldable pub mint : Accounts api → Bool → Round
  unfolding draw issue
  mint globalstore gender i accounts s = do
    store ← unwrap (get_elem? globalstore 0)
    (genes, s₁) ← draw rng 0 4_294_967_295 s
    (txn, accounts') ← issue api accounts i (λ a.
        kitty_mint_txn (address_of api a) (address_of api store) genes gender a.sequence_number 100)
    returns (txn, accounts', s₁)

  unfoldable pub breed : Accounts api → Round
  unfolding draw from_random
  breed globalstore i accounts s = do
    (m, s₁) ← draw rng 0 (length accounts) s
    (p, s₂) ← draw rng (length accounts) (length accounts * 2) s₁
    store ← unwrap (get_elem? globalstore 0)
    from_random
        (λ a.
          kitty_breed_txn (address_of api a) (address_of api store) m p false a.sequence_number 100)
        i accounts s₂

module _ (api : AccountApi) (rng : Rng) (vm : Vm) where
  open api use {AccountData}
  open rng use {Seed}

  -- What a run leaves, and the throughputs that it prints.
  abbrev pub Report : Type 0
  Report = Outcome (Similator vm AccountData × (ℕ × ℕ) × Seed)

  -- Both benchmarks of the transactions, on the accounts that signed them.
  unfoldable pub report :
      Similator vm AccountData → vm.View → Accounts api → List SignedTransaction → Seed → Report
  unfolding execute_blockstm_benchmark
  report sim view accounts txns s = do
    tps ← execute_blockstm_benchmark vm view txns true true vm.num_cpus none
    returns (
      record {
        account_universe = record sim.account_universe { accounts = accounts };
        state_view = view;
      },
      tps,
      s,
    )

  unfoldable pub run_airdrop : Similator vm AccountData → ℕ → Seed → Report
  unfolding report issue_each initialize airdrop_transfer execute_and_apply_transactions
  run_airdrop sim n s = do
    (initial, accounts₁, s₁) ←
        issue_each api
          (initialize api rng
            (λ a. airdrop_initialize_txn (address_of api a) 1_000_000_000 a.sequence_number 100))
          (length sim.account_universe.accounts) 0 sim.account_universe.accounts s
    view ← execute_and_apply_transactions vm sim.state_view initial
    (txns, accounts₂, s₂) ← issue_each api (airdrop_transfer api rng) n 0 accounts₁ s₁
    report sim view accounts₂ txns s₂

  unfoldable pub run_ballot : Similator vm AccountData → ℕ → Seed → Report
  unfolding report issue_each initialize vote split_at_mut execute_and_apply_transactions
  run_ballot sim n s = do
    (forums, accounts) ← split_at_mut 1 sim.account_universe.accounts
    (initial, forums', s₁) ←
        issue_each api
          (initialize api rng
            (λ a. ballot_initialize_txn (address_of api a) proposals a.sequence_number 100))
          1 0 forums s
    view ← execute_and_apply_transactions vm sim.state_view initial
    (txns, accounts', s₂) ← issue_each api (vote api rng forums') n 0 accounts s₁
    report sim view (forums' ++ accounts') txns s₂

  unfoldable pub run_ballot_sharding : Similator vm AccountData → ℕ → ℕ → Seed → Report
  unfolding report issue_each initialize vote_sharding split_at_mut execute_and_apply_transactions
  run_ballot_sharding sim n shard_num s = do
    (forums, accounts) ← split_at_mut shard_num sim.account_universe.accounts
    (initial, forums', s₁) ←
        issue_each api
          (initialize api rng
            (λ a. ballot_initialize_txn (address_of api a) proposals a.sequence_number 100))
          shard_num 0 forums s
    view ← execute_and_apply_transactions vm sim.state_view initial
    (txns, accounts', s₂) ← issue_each api (vote_sharding api rng shard_num forums') n 0 accounts s₁
    report sim view (forums' ++ accounts') txns s₂

  unfoldable pub run_mp : Similator vm AccountData → ℕ → Seed → Report
  unfolding report issue_each initialize occupy split_at_mut execute_and_apply_transactions
  run_mp sim n s = do
    (globalstore, accounts) ← split_at_mut 1 sim.account_universe.accounts
    (initial, globalstore', s₁) ←
        issue_each api
          (initialize api rng
            (λ a. million_pixel_initialize_txn (address_of api a) a.sequence_number 100))
          1 0 globalstore s
    view ← execute_and_apply_transactions vm sim.state_view initial
    (txns, accounts', s₂) ← issue_each api (occupy api rng globalstore') n 0 accounts s₁
    report sim view (globalstore' ++ accounts') txns s₂

  -- Every account but the first mints a matron and then a sire.
  unfoldable pub run_kitty : Similator vm AccountData → ℕ → Seed → Report
  unfolding report issue_each initialize mint breed split_at_mut execute_and_apply_transactions
  run_kitty sim n s = do
    (globalstore, accounts) ← split_at_mut 1 sim.account_universe.accounts
    (first, globalstore', s₁) ←
        issue_each api
          (initialize api rng (λ a. kitty_initialize_txn (address_of api a) a.sequence_number 100))
          1 0 globalstore s
    (matrons, accounts₁, s₂) ←
        issue_each api (mint api rng globalstore' true) (length accounts) 0 accounts s₁
    (sires, accounts₂, s₃) ←
        issue_each api (mint api rng globalstore' false) (length accounts) 0 accounts₁ s₂
    view ← execute_and_apply_transactions vm sim.state_view (first ++ matrons ++ sires)
    (txns, accounts₃, s₄) ← issue_each api (breed api rng globalstore') n 0 accounts₂ s₃
    report sim view (globalstore' ++ accounts₃) txns s₄

  unfoldable pub run_empty : Similator vm AccountData → ℕ → Seed → Report
  unfolding report issue_each from_random
  run_empty sim n s = do
    (txns, accounts, s₁) ←
        issue_each api
          (from_random api rng (λ a. empty_empty_txn (address_of api a) a.sequence_number 100)) n 0
          sim.account_universe.accounts s
    report sim sim.state_view accounts txns s₁
