-- ===== src/Simulator/Workloads/Numbered.antt =====
-- The transactions of every workload's loop carry the numbers that follow those of their senders,
-- and every loop ends.
use test_suites.Prelude.{ℕ, ◌*◌, ◌≡◌, refl, subst, Bool, false, List, some, length, get_elem?}
use test_suites.Prelude.Outcome.{Outcome, returns, ◌>>=◌, >>=-eq-returns, returns-injective, unwrap}
use test_suites.Transactions.{
  SignedTransaction, airdrop_transfer_txn, ballot_vote_txn, million_pixel_occupy_txn,
  kitty_mint_txn, kitty_breed_txn, empty_empty_txn,
}
use test_suites.Universe.Account.{AccountApi, AccountCurrent}
use test_suites.Simulator.{Rng}
use test_suites.Simulator.Generate.{draw, Accounts, address_of, issue, issue_each}
use test_suites.Simulator.Generate.Issues.{
  Distinct, Issued, IsSigned, issue-Issued, IsIssuing, issue_each-Issues, Issues-numbers,
  numbers_of, consecutive,
}
use test_suites.Simulator.Workloads.{
  Round, from_random, receivers_of, airdrop_transfer, vote, forums_index, vote_sharding, occupy,
  mint, breed,
}

module _ (api : AccountApi) where
  -- The loops that generate transactions once the workload is initialised.
  pub data Workload : Type 0 where
    airdrop : Workload
    ballot : Accounts api → Workload
    ballot_sharding : ℕ → Accounts api → Workload
    million_pixel : Accounts api → Workload
    kitty_mint : Accounts api → Bool → Workload
    kitty : Accounts api → Workload
    empty : Workload

  abbrev pub round_of : (rng : Rng) → Workload → Round api rng
  round_of rng airdrop = airdrop_transfer api rng
  round_of rng (ballot forums) = vote api rng forums
  round_of rng (ballot_sharding n forums) = vote_sharding api rng n forums
  round_of rng (million_pixel globalstore) = occupy api rng globalstore
  round_of rng (kitty_mint globalstore gender) = mint api rng globalstore gender
  round_of rng (kitty globalstore) = breed api rng globalstore
  round_of rng empty =
      from_random api rng (λ a. empty_empty_txn (address_of api a) a.sequence_number 100)

module _ (api : AccountApi) (rng : Rng) where
  open api use {AccountData}
  open rng use {Seed}

  -- Where a round from these accounts returns, an account signed.
  abbrev Leads : Accounts api → Outcome (SignedTransaction × Accounts api × Seed) → Type 0
  Leads accounts m =
      (t : SignedTransaction) (accounts' : Accounts api) (s' : Seed)
      → m ≡ returns (t, accounts', s')
      → Issued api accounts t accounts'

  Leads-bind {κ} :
      {A : Type κ} (accounts : Accounts api) (m : Outcome A)
      (f : A → Outcome (SignedTransaction × Accounts api × Seed))
      → ((a : A) → Leads accounts (f a))
      → Leads accounts (m >>= f)
  Leads-bind accounts m f each t accounts' s' h =
      let (a, _, h₁) = >>=-eq-returns m f h in each a t accounts' s' h₁

  -- The end of a round.
  signed_last :
      (accounts : Accounts api) (k : ℕ) (build : AccountCurrent AccountData → SignedTransaction)
      (s₁ : Seed)
      → IsSigned api build
      → Leads accounts (
          ◌>>=◌ {B = SignedTransaction × Accounts api × Seed}
            (issue api accounts k build)
            (λ p. returns (p.0, p.1, s₁)))
  signed_last accounts k build s₁ signed t accounts' s' h =
      let ((t₀, accounts₀), issued, h₁) = >>=-eq-returns (issue api accounts k build) _ h in
      let e : (t₀, accounts₀, s₁) ≡ (t, accounts', s') = returns-injective h₁ in
      subst (λ r. Issued api accounts r.0 r.1) e (issue-Issued api accounts k build signed issued)

  from_random-Issuing :
      (build : AccountCurrent AccountData → SignedTransaction)
      → IsSigned api build
      → IsIssuing api (from_random api rng build)
  unfolding from_random
  from_random-Issuing build signed i accounts s =
      Leads-bind accounts (draw rng 0 (length accounts) s) _
        (λ p. signed_last accounts p.0 build p.1 signed)

  airdrop_transfer-Issuing : IsIssuing api (airdrop_transfer api rng)
  unfolding airdrop_transfer airdrop_transfer_txn
  airdrop_transfer-Issuing i accounts s =
      Leads-bind accounts (draw rng 0 (length accounts) s) _ (λ p.
        Leads-bind accounts (receivers_of api rng 5 accounts p.1) _ (λ q.
          signed_last accounts p.0
            (λ a. airdrop_transfer_txn (address_of api a) q.0 a.sequence_number 100) q.1
            (λ a. (refl, refl))))

  vote-Issuing : (forums : Accounts api) → IsIssuing api (vote api rng forums)
  unfolding vote ballot_vote_txn
  vote-Issuing forums i accounts s = Leads-bind accounts (unwrap (get_elem? forums 0)) _ (λ forum.
      from_random-Issuing
        (λ a.
          ballot_vote_txn (address_of api a) (address_of api forum) (rng.gen_range 0 3 s).0
            a.sequence_number 100)
        (λ a. (refl, refl)) i accounts (rng.gen_range 0 3 s).1)

  vote_sharding-Issuing :
      (n : ℕ) (forums : Accounts api) → IsIssuing api (vote_sharding api rng n forums)
  unfolding vote_sharding ballot_vote_txn
  vote_sharding-Issuing n forums i accounts s =
      Leads-bind accounts (draw rng 0 (length accounts) (rng.gen_range 0 3 s).1) _ (λ p.
        Leads-bind accounts (unwrap (get_elem? accounts p.0)) _ (λ sender.
          Leads-bind accounts (forums_index api rng (address_of api sender) n) _ (λ index.
            Leads-bind accounts (unwrap (get_elem? forums index)) _ (λ forum.
              signed_last accounts p.0
                (λ a.
                  ballot_vote_txn (address_of api a) (address_of api forum) (rng.gen_range 0 3 s).0
                    a.sequence_number 100)
                p.1 (λ a. (refl, refl))))))

  occupy-Issuing : (globalstore : Accounts api) → IsIssuing api (occupy api rng globalstore)
  unfolding occupy million_pixel_occupy_txn
  occupy-Issuing globalstore i accounts s =
      let (x, s₁) = rng.gen_range 0 100 s in
      let (y, s₂) = rng.gen_range 0 100 s₁ in
      Leads-bind accounts (unwrap (get_elem? globalstore 0)) _ (λ store.
        from_random-Issuing
          (λ a.
            million_pixel_occupy_txn (address_of api a) (address_of api store) x y a.sequence_number
              100)
          (λ a. (refl, refl)) i accounts s₂)

  mint-Issuing :
      (globalstore : Accounts api) (gender : Bool) → IsIssuing api (mint api rng globalstore gender)
  unfolding mint kitty_mint_txn
  mint-Issuing globalstore gender i accounts s =
      let (genes, s₁) = rng.gen_range 0 4_294_967_295 s in
      Leads-bind accounts (unwrap (get_elem? globalstore 0)) _ (λ store.
        signed_last accounts i
          (λ a.
            kitty_mint_txn (address_of api a) (address_of api store) genes gender a.sequence_number
              100)
          s₁ (λ a. (refl, refl)))

  breed-Issuing : (globalstore : Accounts api) → IsIssuing api (breed api rng globalstore)
  unfolding breed kitty_breed_txn
  breed-Issuing globalstore i accounts s =
      Leads-bind accounts (draw rng 0 (length accounts) s) _ (λ p.
        Leads-bind accounts (draw rng (length accounts) (length accounts * 2) p.1) _ (λ q.
          Leads-bind accounts (unwrap (get_elem? globalstore 0)) _ (λ store.
            from_random-Issuing
              (λ a.
                kitty_breed_txn (address_of api a) (address_of api store) p.0 q.0 false
                  a.sequence_number 100)
              (λ a. (refl, refl)) i accounts q.1)))

  pub round_of-Issuing : (w : Workload api) → IsIssuing api (round_of api rng w)
  unfolding empty_empty_txn
  round_of-Issuing airdrop = airdrop_transfer-Issuing
  round_of-Issuing (ballot forums) = vote-Issuing forums
  round_of-Issuing (ballot_sharding n forums) = vote_sharding-Issuing n forums
  round_of-Issuing (million_pixel globalstore) = occupy-Issuing globalstore
  round_of-Issuing (kitty_mint globalstore gender) = mint-Issuing globalstore gender
  round_of-Issuing (kitty globalstore) = breed-Issuing globalstore
  round_of-Issuing empty =
      from_random-Issuing (λ a. empty_empty_txn (address_of api a) a.sequence_number 100)
        (λ a. (refl, refl))

  -- A loop that ends generates as many transactions as it has rounds, and where no two accounts
  -- share an address, those of any account carry the numbers that follow its own.
  pub workload_numbers :
      (w : Workload api) (n start : ℕ) (accounts : Accounts api) (s : Seed)
      {ts : List SignedTransaction} {end : Accounts api} {s' : Seed} (i : ℕ)
      (a : AccountCurrent AccountData)
      → Distinct api accounts
      → issue_each api (round_of api rng w) n start accounts s ≡ returns (ts, end, s')
      → get_elem? accounts i ≡ some a
      → (length ts ≡ n)
        × (numbers_of (address_of api a) ts
            ≡ consecutive a.sequence_number (length (numbers_of (address_of api a) ts)))
  workload_numbers w n start accounts s i a distinct h at =
      let (issues, many) =
        issue_each-Issues api (round_of api rng w) n start accounts s (round_of-Issuing w) h in
      (many, Issues-numbers api i a distinct at issues)
