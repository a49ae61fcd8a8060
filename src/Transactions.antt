-- ===== src/Transactions.antt =====
-- The transactions of codes/aptos/modified/e2e-tests/src/common_transactions.rs. The builder of
-- the accounts is another crate's, so a transaction is the record of the calls made on it: the
-- payload is the call of `aptos_stdlib` that the source names.
use test_suites.Prelude.{ℕ, Bool, Option, none, some, List}

-- The calls of `aptos_stdlib` with their arguments; an address is a number.
pub data Payload : Type 0 where
  empty_script : Payload
  aptos_account_create_account : ℕ → Payload
  aptos_coin_transfer : ℕ → ℕ → Payload
  xtl_airdrop_initialize : ℕ → Payload
  xtl_airdrop_transfer_n : List ℕ → Payload
  xtl_ballot_initialize : List (List ℕ) → Payload
  xtl_ballot_vote : ℕ → ℕ → Payload
  xtl_million_pixel_initialize : Payload
  xtl_million_pixel_occupy : ℕ → ℕ → ℕ → Payload
  xtl_kitty_breeding_initialize : Payload
  xtl_kitty_breeding_mint : ℕ → ℕ → Bool → Payload
  xtl_kitty_breeding_breed : ℕ → ℕ → ℕ → Bool → Payload
  xtl_empty_empty : Payload

-- What was set on the builder before `sign`; `none` is the builder's default.
pub record SignedTransaction : Type 0 where
  pub sender : ℕ
  pub payload : Payload
  pub sequence_number : ℕ
  pub max_gas_amount : Option ℕ
  pub gas_unit_price : Option ℕ

-- `sender.transaction().payload(p).sequence_number(n).gas_unit_price(g).sign()`
priced : ℕ → Payload → ℕ → ℕ → SignedTransaction
priced sender p n g = record {
  sender = sender;
  payload = p;
  sequence_number = n;
  max_gas_amount = none;
  gas_unit_price = some g;
}

unfoldable pub empty_txn : ℕ → ℕ → ℕ → ℕ → SignedTransaction
unfolding priced
empty_txn sender n max_gas g =
    let t = priced sender empty_script n g in record t { max_gas_amount = some max_gas }

unfoldable pub create_account_txn : ℕ → ℕ → ℕ → SignedTransaction
unfolding priced
create_account_txn sender new_account n =
    let t = priced sender (aptos_account_create_account new_account) n 0 in
    record t { gas_unit_price = none }

unfoldable pub peer_to_peer_txn : ℕ → ℕ → ℕ → ℕ → ℕ → SignedTransaction
unfolding priced
peer_to_peer_txn sender receiver n amount g =
    priced sender (aptos_coin_transfer receiver amount) n g

unfoldable pub airdrop_initialize_txn : ℕ → ℕ → ℕ → ℕ → SignedTransaction
unfolding priced
airdrop_initialize_txn sender amount n g = priced sender (xtl_airdrop_initialize amount) n g

unfoldable pub airdrop_transfer_txn : ℕ → List ℕ → ℕ → ℕ → SignedTransaction
unfolding priced
airdrop_transfer_txn sender receivers n g = priced sender (xtl_airdrop_transfer_n receivers) n g

unfoldable pub ballot_initialize_txn : ℕ → List (List ℕ) → ℕ → ℕ → SignedTransaction
unfolding priced
ballot_initialize_txn sender names n g = priced sender (xtl_ballot_initialize names) n g

unfoldable pub ballot_vote_txn : ℕ → ℕ → ℕ → ℕ → ℕ → SignedTransaction
unfolding priced
ballot_vote_txn sender forum proposal n g = priced sender (xtl_ballot_vote forum proposal) n g

unfoldable pub million_pixel_initialize_txn : ℕ → ℕ → ℕ → SignedTransaction
unfolding priced
million_pixel_initialize_txn sender n g = priced sender xtl_million_pixel_initialize n g

unfoldable pub million_pixel_occupy_txn : ℕ → ℕ → ℕ → ℕ → ℕ → ℕ → SignedTransaction
unfolding priced
million_pixel_occupy_txn sender globalstore x y n g =
    priced sender (xtl_million_pixel_occupy globalstore x y) n g

unfoldable pub kitty_initialize_txn : ℕ → ℕ → ℕ → SignedTransaction
unfolding priced
kitty_initialize_txn sender n g = priced sender xtl_kitty_breeding_initialize n g

unfoldable pub kitty_mint_txn : ℕ → ℕ → ℕ → Bool → ℕ → ℕ → SignedTransaction
unfolding priced
kitty_mint_txn sender globalstore genes gender n g =
    priced sender (xtl_kitty_breeding_mint globalstore genes gender) n g

unfoldable pub kitty_breed_txn : ℕ → ℕ → ℕ → ℕ → Bool → ℕ → ℕ → SignedTransaction
unfolding priced
kitty_breed_txn sender globalstore m s gender n g =
    priced sender (xtl_kitty_breeding_breed globalstore m s gender) n g

unfoldable pub empty_empty_txn : ℕ → ℕ → ℕ → SignedTransaction
unfolding priced
empty_empty_txn sender n g = priced sender xtl_empty_empty n g
