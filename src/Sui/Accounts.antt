-- ===== src/Sui/Accounts.antt =====
-- Accounts and their gas objects
-- (codes/sui/modified/sui-single-node-benchmark/src/mock_account.rs). An object id is the number
-- that its 32 bytes are in little-endian order. The key pairs are drawn at random: `key_of` gives
-- the address that each task draws. The results of the tasks come in some order, a list of the
-- tasks' numbers.
pub mod Ids
use test_suites.Prelude.{
  ℕ, zero, suc, ◌+◌, ◌*◌, ◌/◌, ◌%◌, ◌≡◌, List, [], ◌∷◌, ◌++◌, map, replicate, get_elem?, length,
}
use test_suites.Prelude.Words.{add64, mul64}
use test_suites.Prelude.Maps.{Dict, insert}
use test_suites.Prelude.Outcome.{Outcome, returns, panics, ◌>>=◌, unwrap}

-- The arguments of `Object::with_id_owner_for_testing`.
pub record Object : Type 0 where
  pub id : ℕ
  pub owner : ℕ

pub record ObjectRef : Type 0 where
  pub id : ℕ
  pub version : ℕ
  pub digest : ℕ

pub record Account : Type 0 where
  pub sender : ℕ
  pub gas_objects : List ObjectRef

-- `to_le_bytes`
unfoldable pub le_bytes : ℕ → ℕ → List ℕ
le_bytes zero n = []
le_bytes (suc k) n = n % 256 ∷ le_bytes k (n / 256)

unfoldable pub le_value : List ℕ → ℕ
le_value [] = 0
le_value (b ∷ bs) = b + 256 * le_value bs

-- Byte 0 is 255, and the number stands in the next 8 bytes of 32.
unfoldable pub new_gas_object : ℕ → ℕ → Object
unfolding le_bytes le_value
new_gas_object idx owner = record {
  id = le_value (255 ∷ le_bytes 8 idx ++ replicate 23 0);
  owner = owner;
}

-- `(0..num).map(|i| new_gas_object(starting_id + i, sender))`, from `i` on.
unfoldable pub gas_objects_from : ℕ → ℕ → ℕ → ℕ → List Object
gas_objects_from i zero starting_id sender = []
gas_objects_from i (suc n) starting_id sender =
    new_gas_object (add64 starting_id i) sender ∷ gas_objects_from (i + 1) n starting_id sender

unfoldable pub create_gas_objects : ℕ → ℕ → ℕ → List Object
unfolding gas_objects_from
create_gas_objects sender num starting_id = gas_objects_from 0 num starting_id sender

module _ (compute_object_reference : Object → ObjectRef) (key_of : ℕ → ℕ) where
  abbrev pub account_with : ℕ → List Object → Account
  account_with sender objects = record {
    sender = sender;
    gas_objects = map compute_object_reference objects;
  }

  -- The tasks' results in the order `order`, from the accounts so far.
  unfoldable pub batch_create_from : List ℕ → ℕ → Dict Account → Dict Account × List Object
  unfolding create_gas_objects
  batch_create_from [] per accounts = (accounts, [])
  batch_create_from (idx ∷ order) per accounts =
      let objects = create_gas_objects (key_of idx) per (mul64 idx per) in
      let (end, genesis) =
        batch_create_from order per
          (insert (key_of idx) (account_with (key_of idx) objects) accounts) in
      (end, objects ++ genesis)

  unfoldable pub batch_create_account_and_gas : List ℕ → ℕ → Dict Account × List Object
  unfolding batch_create_from
  batch_create_account_and_gas order per = batch_create_from order per []

  -- A task of `batch_create_account_and_gas_by_index`.
  pub record Task : Type 0 where
    pub addr_index : ℕ
    pub obj_num : ℕ
    pub starting_id : ℕ

  -- The tasks of the records `(addr_index, obj_num)`, each with twice its number of objects.
  unfoldable pub tasks_from : ℕ → List (ℕ × ℕ) → List Task
  tasks_from starting_id [] = []
  tasks_from starting_id (r ∷ records) =
      let obj_num = mul64 r.1 2 in
      record { addr_index = r.0; obj_num = obj_num; starting_id = starting_id }
      ∷ tasks_from (add64 starting_id obj_num) records

  pub record Created : Type 0 where
    pub accounts : Dict Account
    pub genesis_gas_objects : List Object
    pub account_indexes : Dict ℕ

  unfoldable pub collect_tasks : List Task → List ℕ → Dict Account → Dict ℕ → Outcome Created
  unfolding create_gas_objects
  collect_tasks tasks [] accounts indexes =
      returns (record { accounts = accounts; genesis_gas_objects = []; account_indexes = indexes })
  collect_tasks tasks (k ∷ order) accounts indexes = do
    task ← unwrap (get_elem? tasks k)
    let objects = create_gas_objects (key_of k) task.obj_num task.starting_id
    rest ←
        collect_tasks tasks order (insert (key_of k) (account_with (key_of k) objects) accounts)
          (insert task.addr_index (key_of k) indexes)
    returns (record rest { genesis_gas_objects = objects ++ rest.genesis_gas_objects })

  -- The accounts of the records and the administrator, who draws last and owns the object
  -- 10,000,000,000,000,000.
  unfoldable pub batch_create_account_and_gas_by_index :
      List (ℕ × ℕ) → List ℕ → Outcome (Created × Account)
  unfolding collect_tasks tasks_from
  batch_create_account_and_gas_by_index records order = do
    created ← collect_tasks (tasks_from 1 records) order [] []
    let admin = key_of (length records)
    let admin_objects = create_gas_objects admin 1 10_000_000_000_000_000
    returns (
      record created { genesis_gas_objects = created.genesis_gas_objects ++ admin_objects },
      account_with admin admin_objects,
    )
