-- ===== src/Sui/MoveTx.antt =====
-- `MoveTxGenerator`
-- (codes/sui/modified/sui-single-node-benchmark/src/tx_generator/move_tx_generator.rs). A
-- transaction is the list of its commands; BCS encoding and signatures are left out.
pub mod Land
use test_suites.Prelude.{
  ℕ, zero, suc, ◌+◌, ◌*◌, ◌/◌, ◌%◌, ◌≡◌, Bool, true, false, Option, some, none, List, [], ◌∷◌, ◌++◌,
  length, is_empty, get_elem?, if◌then◌else◌, ◌==◌, ltb,
}
use test_suites.Prelude.Words.{add64}
use test_suites.Prelude.Maps.{Dict, lookup}
use test_suites.Prelude.Outcome.{Outcome, returns, panics, ◌>>=◌, unwrap}
use test_suites.Sui.Accounts.{Account, ObjectRef}
use test_suites.Sui.Context.{Call, shared_obj_index, obj_index, kitty_fn}

pub data Command : Type 0 where
  transfer_object : ObjectRef → Command
  transfer_coin : ObjectRef → Command
  increment_shared_counter : ℕ × ℕ → Command
  read_dynamic_fields : ObjectRef → Command
  run_computation : ℕ → Command
  provide_gene : ObjectRef → ℕ → Command
  breed : ObjectRef → ObjectRef → Command
  occupy : ℕ × ℕ → ℕ → ℕ → Command

pub record MoveTxGenerator : Type 0 where
  pub num_transfers : ℕ
  pub use_native_transfer : Bool
  pub computation : ℕ
  pub root_objects : Dict ObjectRef
  pub shared_objects : List (ℕ × ℕ)
  pub erc20_transfer : Bool
  pub kitty_objects : Dict ObjectRef
  pub land_objects : Dict (ℕ × ℕ)

pub record Transaction : Type 0 where
  pub sender : ℕ
  pub gas : ObjectRef
  pub commands : List Command

-- `args.get(name).copied().unwrap_or(0)`
unfoldable pub argument : ℕ → Dict ℕ → ℕ
argument name args = elim (lookup name args) [ none ↦ 0 | some v ↦ v ]

unfoldable pub transfers : MoveTxGenerator → List ObjectRef → ℕ → ℕ → Outcome (List Command)
transfers g gas_objects i zero = returns []
transfers g gas_objects i (suc n) = do
  object ← unwrap (get_elem? gas_objects i)
  rest ← transfers g gas_objects (i + 1) n
  returns ((if g.use_native_transfer then transfer_object object else transfer_coin object) ∷ rest)

unfoldable pub shared_commands : MoveTxGenerator → Dict ℕ → Outcome (List Command)
unfolding argument
shared_commands g args = if is_empty g.shared_objects then returns [] else (do
  object ← unwrap (get_elem? g.shared_objects (argument shared_obj_index args))
  returns (increment_shared_counter object ∷ []))

unfoldable pub root_commands : MoveTxGenerator → ℕ → Outcome (List Command)
root_commands g sender = if is_empty g.root_objects then returns [] else (do
  object ← unwrap (lookup sender g.root_objects)
  returns (read_dynamic_fields object ∷ []))

unfoldable pub computation_commands : MoveTxGenerator → List Command
computation_commands g =
    if ltb 0 g.computation then run_computation (g.computation * 100) ∷ [] else []

unfoldable pub erc20_commands : MoveTxGenerator → List ObjectRef → Dict ℕ → Outcome (List Command)
unfolding argument
erc20_commands g gas_objects args =
    if g.erc20_transfer
    then (do
      object ←
          unwrap (get_elem? gas_objects (add64 (length gas_objects / 2) (argument obj_index args)))
      returns (transfer_coin object ∷ []))
    else returns []

unfoldable pub kitty_commands :
    MoveTxGenerator → ℕ → ℕ → Dict ℕ → List ObjectRef → Outcome (List Command)
unfolding argument
kitty_commands g sender to args objects = if is_empty g.kitty_objects then returns [] else (do
  kitty_object ← unwrap (lookup sender g.kitty_objects)
  if argument kitty_fn args == 1 then returns (provide_gene kitty_object to ∷ []) else (do
    gene_object ← unwrap (get_elem? objects 0)
    new_kitty_object ← unwrap (get_elem? objects 1)
    returns (breed gene_object new_kitty_object ∷ [])))

-- The index of the land of a pixel: the number of lands is cut to 16 bits, and 0 is a panic.
unfoldable pub land_index : ℕ → ℕ → ℕ → Outcome ℕ
land_index len x y =
    if (len % 65536) == 0 then panics else returns (((x * 65536 + y) % (len % 65536)) % 65536)

unfoldable pub land_commands : MoveTxGenerator → ℕ → ℕ → Outcome (List Command)
unfolding land_index
land_commands g x y = if is_empty g.land_objects then returns [] else (do
  index ← land_index (length g.land_objects) x y
  land_object ← unwrap (lookup index g.land_objects)
  returns (occupy land_object x y ∷ []))

-- `x` and `y` are the random coordinates.
unfoldable pub generate_tx : MoveTxGenerator → Call → List ObjectRef → ℕ → ℕ → Outcome Transaction
unfolding transfers shared_commands root_commands computation_commands erc20_commands kitty_commands
    land_commands argument
generate_tx g c objects x y = do
  moved ← transfers g c.from.gas_objects 1 g.num_transfers
  shared ← shared_commands g c.args
  root ← root_commands g c.from.sender
  erc20 ← erc20_commands g c.from.gas_objects c.args
  kitty ← kitty_commands g c.from.sender c.to c.args objects
  land ← land_commands g x y
  gas ← unwrap (get_elem? c.from.gas_objects (argument obj_index c.args))
  returns (record {
    sender = c.from.sender;
    gas = gas;
    commands = moved ++ shared ++ root ++ computation_commands g ++ erc20 ++ kitty ++ land;
  })
