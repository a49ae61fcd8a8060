-- ===== src/Sui/Effects.antt =====
-- What the benchmark reads of the effects of a transaction (`sui_types::effects`).
use test_suites.Prelude.{ℕ, Bool, Option, some, none, List, [], ◌∷◌, if◌then◌else◌, ◌==◌}
use test_suites.Prelude.Maps.{Dict, insert}
use test_suites.Sui.Accounts.{ObjectRef}

-- The tests on an owner of `sui_types`.
pub record Owner : Type 0 where
  pub get_address_owner_address : Option ℕ
  pub is_shared : Bool
  pub is_immutable : Bool

pub record TransactionEffects : Type 0 where
  pub transaction_digest : ℕ
  pub is_ok : Bool
  pub created : List (ObjectRef × Owner)
  pub mutated : List (ObjectRef × Owner)
  pub all_changed_objects : List (ObjectRef × Owner)
  pub gas_object : ObjectRef

-- The first object that an address owns, with the address.
unfoldable pub first_owned : List (ObjectRef × Owner) → Option (ℕ × ObjectRef)
first_owned [] = none
first_owned (o ∷ rest) = elim o.1.get_address_owner_address [
  | some owner ↦ some (owner, o.0)
  | none ↦ first_owned rest
]

-- The same, with the gas object passed over.
unfoldable pub first_owned_besides : ObjectRef → List (ObjectRef × Owner) → Option (ℕ × ObjectRef)
first_owned_besides gas_object [] = none
first_owned_besides gas_object (o ∷ rest) =
    if o.0.id == gas_object.id
    then first_owned_besides gas_object rest
    else (elim o.1.get_address_owner_address [
      | some owner ↦ some (owner, o.0)
      | none ↦ first_owned_besides gas_object rest
    ])

-- The id and the version of the first shared object.
unfoldable pub first_shared : List (ObjectRef × Owner) → Option (ℕ × ℕ)
first_shared [] = none
first_shared (o ∷ rest) = if o.1.is_shared then some (o.0.id, o.0.version) else first_shared rest

unfoldable pub first_immutable : List (ObjectRef × Owner) → Option ObjectRef
first_immutable [] = none
first_immutable (o ∷ rest) = if o.1.is_immutable then some o.0 else first_immutable rest

-- The new references of the gas objects, by id.
unfoldable pub new_gas_objects : Dict ObjectRef → List TransactionEffects → Dict ObjectRef
new_gas_objects new_gas [] = new_gas
new_gas_objects new_gas (e ∷ rest) =
    new_gas_objects (insert e.gas_object.id e.gas_object new_gas) rest
