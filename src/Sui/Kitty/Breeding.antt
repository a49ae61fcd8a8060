-- ===== src/Sui/Kitty/Breeding.antt =====
-- The calls that breed, of `run_kitty_test`.
use test_suites.Prelude.{ℕ, ◌≡◌, Option, some, List, [], ◌∷◌, get_elem?}
use test_suites.Sui.Accounts.{ObjectRef}
use test_suites.Sui.Effects.{TransactionEffects}
use test_suites.Sui.Context.{Call}
use test_suites.Sui.Preparations.{created_of}
use test_suites.Sui.Kitty.{mutated_of}

-- One of the effects gives the object to the owner.
abbrev pub IsFrom :
    (TransactionEffects → Option (ℕ × ObjectRef)) → List TransactionEffects → ℕ → ObjectRef → Type 0
IsFrom object_of results owner object =
    (i : ℕ) × (e : TransactionEffects) × (get_elem? results i ≡ some e)
    × (object_of e ≡ some (owner, object))

-- The call is given a gene that was created for its sender and a kitty of its sender's that
-- changed.
abbrev pub IsFed : List TransactionEffects → Call → Type 0
IsFed results c =
    (gene : ObjectRef) × (kitty : ObjectRef) × (c.objects ≡ gene ∷ kitty ∷ [])
    × IsFrom created_of results c.from.sender gene
    × IsFrom mutated_of results c.from.sender kitty
