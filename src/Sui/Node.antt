-- ===== src/Sui/Node.antt =====
-- `SingleValidator` (codes/sui/modified/sui-single-node-benchmark/src/single_node.rs), the
-- checkpoints apart. The validator itself belongs to other crates: its state is `Node`, and a call
-- that may fail gives an option.
use test_suites.Prelude.{ℕ, Bool, Option, List, [], ◌∷◌, if◌then◌else◌}
use test_suites.Prelude.Outcome.{Outcome, returns, panics, ◌>>=◌, ◌>>◌, unwrap, ensure}
use test_suites.Sui.Accounts.{ObjectRef}
use test_suites.Sui.Effects.{TransactionEffects, first_immutable}

pub data Component : Type 0 where
  execution_only : Component
  baseline : Component
  with_tx_manager : Component
  validator_without_consensus : Component
  validator_with_fake_consensus : Component
  txn_signing : Component
  checkpoint_executor : Component

-- `AuthorityState`, `ValidatorService`, the epoch store and the signatures.
pub record Validator : Type 1 where
  pub Node : Type 0
  pub Transaction : Type 0
  pub Certificate : Type 0
  pub Executable : Type 0
  pub Response : Type 0
  pub Signed : Type 0
  pub from_transaction : Transaction → Executable
  pub from_certificate : Certificate → Executable
  pub into_unsigned : Certificate → Transaction
  pub contains_shared_object : Certificate → Bool
  pub try_execute_immediately : Node → Executable → Option (TransactionEffects × Node)
  pub enqueue_certificates_for_execution : Node → List Certificate → Node
  pub execute_certificate : Node → Certificate → Option (TransactionEffects × Node)
  pub execute_certificate_for_testing : Node → Certificate → Option (TransactionEffects × Node)
  pub handle_transaction_for_testing : Node → Transaction → Option (Response × Node)
  pub handle_transaction : Node → Transaction → Option (Signed × Node)
  pub sign : Node → Transaction → Signed
  pub new_certificate : Node → Transaction → Signed → Option Certificate
  pub assign_versions : Node → List Executable → Option Node
  pub commit_transaction_outputs : Node → ℕ → Option Node

-- Tasks, in the order in which they finish (benchmark_context.rs); `S` is what they share.
unfoldable pub run_tasks :
    {S T R : Type 0} → (S → T → Outcome (R × S)) → S → List T → Outcome (List R × S)
run_tasks task s [] = returns ([], s)
run_tasks task s (x ∷ xs) = do
  (r, s₁) ← task s x
  (rs, s₂) ← run_tasks task s₁ xs
  returns (r ∷ rs, s₂)

module _ (v : Validator) where
  open v use {Node, Transaction, Certificate, Executable, Response}

  -- `unwrap` on the call, and the assertion that the status is good.
  unfoldable pub succeed : Option (TransactionEffects × Node) → Outcome (TransactionEffects × Node)
  succeed call = do (effects, node) ← unwrap call; ensure effects.is_ok; returns (effects, node)

  unfoldable pub execute_raw_transaction : Node → Transaction → Outcome (TransactionEffects × Node)
  unfolding succeed
  execute_raw_transaction node tx = succeed (v.try_execute_immediately node (v.from_transaction tx))

  -- The transaction that publishes is built before; the package and the new gas object.
  unfoldable pub publish_package : Node → Transaction → Outcome (ObjectRef × ObjectRef × Node)
  unfolding execute_raw_transaction
  publish_package node tx = do
    (effects, node') ← execute_raw_transaction node tx
    published ← unwrap (first_immutable effects.all_changed_objects)
    returns (published, effects.gas_object, node')

  unfoldable pub execute_certificate :
      Component → Node → Certificate → Outcome (TransactionEffects × Node)
  unfolding succeed
  execute_certificate baseline node cert =
      succeed (v.try_execute_immediately node (v.from_certificate cert))
  execute_certificate with_tx_manager node cert = succeed (
      v.execute_certificate
        (if v.contains_shared_object cert
          then v.enqueue_certificates_for_execution node (cert ∷ [])
          else node)
        cert)
  execute_certificate validator_without_consensus node cert =
      succeed (v.execute_certificate_for_testing node cert)
  execute_certificate validator_with_fake_consensus node cert =
      succeed (v.execute_certificate_for_testing node cert)
  execute_certificate txn_signing node cert = panics
  execute_certificate checkpoint_executor node cert = panics
  execute_certificate execution_only node cert = panics

  unfoldable pub sign_transaction : Node → Transaction → Outcome (Response × Node)
  sign_transaction node tx = unwrap (v.handle_transaction_for_testing node tx)

  abbrev executables : List Certificate → List Executable
  executables [] = []
  executables (cert ∷ rest) = v.from_certificate cert ∷ executables rest

  unfoldable pub assigned_shared_object_versions : Node → List Certificate → Outcome Node
  assigned_shared_object_versions node certs = unwrap (v.assign_versions node (executables certs))

  unfoldable pub commit_all : Node → List TransactionEffects → Outcome Node
  commit_all node [] = returns node
  commit_all node (e ∷ rest) = do
    node' ← unwrap (v.commit_transaction_outputs node e.transaction_digest)
    commit_all node' rest
