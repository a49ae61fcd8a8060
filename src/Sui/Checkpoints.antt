-- ===== src/Sui/Checkpoints.antt =====
-- `SingleValidator::build_checkpoints`
-- (codes/sui/modified/sui-single-node-benchmark/src/single_node.rs).
pub mod Partition
pub mod Totality
use test_suites.Prelude.{
  ℕ, suc, ◌+◌, ◌≡◌, Bool, Option, some, none, List, [], ◌∷◌, ◌++◌, ltb, ◌==◌, if◌then◌else◌, length,
}
use test_suites.Prelude.Maps.{Dict, lookup, erase}
use test_suites.Prelude.Outcome.{Outcome, returns, panics, ◌>>=◌, unwrap}

-- `MockCheckpointBuilder`, with the transactions that it holds: `build` makes a checkpoint of them
-- and starts again with none.
pub record Builder : Type 1 where
  pub Transaction : Type 0
  pub Effects : Type 0
  pub Checkpoint : Type 0
  pub State : Type 0
  pub digest : Transaction → ℕ
  pub push_transaction : State → Transaction → Effects → State
  pub size : State → ℕ
  pub build : State → Checkpoint × State
  pub held : State → List (Transaction × Effects)
  pub contents : Checkpoint → List (Transaction × Effects)
  pub held-push_transaction :
      (s : State) (t : Transaction) (e : Effects)
      → held (push_transaction s t e) ≡ held s ++ (t, e) ∷ []
  pub size-length : (s : State) → size s ≡ length (held s)
  pub contents-build : (s : State) → contents (build s).0 ≡ held s
  pub held-build : (s : State) → held (build s).1 ≡ []

module _ (b : Builder) where
  open b use {Transaction, Effects, Checkpoint, State}

  -- The loop, from a builder on: the checkpoints, and the builder at the end.
  unfoldable pub build_from :
      ℕ → List Transaction → Dict Effects → State → Outcome (List Checkpoint × State)
  build_from checkpoint_size [] all_effects s = returns ([], s)
  build_from checkpoint_size (t ∷ rest) all_effects s = do
    effects ← unwrap (lookup (b.digest t) all_effects)
    let s' = b.push_transaction s t effects
    let left = erase (b.digest t) all_effects
    if b.size s' == checkpoint_size
        then (do
          (checkpoints, end) ← build_from checkpoint_size rest left (b.build s').1
          returns ((b.build s').0 ∷ checkpoints, end))
        else build_from checkpoint_size rest left s'

  -- From the builder that the latest certified checkpoint gives.
  unfoldable pub build_checkpoints :
      State → List Transaction → Dict Effects → ℕ → Outcome (List Checkpoint)
  unfolding build_from
  build_checkpoints builder transactions all_effects checkpoint_size = do
    (checkpoints, end) ← build_from checkpoint_size transactions all_effects builder
    returns (if ltb 0 (b.size end) then checkpoints ++ (b.build end).0 ∷ [] else checkpoints)
