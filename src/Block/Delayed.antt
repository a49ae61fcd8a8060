-- ===== src/Block/Delayed.antt =====
-- `apply_output_sequential`: the writes of one output enter the map
-- (codes/aptos/modified/block-executor/src/executor.rs).
use test_suites.Prelude.{ℕ, Option, none, some, List, [], ◌∷◌, ◌++◌}
use test_suites.Prelude.Maps.{Dict, lookup, insert}
use test_suites.Prelude.Attempt.{Attempt, ok, panicked, ◌>>=◌, map_err, unwrap}
use test_suites.Block.Status.{PanicError, SequentialBlockExecutionError, from_panic}
use test_suites.Block.Environment.{Environment, previous, current, DelayedChange, create, apply}

module _ (env : Environment) where
  open env use {Map, Write, Metadata, GroupOp, Output, Error, changes}
  open changes use {Value, Apply}

  -- A change that has to wait for the updates of its transaction: (id, base id, change).
  abbrev pub Waiting : Type 0
  Waiting = ℕ × ℕ × Apply

  unfoldable pub write_all : Map → Dict Write → Map
  write_all m [] = m
  write_all m ((key, op) ∷ rest) = write_all (env.write m key op) rest

  unfoldable pub write_modules : Map → Dict Write → Map
  write_modules m [] = m
  write_modules m ((key, op) ∷ rest) = write_modules (env.write_module m key op) rest

  unfoldable pub insert_group_ops : ℕ → Map → List (ℕ × GroupOp) → Attempt PanicError Map
  insert_group_ops key m [] = ok m
  insert_group_ops key m ((tag, op) ∷ rest) = do
    m' ← env.insert_group_op m key tag op
    insert_group_ops key m' rest

  unfoldable pub write_groups :
      Map → List (ℕ × Metadata × List (ℕ × GroupOp)) → Attempt PanicError Map
  unfolding insert_group_ops
  write_groups m [] = ok m
  write_groups m ((key, metadata_op, ops) ∷ rest) = do
    m' ← insert_group_ops key m ops
    write_groups (env.write_metadata m' key metadata_op) rest

  -- `expect_ok(apply.apply_to_base(value)).unwrap()`
  abbrev pub apply_to : {F : Type 0} → Apply → Value → Attempt F Value
  apply_to a v = unwrap (changes.apply_to_base a v)

  -- The first loop: creations and changes of previous values are computed, changes of current
  -- values wait.
  unfoldable pub first_phase :
      Map
      → Dict (DelayedChange Value Apply)
      → Dict Value
      → List Waiting
      → Attempt PanicError (Dict Value × List Waiting)
  first_phase m [] updates second = ok (updates, second)
  first_phase m ((id, create v) ∷ rest) updates second = elim (env.fetch_delayed_field m id) [
    | none ↦ first_phase m rest (insert id v updates) second
    | some _ ↦ panicked
  ]
  first_phase m ((id, apply a) ∷ rest) updates second = elim (changes.get_apply_base_id a id) [
    | previous base ↦ (do
      old ← unwrap (env.fetch_delayed_field m base)
      new ← apply_to a old
      first_phase m rest (insert id new updates) second)
    | current base ↦ first_phase m rest updates (second ++ (id, base, a) ∷ [])
  ]

  -- A current base is read among the updates, and in the map if it is not there.
  abbrev pub current_value : Map → Dict Value → ℕ → Option Value
  current_value m updates base = elim (lookup base updates) [
    | some v ↦ some v
    | none ↦ env.fetch_delayed_field m base
  ]

  unfoldable pub second_phase : Map → List Waiting → Dict Value → Attempt PanicError (Dict Value)
  second_phase m [] updates = ok updates
  second_phase m ((id, base, a) ∷ rest) updates = do
    old ← unwrap (current_value m updates base)
    new ← apply_to a old
    second_phase m rest (insert id new updates)

  unfoldable pub write_delayed_fields : Map → Dict Value → Map
  write_delayed_fields m [] = m
  write_delayed_fields m ((id, v) ∷ rest) =
      write_delayed_fields (env.write_delayed_field m id v) rest

  unfoldable pub apply_output_sequential :
      Map → Output → Dict Write → Attempt (SequentialBlockExecutionError Error) Map
  unfolding write_all write_modules write_groups first_phase second_phase write_delayed_fields
  apply_output_sequential m output resource_writes = map_err from_panic do
    m₁ ← write_groups (write_all m resource_writes) (env.resource_group_write_set output)
    let m₂ =
        write_modules (write_all m₁ (env.aggregator_v1_write_set output))
          (env.module_write_set output)
    (updates, second) ← first_phase m₂ (env.delayed_field_change_set output) [] []
    updates' ← second_phase m₂ second updates
    ok (write_delayed_fields m₂ updates')
