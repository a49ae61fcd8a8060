-- ===== src/Fake/Outputs.antt =====
-- `assert_outputs_equal` (codes/aptos/modified/e2e-tests/src/executor.rs).
pub mod Agreement
use test_suites.Prelude.{
  ℕ, ◌≡◌, Bool, true, false, not, List, [], ◌∷◌, ◌++◌, map, ltb, ◌==◌, if◌then◌else◌, length,
  is_empty,
}
use test_suites.Prelude.Maps.{Dict, lookup}
use test_suites.Prelude.Outcome.{Outcome, returns, ◌>>◌, ensure}
use test_suites.Prelude.Equality.{Eq, option_eq}
use test_suites.Fake.{Crates}

-- `BTreeSet::insert`
unfoldable pub insert_key : ℕ → List ℕ → List ℕ
insert_key key [] = key ∷ []
insert_key key (x ∷ xs) =
    if key == x then x ∷ xs else if ltb key x then key ∷ x ∷ xs else x ∷ insert_key key xs

unfoldable pub collect_set : List ℕ → List ℕ
unfolding insert_key
collect_set [] = []
collect_set (key ∷ keys) = insert_key key (collect_set keys)

module _ (k : Crates) where
  open k use {Output, Op}

  -- The keys whose writes differ.
  unfoldable pub differing : Dict Op → Dict Op → List ℕ → List ℕ
  differing writes_1 writes_2 [] = []
  differing writes_1 writes_2 (key ∷ keys) =
      if option_eq k.op_eq (lookup key writes_1) (lookup key writes_2)
      then differing writes_1 writes_2 keys
      else key ∷ differing writes_1 writes_2 keys

  unfoldable pub differences : Output → Output → List ℕ
  unfolding collect_set differing
  differences output_1 output_2 =
      differing (k.write_set output_1) (k.write_set output_2)
        (collect_set (map (λ w. w.0) (k.write_set output_1 ++ k.write_set output_2)))

  -- The assertions on the outputs of one transaction.
  unfoldable pub assert_output_equal : Output → Output → Outcome (Unit {0})
  unfolding differences
  assert_output_equal output_1 output_2 =
      ensure (k.fee_eq.eq (k.fee_statement output_1) (k.fee_statement output_2))
      >> ensure (is_empty (differences output_1 output_2))
      >> ensure (k.output_eq.eq output_1 output_2)

  -- The `zip` of the two lists, which ends with the shorter one.
  unfoldable pub assert_each_equal : List Output → List Output → Outcome (Unit {0})
  unfolding assert_output_equal
  assert_each_equal [] outputs_2 = returns tt
  assert_each_equal (o ∷ outputs_1) [] = returns tt
  assert_each_equal (o₁ ∷ outputs_1) (o₂ ∷ outputs_2) =
      assert_output_equal o₁ o₂ >> assert_each_equal outputs_1 outputs_2

  unfoldable pub assert_outputs_equal : List Output → List Output → Outcome (Unit {0})
  unfolding assert_each_equal
  assert_outputs_equal outputs_1 outputs_2 =
      ensure (length outputs_1 == length outputs_2) >> assert_each_equal outputs_1 outputs_2
