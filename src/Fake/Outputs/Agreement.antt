-- ===== src/Fake/Outputs/Agreement.antt =====
-- The assertions on two lists of outputs hold exactly where the lists are equal.
use test_suites.Prelude.{
  ℕ, ◌≡◌, ◌↔◌, refl, ap, subst, Bool, true, false, List, [], ◌∷◌, ◌++◌, map, ◌==◌, ==_iff, length,
  is_empty, arith,
}
use test_suites.Prelude.Maps.{Dict, lookup}
use test_suites.Prelude.Outcome.{Outcome, returns, panics, ◌>>◌, ensure}
use test_suites.Prelude.Equality.{option_eq_refl, eq_refl}
use test_suites.Fake.{Crates}
use test_suites.Fake.Outputs.{
  collect_set, differing, differences, assert_output_equal, assert_each_equal, assert_outputs_equal,
}

-- A chain of assertions that returns has passed the first.
ensure-passed :
    (b : Bool) (later : Outcome (Unit {0}))
    → (ensure b >> later) ≡ returns tt
    → (b ≡ true) × (later ≡ returns tt)
ensure-passed true later h = (refl, h)
ensure-passed false later h = absurd (cc)

>>-passed :
    (first later : Outcome (Unit {0}))
    → (first >> later) ≡ returns tt
    → (first ≡ returns tt) × (later ≡ returns tt)
>>-passed (returns tt) later h = (refl, h)
>>-passed panics later h = absurd (cc)

ensure-eq-returns : (b : Bool) → ensure b ≡ returns tt → b ≡ true
ensure-eq-returns true h = refl
ensure-eq-returns false h = absurd (cc)

module _ (k : Crates) where
  open k use {Output, Op}

  differing_self : (writes : Dict Op) (keys : List ℕ) → differing k writes writes keys ≡ []
  unfolding differing
  differing_self writes [] = refl
  differing_self writes (key ∷ keys) =
      rw (option_eq_refl k.op_eq (lookup key writes)) (differing_self writes keys)

  assert_output_equal_self : (o : Output) → assert_output_equal k o o ≡ returns tt
  unfolding assert_output_equal differences
  assert_output_equal_self o = rw (eq_refl k.fee_eq (k.fee_statement o)) (
      rw
        (differing_self (k.write_set o)
          (collect_set (map (λ w. w.0) (k.write_set o ++ k.write_set o))))
        (ap ensure (eq_refl k.output_eq o)))

  assert_output_equal-eq : (o₁ o₂ : Output) → assert_output_equal k o₁ o₂ ≡ returns tt → o₁ ≡ o₂
  unfolding assert_output_equal
  assert_output_equal-eq o₁ o₂ h =
      let (earlier, same) =
        >>-passed
          (ensure (k.fee_eq.eq (k.fee_statement o₁) (k.fee_statement o₂))
            >> ensure (is_empty (differences k o₁ o₂)))
          (ensure (k.output_eq.eq o₁ o₂)) h in
      (k.output_eq.eq_iff o₁ o₂).0 (ensure-eq-returns (k.output_eq.eq o₁ o₂) same)

  assert_each_equal_self : (os : List Output) → assert_each_equal k os os ≡ returns tt
  unfolding assert_each_equal
  assert_each_equal_self [] = refl
  assert_each_equal_self (o ∷ os) = rw (assert_output_equal_self o) (assert_each_equal_self os)

  assert_each_equal-eq :
      (os₁ os₂ : List Output)
      → length os₁ ≡ length os₂
      → assert_each_equal k os₁ os₂ ≡ returns tt
      → os₁ ≡ os₂
  unfolding assert_each_equal
  assert_each_equal-eq [] [] n h = refl
  assert_each_equal-eq [] (o ∷ os) n h = absurd (omega arith)
  assert_each_equal-eq (o ∷ os) [] n h = absurd (omega arith)
  assert_each_equal-eq (o₁ ∷ os₁) (o₂ ∷ os₂) n h =
      let (first, later) = >>-passed (assert_output_equal k o₁ o₂) _ h in
      let head = assert_output_equal-eq o₁ o₂ first in
      let tail = assert_each_equal-eq os₁ os₂ (omega arith) later in cc

  -- The comparison of two lists of outputs passes exactly where they are the same list: none of
  -- its assertions fails on equal outputs, and none of the differences between two lists gets
  -- past all of them.
  pub assert_outputs_equal_iff :
      (outputs_1 outputs_2 : List Output)
      → (assert_outputs_equal k outputs_1 outputs_2 ≡ returns tt) ↔ (outputs_1 ≡ outputs_2)
  unfolding assert_outputs_equal
  assert_outputs_equal_iff os₁ os₂ = (
    (λ h.
        let (same, each) = ensure-passed (length os₁ == length os₂) _ h in
        assert_each_equal-eq os₁ os₂ ((==_iff (length os₁) (length os₂)).0 same) each),
    (λ e.
        subst (λ os. (ensure (length os₁ == length os) >> assert_each_equal k os₁ os) ≡ returns tt)
          e (rw ((==_iff (length os₁) (length os₁)).1 refl) (assert_each_equal_self os₁))),
  )
