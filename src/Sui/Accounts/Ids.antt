-- ===== src/Sui/Accounts/Ids.antt =====
-- No two genesis gas objects have one id.
use native.Mathlib.Nat.{mul-le-mul_right}
use test_suites.Prelude.{
  ℕ, zero, suc, ◌+◌, ◌*◌, ◌≤◌, ◌<◌, ◌≡◌, ◌≢◌, refl, sym, ap, subst, ◌∙◌, List, [], ◌∷◌, ◌++◌, map,
  map-append, replicate, All, All-append, length, length-append, arith, inl, inr, ◌⊎◌,
}
use test_suites.Prelude.Words.{add64, mul64, u64_mod, add64_exact, mul64_exact}
use test_suites.Prelude.Maps.{Dict, insert}
use test_suites.Sui.Accounts.{
  Object, ObjectRef, Account, le_bytes, le_value, new_gas_object, gas_objects_from,
  create_gas_objects, account_with, batch_create_from, batch_create_account_and_gas,
}

-- Pairwise different.
abbrev pub Distinct : List ℕ → Type 0
Distinct [] = Unit
Distinct (x ∷ xs) = All (λ y. x ≢ y) xs × Distinct xs

abbrev pub ids : List Object → List ℕ
ids = map (λ o. o.id)

-- The bytes of a 64-bit number are read back.
le_value-le_bytes : (n : ℕ) → n < u64_mod → le_value (le_bytes 8 n ++ replicate 23 0) ≡ n
unfolding le_value le_bytes
le_value-le_bytes n h = omega arith

new_gas_object-id :
    (idx owner : ℕ) → idx < u64_mod → (new_gas_object idx owner).id ≡ 255 + 256 * idx
unfolding new_gas_object
new_gas_object-id idx owner h = omega (arith, le_value-le_bytes idx h)

-- The id of an object with a number between the bounds.
abbrev Between : ℕ → ℕ → ℕ → Type 0
Between lo hi id = (idx : ℕ) × (id ≡ 255 + 256 * idx) × (lo ≤ idx) × (idx < hi)

Between-wider :
    (lo lo' hi hi' : ℕ) (xs : List ℕ)
    → lo' ≤ lo
    → hi ≤ hi'
    → All (Between lo hi) xs
    → All (Between lo' hi') xs
Between-wider lo lo' hi hi' [] le le' h = tt
Between-wider lo lo' hi hi' (x ∷ xs) le le' ((idx, e, p, q), h) =
    ((idx, e, omega arith, omega arith), Between-wider lo lo' hi hi' xs le le' h)

gas_objects_from-Between :
    (i n start sender : ℕ)
    → start + i + n < u64_mod
    → All (Between (start + i) (start + i + n)) (ids (gas_objects_from i n start sender))
unfolding gas_objects_from
gas_objects_from-Between i zero start sender h = tt
gas_objects_from-Between i (suc n) start sender h =
    let number : add64 start i ≡ start + i = add64_exact start i (omega arith) in
    (
      (
        start + i,
        new_gas_object-id (add64 start i) sender (omega arith) ∙ ap (λ k. 255 + 256 * k) number,
        omega arith,
        omega arith,
      ),
      Between-wider (start + (i + 1)) (start + i) (start + (i + 1) + n) (start + i + suc n)
          (ids (gas_objects_from (i + 1) n start sender)) (omega arith) (omega arith)
          (gas_objects_from-Between (i + 1) n start sender (omega arith)),
    )

-- Numbers of disjoint ranges give different ids.
apart :
    (lo hi lo' hi' x : ℕ) (ys : List ℕ)
    → (hi ≤ lo') ⊎ (hi' ≤ lo)
    → Between lo hi x
    → All (Between lo' hi') ys
    → All (λ y. x ≢ y) ys
apart lo hi lo' hi' x [] d b h = tt
apart lo hi lo' hi' x (y ∷ ys) d (idx, e, p, q) ((idx', e', p', q'), h) = (
  λ same. elim d [ inl l ↦ omega arith | inr r ↦ omega arith ],
  apart lo hi lo' hi' x ys d (idx, e, p, q) h,
)

gas_objects_from-Distinct :
    (i n start sender : ℕ)
    → start + i + n < u64_mod
    → Distinct (ids (gas_objects_from i n start sender))
unfolding gas_objects_from
gas_objects_from-Distinct i zero start sender h = tt
gas_objects_from-Distinct i (suc n) start sender h = (
  apart (start + i) (start + i + 1) (start + (i + 1)) (start + (i + 1) + n)
      (new_gas_object (add64 start i) sender).id (ids (gas_objects_from (i + 1) n start sender))
      (inl (omega arith))
      (
        start + i,
        new_gas_object-id (add64 start i) sender (omega (arith, add64_exact start i (omega arith)))
            ∙ ap (λ k. 255 + 256 * k) (add64_exact start i (omega arith)),
        omega arith,
        omega arith,
      )
      (gas_objects_from-Between (i + 1) n start sender (omega arith)),
  gas_objects_from-Distinct (i + 1) n start sender (omega arith),
)

Distinct-append :
    (xs ys : List ℕ)
    → Distinct xs
    → Distinct ys
    → All (λ x. All (λ y. x ≢ y) ys) xs
    → Distinct (xs ++ ys)
Distinct-append [] ys hx hy h = hy
Distinct-append (x ∷ xs) ys (fresh, hx) hy (far, h) =
    (All-append (λ y. x ≢ y) xs ys fresh far, Distinct-append xs ys hx hy h)

ids-append : (xs ys : List Object) → ids (xs ++ ys) ≡ ids xs ++ ids ys
ids-append xs ys = map-append (λ o. o.id) xs ys

-- Each number of an account is below `n`.
abbrev pub Below : ℕ → List ℕ → Type 0
Below n = All (λ idx. idx < n)

-- The block of another account.
block-apart : (i j per : ℕ) → i ≢ j → (i * per + per ≤ j * per) ⊎ (j * per + per ≤ i * per)
block-apart i j per ne = elim (tri i j ne) [
  | inl lt ↦ inl (subst (λ k. k ≤ j * per) (mul-succ' i per) (mul-le-mul_right per lt))
  | inr gt ↦ inr (subst (λ k. k ≤ i * per) (mul-succ' j per) (mul-le-mul_right per gt))
]
  where
    tri : (i j : ℕ) → i ≢ j → (suc i ≤ j) ⊎ (suc j ≤ i)
    tri i j ne = ground arith

    mul-succ' : (i per : ℕ) → suc i * per ≡ i * per + per
    mul-succ' i per = omega arith

block-within : (i n per : ℕ) → i < n → i * per + per ≤ n * per
block-within i n per lt = let whole : suc i * per ≤ n * per = mul-le-mul_right per lt in omega arith

module _ (compute_object_reference : Object → ObjectRef) (key_of : ℕ → ℕ) (n per : ℕ)
    (room : n * per < u64_mod) where
  abbrev genesis_of : List ℕ → Dict Account → List ℕ
  genesis_of order accounts =
      ids (batch_create_from compute_object_reference key_of order per accounts).1

  block-Between :
      (idx : ℕ)
      → idx < n
      → All
          (Between (idx * per) (idx * per + per))
          (ids (create_gas_objects (key_of idx) per (mul64 idx per)))
  unfolding create_gas_objects
  block-Between idx lt =
      let within = block-within idx n per lt in
      let start : mul64 idx per ≡ idx * per = mul64_exact idx per (omega arith) in
      Between-wider (mul64 idx per + 0) (idx * per) (mul64 idx per + 0 + per) (idx * per + per)
        (ids (gas_objects_from 0 per (mul64 idx per) (key_of idx))) (omega arith) (omega arith)
        (gas_objects_from-Between 0 per (mul64 idx per) (key_of idx) (omega arith))

  block-Distinct :
      (idx : ℕ) → idx < n → Distinct (ids (create_gas_objects (key_of idx) per (mul64 idx per)))
  unfolding create_gas_objects
  block-Distinct idx lt =
      let within = block-within idx n per lt in
      let start : mul64 idx per ≡ idx * per = mul64_exact idx per (omega arith) in
      gas_objects_from-Distinct 0 per (mul64 idx per) (key_of idx) (omega arith)

  -- An object of one account is in no block of others.
  genesis-apart :
      (idx : ℕ) (order : List ℕ) (accounts : Dict Account) (x : ℕ)
      → Below n order
      → All (λ k. idx ≢ k) order
      → Between (idx * per) (idx * per + per) x
      → All (λ y. x ≢ y) (genesis_of order accounts)
  unfolding batch_create_from
  genesis-apart idx [] accounts x below ne at = tt
  genesis-apart idx (k ∷ order) accounts x (lt, below) (ne, nes) at =
      let objects = create_gas_objects (key_of k) per (mul64 k per) in
      let accounts' =
        insert (key_of k) (account_with compute_object_reference key_of (key_of k) objects)
          accounts in
      subst (All (λ y. x ≢ y))
        (sym (
          ids-append objects
            (batch_create_from compute_object_reference key_of order per accounts').1))
        (All-append (λ y. x ≢ y) (ids objects) (genesis_of order accounts')
          (apart (idx * per) (idx * per + per) (k * per) (k * per + per) x (ids objects)
            (block-apart idx k per ne) at (block-Between k lt))
          (genesis-apart idx order accounts' x below nes at))

  each-apart :
      (idx : ℕ) (order : List ℕ) (accounts : Dict Account) (xs : List ℕ)
      → Below n order
      → All (λ k. idx ≢ k) order
      → All (Between (idx * per) (idx * per + per)) xs
      → All (λ x. All (λ y. x ≢ y) (genesis_of order accounts)) xs
  each-apart idx order accounts [] below ne h = tt
  each-apart idx order accounts (x ∷ xs) below ne (at, h) =
      (genesis-apart idx order accounts x below ne at, each-apart idx order accounts xs below ne h)

  genesis-Distinct :
      (order : List ℕ) (accounts : Dict Account)
      → Below n order
      → Distinct order
      → Distinct (genesis_of order accounts)
  unfolding batch_create_from
  genesis-Distinct [] accounts below d = tt
  genesis-Distinct (k ∷ order) accounts (lt, below) (ne, d) =
      let objects = create_gas_objects (key_of k) per (mul64 k per) in
      let accounts' =
        insert (key_of k) (account_with compute_object_reference key_of (key_of k) objects)
          accounts in
      subst Distinct
        (sym (
          ids-append objects
            (batch_create_from compute_object_reference key_of order per accounts').1))
        (Distinct-append (ids objects) (genesis_of order accounts') (block-Distinct k lt)
          (genesis-Distinct order accounts' below d)
          (each-apart k order accounts' (ids objects) below ne (block-Between k lt)))

  length-block : (i m start sender : ℕ) → length (gas_objects_from i m start sender) ≡ m
  unfolding gas_objects_from
  length-block i zero start sender = refl
  length-block i (suc m) start sender = ap suc (length-block (i + 1) m start sender)

  genesis-length :
      (order : List ℕ) (accounts : Dict Account)
      → length (batch_create_from compute_object_reference key_of order per accounts).1
        ≡ length order * per
  unfolding batch_create_from create_gas_objects
  genesis-length [] accounts = omega arith
  genesis-length (k ∷ order) accounts =
      let objects = create_gas_objects (key_of k) per (mul64 k per) in
      let accounts' =
        insert (key_of k) (account_with compute_object_reference key_of (key_of k) objects)
          accounts in
      omega (
        arith,
        length-append objects
            (batch_create_from compute_object_reference key_of order per accounts').1,
        length-block 0 per (mul64 k per) (key_of k),
        genesis-length order accounts',
      )

  -- Where the tasks are different numbers below `n` and `n` accounts with `per` gas objects each
  -- are numbered by 64-bit words, all genesis gas objects have different ids, and there are `per`
  -- for each task.
  pub genesis_ids :
      (order : List ℕ)
      → Below n order
      → Distinct order
      → let (accounts, genesis) =
          batch_create_account_and_gas compute_object_reference key_of order per in
        Distinct (ids genesis) × (length genesis ≡ length order * per)
  unfolding batch_create_account_and_gas
  genesis_ids order below d = (genesis-Distinct order [] below d, genesis-length order [])
