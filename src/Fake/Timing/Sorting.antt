-- ===== src/Fake/Timing/Sorting.antt =====
-- Sorting keeps how many times pass a test, and the position of a time in a sorted list bounds how
-- many are below and above it.
use test_suites.Prelude.{
  ℕ, zero, suc, ◌+◌, ◌≤◌, ◌≡◌, refl, subst, Bool, true, false, some, List, [], ◌∷◌, leb,
  if◌then◌else◌, get_elem?, length, All, All-get_elem?, arith,
}
use test_suites.Fake.Timing.{insert_sorted, sort}

-- How many elements pass a test.
abbrev pub count : (ℕ → Bool) → List ℕ → ℕ
count p [] = 0
count p (x ∷ xs) = (if p x then 1 else 0) + count p xs

abbrev pub IsSorted : List ℕ → Type 0
IsSorted [] = Unit
IsSorted (x ∷ xs) = All (λ y. x ≤ y) xs × IsSorted xs

count-insert :
    (p : ℕ → Bool) (t : ℕ) (xs : List ℕ) → count p (insert_sorted t xs) ≡ count p (t ∷ xs)
unfolding insert_sorted
count-insert p t [] = refl
count-insert p t (x ∷ xs) = by_test (leb t x) (count-insert p t xs)
  where
    by_test :
        (b : Bool)
        → count p (insert_sorted t xs) ≡ count p (t ∷ xs)
        → count p (if b then t ∷ x ∷ xs else x ∷ insert_sorted t xs) ≡ count p (t ∷ x ∷ xs)
    by_test true ih = refl
    by_test false ih = omega arith

pub count-sort : (p : ℕ → Bool) (xs : List ℕ) → count p (sort xs) ≡ count p xs
unfolding sort
count-sort p [] = refl
count-sort p (x ∷ xs) = omega (arith, count-insert p x (sort xs), count-sort p xs)

length-insert : (t : ℕ) (xs : List ℕ) → length (insert_sorted t xs) ≡ suc (length xs)
unfolding insert_sorted
length-insert t [] = refl
length-insert t (x ∷ xs) = ground (arith, length-insert t xs)

pub length-sort : (xs : List ℕ) → length (sort xs) ≡ length xs
unfolding sort
length-sort [] = refl
length-sort (x ∷ xs) = omega (arith, length-insert x (sort xs), length-sort xs)

All-insert :
    (y t : ℕ) (xs : List ℕ) → y ≤ t → All (λ z. y ≤ z) xs → All (λ z. y ≤ z) (insert_sorted t xs)
unfolding insert_sorted
All-insert y t [] le all = (le, tt)
All-insert y t (x ∷ xs) le all = by_test (leb t x) (All-insert y t xs le all.1)
  where
    by_test :
        (b : Bool)
        → All (λ z. y ≤ z) (insert_sorted t xs)
        → All (λ z. y ≤ z) (if b then t ∷ x ∷ xs else x ∷ insert_sorted t xs)
    by_test true ih = (le, all)
    by_test false ih = (all.0, ih)

All-le : (y t : ℕ) (xs : List ℕ) → y ≤ t → All (λ z. t ≤ z) xs → All (λ z. y ≤ z) xs
All-le y t [] le all = tt
All-le y t (x ∷ xs) le all = (omega arith, All-le y t xs le all.1)

insert-IsSorted : (t : ℕ) (xs : List ℕ) → IsSorted xs → IsSorted (insert_sorted t xs)
unfolding insert_sorted
insert-IsSorted t [] s = (tt, tt)
insert-IsSorted t (x ∷ xs) s = by_test (leb t x) refl (insert-IsSorted t xs s.1)
  where
    by_test :
        (b : Bool)
        → leb t x ≡ b
        → IsSorted (insert_sorted t xs)
        → IsSorted (if b then t ∷ x ∷ xs else x ∷ insert_sorted t xs)
    by_test true e ih = let le : t ≤ x = ground arith in ((le, All-le t x xs le s.0), s)
    by_test false e ih = (All-insert x t xs (ground arith) s.0, ih)

pub sort-IsSorted : (xs : List ℕ) → IsSorted (sort xs)
unfolding sort
sort-IsSorted [] = tt
sort-IsSorted (x ∷ xs) = insert-IsSorted x (sort xs) (sort-IsSorted xs)

pub count_mono :
    (p q : ℕ → Bool) (xs : List ℕ) → ((x : ℕ) → p x ≡ true → q x ≡ true) → count p xs ≤ count q xs
count_mono p q [] h = omega arith
count_mono p q (x ∷ xs) h = by_tests (p x) (q x) (h x) (count_mono p q xs h)
  where
    by_tests :
        (a b : Bool)
        → (a ≡ true → b ≡ true)
        → count p xs ≤ count q xs
        → (if a then 1 else 0) + count p xs ≤ (if b then 1 else 0) + count q xs
    by_tests true true i ih = omega arith
    by_tests true false i ih = absurd (let f = i refl in cc)
    by_tests false true i ih = omega arith
    by_tests false false i ih = omega arith

leb_refl : (x : ℕ) → leb x x ≡ true
leb_refl x = ground arith

-- Everything before a position is at most what stands there.
pub count-le :
    (xs : List ℕ) (i a : ℕ)
    → IsSorted xs
    → get_elem? xs i ≡ some a
    → i + 1 ≤ count (λ x. leb x a) xs
count-le [] i a s h = absurd (cc)
count-le (x ∷ xs) zero a s h =
    let same : x ≡ a = cc in
    let e : leb x a ≡ true = subst (λ y. leb x y ≡ true) same (leb_refl x) in rw e (omega arith)
count-le (x ∷ xs) (suc i) a s h =
    let le : x ≤ a = All-get_elem? (λ y. x ≤ y) xs i a s.0 h in
    let e : leb x a ≡ true = ground arith in rw e (omega (arith, count-le xs i a s.1 h))

count-All : (a : ℕ) (xs : List ℕ) → All (λ y. a ≤ y) xs → count (λ x. leb a x) xs ≡ length xs
count-All a [] all = refl
count-All a (x ∷ xs) all =
    let le : a ≤ x = all.0 in
    let e : leb a x ≡ true = ground arith in rw e (omega (arith, count-All a xs all.1))

-- Everything from a position on is at least what stands there.
pub count-ge :
    (xs : List ℕ) (i a : ℕ)
    → IsSorted xs
    → get_elem? xs i ≡ some a
    → length xs ≤ i + count (λ x. leb a x) xs
count-ge [] i a s h = absurd (cc)
count-ge (x ∷ xs) zero a s h =
    let same : x ≡ a = cc in
    subst (λ y. length (x ∷ xs) ≤ 0 + count (λ z. leb y z) (x ∷ xs)) same
      (rw (leb_refl x) (omega (arith, count-All x xs s.0)))
count-ge (x ∷ xs) (suc i) a s h = ground (arith, count-ge xs i a s.1 h)

pub get_elem?-IsSorted :
    (xs : List ℕ) (i a b : ℕ)
    → IsSorted xs
    → get_elem? xs i ≡ some a
    → get_elem? xs (suc i) ≡ some b
    → a ≤ b
get_elem?-IsSorted [] i a b s h k = absurd (cc)
get_elem?-IsSorted (x ∷ xs) zero a b s h k =
    let same : x ≡ a = cc in subst (λ y. y ≤ b) same (All-get_elem? (λ y. x ≤ y) xs 0 b s.0 k)
get_elem?-IsSorted (x ∷ xs) (suc i) a b s h k = get_elem?-IsSorted xs i a b s.1 h k
