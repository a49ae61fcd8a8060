-- ===== src/Sui/Genesis/Keys.antt =====
-- The accounts by address, and the last of them.
use test_suites.Prelude.{
  ℕ, suc, ◌<◌, ◌≤◌, ◌≡◌, ◌≢◌, refl, sym, ap, subst, ◌∙◌, Option, some, none, List, [], ◌∷◌, ◌++◌,
  map, length, All, if_both, ◌==◌, ltb, arith, ◌⊎◌, inl, inr,
}
use test_suites.Prelude.Maps.{Dict, lookup, insert, erase}
use test_suites.Sui.Accounts.{Account}
use test_suites.Sui.Accounts.Ids.{Distinct}
use test_suites.Sui.Genesis.{greatest, pop_last}

abbrev pub keys : Dict Account → List ℕ
keys = map (λ e. e.0)

-- Every account is stored at its sender.
abbrev pub IsKeyed : Dict Account → Type 0
IsKeyed = All (λ e. e.1.sender ≡ e.0)

pub keys-insert :
    (k : ℕ) (a : Account) (m : Dict Account)
    → All (λ x. x ≢ k) (keys m)
    → keys (insert k a m) ≡ keys m ++ k ∷ []
keys-insert k a [] h = refl
keys-insert k a (e ∷ m) (ne, h) = ground (arith, keys-insert k a m h)

pub IsKeyed-insert :
    (k : ℕ) (a : Account) (m : Dict Account) → a.sender ≡ k → IsKeyed m → IsKeyed (insert k a m)
IsKeyed-insert k a [] same h = (same, tt)
IsKeyed-insert k a (e ∷ m) same (here, h) =
    if_both IsKeyed (e.0 == k) ((k, a) ∷ m) (e ∷ insert k a m) (λ _. (same, h))
      (λ _. (here, IsKeyed-insert k a m same h))

IsKeyed-erase : (k : ℕ) (m : Dict Account) → IsKeyed m → IsKeyed (erase k m)
IsKeyed-erase k [] h = tt
IsKeyed-erase k (e ∷ m) (here, h) =
    if_both IsKeyed (e.0 == k) (erase k m) (e ∷ erase k m) (λ _. IsKeyed-erase k m h)
      (λ _. (here, IsKeyed-erase k m h))

IsKeyed-lookup :
    (k : ℕ) (m : Dict Account) {a : Account} → IsKeyed m → lookup k m ≡ some a → a.sender ≡ k
IsKeyed-lookup k [] h found = absurd (cc)
IsKeyed-lookup k (e ∷ m) {a} (here, h) found =
    if_both (λ o. o ≡ some a → a.sender ≡ k) (e.0 == k) (some e.1) (lookup k m)
      (λ same at.
        let it : e.1 ≡ a = cc in
        let equal : e.0 ≡ k = ground (arith, same) in ap (λ b. b.sender) (sym it) ∙ here ∙ equal)
      (λ _ at. IsKeyed-lookup k m h at) found

-- The greatest key has an entry, and no key is above it.
greatest-le : (key : ℕ) (m : Dict Account) → key ≤ greatest key m
unfolding greatest
greatest-le key [] = omega arith
greatest-le key (e ∷ m) = ground (arith, greatest-le e.0 m, greatest-le key m)

greatest_mono : (i j : ℕ) (m : Dict Account) → i ≤ j → greatest i m ≤ greatest j m
unfolding greatest
greatest_mono i j [] le = le
greatest_mono i j (e ∷ m) le =
    if_both (λ x. x ≤ greatest j (e ∷ m)) (ltb i e.0) (greatest e.0 m) (greatest i m)
      (λ lt.
        if_both (λ x. greatest e.0 m ≤ x) (ltb j e.0) (greatest e.0 m) (greatest j m)
          (λ _. omega arith) (λ ge. greatest_mono e.0 j m (ground (arith, ge))))
      (λ ge.
        if_both (λ x. greatest i m ≤ x) (ltb j e.0) (greatest e.0 m) (greatest j m)
          (λ lt. greatest_mono i e.0 m (ground (arith, lt))) (λ _. greatest_mono i j m le))

All-le : (i j : ℕ) (xs : List ℕ) → i ≤ j → All (λ x. x ≤ i) xs → All (λ x. x ≤ j) xs
All-le i j [] le h = tt
All-le i j (x ∷ xs) le (here, h) = (omega arith, All-le i j xs le h)

greatest-All : (key : ℕ) (m : Dict Account) → All (λ k. k ≤ greatest key m) (keys m)
unfolding greatest
greatest-All key [] = tt
greatest-All key (e ∷ m) = (
  ground (arith, greatest-le e.0 m, greatest-le key m),
  All-le (greatest e.0 m) (greatest key (e ∷ m)) (keys m)
      (if_both (λ x. greatest e.0 m ≤ x) (ltb key e.0) (greatest e.0 m) (greatest key m)
        (λ _. omega arith) (λ ge. greatest_mono e.0 key m (ground (arith, ge))))
      (greatest-All e.0 m),
)

erase-below :
    (k : ℕ) (m : Dict Account) → All (λ x. x ≤ k) (keys m) → All (λ x. x < k) (keys (erase k m))
erase-below k [] h = tt
erase-below k (e ∷ m) (le, h) =
    if_both (λ l. All (λ x. x < k) (keys l)) (e.0 == k) (erase k m) (e ∷ erase k m)
      (λ _. erase-below k m h) (λ other. (ground arith, erase-below k m h))

erase-absent : (k : ℕ) (m : Dict Account) → All (λ x. k ≢ x) (keys m) → erase k m ≡ m
erase-absent k [] h = refl
erase-absent k (e ∷ m) (ne, h) = ground (arith, erase-absent k m h)

length-erase :
    (k : ℕ) (m : Dict Account) {a : Account}
    → Distinct (keys m)
    → lookup k m ≡ some a
    → suc (length (erase k m)) ≡ length m
length-erase k [] d found = absurd (cc)
length-erase k (e ∷ m) {a} (fresh, d) found =
    if_both (λ l. suc (length l) ≡ suc (length m)) (e.0 == k) (erase k m) (e ∷ erase k m)
      (λ same.
        let equal : e.0 ≡ k = ground (arith, same) in
        ap (λ l. suc (length l))
          (erase-absent k m (subst (λ j. All (λ y. j ≢ y) (keys m)) equal fresh)))
      (λ other.
        let later : lookup k m ≡ some a = ground (arith, other, found) in
        ap suc (length-erase k m d later))

greatest-found :
    (key : ℕ) (m : Dict Account)
    → (greatest key m ≡ key) ⊎ ((a : Account) × (lookup (greatest key m) m ≡ some a))
unfolding greatest
greatest-found key [] = inl refl
greatest-found key (e ∷ m) =
    if_both (λ x. (x ≡ key) ⊎ ((a : Account) × (lookup x (e ∷ m) ≡ some a))) (ltb key e.0)
      (greatest e.0 m) (greatest key m)
      (λ lt. elim (greatest-found e.0 m) [
        | inl same ↦ inr (e.1, ground (arith, same))
        | inr (a, there) ↦ inr (at_either (greatest e.0 m) a there)
      ])
      (λ ge. elim (greatest-found key m) [
        | inl same ↦ inl same
        | inr (a, there) ↦ inr (at_either (greatest key m) a there)
      ])
  where
    at_either :
        (x : ℕ) (a : Account) → lookup x m ≡ some a → (b : Account) × (lookup x (e ∷ m) ≡ some b)
    at_either x a there =
        if_both (λ o. (b : Account) × (o ≡ some b)) (e.0 == x) (some e.1) (lookup x m)
          (λ _. (e.1, refl)) (λ _. (a, there))

lookup-greatest :
    (e : ℕ × Account) (m : Dict Account)
    → (a : Account) × (lookup (greatest e.0 m) (e ∷ m) ≡ some a)
lookup-greatest e m = elim (greatest-found e.0 m) [
  | inl same ↦ (e.1, ground (arith, same))
  | inr (a, there) ↦
      if_both (λ o. (b : Account) × (o ≡ some b)) (e.0 == greatest e.0 m) (some e.1)
        (lookup (greatest e.0 m) m) (λ _. (e.1, refl)) (λ _. (a, there))
]

-- The last account goes, and the others are below it.
pub pop_last-IsLast :
    (m : Dict Account)
    → 0 < length m
    → Distinct (keys m)
    → IsKeyed m
    → (last : Account) × (rest : Dict Account) × (pop_last m ≡ some (last, rest))
      × (suc (length rest) ≡ length m)
      × All (λ k. k < last.sender) (keys rest)
      × IsKeyed rest
unfolding pop_last
pop_last-IsLast [] some_key d keyed = absurd (omega arith)
pop_last-IsLast (e ∷ m) some_key d keyed =
    let key = greatest e.0 m in
    let (last, found) = lookup-greatest e m in
    let below = erase-below key (e ∷ m) (greatest-le e.0 m, greatest-All e.0 m) in
    (
      last,
      erase key (e ∷ m),
      ap
          (λ o. elim o as (λ _. Option (Account × Dict Account)) [
            | none ↦ none
            | some a ↦ some (a, erase key (e ∷ m))
          ])
          found,
      length-erase key (e ∷ m) d found,
      subst (λ j. All (λ k. k < j) (keys (erase key (e ∷ m))))
          (sym (IsKeyed-lookup key (e ∷ m) keyed found)) below,
      IsKeyed-erase key (e ∷ m) keyed,
    )
