-- ===== src/Universe/Balances/Tiling.antt =====
-- The ranges of balances cover everything below the largest balance, and the loop ends.
use test_suites.Prelude.{
  ℕ, zero, suc, ◌*◌, ◌≤◌, ◌<◌, ◌≡◌, refl, true, false, some, List, [], ◌∷◌, leb, Bool-cases, inl,
  inr, min, arith,
}
use test_suites.Prelude.Words.{mul64, mul64_exact}
use test_suites.Prelude.Outcome.{returns}
use test_suites.Universe.Balances.{ranges_from, log_balance_ranges}

-- Ranges that are not empty and stand one after the other, from `lo` to `hi`.
abbrev pub Tiles : ℕ → ℕ → List (ℕ × ℕ) → Type 0
Tiles lo hi [] = lo ≡ hi
Tiles lo hi (r ∷ rs) = (r.0 ≡ lo) × (r.0 < r.1) × Tiles r.1 hi rs

-- No range spans more than a doubling.
abbrev pub AreDoublings : List (ℕ × ℕ) → Type 0
AreDoublings [] = Unit
AreDoublings (r ∷ rs) = (r.1 ≤ 2 * r.0) × AreDoublings rs

abbrev pub tail : List (ℕ × ℕ) → List (ℕ × ℕ)
tail [] = []
tail (r ∷ rs) = rs

-- The most that the upper bound grows to in the rounds left.
abbrev pub reach : ℕ → ℕ → ℕ
reach zero upper = upper
reach (suc n) upper = reach n (upper * 2)

reach-le : (n a b : ℕ) → a ≤ b → reach n a ≤ reach n b
reach-le zero a b h = h
reach-le (suc n) a b h = reach-le n (a * 2) (b * 2) (omega arith)

reach_max : (n m : ℕ) → m ≤ reach n m
reach_max zero m = omega arith
reach_max (suc n) m = omega (arith, reach_max n m, reach-le n m (m * 2) (omega arith))

-- The next upper bound still reaches the largest balance in the rounds left.
reach-min : (n upper m : ℕ) → m ≤ reach n (upper * 2) → m ≤ reach n (min (upper * 2) m)
reach-min n upper m h = elim (Bool-cases (leb (upper * 2) m)) [
  | inl small ↦ let e : min (upper * 2) m ≡ upper * 2 = ground arith in rw e h
  | inr large ↦ let e : min (upper * 2) m ≡ m = ground arith in rw e (reach_max n m)
]

reach_rounds : (k n a : ℕ) → k ≤ n → reach k a ≤ reach n a
reach_rounds zero n a h = reach_max n a
reach_rounds (suc k) zero a h = absurd (omega arith)
reach_rounds (suc k) (suc n) a h = reach_rounds k n (a * 2) (omega arith)

ranges_from-more :
    (n m lower upper doubled : ℕ) (ranges : List (ℕ × ℕ))
    → leb m upper ≡ false
    → mul64 upper 2 ≡ doubled
    → ranges_from n m upper (min doubled m) ≡ some ranges
    → ranges_from (suc n) m lower upper ≡ some ((lower, upper) ∷ ranges)
unfolding ranges_from
ranges_from-more n m lower upper doubled ranges more e made = rw more (rw e (rw made refl))

ranges_from-Tiles :
    (n m lower upper : ℕ)
    → m ≤ reach n upper
    → m ≤ 9_223_372_036_854_775_808
    → 0 < upper
    → upper ≤ m
    → (rest : List (ℕ × ℕ)) × (ranges_from (suc n) m lower upper ≡ some ((lower, upper) ∷ rest))
      × Tiles upper m rest
      × AreDoublings rest
unfolding ranges_from
ranges_from-Tiles zero m lower upper enough word pos le =
    let e : leb m upper ≡ true = ground arith in ([], rw e refl, omega arith, tt)
ranges_from-Tiles (suc n) m lower upper enough word pos le = elim (Bool-cases (leb m upper)) [
  | inl last ↦ ([], rw last refl, ground arith, tt)
  | inr more ↦
      let below : upper < m = ground arith in
      let exact : mul64 upper 2 ≡ upper * 2 = mul64_exact upper 2 (omega arith) in
      let next = min (upper * 2) m in
      let (rest, made, tiles, doublings) =
        ranges_from-Tiles n m upper next (reach-min n upper m enough) word (omega arith)
          (omega arith) in
      (
        (upper, next) ∷ rest,
        ranges_from-more (suc n) m lower upper (upper * 2) _ more exact made,
        (refl, omega arith, tiles),
        (omega arith, doublings),
      )
]

-- Where the largest balance is at least the reserve, which is positive, and at most 2 ^ 63, the loop
-- ends within 64 rounds, and the ranges are not empty, stand one after the other and cover exactly
-- the numbers below the largest balance; the first one ends at the reserve, and no later one spans
-- more than a doubling.
pub log_balance_ranges-Tiles :
    (fuel minimum max_balance : ℕ)
    → 63 ≤ fuel
    → 0 < minimum
    → minimum ≤ max_balance
    → max_balance ≤ 9_223_372_036_854_775_808
    → (rest : List (ℕ × ℕ)) × (log_balance_ranges (suc fuel) minimum max_balance
        ≡ returns ((0, minimum) ∷ rest))
      × Tiles 0 max_balance ((0, minimum) ∷ rest)
      × AreDoublings rest
unfolding log_balance_ranges
log_balance_ranges-Tiles fuel minimum max_balance rounds pos le word =
    let doubled : 9_223_372_036_854_775_808 ≤ reach 63 minimum =
      le_trans_of (reach-le 63 1 minimum pos) in
    let (rest, made, tiles, doublings) =
      ranges_from-Tiles fuel max_balance 0 minimum
        (let f = reach_rounds 63 fuel minimum rounds in omega arith) word pos le in
    let e : leb minimum max_balance ≡ true = ground arith in
    (rest, rw e (rw made refl), (refl, pos, tiles), doublings)
  where
    le_trans_of : reach 63 1 ≤ reach 63 minimum → 9_223_372_036_854_775_808 ≤ reach 63 minimum
    le_trans_of h = h
