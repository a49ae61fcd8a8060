-- ===== src/Universe/Balances.antt =====
-- The ranges of `log_balance_strategy` (codes/aptos/modified/e2e-tests/src/account_universe.rs). The
-- loop takes fuel, where `none` means that it ran out; `minimum` is the reserve, rounded up to a
-- power of two. That a value is drawn from the ranges is left to proptest.
pub mod Tiling
mod Tests
use test_suites.Prelude.{
  ℕ, zero, suc, ◌+◌, ◌≡◌, Bool, true, false, Option, none, some, List, [], ◌∷◌, leb, if◌then◌else◌,
  min,
}
use mathlib.Core.Option
use test_suites.Prelude.Words.{mul64}
use test_suites.Prelude.Outcome.{Outcome, ◌>>◌, ensure, unwrap}

-- `lower_bound..upper_bound` and the ranges after it.
unfoldable pub ranges_from : ℕ → ℕ → ℕ → ℕ → Option (List (ℕ × ℕ))
ranges_from zero max_balance lower upper = none
ranges_from (suc fuel) max_balance lower upper =
    let rest = ranges_from fuel max_balance upper (min (mul64 upper 2) max_balance) in
    let more : Option (List (ℕ × ℕ)) = Option.map (λ ranges. (lower, upper) ∷ ranges) rest in
    if leb max_balance upper then some ((lower, upper) ∷ []) else more

unfoldable pub log_balance_ranges : ℕ → ℕ → ℕ → Outcome (List (ℕ × ℕ))
unfolding ranges_from
log_balance_ranges fuel minimum max_balance =
    ensure (leb minimum max_balance) >> unwrap (ranges_from fuel max_balance 0 minimum)
