-- ===== src/Universe/Balances/Tests.antt =====
-- The ranges of a reserve of 512 and a largest balance of 3,000.
use test_suites.Prelude.{ℕ, ◌≡◌, refl, List, [], ◌∷◌, arith}
use test_suites.Prelude.Words.{mul64}
use test_suites.Prelude.Outcome.{returns}
use test_suites.Universe.Balances.{log_balance_ranges, ranges_from}
use test_suites.Universe.Balances.Tiling.{Tiles, AreDoublings, log_balance_ranges-Tiles}

four_ranges :
    log_balance_ranges 64 512 3_000
    ≡ returns ((0, 512) ∷ (512, 1_024) ∷ (1_024, 2_048) ∷ (2_048, 3_000) ∷ [])
unfolding log_balance_ranges ranges_from mul64
four_ranges = refl

log_balance_ranges-Tiles_example :
    (rest : List (ℕ × ℕ)) × (log_balance_ranges 64 512 3_000 ≡ returns ((0, 512) ∷ rest))
    × Tiles 0 3_000 ((0, 512) ∷ rest)
    × AreDoublings rest
log_balance_ranges-Tiles_example =
    log_balance_ranges-Tiles 63 512 3_000 (omega arith) (omega arith) (omega arith) (omega arith)
