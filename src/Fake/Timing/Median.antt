-- ===== src/Fake/Timing/Median.antt =====
-- The running time that is recorded is a median of the measured times.
use Prim.Native.String.{String}
use test_suites.Prelude.{ℕ, ◌+◌, ◌*◌, ◌≤◌, ◌≡◌, List, [], ◌∷◌, leb, length}
use test_suites.Prelude.Outcome.{Outcome}
use test_suites.Fake.{Crates}
use test_suites.Fake.Timing.{
  GasMeterType, DynamicArgs, no_args, distinct_signers, distinct_signers_and_fixed, Timed,
}
use test_suites.Fake.Timing.Sorting.{count}

-- At least half of the times are at most `m`, and at least half are at least `m`.
pub record IsMedian (m : ℕ) (times : List ℕ) : Type 0 where
  pub not_above : length times ≤ 2 * count (λ t. leb t m) times
  pub not_below : length times ≤ 2 * count (λ t. leb m t) times

module _ (k : Crates) (tm : Timed k) where
  open k use {Bytes, ModuleId, Store}

  module _ (store : Store) (meter : GasMeterType) (id : ModuleId) (name : String)
      (types : List tm.TypeTag) where
    -- Each time is that of a call in its iteration.
    abbrev pub IsMeasured : ℕ → List ℕ → Type 0
    IsMeasured i [] = Unit
    IsMeasured i (t ∷ ts) =
        ((args : List Bytes) × (t ≡ tm.elapsed store meter id name types args i))
        × IsMeasured (i + 1) ts

    -- The accounts are as many as the iterations left, where they are used.
    abbrev HasSigners : DynamicArgs → ℕ → List ℕ → Type 0
    HasSigners no_args left extra = Unit
    HasSigners distinct_signers left extra = length extra ≡ left
    HasSigners (distinct_signers_and_fixed signers) left extra = length extra ≡ left
