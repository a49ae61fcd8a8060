-- ===== src/Universe/Picker.antt =====
-- The picker of accounts (codes/aptos/modified/e2e-tests/src/account_universe/universe.rs).
pub mod Budget
pub mod History
use test_suites.Prelude.{
  ℕ, zero, suc, ◌+◌, ◌<◌, ◌≡◌, Bool, List, [], ◌∷◌, none, some, ◌==◌, ltb, if◌then◌else◌, length,
  get_elem?, set, remove_at, All,
}
use test_suites.Prelude.Words.{sub64}
use test_suites.Prelude.Outcome.{Outcome, returns, panics, ◌>>=◌, ◌>>◌, ensure}

-- The sources of randomness: `Index` of proptest and `pick_slice_idxs` of the helper crate. An
-- index falls into any slice that is not empty, and picked indexes lie within the slice.
pub record Sampling : Type 1 where
  pub Index : Type 0
  pub index : Index → ℕ → ℕ
  pub index-lt : (i : Index) (n : ℕ) → 0 < n → index i n < n
  pub pick_slice_idxs : ℕ → Index × Index → List ℕ
  pub pick_slice_idxs_bound : (n : ℕ) (p : Index × Index) → All (λ k. k < n) (pick_slice_idxs n p)

pub data AccountPickStyle : Type 0 where
  unlimited : AccountPickStyle
  limited : ℕ → AccountPickStyle

-- `limited` holds (index, times remaining).
pub data AccountPicker : Type 0 where
  unlimited : ℕ → AccountPicker
  limited : List (ℕ × ℕ) → AccountPicker

-- `(from..from + count).map(|idx| (idx, limit))`
pub budget_from : ℕ → ℕ → ℕ → List (ℕ × ℕ)
budget_from from zero limit = []
budget_from from (suc count) limit = (from, limit) ∷ budget_from (from + 1) count limit

-- `AccountPicker::new`
unfoldable pub new : AccountPickStyle → ℕ → AccountPicker
unfolding budget_from
new AccountPickStyle.unlimited num_accounts = AccountPicker.unlimited num_accounts
new (AccountPickStyle.limited limit) num_accounts =
    AccountPicker.limited (budget_from 0 num_accounts limit)

-- Uses up one pick of the entry: it leaves the list with its last one.
unfoldable pub pick_limited : List (ℕ × ℕ) → ℕ → Outcome (ℕ × List (ℕ × ℕ))
pick_limited remaining i = elim (get_elem? remaining i) [
  | none ↦ panics
  | some (account_idx, times) ↦
      let times_remaining = sub64 times 1 in
      returns (
        account_idx,
        if times_remaining == 0
            then remove_at remaining i
            else set remaining i (account_idx, times_remaining),
      )
]

-- The two assertions of `pick_pair_impl` on what the helper returns.
unfoldable pub ordered_pair : List ℕ → Outcome (ℕ × ℕ)
ordered_pair (a ∷ b ∷ []) = do ensure (ltb a b); returns (a, b)
ordered_pair _ = panics

module _ (s : Sampling) where
  open s use {Index, index, pick_slice_idxs}

  -- `Index::index` panics on an empty slice.
  unfoldable pub index_in : Index → ℕ → Outcome ℕ
  index_in i n = if n == 0 then panics else returns (index i n)

  unfoldable pub pick : Index → AccountPicker → Outcome (ℕ × AccountPicker)
  unfolding index_in
  pick i (AccountPicker.unlimited num_accounts) = do
    idx ← index_in i num_accounts
    returns (idx, AccountPicker.unlimited num_accounts)
  pick i (AccountPicker.limited remaining) = do
    remaining_idx ← index_in i (length remaining)
    (idx, remaining') ← pick_limited remaining remaining_idx
    returns (idx, AccountPicker.limited remaining')

  unfoldable pub pick_pair_impl : ℕ → Index × Index → Outcome (ℕ × ℕ)
  unfolding ordered_pair
  pick_pair_impl bound indexes = ordered_pair (pick_slice_idxs bound indexes)

  -- The later index is used first, so that the earlier one still names its entry.
  unfoldable pub pick_pair : Index × Index → AccountPicker → Outcome (ℕ × ℕ × AccountPicker)
  pick_pair indexes (AccountPicker.unlimited num_accounts) = do
    (a, b) ← pick_pair_impl num_accounts indexes
    returns (a, b, AccountPicker.unlimited num_accounts)
  pick_pair indexes (AccountPicker.limited remaining) = do
    (i, j) ← pick_pair_impl (length remaining) indexes
    (account_idx_2, remaining₂) ← pick_limited remaining j
    (account_idx_1, remaining₁) ← pick_limited remaining₂ i
    returns (account_idx_1, account_idx_2, AccountPicker.limited remaining₁)
