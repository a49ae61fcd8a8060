-- ===== src/Universe/Population.antt =====
-- `AccountUniverseGen`, `AccountUniverse` and `AccountPairGen`
-- (codes/aptos/modified/e2e-tests/src/account_universe/universe.rs).
use test_suites.Prelude.{
  ℕ, Bool, true, false, List, [], ◌∷◌, ◌++◌, map, ltb, if◌then◌else◌, length, get_elem?, set,
}
use test_suites.Prelude.Outcome.{Outcome, returns, ◌>>=◌, ◌>>◌, ensure, unwrap}
use test_suites.Universe.Account.{AccountApi, AccountCurrent}
use test_suites.Universe.Account
use test_suites.Universe.Picker.{Sampling, AccountPickStyle, AccountPicker}
use test_suites.Universe.Picker

-- The generated accounts before they are set up.
pub record AccountUniverseGen (D : Type 0) : Type 0 where
  pub accounts : List D
  pub pick_style : AccountPickStyle

pub record AccountUniverse (D : Type 0) : Type 0 where
  pub accounts : List (AccountCurrent D)
  pub pick_style : AccountPickStyle
  pub picker : AccountPicker
  pub ignore_new_accounts : Bool

-- Two accounts of a universe with their indexes; the source holds mutable references to both.
pub record AccountPair (D : Type 0) : Type 0 where
  pub idx_1 : ℕ
  pub idx_2 : ℕ
  pub account_1 : AccountCurrent D
  pub account_2 : AccountCurrent D

pub record AccountPairGen (s : Sampling) : Type 0 where
  pub pair : s.Index × s.Index
  pub reverse : Bool

unfoldable pub set_pick_style :
    {D : Type 0} → AccountPickStyle → AccountUniverseGen D → AccountUniverseGen D
set_pick_style style g = record g { pick_style = style }

module _ (api : AccountApi) where
  open api use {AccountData}

  -- `AccountUniverse::new`
  unfoldable pub new : List AccountData → AccountPickStyle → Bool → AccountUniverse AccountData
  new data_list style ignore = record {
    accounts = map (Account.new api) data_list;
    pick_style = style;
    picker = Picker.new style (length (map (Account.new api) data_list));
    ignore_new_accounts = ignore;
  }

  -- An executor is the list of the account data that was added to it, in order.
  unfoldable pub setup :
      AccountUniverseGen AccountData
      → List AccountData
      → AccountUniverse AccountData × List AccountData
  unfolding new
  setup g executor = (new g.accounts g.pick_style false, executor ++ g.accounts)

  unfoldable pub setup_gas_cost_stability :
      AccountUniverseGen AccountData
      → List AccountData
      → AccountUniverse AccountData × List AccountData
  unfolding new
  setup_gas_cost_stability g executor = (new g.accounts g.pick_style true, executor ++ g.accounts)

  -- A universe that ignores new accounts stays as it is. The picker is not told of the account.
  unfoldable pub add_account :
      AccountData → AccountUniverse AccountData → AccountUniverse AccountData
  add_account d u =
      if u.ignore_new_accounts
      then u
      else record u { accounts = u.accounts ++ Account.new api d ∷ [] }

module _ {D : Type 0} where
  unfoldable pub num_accounts : AccountUniverse D → ℕ
  num_accounts u = length u.accounts

  unfoldable pub reset_picker : AccountUniverse D → AccountUniverse D
  reset_picker u = record u { picker = Picker.new u.pick_style (length u.accounts) }

  -- `universe.pick(index)`: the account's index and the account.
  unfoldable pub pick :
      (s : Sampling)
      → s.Index
      → AccountUniverse D
      → Outcome (ℕ × AccountCurrent D × AccountUniverse D)
  pick s i u = do
    (idx, picker') ← Picker.pick s i u.picker
    account ← unwrap (get_elem? u.accounts idx)
    returns (idx, account, record u { picker = picker' })

  -- `split_at_mut(low_idx + 1)` and the two accesses panic out of bounds, and so does
  -- `high_idx - low_idx - 1` where it is no index.
  unfoldable pub pair_at : Bool → List (AccountCurrent D) → ℕ → ℕ → Outcome (AccountPair D)
  pair_at reverse accounts low_idx high_idx = do
    ensure (ltb low_idx high_idx)
    low ← unwrap (get_elem? accounts low_idx)
    high ← unwrap (get_elem? accounts high_idx)
    returns (
        if reverse
        then record { idx_1 = high_idx; idx_2 = low_idx; account_1 = high; account_2 = low }
        else record { idx_1 = low_idx; idx_2 = high_idx; account_1 = low; account_2 = high })

  -- `AccountPairGen::pick`
  unfoldable pub pick_accounts :
      (s : Sampling)
      → AccountPairGen s
      → AccountUniverse D
      → Outcome (AccountPair D × AccountUniverse D)
  pick_accounts s g u = do
    (low_idx, high_idx, picker') ← Picker.pick_pair s g.pair u.picker
    pair ← pair_at g.reverse u.accounts low_idx high_idx
    returns (pair, record u { picker = picker' })

  -- Writes through the two references.
  unfoldable pub write_pair : AccountPair D → AccountUniverse D → AccountUniverse D
  write_pair p u = record u {
    accounts = set (set u.accounts p.idx_1 p.account_1) p.idx_2 p.account_2;
  }
