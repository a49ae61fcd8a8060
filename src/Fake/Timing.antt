-- ===== src/Fake/Timing.antt =====
-- `exec_func_record_running_time` (codes/aptos/modified/e2e-tests/src/executor.rs): the arguments
-- of each iteration, the measured times and their median. The function's name is an identifier, and
-- times are microseconds, far below 2^128.
pub mod Sorting
pub mod Median
use Prim.Native.String.{String}
use test_suites.Prelude.{
  ℕ, zero, suc, ◌+◌, ◌-◌, ◌/◌, ◌%◌, ◌≡◌, Bool, true, false, Option, none, some, List, [], ◌∷◌, ◌++◌,
  leb, ◌==◌, if◌then◌else◌, get_elem?, length,
}
use test_suites.Prelude.Outcome.{Outcome, returns, panics, ◌>>=◌, unwrap}
use test_suites.Fake.{Crates, FakeExecutor, new_account_at}

pub data GasMeterType : Type 0 where
  regular_gas_meter : GasMeterType
  unmetered_gas_meter : GasMeterType

-- `ExecFuncTimerDynamicArgs`
pub data DynamicArgs : Type 0 where
  no_args : DynamicArgs
  distinct_signers : DynamicArgs
  distinct_signers_and_fixed : List ℕ → DynamicArgs

-- The random addresses that are drawn, the encoding of an address, and the time that a call of a
-- function takes in its iteration.
pub record Timed (k : Crates) : Type 1 where
  pub random_address : ℕ → ℕ
  pub address_bytes : ℕ → k.Bytes
  pub TypeTag : Type 0
  pub elapsed : k.Store → GasMeterType → k.ModuleId → String → List TypeTag → List k.Bytes → ℕ → ℕ

-- `times.sort()`
unfoldable pub insert_sorted : ℕ → List ℕ → List ℕ
insert_sorted t [] = t ∷ []
insert_sorted t (x ∷ xs) = if leb t x then t ∷ x ∷ xs else x ∷ insert_sorted t xs

unfoldable pub sort : List ℕ → List ℕ
unfolding insert_sorted
sort [] = []
sort (t ∷ ts) = insert_sorted t (sort ts)

-- The median of sorted times; without any, `times[mid]` is out of bounds.
unfoldable pub median : List ℕ → Outcome ℕ
median times = do
  let mid = length times / 2
  middle ← unwrap (get_elem? times mid)
  if (length times % 2) == 0
      then (do below ← unwrap (get_elem? times (mid - 1)); returns ((below + middle) / 2))
      else returns middle

-- `extra_accounts.pop()`: the last element and the rest.
unfoldable pub pop : List ℕ → Outcome (ℕ × List ℕ)
pop [] = panics
pop (x ∷ xs) = elim (pop xs) [
  | returns (last, rest) ↦ returns (last, x ∷ rest)
  | panics ↦ returns (x, [])
]

module _ (k : Crates) (tm : Timed k) where
  open k use {Bytes, ModuleId, Store}

  -- One account for each iteration, where signers are wanted.
  unfoldable pub new_accounts : ℕ → ℕ → FakeExecutor k → List ℕ × FakeExecutor k
  unfolding new_account_at
  new_accounts zero drawn e = ([], e)
  new_accounts (suc n) drawn e =
      let (account, e') = new_account_at k (tm.random_address drawn) e in
      let (addresses, e'') = new_accounts n (drawn + 1) e' in (k.address account ∷ addresses, e'')

  unfoldable pub extra_accounts : DynamicArgs → ℕ → FakeExecutor k → List ℕ × FakeExecutor k
  unfolding new_accounts
  extra_accounts no_args iterations e = ([], e)
  extra_accounts distinct_signers iterations e = new_accounts iterations 0 e
  extra_accounts (distinct_signers_and_fixed signers) iterations e = new_accounts iterations 0 e

  abbrev pub signer_args : List ℕ → List Bytes
  signer_args [] = []
  signer_args (s ∷ ss) = tm.address_bytes s ∷ signer_args ss

  -- The arguments of an iteration: a fresh signer and the fixed ones go before the others.
  unfoldable pub iteration_args : DynamicArgs → List Bytes → List ℕ → Outcome (List Bytes × List ℕ)
  unfolding pop
  iteration_args no_args args extra = returns (args, extra)
  iteration_args distinct_signers args extra = do
    (signer, extra') ← pop extra
    returns (tm.address_bytes signer ∷ args, extra')
  iteration_args (distinct_signers_and_fixed signers) args extra = do
    (signer, extra') ← pop extra
    returns (tm.address_bytes signer ∷ (signer_args signers ++ args), extra')

  -- The loop from iteration `i` on, with the iterations left.
  unfoldable pub measure :
      Store
      → GasMeterType
      → ModuleId
      → String
      → List tm.TypeTag
      → DynamicArgs
      → List Bytes
      → ℕ
      → ℕ
      → List ℕ
      → Outcome (List ℕ)
  unfolding iteration_args
  measure store meter id name types dynamic args zero i extra = returns []
  measure store meter id name types dynamic args (suc left) i extra = do
    (arg, extra') ← iteration_args dynamic args extra
    times ← measure store meter id name types dynamic args left (i + 1) extra'
    returns (tm.elapsed store meter id name types arg i ∷ times)

  unfoldable pub exec_func_record_running_time :
      ModuleId
      → String
      → List tm.TypeTag
      → List Bytes
      → ℕ
      → DynamicArgs
      → GasMeterType
      → FakeExecutor k
      → Outcome (ℕ × FakeExecutor k)
  unfolding extra_accounts measure median sort
  exec_func_record_running_time id name types args iterations dynamic meter e =
      let (extra, e') = extra_accounts dynamic iterations e in
      (do
        times ← measure e'.data_store meter id name types dynamic args iterations 0 extra
        running_time ← median (sort times)
        returns (running_time, e'))
