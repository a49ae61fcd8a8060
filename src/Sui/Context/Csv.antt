-- ===== src/Sui/Context/Csv.antt =====
-- The numbers in the calls of `generate_erc20_tx_from_csv`.
use test_suites.Prelude.{
  ℕ, suc, ◌+◌, ◌<◌, ◌≤◌, ◌≡◌, refl, ap, subst, ◌∙◌, Bool, true, false, Option, some, none, List, [],
  ◌∷◌, length, ◌==◌, if◌then◌else◌, arith,
}
use test_suites.Prelude.Words.{add64, u64_mod, add64_exact}
use test_suites.Prelude.Maps.{Dict, lookup, insert, lookup-insert}
use test_suites.Prelude.Outcome.{
  returns, >>=-eq-returns, returns-injective, unwrap, unwrap-eq-returns,
}
use test_suites.Sui.Context.{
  BenchmarkContext, Call, obj_index, erc20_calls, generate_erc20_tx_from_csv,
}

-- The number of records from an index.
abbrev pub count_from : ℕ → List (ℕ × ℕ) → ℕ
count_from k [] = 0
count_from k (r ∷ rest) = if r.0 == k then suc (count_from k rest) else count_from k rest

-- A call goes from the account of its record's first index to the address of its second one.
abbrev pub IsCallOf : BenchmarkContext → ℕ × ℕ → Call → Type 0
IsCallOf ctx r c =
    ((address : ℕ) × (lookup r.0 ctx.account_indexes ≡ some address)
      × (lookup address ctx.user_accounts ≡ some c.from))
    × (lookup r.1 ctx.account_indexes ≡ some c.to)

-- A call for each record, which has as its `obj_index` how many of the records before it, those in
-- `before` included, are from the same index.
abbrev pub IsNumbered : BenchmarkContext → List (ℕ × ℕ) → List (ℕ × ℕ) → List Call → Type 0
IsNumbered ctx before [] [] = Unit
IsNumbered ctx before [] (c ∷ calls) = ⊥
IsNumbered ctx before (r ∷ records) [] = ⊥
IsNumbered ctx before (r ∷ records) (c ∷ calls) =
    (c.args ≡ (obj_index, count_from r.0 before) ∷ [])
    × IsCallOf ctx r c
    × IsNumbered ctx (r ∷ before) records calls

abbrev tally : Option ℕ → ℕ
tally none = 0
tally (some n) = n

count_from-le : (k : ℕ) (records : List (ℕ × ℕ)) → count_from k records ≤ length records
count_from-le k [] = omega arith
count_from-le k (r ∷ records) = ground (arith, count_from-le k records)

tally-counted :
    (r : ℕ × ℕ) (before : List (ℕ × ℕ)) (k n : ℕ) (o : Option ℕ)
    → n ≡ suc (count_from r.0 before)
    → tally o ≡ count_from k before
    → tally (if r.0 == k then some n else o) ≡ count_from k (r ∷ before)
tally-counted r before k n o added counted = by_key (r.0 == k) refl
  where
    by_key :
        (b : Bool)
        → (r.0 == k) ≡ b
        → tally (if b then some n else o)
          ≡ (if b then suc (count_from k before) else count_from k before)
    by_key true same =
        let equal : r.0 ≡ k = ground (arith, same) in
        added ∙ ap (λ j. suc (count_from j before)) equal
    by_key false other = counted

erc20_calls-IsNumbered :
    (ctx : BenchmarkContext) (records before : List (ℕ × ℕ)) (m : Dict ℕ) {calls : List Call}
    → length before + length records < u64_mod
    → ((k : ℕ) → tally (lookup k m) ≡ count_from k before)
    → erc20_calls ctx records m ≡ returns calls
    → IsNumbered ctx before records calls
unfolding erc20_calls
erc20_calls-IsNumbered ctx [] before m room counted done =
    subst (IsNumbered ctx before []) (returns-injective done) tt
erc20_calls-IsNumbered ctx (r ∷ records) before m room counted done =
    let (from_addr, at, done₁) = >>=-eq-returns (unwrap (lookup r.0 ctx.account_indexes)) _ done in
    let (from, is_user, done₂) =
      >>=-eq-returns (unwrap (lookup from_addr ctx.user_accounts)) _ done₁ in
    let (to, at_to, done₃) = >>=-eq-returns (unwrap (lookup r.1 ctx.account_indexes)) _ done₂ in
    let index = tally (lookup r.0 m) in
    let (calls, later, done₄) =
      >>=-eq-returns (erc20_calls ctx records (insert r.0 (add64 index 1) m)) _ done₃ in
    let is_call : IsCallOf ctx r (record { from = from; to = to; args = []; objects = [] }) = (
      (
        from_addr,
        unwrap-eq-returns (lookup r.0 ctx.account_indexes) at,
        unwrap-eq-returns (lookup from_addr ctx.user_accounts) is_user,
      ),
      unwrap-eq-returns (lookup r.1 ctx.account_indexes) at_to,
    ) in
    subst (IsNumbered ctx before (r ∷ records)) (returns-injective done₄) (
      ap (λ n. (obj_index, n) ∷ []) (counted r.0),
      is_call,
      erc20_calls-IsNumbered ctx records (r ∷ before) (insert r.0 (add64 index 1) m) (omega arith)
          (one_more r before m (counted r.0) counted (omega arith)) later,
    )
  where
    one_more :
        (r : ℕ × ℕ) (before : List (ℕ × ℕ)) (m : Dict ℕ)
        → tally (lookup r.0 m) ≡ count_from r.0 before
        → ((k : ℕ) → tally (lookup k m) ≡ count_from k before)
        → length before + 1 < u64_mod
        → (k : ℕ)
        → tally (lookup k (insert r.0 (add64 (tally (lookup r.0 m)) 1) m))
          ≡ count_from k (r ∷ before)
    one_more r before m here counted room k =
        let le = count_from-le r.0 before in
        let added : add64 (tally (lookup r.0 m)) 1 ≡ suc (count_from r.0 before) =
          add64_exact (tally (lookup r.0 m)) 1 (omega arith) ∙ omega arith in
        ap tally (lookup-insert r.0 k (add64 (tally (lookup r.0 m)) 1) m)
        ∙ tally-counted r before k (add64 (tally (lookup r.0 m)) 1) (lookup k m) added (counted k)

-- Where fewer records than a 64-bit word counts are read and their transactions are generated,
-- there is one for each record, in order, from the account of its first index to the address of
-- its second one; its `obj_index`, which chooses the gas object and the coin, is the number of
-- records before it with the same first index.
pub generate_erc20-IsNumbered :
    (ctx : BenchmarkContext) (records : List (ℕ × ℕ)) {calls : List Call}
    → length records < u64_mod
    → generate_erc20_tx_from_csv ctx records ≡ returns calls
    → IsNumbered ctx [] records calls
unfolding generate_erc20_tx_from_csv
generate_erc20-IsNumbered ctx records room done =
    erc20_calls-IsNumbered ctx records [] [] (omega arith) (λ k. refl) done
