-- ===== src/Sui/Checkpoints/Totality.antt =====
-- Panics of the loop that builds checkpoints (`build_checkpoints`).
use test_suites.Prelude.{
  ℕ, ◌≡◌, ◌≢◌, refl, ap, some, List, [], ◌∷◌, ◌++◌, map, All, if◌then◌else◌, if_both, ltb, ◌==◌,
  arith,
}
use test_suites.Prelude.Maps.{Dict, lookup, erase, lookup-erase}
use test_suites.Prelude.Outcome.{returns, ◌>>=◌, >>=-at, unwrap}
use test_suites.Sui.Accounts.Ids.{Distinct}
use test_suites.Sui.Checkpoints.{Builder, build_from, build_checkpoints}

module _ (b : Builder) where
  -- Every transaction has its effects.
  abbrev pub IsKnown : Dict b.Effects → List b.Transaction → Type 0
  IsKnown m = All (λ t. (e : b.Effects) × (lookup (b.digest t) m ≡ some e))

  IsKnown-erase :
      (k : ℕ) (m : Dict b.Effects) (ts : List b.Transaction)
      → All (λ d. k ≢ d) (map b.digest ts)
      → IsKnown m ts
      → IsKnown (erase k m) ts
  IsKnown-erase k m [] ne h = tt
  IsKnown-erase k m (t ∷ ts) (ne, others) ((e, found), h) =
      ((e, ground (arith, lookup-erase k (b.digest t) m)), IsKnown-erase k m ts others h)

  build_from-returns :
      (n : ℕ) (ts : List b.Transaction) (m : Dict b.Effects) (s : b.State)
      → Distinct (map b.digest ts)
      → IsKnown m ts
      → (r : List b.Checkpoint × b.State) × (build_from b n ts m s ≡ returns r)
  unfolding build_from
  build_from-returns n [] m s d known = (([], s), refl)
  build_from-returns n (t ∷ ts) m s (fresh, d) ((e, found), known) =
      let s' = b.push_transaction s t e in
      let left = erase (b.digest t) m in
      let still = IsKnown-erase (b.digest t) m ts fresh known in
      let ((cs, end), full) = build_from-returns n ts left (b.build s').1 d still in
      let (r, more) = build_from-returns n ts left s' d still in
      >>=-at (unwrap (lookup (b.digest t) m)) _ (ap unwrap found) (
        if_both (λ o. (r : List b.Checkpoint × b.State) × (o ≡ returns r)) (b.size s' == n)
          (do
            (checkpoints, end) ← build_from b n ts left (b.build s').1
            returns ((b.build s').0 ∷ checkpoints, end))
          (build_from b n ts left s')
          (λ _.
            >>=-at (build_from b n ts left (b.build s').1) _ full
              (((b.build s').0 ∷ cs, end), refl))
          (λ _. (r, more)))

  -- The building does not panic where the transactions are different and their effects are there.
  pub build_checkpoints-returns :
      (builder : b.State) (ts : List b.Transaction) (m : Dict b.Effects) (n : ℕ)
      → Distinct (map b.digest ts)
      → IsKnown m ts
      → (cs : List b.Checkpoint) × (build_checkpoints b builder ts m n ≡ returns cs)
  unfolding build_checkpoints
  build_checkpoints-returns builder ts m n d known =
      let ((cs, end), ran) = build_from-returns n ts m builder d known in
      >>=-at (build_from b n ts m builder) _ ran
        (if ltb 0 (b.size end) then cs ++ (b.build end).0 ∷ [] else cs, refl)
