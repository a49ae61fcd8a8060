-- ===== src/Universe/Picker/History.antt =====
-- Histories of picks: a limited picker hands out every account at most as often as its limit.
use test_suites.Prelude.{
  ℕ, zero, suc, ◌+◌, ◌<◌, ◌≡◌, refl, sym, ap, ◌∙◌, subst, List, [], ◌∷◌, some, arith, ◌==◌, ltb,
  if◌then◌else◌, Option-cases, inl, inr, length, get_elem?, get_elem?-lt, get_elem?-total, All,
}
use test_suites.Prelude.Words.{u64_mod}
use test_suites.Prelude.Outcome.{returns, >>=-eq-returns, returns-injective}
use test_suites.Universe.Picker.{
  Sampling, AccountPickStyle, AccountPicker, budget_from, new, pick_limited, pick, index_in,
  pick_pair, pick_pair_impl, ordered_pair,
}
use test_suites.Universe.Picker.Budget.{
  times_left, IsBudget, Spends, SpendsPair, pick_limited-returns, pick_pair_spends,
}

-- A history of single and paired picks, with the accounts that it returned.
pub data Picks (s : Sampling) : AccountPicker → List ℕ → AccountPicker → Type 0 where
  done : {p : AccountPicker} → Picks s p [] p
  one :
      {p q w : AccountPicker} {a : ℕ} {xs : List ℕ} (i : s.Index)
      → pick s i p ≡ returns (a, q)
      → Picks s q xs w
      → Picks s p (a ∷ xs) w
  two :
      {p q w : AccountPicker} {a b : ℕ} {xs : List ℕ} (i : s.Index × s.Index)
      → pick_pair s i p ≡ returns (a, b, q)
      → Picks s q xs w
      → Picks s p (a ∷ b ∷ xs) w

abbrev pub count : ℕ → List ℕ → ℕ
count c [] = 0
count c (a ∷ xs) = (if a == c then 1 else 0) + count c xs

ordered_pair-returns :
    (l : List ℕ) {i j : ℕ} → ordered_pair l ≡ returns (i, j) → (l ≡ i ∷ j ∷ []) × (i < j)
unfolding ordered_pair
ordered_pair-returns [] h = absurd (cc)
ordered_pair-returns (a ∷ []) h = absurd (cc)
ordered_pair-returns (a ∷ b ∷ []) h = ground arith
ordered_pair-returns (a ∷ b ∷ c ∷ l) h = absurd (cc)

-- `pick_limited` returns only at an entry.
pick_limited-entry :
    (r : List (ℕ × ℕ)) (i : ℕ) {a : ℕ} {r' : List (ℕ × ℕ)}
    → pick_limited r i ≡ returns (a, r')
    → (t : ℕ) × (get_elem? r i ≡ some (a, t))
unfolding pick_limited
pick_limited-entry r i h = elim (Option-cases (get_elem? r i)) [
  | inl missing ↦ absurd (ground arith)
  | inr ((c, t), found) ↦ (t, ground arith)
]

module _ (s : Sampling) (n : ℕ) (r : List (ℕ × ℕ)) (budget : IsBudget 0 n r) where
  pick-returns :
      (i : s.Index) {a : ℕ} {q : AccountPicker}
      → pick s i (AccountPicker.limited r) ≡ returns (a, q)
      → (r' : List (ℕ × ℕ)) × (q ≡ AccountPicker.limited r') × Spends n r r' a
  unfolding pick
  pick-returns i {a} {q} h =
      let (k, _, h₁) = >>=-eq-returns (index_in s i (length r)) _ h in
      let ((c, r'), used, h₂) = >>=-eq-returns (pick_limited r k) _ h₁ in
      let e : (c, AccountPicker.limited r') ≡ (a, q) = returns-injective h₂ in
      (
        r',
        sym (ap (λ p. p.1) e),
        subst (Spends n r r') (ap (λ p. p.0) e) (pick_limited-returns n r k budget used),
      )

  pick_pair-returns :
      (i : s.Index × s.Index) {a b : ℕ} {q : AccountPicker}
      → pick_pair s i (AccountPicker.limited r) ≡ returns (a, b, q)
      → (r' : List (ℕ × ℕ)) × (q ≡ AccountPicker.limited r') × SpendsPair n r r' a b
  unfolding pick_pair pick_pair_impl
  pick_pair-returns i {a} {b} {q} h =
      let ((k, l), indexes, h₁) = >>=-eq-returns (pick_pair_impl s (length r) i) _ h in
      let ((d, r₂), used₂, h₂) = >>=-eq-returns (pick_limited r l) _ h₁ in
      let picked = ordered_pair-returns (s.pick_slice_idxs (length r) i) indexes in
      let (u, at_l) = pick_limited-entry r l used₂ in
      let l_lt = get_elem?-lt r l (d, u) at_l in
      let ((c, t), at_k) = get_elem?-total r k (omega (arith, picked.1)) in
      let (r', run, spends) =
        pick_pair_spends s i n r k l c d t u budget picked.0 picked.1 at_k at_l in
      let e : (c, d, AccountPicker.limited r') ≡ (a, b, q) = returns-injective (sym run ∙ h) in
      (r', sym (ap (λ p. p.2) e), subst (λ p. SpendsPair n r r' p.0 p.1) e spends)

-- What a history leaves of a budget.
record Left (n : ℕ) (r : List (ℕ × ℕ)) (xs : List ℕ) (q : AccountPicker) : Type 0 where
  rest : List (ℕ × ℕ)
  end : q ≡ AccountPicker.limited rest
  spent : (c : ℕ) → times_left c r ≡ times_left c rest + count c xs
  within : All (λ a. a < n) xs

Picks-Left :
    (s : Sampling) (n : ℕ) {p q : AccountPicker} {xs : List ℕ} (r : List (ℕ × ℕ))
    → p ≡ AccountPicker.limited r
    → IsBudget 0 n r
    → Picks s p xs q
    → Left n r xs q
Picks-Left s n r e b done = record { rest = r; end = e; spent = λ c. omega arith; within = tt }
Picks-Left s n r e b (one {q = q} {a = a} i h more) =
    let (r₁, e₁, sp) = pick-returns s n r b i (subst (λ p. pick s i p ≡ returns (a, q)) e h) in
    let later = Picks-Left s n r₁ e₁ sp.budget more in
    record {
      rest = later.rest;
      end = later.end;
      spent = λ c. omega (arith, sp.spent c, later.spent c);
      within = (sp.within, later.within);
    }
Picks-Left s n r e b (two {q = q} {a = x} {b = y} i h more) =
    let (r₁, e₁, sp) =
      pick_pair-returns s n r b i (subst (λ p. pick_pair s i p ≡ returns (x, y, q)) e h) in
    let later = Picks-Left s n r₁ e₁ sp.budget more in
    record {
      rest = later.rest;
      end = later.end;
      spent = λ c. omega (arith, sp.spent c, later.spent c);
      within = (omega (arith, sp.ordered, sp.within), (sp.within, later.within));
    }

budget_from-IsBudget :
    (lo count k : ℕ) → 0 < k → k < u64_mod → IsBudget lo (lo + count) (budget_from lo count k)
unfolding budget_from
budget_from-IsBudget lo zero k p q = tt
budget_from-IsBudget lo (suc c) k p q = (
  omega arith,
  omega arith,
  p,
  q,
  subst (λ m. IsBudget (lo + 1) m (budget_from (lo + 1) c k)) (omega arith)
      (budget_from-IsBudget (lo + 1) c k p q),
)

times_left-budget_from :
    (lo count k a : ℕ)
    → times_left a (budget_from lo count k)
      ≡ (if ltb a lo then 0 else if ltb a (lo + count) then k else 0)
unfolding budget_from
times_left-budget_from lo zero k a = ground arith
times_left-budget_from lo (suc c) k a = ground (arith, times_left-budget_from (lo + 1) c k a)

-- However a limited picker with limit `k` is used, each of its accounts is picked at most `k`
-- times, and what it may still be picked is the rest of the limit; only its accounts are picked.
pub limited-Picks :
    (s : Sampling) (n k : ℕ) {xs : List ℕ} {q : AccountPicker}
    → 0 < k
    → k < u64_mod
    → Picks s (new (AccountPickStyle.limited k) n) xs q
    → (rest : List (ℕ × ℕ)) × (q ≡ AccountPicker.limited rest)
      × ((a : ℕ) → a < n → count a xs + times_left a rest ≡ k)
      × All (λ a. a < n) xs
unfolding new
limited-Picks s n k p q h =
    let fresh =
      subst (λ m. IsBudget 0 m (budget_from 0 n k)) (omega arith)
        (budget_from-IsBudget 0 n k p q) in
    let left = Picks-Left s n (budget_from 0 n k) refl fresh h in
    (
      left.rest,
      left.end,
      (λ a lt. ground (arith, left.spent a, times_left-budget_from 0 n k a)),
      left.within,
    )
