-- ===== src/Universe/Picker/Budget.antt =====
-- The budget of a limited picker: what each pick uses up, and what a history of picks can use.
use test_suites.Prelude.{
  ℕ, sym, ◌∙◌, subst, zero, suc, ◌+◌, ◌-◌, ◌≤◌, ◌<◌, ◌≡◌, refl, List, [], ◌∷◌, none, some, arith,
  ◌==◌, if◌then◌else◌, Option-cases, Bool-cases, inl, inr, length, get_elem?, get_elem?-set_ne,
  lt→ltb, set, remove_at,
}
use test_suites.Prelude.Words.{u64_mod, sub64}
use test_suites.Prelude.Outcome.{returns, panics, returns-injective}
use test_suites.Universe.Picker.{Sampling, AccountPicker, pick_limited, pick_pair, pick_pair_impl}

-- The times that an account may still be picked.
abbrev pub times_left : ℕ → List (ℕ × ℕ) → ℕ
times_left a [] = 0
times_left a (e ∷ rest) = (if e.0 == a then e.1 else 0) + times_left a rest

-- Accounts from `lo` below `n` in rising order, each with some picks left.
abbrev pub IsBudget : ℕ → ℕ → List (ℕ × ℕ) → Type 0
IsBudget lo n [] = Unit
IsBudget lo n (e ∷ rest) =
    (lo ≤ e.0) × (e.0 < n) × (0 < e.1) × (e.1 < u64_mod) × IsBudget (e.0 + 1) n rest

pub IsBudget-mono : (lo hi n : ℕ) (r : List (ℕ × ℕ)) → lo ≤ hi → IsBudget hi n r → IsBudget lo n r
IsBudget-mono lo hi n [] h b = tt
IsBudget-mono lo hi n (e ∷ r) h b = (omega arith, b.1, b.2, b.3, b.4)

pub IsBudget-get_elem? :
    (lo n : ℕ) (r : List (ℕ × ℕ)) (i a t : ℕ)
    → IsBudget lo n r
    → get_elem? r i ≡ some (a, t)
    → (lo ≤ a) × (a < n) × (0 < t) × (t < u64_mod)
IsBudget-get_elem? lo n [] i a t b e = absurd (cc)
IsBudget-get_elem? lo n (x ∷ r) zero a t b e = ground arith
IsBudget-get_elem? lo n (x ∷ r) (suc i) a t b e =
    omega (arith, IsBudget-get_elem? (x.0 + 1) n r i a t b.4 e)

IsBudget-set :
    (lo n : ℕ) (r : List (ℕ × ℕ)) (i a t t' : ℕ)
    → IsBudget lo n r
    → get_elem? r i ≡ some (a, t)
    → 0 < t'
    → t' < u64_mod
    → IsBudget lo n (set r i (a, t'))
IsBudget-set lo n [] i a t t' b e p q = tt
IsBudget-set lo n (x ∷ r) zero a t t' b e p q = ground arith
IsBudget-set lo n (x ∷ r) (suc i) a t t' b e p q =
    (b.0, b.1, b.2, b.3, IsBudget-set (x.0 + 1) n r i a t t' b.4 e p q)

IsBudget-remove_at :
    (lo n : ℕ) (r : List (ℕ × ℕ)) (i : ℕ) → IsBudget lo n r → IsBudget lo n (remove_at r i)
IsBudget-remove_at lo n [] i b = tt
IsBudget-remove_at lo n (x ∷ r) zero b = IsBudget-mono lo (x.0 + 1) n r (omega arith) b.4
IsBudget-remove_at lo n (x ∷ r) (suc i) b =
    (b.0, b.1, b.2, b.3, IsBudget-remove_at (x.0 + 1) n r i b.4)

times_left-set :
    (r : List (ℕ × ℕ)) (i a t t' c : ℕ)
    → get_elem? r i ≡ some (a, t)
    → times_left c (set r i (a, t')) + (if a == c then t else 0)
      ≡ times_left c r + (if a == c then t' else 0)
times_left-set [] i a t t' c e = absurd (cc)
times_left-set (x ∷ r) zero a t t' c e = ground arith
times_left-set (x ∷ r) (suc i) a t t' c e = omega (arith, times_left-set r i a t t' c e)

times_left-remove_at :
    (r : List (ℕ × ℕ)) (i a t c : ℕ)
    → get_elem? r i ≡ some (a, t)
    → times_left c (remove_at r i) + (if a == c then t else 0) ≡ times_left c r
times_left-remove_at [] i a t c e = absurd (cc)
times_left-remove_at (x ∷ r) zero a t c e = ground arith
times_left-remove_at (x ∷ r) (suc i) a t c e = omega (arith, times_left-remove_at r i a t c e)

-- What one use of an entry leaves.
pub record Spends (n : ℕ) (r r' : List (ℕ × ℕ)) (a : ℕ) : Type 0 where
  pub within : a < n
  pub budget : IsBudget 0 n r'
  pub spent : (c : ℕ) → times_left c r ≡ times_left c r' + (if a == c then 1 else 0)

-- The entry found decides what `pick_limited` returns.
pub pick_limited_lem :
    (r : List (ℕ × ℕ)) (i a t : ℕ)
    → get_elem? r i ≡ some (a, t)
    → 0 < t
    → t < u64_mod
    → pick_limited r i ≡ returns (a, (if t == 1 then remove_at r i else set r i (a, t - 1)))
unfolding pick_limited sub64
pick_limited_lem r i a t e p q = ground arith

pick_limited_missing : (r : List (ℕ × ℕ)) (i : ℕ) → get_elem? r i ≡ none → pick_limited r i ≡ panics
unfolding pick_limited
pick_limited_missing r i e = ground arith

pub pick_limited-Spends :
    (n : ℕ) (r : List (ℕ × ℕ)) (i a t : ℕ)
    → IsBudget 0 n r
    → get_elem? r i ≡ some (a, t)
    → Spends n r (if t == 1 then remove_at r i else set r i (a, t - 1)) a
pick_limited-Spends n r i a t b e =
    let (lo, hi, pos, word) = IsBudget-get_elem? 0 n r i a t b e in
    elim (Bool-cases (t == 1)) [
      | inl last ↦ rw last (record {
        within = hi;
        budget = IsBudget-remove_at 0 n r i b;
        spent = λ c. ground (arith, times_left-remove_at r i a t c e);
      })
      | inr more ↦ rw more (record {
        within = hi;
        budget = IsBudget-set 0 n r i a t (t - 1) b e (ground arith) (ground arith);
        spent = λ c. ground (arith, times_left-set r i a t (t - 1) c e);
      })
    ]

-- Every successful use of an entry of a budget spends one of its picks.
pub pick_limited-returns :
    (n : ℕ) (r : List (ℕ × ℕ)) (i : ℕ) {a : ℕ} {r' : List (ℕ × ℕ)}
    → IsBudget 0 n r
    → pick_limited r i ≡ returns (a, r')
    → Spends n r r' a
pick_limited-returns n r i {a} {r'} b e = elim (Option-cases (get_elem? r i)) [
  | inl missing ↦ cc (pick_limited_missing r i missing)
  | inr ((c, t), found) ↦
      let (lo, hi, pos, word) = IsBudget-get_elem? 0 n r i c t b found in
      subst (λ p. Spends n r p.1 p.0)
        (returns-injective (sym (pick_limited_lem r i c t found pos word) ∙ e))
        (pick_limited-Spends n r i c t b found)
]

-- Where the indexes are in order, the pair that a budget yields consists of the accounts that
-- stood at the two indexes before either was used, in rising order, and one pick of each is spent.
pub record SpendsPair (n : ℕ) (r r' : List (ℕ × ℕ)) (a b : ℕ) : Type 0 where
  pub ordered : a < b
  pub within : b < n
  pub budget : IsBudget 0 n r'
  pub spent :
      (c : ℕ)
      → times_left c r ≡ times_left c r' + (if a == c then 1 else 0) + (if b == c then 1 else 0)

-- Accounts rise with their position.
IsBudget-ordered :
    (lo n : ℕ) (r : List (ℕ × ℕ)) (i j a b t u : ℕ)
    → IsBudget lo n r
    → i < j
    → get_elem? r i ≡ some (a, t)
    → get_elem? r j ≡ some (b, u)
    → a < b
IsBudget-ordered lo n [] i j a b t u h lt e f = absurd (cc)
IsBudget-ordered lo n (x ∷ r) zero zero a b t u h lt e f = absurd (omega arith)
IsBudget-ordered lo n (x ∷ r) zero (suc j) a b t u h lt e f =
    ground (arith, IsBudget-get_elem? (x.0 + 1) n r j b u h.4 f)
IsBudget-ordered lo n (x ∷ r) (suc i) zero a b t u h lt e f = absurd (omega arith)
IsBudget-ordered lo n (x ∷ r) (suc i) (suc j) a b t u h lt e f =
    IsBudget-ordered (x.0 + 1) n r i j a b t u h.4 (omega arith) e f

-- Using a later entry leaves the earlier ones where they are.
get_elem?-remove_at :
    (r : List (ℕ × ℕ)) (i j : ℕ) → i < j → get_elem? (remove_at r j) i ≡ get_elem? r i
get_elem?-remove_at [] i j h = refl
get_elem?-remove_at (x ∷ r) i zero h = absurd (omega arith)
get_elem?-remove_at (x ∷ r) zero (suc j) h = refl
get_elem?-remove_at (x ∷ r) (suc i) (suc j) h = get_elem?-remove_at r i j (omega arith)

-- The entries after one use of the entry `(a, t)` at index `i`.
abbrev after_use : List (ℕ × ℕ) → ℕ → ℕ → ℕ → List (ℕ × ℕ)
after_use r i a t = if t == 1 then remove_at r i else set r i (a, t - 1)

get_elem?-after_use :
    (r : List (ℕ × ℕ)) (i j b u : ℕ) → i < j → get_elem? (after_use r j b u) i ≡ get_elem? r i
get_elem?-after_use r i j b u h =
    ground (arith, get_elem?-remove_at r i j h, get_elem?-set_ne r j i (b, u - 1) (omega arith))

module _ (s : Sampling) (indexes : s.Index × s.Index) (n : ℕ) (r : List (ℕ × ℕ)) where
  -- If the helper picks the positions `i` and `j` in rising order and both hold accounts, a limited
  -- picker returns exactly those two accounts, the earlier one first, and spends one pick of each.
  pub pick_pair_spends :
      (i j a b t u : ℕ)
      → IsBudget 0 n r
      → s.pick_slice_idxs (length r) indexes ≡ i ∷ j ∷ []
      → i < j
      → get_elem? r i ≡ some (a, t)
      → get_elem? r j ≡ some (b, u)
      → (r' : List (ℕ × ℕ)) × (pick_pair s indexes (AccountPicker.limited r)
          ≡ returns (a, b, AccountPicker.limited r'))
        × SpendsPair n r r' a b
  unfolding pick_pair pick_pair_impl
  pick_pair_spends i j a b t u h picked lt ei ej =
      let (lo, hi, pos, word) = IsBudget-get_elem? 0 n r i a t h ei in
      let (lo', hi', pos', word') = IsBudget-get_elem? 0 n r j b u h ej in
      let later = pick_limited-Spends n r j b u h ej in
      let same = get_elem?-after_use r i j b u lt ∙ ei in
      let earlier = pick_limited-Spends n (after_use r j b u) i a t later.budget same in
      (
        after_use (after_use r j b u) i a t,
        rw
            (
              picked,
              lt→ltb i j lt,
              pick_limited_lem r j b u ej pos' word',
              pick_limited_lem (after_use r j b u) i a t same pos word,
            )
            refl,
        record {
          ordered = IsBudget-ordered 0 n r i j a b t u h lt ei ej;
          within = hi';
          budget = earlier.budget;
          spent = λ c. omega (arith, later.spent c, earlier.spent c);
        },
      )
