-- ===== src/Sui/MoveTx/Land.antt =====
-- The land of every pixel is one that was prepared.
use test_suites.Prelude.{
  ℕ, suc, ◌+◌, ◌%◌, ◌≤◌, ◌<◌, ◌≡◌, refl, subst, ◌∙◌, Bool, true, false, is_empty, some, none, List,
  [], ◌∷◌, length, ◌⊎◌, ◌==◌, arith, inl, inr,
}
use test_suites.Prelude.Maps.{Dict, lookup, insert, lookup-insert}
use test_suites.Prelude.Outcome.{returns, panics, >>=-eq-returns, returns-injective, unwrap}
use test_suites.Sui.Effects.{TransactionEffects, first_shared}
use test_suites.Sui.Preparations.{collect_land_objects}
use test_suites.Sui.MoveTx.{MoveTxGenerator, land_index, land_commands}

-- Exactly the indexes below `n` have a land.
abbrev pub IsLand : ℕ → Dict (ℕ × ℕ) → Type 0
IsLand n land =
    ((i : ℕ) → i < n → (o : ℕ × ℕ) × (lookup i land ≡ some o))
    × ((i : ℕ) → n ≤ i → lookup i land ≡ none)
    × (length land ≡ n)

length-insert :
    {V : Type 0} (k : ℕ) (v : V) (m : Dict V)
    → lookup k m ≡ none
    → length (insert k v m) ≡ suc (length m)
length-insert k v [] h = refl
length-insert k v (e ∷ m) h = ground (arith, length-insert k v m)

IsLand-insert :
    (n : ℕ) (land : Dict (ℕ × ℕ)) (o : ℕ × ℕ) → IsLand n land → IsLand (n + 1) (insert n o land)
IsLand-insert n land o (there, beyond, many) = (
  λ i lt. found i lt (n == i) refl,
  λ i le. ground (arith, lookup-insert n i o land, beyond i (omega arith)),
  length-insert n o land (beyond n (omega arith)) ∙ omega (arith, many),
)
  where
    found :
        (i : ℕ)
        → i < n + 1
        → (b : Bool) → (n == i) ≡ b
        → (p : ℕ × ℕ) × (lookup i (insert n o land) ≡ some p)
    found i lt true same = (o, ground (arith, lookup-insert n i o land, same))
    found i lt false other =
        let below : i < n = ground arith in
        let (p, at) = there i below in (p, ground (arith, lookup-insert n i o land, other, at))

-- Where at most 65,536 lands are prepared, the collected lands are numbered from 0 on.
collect_land_objects-IsLand :
    (results : List TransactionEffects) (i : ℕ) (land : Dict (ℕ × ℕ)) {end : Dict (ℕ × ℕ)}
    → i + length results ≤ 65536
    → IsLand i land
    → collect_land_objects results i land ≡ returns end
    → IsLand (i + length results) end
unfolding collect_land_objects
collect_land_objects-IsLand [] i land {end} room h e =
    subst (λ n. IsLand n end) (omega arith) (subst (IsLand i) (returns-injective e) h)
collect_land_objects-IsLand (r ∷ results) i land {end} room h e =
    let (o, _, e₁) = >>=-eq-returns (unwrap (first_shared r.created)) _ e in
    let more : length results + suc i ≤ 65536 = omega arith in
    elim (last_or_not (length results) i more) [
      | inl here ↦
          let e₂ =
            subst (λ j. collect_land_objects results j (insert i o land) ≡ returns end) here e₁ in
          subst (λ n. IsLand n end) (omega arith)
            (collect_land_objects-IsLand results (i + 1) (insert i o land) (omega arith)
              (IsLand-insert i land o h) e₂)
      | inr (full, none_left) ↦
          subst (λ n. IsLand n end) (omega arith)
            (subst (IsLand (i + 1)) (ended results (insert i o land) ((i + 1) % 65536) none_left e₁)
              (IsLand-insert i land o h))
    ]
  where
    last_or_not :
        (l i : ℕ) → l + suc i ≤ 65536 → ((i + 1) % 65536 ≡ i + 1) ⊎ ((i ≡ 65535) × (l ≡ 0))
    last_or_not l i h = ground arith

    ended :
        (rest : List TransactionEffects) (land : Dict (ℕ × ℕ)) (j : ℕ) {end : Dict (ℕ × ℕ)}
        → length rest ≡ 0
        → collect_land_objects rest j land ≡ returns end
        → land ≡ end
    ended [] land j h e = returns-injective e
    ended (x ∷ rest) land j h e = absurd (omega arith)

no-IsLand : IsLand 0 []
no-IsLand = (λ i lt. absurd (omega arith), λ i le. refl, refl)

all_lands :
    (g : MoveTxGenerator) (results : List TransactionEffects)
    → length results ≤ 65536
    → collect_land_objects results 0 [] ≡ returns g.land_objects
    → IsLand (length results) g.land_objects
all_lands g results room collected =
    subst (λ n. IsLand n g.land_objects) (omega arith)
      (collect_land_objects-IsLand results 0 [] (omega arith) no-IsLand collected)

has_land : (land : Dict (ℕ × ℕ)) → 0 < length land → is_empty land ≡ false
has_land [] h = absurd (omega arith)
has_land (e ∷ m) h = refl

no_index : (len x y : ℕ) → len ≡ 65536 → land_index len x y ≡ panics
unfolding land_index
no_index len x y e = rw e refl

-- With 65,536 lands their number is 0 in 16 bits, and the transaction of every pixel panics.
pub land_panics :
    (g : MoveTxGenerator) (results : List TransactionEffects) (x y : ℕ)
    → length results ≡ 65536
    → collect_land_objects results 0 [] ≡ returns g.land_objects
    → land_commands g x y ≡ panics
unfolding land_commands
land_panics g results x y full collected =
    let (_, _, many) = all_lands g results (omega arith) collected in
    let stuck : land_index (length g.land_objects) x y ≡ panics =
      no_index (length g.land_objects) x y (omega arith) in
    rw (has_land g.land_objects (omega arith)) (rw stuck refl)
