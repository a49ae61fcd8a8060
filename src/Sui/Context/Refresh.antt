-- ===== src/Sui/Context/Refresh.antt =====
-- Every gas object that has a new reference gets it.
use test_suites.Prelude.{
  ℕ, ◌≡◌, ◌≢◌, refl, ap, ◌∙◌, some, none, List, [], ◌∷◌, ◌++◌, map, All, All-left, All-right, arith,
  Option-cases, inl, inr,
}
use test_suites.Prelude.Maps.{Dict, lookup, erase, lookup-erase}
use test_suites.Sui.Accounts.{Account, ObjectRef}
use test_suites.Sui.Accounts.Ids.{Distinct}
use test_suites.Sui.Context.{BenchmarkContext, refresh_refs, refresh_accounts, refresh_gas_objects}

-- The new reference, where there is one.
abbrev pub renewed : Dict ObjectRef → ObjectRef → ObjectRef
renewed new_gas oref = elim (lookup oref.id new_gas) [ none ↦ oref | some new_oref ↦ new_oref ]

abbrev pub ref_ids : List ObjectRef → List ℕ
ref_ids = map (λ r. r.id)

abbrev pub all_ids : Dict Account → List ℕ
all_ids [] = []
all_ids (e ∷ rest) = ref_ids e.1.gas_objects ++ all_ids rest

renewed-erase :
    (k : ℕ) (m : Dict ObjectRef) (refs : List ObjectRef)
    → All (λ x. k ≢ x) (ref_ids refs)
    → map (renewed (erase k m)) refs ≡ map (renewed m) refs
renewed-erase k m [] h = refl
renewed-erase k m (r ∷ refs) (ne, h) =
    let same : lookup r.id (erase k m) ≡ lookup r.id m = ground (arith, lookup-erase k r.id m) in
    ap
      (λ o.
        (elim o as (λ _. ObjectRef) [ none ↦ r | some new_oref ↦ new_oref ])
        ∷ map (renewed (erase k m)) refs)
      same
    ∙ ap (λ l. renewed m r ∷ l) (renewed-erase k m refs h)

refresh_refs-map :
    (refs : List ObjectRef) (m : Dict ObjectRef)
    → Distinct (ref_ids refs)
    → (refresh_refs refs m).0 ≡ map (renewed m) refs
unfolding refresh_refs
refresh_refs-map [] m d = refl
refresh_refs-map (r ∷ refs) m (fresh, d) = elim (Option-cases (lookup r.id m)) [
  | inl missing ↦ ground (arith, missing, refresh_refs-map refs m d)
  | inr (o, found) ↦
      let later = refresh_refs-map refs (erase r.id m) d ∙ renewed-erase r.id m refs fresh in
      ground (arith, found, later)
]

-- Other ids keep their entries.
refresh_refs-left :
    (refs : List ObjectRef) (m : Dict ObjectRef) (k : ℕ)
    → All (λ x. x ≢ k) (ref_ids refs)
    → lookup k (refresh_refs refs m).1 ≡ lookup k m
unfolding refresh_refs
refresh_refs-left [] m k h = refl
refresh_refs-left (r ∷ refs) m k (ne, h) = elim (Option-cases (lookup r.id m)) [
  | inl missing ↦ ground (arith, missing, refresh_refs-left refs m k h)
  | inr (o, found) ↦
      let same : lookup k (erase r.id m) ≡ lookup k m = ground (arith, lookup-erase r.id k m) in
      let later = refresh_refs-left refs (erase r.id m) k h ∙ same in ground (arith, found, later)
]

pub Distinct-left : (xs ys : List ℕ) → Distinct (xs ++ ys) → Distinct xs
Distinct-left [] ys d = tt
Distinct-left (x ∷ xs) ys (h, d) = (All-left (λ z. x ≢ z) xs ys h, Distinct-left xs ys d)

Distinct-right : (xs ys : List ℕ) → Distinct (xs ++ ys) → Distinct ys
Distinct-right [] ys d = d
Distinct-right (x ∷ xs) ys (h, d) = Distinct-right xs ys d

-- No id of the second list is one of the first.
pub Distinct-apart : (xs ys : List ℕ) → Distinct (xs ++ ys) → All (λ y. All (λ x. x ≢ y) xs) ys
Distinct-apart [] ys d = each ys
  where
    each : (ys : List ℕ) → All (λ y. All (λ x. x ≢ y) []) ys
    each [] = tt
    each (y ∷ ys) = (tt, each ys)
Distinct-apart (x ∷ xs) ys (h, d) =
    both ys (All-right (λ z. x ≢ z) xs ys h) (Distinct-apart xs ys d)
  where
    both :
        (ys : List ℕ)
        → All (λ y. x ≢ y) ys
        → All (λ y. All (λ z. z ≢ y) xs) ys
        → All (λ y. All (λ z. z ≢ y) (x ∷ xs)) ys
    both [] p q = tt
    both (y ∷ ys) (p, ps) (q, qs) = ((p, q), both ys ps qs)

-- The accounts with all their references renewed.
abbrev pub renewed_accounts : Dict ObjectRef → Dict Account → Dict Account
renewed_accounts m [] = []
renewed_accounts m ((address, account) ∷ rest) =
    (address, record account { gas_objects = map (renewed m) account.gas_objects })
    ∷ renewed_accounts m rest

renewed-left :
    (refs : List ObjectRef) (m : Dict ObjectRef) (others : List ObjectRef)
    → All (λ y. All (λ x. x ≢ y) (ref_ids refs)) (ref_ids others)
    → map (renewed (refresh_refs refs m).1) others ≡ map (renewed m) others
renewed-left refs m [] h = refl
renewed-left refs m (r ∷ others) (p, h) =
    ap
      (λ o.
        (elim o as (λ _. ObjectRef) [ none ↦ r | some new_oref ↦ new_oref ])
        ∷ map (renewed (refresh_refs refs m).1) others)
      (refresh_refs-left refs m r.id p)
    ∙ ap (λ l. renewed m r ∷ l) (renewed-left refs m others h)

renewed_accounts-left :
    (refs : List ObjectRef) (m : Dict ObjectRef) (rest : Dict Account)
    → All (λ y. All (λ x. x ≢ y) (ref_ids refs)) (all_ids rest)
    → renewed_accounts (refresh_refs refs m).1 rest ≡ renewed_accounts m rest
renewed_accounts-left refs m [] h = refl
renewed_accounts-left refs m ((address, account) ∷ rest) h =
    let P : ℕ → Type 0 = λ y. All (λ x. x ≢ y) (ref_ids refs) in
    let mine = ref_ids account.gas_objects in
    ap
      (λ l.
        (address, record account { gas_objects = l })
        ∷ renewed_accounts (refresh_refs refs m).1 rest)
      (renewed-left refs m account.gas_objects (All-left P mine (all_ids rest) h))
    ∙ ap (λ l. (address, record account { gas_objects = map (renewed m) account.gas_objects }) ∷ l)
        (renewed_accounts-left refs m rest (All-right P mine (all_ids rest) h))

refresh_accounts-renewed :
    (accounts : Dict Account) (m : Dict ObjectRef)
    → Distinct (all_ids accounts)
    → refresh_accounts accounts m ≡ renewed_accounts m accounts
unfolding refresh_accounts
refresh_accounts-renewed [] m d = refl
refresh_accounts-renewed ((address, account) ∷ rest) m d =
    let mine = ref_ids account.gas_objects in
    let refs = account.gas_objects in
    ap
      (λ l.
        (address, record account { gas_objects = l })
        ∷ refresh_accounts rest (refresh_refs refs m).1)
      (refresh_refs-map refs m (Distinct-left mine (all_ids rest) d))
    ∙ ap (λ l. (address, record account { gas_objects = map (renewed m) refs }) ∷ l)
        (refresh_accounts-renewed rest (refresh_refs refs m).1
            (Distinct-right mine (all_ids rest) d)
          ∙ renewed_accounts-left refs m rest (Distinct-apart mine (all_ids rest) d))

-- Where no gas object is held twice, a refresh gives every user's gas object the new reference of
-- its id, leaves those without one as they are, and changes nothing else of the accounts.
pub refresh_renews :
    (ctx : BenchmarkContext) (new_gas : Dict ObjectRef)
    → Distinct (all_ids ctx.user_accounts)
    → refresh_gas_objects ctx new_gas
      ≡ record ctx { user_accounts = renewed_accounts new_gas ctx.user_accounts }
unfolding refresh_gas_objects
refresh_renews ctx new_gas d =
    ap (λ a. record ctx { user_accounts = a })
      (refresh_accounts-renewed ctx.user_accounts new_gas d)
