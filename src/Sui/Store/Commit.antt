-- ===== src/Sui/Store/Commit.antt =====
-- The store after a commit.
use test_suites.Prelude.{
  ℕ, ◌≡◌, refl, Bool, true, false, some, none, List, [], ◌∷◌, ◌==◌, if◌then◌else◌, arith,
  Option-cases, inl, inr,
}
use test_suites.Prelude.Maps.{Dict, lookup, insert, erase, lookup-insert, lookup-erase}
use test_suites.Sui.Store.{
  ObjectApi, InnerTemporaryStore, InMemoryObjectStore, remove_unwritten, insert_written,
  commit_objects,
}

-- No key twice.
abbrev pub Unique : {V : Type 0} → Dict V → Type 0
Unique [] = Unit
Unique (e ∷ m) = (lookup e.0 m ≡ none) × Unique m

abbrev pub member : ℕ → List ℕ → Bool
member j [] = false
member j (i ∷ is) = if i == j then true else member j is

module _ (api : ObjectApi) where
  open api use {Object}

  lookup-insert_written :
      (written objects : Dict Object) (j : ℕ)
      → Unique written
      → lookup j (insert_written api written objects)
        ≡ (elim (lookup j written) [ none ↦ lookup j objects | some o ↦ some o ])
  unfolding insert_written
  lookup-insert_written [] objects j u = refl
  lookup-insert_written (e ∷ m) objects j (fresh, u) = ground (
    arith,
    fresh,
    lookup-insert_written m (insert e.0 e.1 objects) j u,
    lookup-insert e.0 j e.1 objects,
  )

  lookup-remove_unwritten :
      (written objects : Dict Object) (inputs : List ℕ) (j : ℕ)
      → lookup j written ≡ none
      → lookup j (remove_unwritten api written inputs objects)
        ≡ (if member j inputs then none else lookup j objects)
  unfolding remove_unwritten
  lookup-remove_unwritten written objects [] j h = refl
  lookup-remove_unwritten written objects (i ∷ is) j h = ground (
    arith,
    h,
    lookup-remove_unwritten written objects is j h,
    lookup-remove_unwritten written (erase i objects) is j h,
    lookup-erase i j objects,
  )

  -- After a commit an object is the one that was written, where one was; an input that was not
  -- written is gone, and every other object is as before.
  pub lookup-commit_objects :
      (store : InMemoryObjectStore api) (temp : InnerTemporaryStore Object) (j : ℕ)
      → Unique temp.written
      → lookup j (commit_objects api store temp).objects ≡ (elim (lookup j temp.written) [
        | none ↦ if member j temp.mutable_inputs then none else lookup j store.objects
        | some o ↦ some o
      ])
  unfolding commit_objects
  lookup-commit_objects store temp j u =
      let kept = remove_unwritten api temp.written temp.mutable_inputs store.objects in
      elim (Option-cases (lookup j temp.written)) [
        | inl unwritten ↦ ground (
          arith,
          unwritten,
          lookup-insert_written temp.written kept j u,
          lookup-remove_unwritten temp.written store.objects temp.mutable_inputs j unwritten,
        )
        | inr (o, found) ↦ ground (arith, found, lookup-insert_written temp.written kept j u)
      ]
