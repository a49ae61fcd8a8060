-- ===== src/Sui/Store/Reads.antt =====
-- What a read for execution returns.
use test_suites.Prelude.{
  ℕ, ◌≡◌, refl, sym, ap, subst, ◌∙◌, Option, some, none, List, [], ◌∷◌, arith, map, All,
}
use test_suites.Prelude.Maps.{Dict, lookup}
use test_suites.Prelude.Attempt.{Attempt, ok, err, panicked, ◌>>=◌, >>=-eq-ok, ok-injective}
use test_suites.Sui.Store.{
  ObjectApi, InputObjectKind, move_package, imm_or_owned_move_object, shared_move_object,
  InMemoryObjectStore, read_object, read_objects_for_execution, collect_locks, at_version,
  get_object_by_key,
}

module _ (api : ObjectApi) where
  open api use {Object, SuiError}

  -- The object in the store, at the version asked for; of a package nothing is said.
  abbrev pub IsCurrent :
      Dict Object → Attempt SuiError (List (ℕ × ℕ)) → InputObjectKind × Object → Type 0
  IsCurrent objects locks (move_package id, o) = Unit
  IsCurrent objects locks (imm_or_owned_move_object id v, o) =
      (lookup id objects ≡ some o) × (api.version o ≡ v)
  IsCurrent objects locks (shared_move_object id, o) =
      (pairs : List (ℕ × ℕ)) × (locks ≡ ok pairs)
      × (lookup id objects ≡ some o)
      × (lookup id (collect_locks api [] pairs) ≡ some (api.version o))

  at_version-eq :
      (v : ℕ) (found : Option Object) {o : Object}
      → at_version api v found ≡ some o
      → (found ≡ some o) × (api.version o ≡ v)
  unfolding at_version
  at_version-eq v none h = absurd (cc)
  at_version-eq v (some x) h = ground arith

  read_object-IsCurrent :
      (locks : Attempt SuiError (List (ℕ × ℕ))) (store : InMemoryObjectStore api)
      (kind : InputObjectKind) (o : Object) (store' : InMemoryObjectStore api)
      → read_object api locks store kind ≡ (ok (some o), store')
      → IsCurrent store.objects locks (kind, o) × (store'.objects ≡ store.objects)
  unfolding read_object
  read_object-IsCurrent locks store (move_package id) o store' h =
      (tt, sym (ap (λ r. r.1.objects) h))
  read_object-IsCurrent locks store (imm_or_owned_move_object id v) o store' h = (
    at_version-eq v (lookup id store.objects) (ok-injective (ap (λ r. r.0) h)),
    sym (ap (λ r. r.1.objects) h),
  )
  read_object-IsCurrent (err e) store (shared_move_object id) o store' h = absurd (cc)
  read_object-IsCurrent panicked store (shared_move_object id) o store' h = absurd (cc)
  read_object-IsCurrent (ok pairs) store (shared_move_object id) o store' h =
      with_lock (lookup id (collect_locks api [] pairs)) refl h
    where
      with_lock :
          (lock : Option ℕ)
          → lookup id (collect_locks api [] pairs) ≡ lock
          → (elim lock as (λ _. Attempt SuiError (Option Object) × InMemoryObjectStore api) [
            | none ↦ (panicked, store)
            | some v ↦ let (found, after) = get_object_by_key api store id v in (ok found, after)
          ])
            ≡ (ok (some o), store')
          → IsCurrent store.objects (ok pairs) (shared_move_object id, o)
            × (store'.objects ≡ store.objects)
      with_lock none at e = absurd (cc)
      with_lock (some v) at e =
          let (found, version) =
            at_version-eq v (lookup id store.objects) (ok-injective (ap (λ r. r.0) e)) in
          ((pairs, refl, found, at ∙ ap some (sym version)), sym (ap (λ r. r.1.objects) e))

  -- A read for execution that succeeds returns one object for each input, in order: an owned or
  -- immutable input as it is in the store, at the version asked for, a shared one at the version
  -- of its lock. It changes no object.
  pub read_objects-IsCurrent :
      (locks : Attempt SuiError (List (ℕ × ℕ))) (store : InMemoryObjectStore api)
      (kinds : List InputObjectKind) {results : List (InputObjectKind × Object)}
      {store' : InMemoryObjectStore api}
      → read_objects_for_execution api locks store kinds ≡ (ok results, store')
      → (map (λ r. r.0) results ≡ kinds)
        × All (IsCurrent store.objects locks) results
        × (store'.objects ≡ store.objects)
  unfolding read_objects_for_execution
  read_objects-IsCurrent locks store [] {results} {store'} h =
      let none_read : results ≡ [] = sym (ok-injective (ap (λ r. r.0) h)) in
      subst
        (λ l.
          (map (λ r. r.0) l ≡ [])
          × All (IsCurrent store.objects locks) l
          × (store'.objects ≡ store.objects))
        (sym none_read) (refl, tt, sym (ap (λ r. r.1.objects) h))
  read_objects-IsCurrent locks store (kind ∷ kinds) {results} {store'} h =
      by_found (read_object api locks store kind).0 (read_object api locks store kind).1 refl
        (λ s rest end. read_objects-IsCurrent locks s kinds {results = rest} {store' = end}) h
    where
      by_found :
          (found : Attempt SuiError (Option Object)) (later : InMemoryObjectStore api)
          → read_object api locks store kind ≡ (found, later)
          → ((s : InMemoryObjectStore api) (rest : List (InputObjectKind × Object))
                (end : InMemoryObjectStore api)
              → read_objects_for_execution api locks s kinds ≡ (ok rest, end)
              → (map (λ r. r.0) rest ≡ kinds)
                × All (IsCurrent s.objects locks) rest
                × (end.objects ≡ s.objects))
          → (let (rest, end) = read_objects_for_execution api locks later kinds in
              elim found
                as (λ _.
                  Attempt SuiError (List (InputObjectKind × Object)) × InMemoryObjectStore api) [
                    | ok (some o) ↦ (rest >>= λ objects. ok ((kind, o) ∷ objects), end)
                    | ok none ↦ (err (api.object_not_found_error kind), later)
                    | err e ↦ (err e, later)
                    | panicked ↦ (panicked, later)
                  ])
            ≡ (ok results, store')
          → (map (λ r. r.0) results ≡ kind ∷ kinds)
            × All (IsCurrent store.objects locks) results
            × (store'.objects ≡ store.objects)
      by_found (ok none) later read ih e = absurd (cc)
      by_found (err x) later read ih e = absurd (cc)
      by_found panicked later read ih e = absurd (cc)
      by_found (ok (some o)) later read ih e =
          let (now, kept) = read_object-IsCurrent locks store kind o later read in
          let all = read_objects_for_execution api locks later kinds in
          let (rest, from, end) = >>=-eq-ok all.0 _ (ap (λ r. r.0) e) in
          let (ordered, currents, unchanged) = ih later rest all.1 (ap (λ a. (a, all.1)) from) in
          let results_are : (kind, o) ∷ rest ≡ results = ok-injective end in
          subst
            (λ l.
              (map (λ r. r.0) l ≡ kind ∷ kinds)
              × All (IsCurrent store.objects locks) l
              × (store'.objects ≡ store.objects))
            results_are
            (
              ap (λ l. kind ∷ l) ordered,
              (now, subst (λ objects. All (IsCurrent objects locks) rest) kept currents),
              ap (λ r. r.1.objects) (sym e) ∙ unchanged ∙ kept,
            )
