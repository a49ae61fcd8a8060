-- ===== src/Sui/Store.antt =====
-- `InMemoryObjectStore` (codes/sui/modified/sui-single-node-benchmark/src/mock_storage.rs). Object
-- ids are numbers; the objects and the package cache belong to other crates.
pub mod Commit
pub mod Reads
use test_suites.Prelude.{
  ℕ, ◌+◌, ◌≡◌, Bool, true, false, Option, some, none, List, [], ◌∷◌, ◌==◌, leb, if◌then◌else◌,
}
use test_suites.Prelude.Words.{add64}
use test_suites.Prelude.Maps.{Dict, lookup, insert, erase, contains_key}
use test_suites.Prelude.Attempt.{Attempt, ok, err, panicked, ◌>>=◌}

pub data InputObjectKind : Type 0 where
  move_package : ℕ → InputObjectKind
  imm_or_owned_move_object : ℕ → ℕ → InputObjectKind
  shared_move_object : ℕ → InputObjectKind

-- `sui_types` and `PackageObjectCache`: `object_owner` is the parent of an object that another
-- object owns; a lookup in the cache may read the store, and says how often.
pub record ObjectApi : Type 1 where
  pub Object : Type 0
  pub version : Object → ℕ
  pub object_owner : Object → Option ℕ
  pub SuiError : Type 0
  pub object_not_found_error : InputObjectKind → SuiError
  pub Cache : Type 0
  pub new_cache : Cache
  pub get_package_object :
      Cache → (ℕ → Option Object) → ℕ → Attempt SuiError (Option Object) × Cache × ℕ

-- What an execution leaves: the inputs that it might change, and the objects that it wrote.
pub record InnerTemporaryStore (O : Type 0) : Type 0 where
  pub mutable_inputs : List ℕ
  pub written : Dict O

module _ (api : ObjectApi) where
  open api use {Object, SuiError, Cache}

  pub record InMemoryObjectStore : Type 0 where
    pub objects : Dict Object
    pub package_cache : Cache
    pub num_object_reads : ℕ

  unfoldable pub new : Dict Object → InMemoryObjectStore
  new objects = record { objects = objects; package_cache = api.new_cache; num_object_reads = 0 }

  unfoldable pub get_object : InMemoryObjectStore → ℕ → Option Object × InMemoryObjectStore
  get_object store id =
      (lookup id store.objects, record store { num_object_reads = add64 store.num_object_reads 1 })

  unfoldable pub at_version : ℕ → Option Object → Option Object
  at_version v none = none
  at_version v (some o) = if api.version o == v then some o else none

  unfoldable pub get_object_by_key :
      InMemoryObjectStore → ℕ → ℕ → Option Object × InMemoryObjectStore
  unfolding get_object at_version
  get_object_by_key store id v = let (o, store') = get_object store id in (at_version v o, store')

  -- Whether the object is owned by the parent and no newer than the bound.
  unfoldable pub is_child_of : ℕ → ℕ → Object → Bool
  is_child_of parent bound o =
      if leb (api.version o) bound
      then elim (api.object_owner o) [ none ↦ false | some p ↦ p == parent ]
      else false

  unfoldable pub read_child_object :
      InMemoryObjectStore → ℕ → ℕ → ℕ → Option Object × InMemoryObjectStore
  unfolding get_object is_child_of
  read_child_object store parent child bound =
      let (found, store') = get_object store child in
      (
        elim found [ none ↦ none | some o ↦ if is_child_of parent bound o then some o else none ],
        store',
      )

  unfoldable pub get_package_object :
      InMemoryObjectStore → ℕ → Attempt SuiError (Option Object) × InMemoryObjectStore
  get_package_object store id =
      let (found, cache, reads) =
        api.get_package_object store.package_cache (λ k. lookup k store.objects) id in
      (
        found,
        record store {
          package_cache = cache;
          num_object_reads = add64 store.num_object_reads reads;
        },
      )

  -- `collect()` into a map: of two locks of one object the later counts.
  unfoldable pub collect_locks : Dict ℕ → List (ℕ × ℕ) → Dict ℕ
  collect_locks m [] = m
  collect_locks m (lock ∷ rest) = collect_locks (insert lock.0 lock.1 m) rest

  -- The read of one input. The locks are those of the transaction, an error where they cannot be
  -- had; an object without a lock is a panic.
  unfoldable pub read_object :
      Attempt SuiError (List (ℕ × ℕ))
      → InMemoryObjectStore
      → InputObjectKind
      → Attempt SuiError (Option Object) × InMemoryObjectStore
  unfolding get_package_object get_object_by_key collect_locks
  read_object locks store (move_package id) = get_package_object store id
  read_object locks store (imm_or_owned_move_object id v) =
      let (o, store') = get_object_by_key store id v in (ok o, store')
  read_object locks store (shared_move_object id) = elim locks [
    | ok pairs ↦ elim (lookup id (collect_locks [] pairs)) [
      | none ↦ (panicked, store)
      | some v ↦ let (o, store') = get_object_by_key store id v in (ok o, store')
    ]
    | err e ↦ (err e, store)
    | panicked ↦ (panicked, store)
  ]

  unfoldable pub read_objects_for_execution :
      Attempt SuiError (List (ℕ × ℕ))
      → InMemoryObjectStore
      → List InputObjectKind
      → Attempt SuiError (List (InputObjectKind × Object)) × InMemoryObjectStore
  unfolding read_object
  read_objects_for_execution locks store [] = (ok [], store)
  read_objects_for_execution locks store (kind ∷ kinds) =
      let (found, store') = read_object locks store kind in
      let (rest, store'') = read_objects_for_execution locks store' kinds in
      elim found [
        | ok (some o) ↦ (rest >>= λ objects. ok ((kind, o) ∷ objects), store'')
        | ok none ↦ (err (api.object_not_found_error kind), store')
        | err e ↦ (err e, store')
        | panicked ↦ (panicked, store')
      ]

  unfoldable pub remove_unwritten : Dict Object → List ℕ → Dict Object → Dict Object
  remove_unwritten written [] objects = objects
  remove_unwritten written (id ∷ rest) objects =
      if contains_key id written
      then remove_unwritten written rest objects
      else remove_unwritten written rest (erase id objects)

  unfoldable pub insert_written : Dict Object → Dict Object → Dict Object
  insert_written [] objects = objects
  insert_written (entry ∷ rest) objects = insert_written rest (insert entry.0 entry.1 objects)

  unfoldable pub commit_objects :
      InMemoryObjectStore → InnerTemporaryStore Object → InMemoryObjectStore
  unfolding remove_unwritten insert_written
  commit_objects store temp = record store {
    objects =
        insert_written temp.written
          (remove_unwritten temp.written temp.mutable_inputs store.objects);
  }
