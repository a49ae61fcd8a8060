-- ===== src/Block/Parallel/Leftover.antt =====
-- No entry of an earlier incarnation stays in the data of the multi-version map.
use test_suites.Prelude.{
  ℕ, ◌≡◌, ◌≢◌, refl, sym, ap, subst, ◌∙◌, Bool, true, false, some, List, [], ◌∷◌, ◌++◌, ◌==◌, map,
  if◌then◌else◌, arith, All, All-left, All-right, ◌⊎◌, inl, inr, Bool-cases, ==_iff,
}
use test_suites.Prelude.Maps.{Dict, lookup, erase, lookup-erase}
use test_suites.Prelude.Attempt.{Attempt, ok, err, >>=-eq-ok, ok-injective}
use test_suites.Block.Status.{
  ExecutionStatus, success, skip_rest, abort, speculative_execution_abort_error,
  delayed_fields_code_invariant_error, code_invariant_error,
}
use test_suites.Block.Environment.{Environment, DelayedChange}
use test_suites.Block.Parallel.{
  Versioned, KeyKind, resource, module_path, group, Recorded, recorded, broken_invariant,
  not_applicable, ParallelError, panic_error, module_path_read_write_error, Updating, take_key,
  apply_groups, apply_data, apply_modules, apply_deltas, apply_delayed, apply_updates, apply_status,
  begin, execute, without, remove_leftover, remove_leftover_fields,
}
use test_suites.Block.Parallel.Outside.{keys_of, written_keys, keys_of_status, previous_keys}

abbrev pub has : ℕ → List ℕ → Bool
has j [] = false
has j (k ∷ ks) = if k == j then true else has j ks

-- Whether the data of the map has an entry of the transaction `idx` at a key, and what each
-- operation does to that.
pub record DataLaws (env : Environment) (v : Versioned env) (idx incarnation : ℕ) : Type 0 where
  pub holds : v.Cache → ℕ → Bool
  pub holds-execute_transaction :
      (c : v.Cache) (t : env.Txn) (j : ℕ) → holds (v.execute_transaction c t idx).1 j ≡ holds c j
  pub holds-write_data :
      (c : v.Cache) (k : ℕ) (w : env.Write) (j : ℕ)
      → holds (v.write_data c k idx incarnation w) j ≡ (if k == j then true else holds c j)
  pub holds-write_metadata :
      (c : v.Cache) (k : ℕ) (m : env.Metadata) (j : ℕ)
      → holds (v.write_metadata c k idx incarnation m) j ≡ (if k == j then true else holds c j)
  pub holds-add_delta :
      (c : v.Cache) (k : ℕ) (d : env.Write) (j : ℕ)
      → holds (v.add_delta c k idx d) j ≡ (if k == j then true else holds c j)
  pub holds-write_group :
      (c : v.Cache) (k : ℕ) (ops : List (ℕ × env.GroupOp)) (j : ℕ)
      → holds (v.write_group c k idx incarnation ops).0 j ≡ holds c j
  pub holds-write_module :
      (c : v.Cache) (k : ℕ) (w : env.Write) (j : ℕ) → holds (v.write_module c k idx w) j ≡ holds c j
  pub holds-record_change :
      (c : v.Cache) (k : ℕ) (d : DelayedChange env.changes.Value env.changes.Apply) (j : ℕ)
      → holds (v.record_change c k idx d).0 j ≡ holds c j
  pub holds-remove_data :
      (c : v.Cache) (k j : ℕ)
      → holds (v.remove_data c k idx) j ≡ (if k == j then false else holds c j)
  pub holds-remove_module : (c : v.Cache) (k j : ℕ) → holds (v.remove_module c k idx) j ≡ holds c j
  pub holds-remove_group : (c : v.Cache) (k j : ℕ) → holds (v.remove_group c k idx) j ≡ holds c j
  pub holds-remove_delayed_field :
      (c : v.Cache) (k j : ℕ) → holds (v.remove_delayed_field c k idx) j ≡ holds c j

-- Recorded as a key of the data.
abbrev pub IsData : Dict KeyKind → ℕ → Type 0
IsData m j = (lookup j m ≡ some resource) ⊎ (lookup j m ≡ some group)

module _ (env : Environment) (v : Versioned env) (idx incarnation : ℕ)
    (laws : DataLaws env v idx incarnation) where
  open env use {Output, Error, Write, Metadata, GroupOp, Txn}
  open v use {Cache, Reads, Recorder}
  open laws use {holds}

  abbrev St : Type 0
  St = Updating env v idx incarnation

  -- Every entry is recorded, or its key is one of those written now.
  abbrev Accounted : (ℕ → Type 0) → St → Type 0
  Accounted P s = (j : ℕ) → holds s.cache j ≡ true → IsData s.prev_modified_keys j ⊎ P j

  IsData-erase : (k j : ℕ) (m : Dict KeyKind) → (k == j) ≡ false → IsData m j → IsData (erase k m) j
  IsData-erase k j m ne (inl h) = inl (ground (arith, lookup-erase k j m, h, ne))
  IsData-erase k j m ne (inr h) = inr (ground (arith, lookup-erase k j m, h, ne))

  -- A key is taken and written, or its other part is.
  Accounted-take_key :
      (P : ℕ → Type 0) (key : ℕ) (s t : St)
      → P key
      → t.prev_modified_keys ≡ (take_key env v idx incarnation key s).prev_modified_keys
      → ((j : ℕ) → (key == j) ≡ false → holds t.cache j ≡ holds s.cache j)
      → Accounted P s
      → Accounted P t
  unfolding take_key
  Accounted-take_key P key s t mine same others before j h = elim (Bool-cases (key == j)) [
    | inl e ↦ inr (subst P ((==_iff key j).0 e) mine)
    | inr ne ↦ elim (before j (sym (others j ne) ∙ h)) [
      | inl known ↦
          inl
            (subst (λ m. IsData m j) (sym same) (IsData-erase key j s.prev_modified_keys ne known))
      | inr new ↦ inr new
    ]
  ]

  apply_data-Accounted :
      (P : ℕ → Type 0) (ws : Dict Write) (s : St)
      → All P (keys_of ws)
      → Accounted P s
      → Accounted P (apply_data env v idx incarnation ws s)
  unfolding apply_data take_key
  apply_data-Accounted P [] s ps h = h
  apply_data-Accounted P ((key, op) ∷ ws) s (p, ps) h =
      let s₁ = take_key env v idx incarnation key s in
      let t = record s₁ { cache = v.write_data s₁.cache key idx incarnation op } in
      apply_data-Accounted P ws t ps (
        Accounted-take_key P key s t p refl
          (λ j ne. ground (arith, ne, laws.holds-write_data s.cache key op j)) h)

  apply_modules-Accounted :
      (P : ℕ → Type 0) (ws : Dict Write) (s : St)
      → All P (keys_of ws)
      → Accounted P s
      → Accounted P (apply_modules env v idx incarnation ws s)
  unfolding apply_modules take_key
  apply_modules-Accounted P [] s ps h = h
  apply_modules-Accounted P ((key, op) ∷ ws) s (p, ps) h =
      let s₁ = take_key env v idx incarnation key s in
      let t = record s₁ { cache = v.write_module s₁.cache key idx op } in
      apply_modules-Accounted P ws t ps
        (Accounted-take_key P key s t p refl (λ j ne. laws.holds-write_module s.cache key op j) h)

  apply_deltas-Accounted :
      (P : ℕ → Type 0) (ws : Dict Write) (s : St)
      → All P (keys_of ws)
      → Accounted P s
      → Accounted P (apply_deltas env v idx incarnation ws s)
  unfolding apply_deltas take_key
  apply_deltas-Accounted P [] s ps h = h
  apply_deltas-Accounted P ((key, delta) ∷ ws) s (p, ps) h =
      let s₁ = take_key env v idx incarnation key s in
      let t = record s₁ { cache = v.add_delta s₁.cache key idx delta } in
      apply_deltas-Accounted P ws t ps (
        Accounted-take_key P key s t p refl
          (λ j ne. ground (arith, ne, laws.holds-add_delta s.cache key delta j)) h)

  apply_groups-Accounted :
      (P : ℕ → Type 0) (ws : List (ℕ × Metadata × List (ℕ × GroupOp))) (s : St)
      → All P (map (λ e. e.0) ws)
      → Accounted P s
      → Accounted P (apply_groups env v idx incarnation ws s)
  unfolding apply_groups take_key
  apply_groups-Accounted P [] s ps h = h
  apply_groups-Accounted P ((key, metadata_op, ops) ∷ ws) s (p, ps) h =
      let s₁ = take_key env v idx incarnation key s in
      let cache₁ = v.write_metadata s₁.cache key idx incarnation metadata_op in
      let (cache, outside) = v.write_group cache₁ key idx incarnation ops in
      let t = record s₁ {
        cache = cache;
        updates_outside = if outside then true else s₁.updates_outside;
      } in
      apply_groups-Accounted P ws t ps (
        Accounted-take_key P key s t p refl
          (λ j ne.
            laws.holds-write_group cache₁ key ops j
            ∙ ground (arith, ne, laws.holds-write_metadata s.cache key metadata_op j))
          h)

  apply_delayed-Accounted :
      (P : ℕ → Type 0) (changes : Dict (DelayedChange env.changes.Value env.changes.Apply)) (s : St)
      {t : St}
      → Accounted P s
      → apply_delayed env v idx incarnation changes s ≡ ok t
      → Accounted P t
  unfolding apply_delayed
  apply_delayed-Accounted P [] s acc h = subst (Accounted P) (ok-injective h) acc
  apply_delayed-Accounted P ((id, change) ∷ changes) s {t} acc h =
      let (cache, status) = v.record_change s.cache id idx change in
      by_status status
        (record s {
          cache = cache;
          prev_modified_delayed_fields = without id s.prev_modified_delayed_fields;
        })
        (λ j e. acc j (sym (laws.holds-record_change s.cache id change j) ∙ e))
        (λ u a e. apply_delayed-Accounted P changes u a e) h
    where
      by_status :
          (status : Recorded) (s₁ : St)
          → Accounted P s₁
          → ((u : St)
              → Accounted P u
              → apply_delayed env v idx incarnation changes u ≡ ok t
              → Accounted P t)
          → (elim status as (λ _. Attempt ParallelError St) [
            | recorded ↦ apply_delayed env v idx incarnation changes s₁
            | broken_invariant ↦ err (panic_error (code_invariant_error "Record change failed"))
            | not_applicable ↦
                apply_delayed env v idx incarnation changes
                  (record s₁ { read_set = v.capture_delayed_field_read_error s₁.read_set })
          ])
            ≡ ok t
          → Accounted P t
      by_status recorded s₁ a later h = later s₁ a h
      by_status broken_invariant s₁ a later h = absurd (cc)
      by_status not_applicable s₁ a later h =
          later (record s₁ { read_set = v.capture_delayed_field_read_error s₁.read_set }) a h

  apply_updates-Accounted :
      (P : ℕ → Type 0) (output : Output) (s : St) {t : St}
      → All P (written_keys env v idx incarnation output)
      → Accounted P s
      → apply_updates env v idx incarnation output s ≡ ok t
      → Accounted P t
  unfolding apply_updates
  apply_updates-Accounted P output s ps acc h =
      let groups = env.resource_group_write_set output in
      let values = env.resource_write_set output ++ env.aggregator_v1_write_set output in
      let modules = env.module_write_set output in
      let deltas = env.aggregator_v1_delta_set output in
      let s₁ = apply_groups env v idx incarnation groups s in
      let s₂ = apply_data env v idx incarnation values s₁ in
      let s₃ = apply_modules env v idx incarnation modules s₂ in
      let s₄ = apply_deltas env v idx incarnation deltas s₃ in
      let later = keys_of values ++ (keys_of modules ++ keys_of deltas) in
      let p₁ = All-left P (map (λ e. e.0) groups) later ps in
      let q₁ = All-right P (map (λ e. e.0) groups) later ps in
      let q₂ = All-right P (keys_of values) (keys_of modules ++ keys_of deltas) q₁ in
      let a₁ = apply_groups-Accounted P groups s p₁ acc in
      let a₂ =
        apply_data-Accounted P values s₁
          (All-left P (keys_of values) (keys_of modules ++ keys_of deltas) q₁) a₁ in
      let a₃ =
        apply_modules-Accounted P modules s₂ (All-left P (keys_of modules) (keys_of deltas) q₂)
          a₂ in
      let a₄ =
        apply_deltas-Accounted P deltas s₃ (All-right P (keys_of modules) (keys_of deltas) q₂) a₃ in
      apply_delayed-Accounted P (env.delayed_field_change_set output) s₄ a₄ h

  apply_status-Accounted :
      (P : ℕ → Type 0) (status : ExecutionStatus Output Error) (s : St) {t : St}
      {writes : Dict Write}
      → All P (keys_of_status env v idx incarnation status)
      → Accounted P s
      → apply_status env v idx incarnation status s ≡ ok (t, writes)
      → Accounted P t
  unfolding apply_status
  apply_status-Accounted P (success output) s {t} {writes} ps acc h =
      let (u, ran, e) = >>=-eq-ok (apply_updates env v idx incarnation output s) _ h in
      let same : (u, env.resource_write_set output) ≡ (t, writes) = ok-injective e in
      subst (λ r. Accounted P r.0) same (apply_updates-Accounted P output s ps acc ran)
  apply_status-Accounted P (skip_rest output) s {t} {writes} ps acc h =
      let (u, ran, e) = >>=-eq-ok (apply_updates env v idx incarnation output s) _ h in
      let same : (u, env.resource_write_set output) ≡ (t, writes) = ok-injective e in
      subst (λ r. Accounted P r.0) same (apply_updates-Accounted P output s ps acc ran)
  apply_status-Accounted P (abort x) s {t} {writes} ps acc h =
      let same : (s, []) ≡ (t, writes) = ok-injective h in subst (λ r. Accounted P r.0) same acc
  apply_status-Accounted P (speculative_execution_abort_error msg) s {t} {writes} ps acc h =
      let u = record s { read_set = v.capture_delayed_field_read_error s.read_set } in
      let same : (u, []) ≡ (t, writes) = ok-injective h in subst (λ r. Accounted P r.0) same acc
  apply_status-Accounted P (delayed_fields_code_invariant_error msg) s ps acc h = absurd (cc)

  -- Removals only remove.
  holds-remove_leftover :
      (m : Dict KeyKind) (c : Cache) (j : ℕ)
      → holds (remove_leftover env v idx incarnation m c) j ≡ true
      → holds c j ≡ true
  unfolding remove_leftover
  holds-remove_leftover [] c j h = h
  holds-remove_leftover ((k, resource) ∷ m) c j h =
      let kept = holds-remove_leftover m (v.remove_data c k idx) j h in
      ground (arith, kept, laws.holds-remove_data c k j)
  holds-remove_leftover ((k, module_path) ∷ m) c j h =
      sym (laws.holds-remove_module c k j) ∙ holds-remove_leftover m (v.remove_module c k idx) j h
  holds-remove_leftover ((k, group) ∷ m) c j h =
      let kept =
        sym (laws.holds-remove_group (v.remove_data c k idx) k j)
        ∙ holds-remove_leftover m (v.remove_group (v.remove_data c k idx) k idx) j h in
      ground (arith, kept, laws.holds-remove_data c k j)

  -- No recorded key is left.
  remove_leftover-clears :
      (m : Dict KeyKind) (c : Cache) (j : ℕ)
      → holds (remove_leftover env v idx incarnation m c) j ≡ true
      → (lookup j m ≢ some resource) × (lookup j m ≢ some group)
  unfolding remove_leftover
  remove_leftover-clears [] c j h = (λ e. absurd (cc), λ e. absurd (cc))
  remove_leftover-clears ((k, resource) ∷ m) c j h =
      let kept = holds-remove_leftover m (v.remove_data c k idx) j h in
      let later = remove_leftover-clears m (v.remove_data c k idx) j h in
      let gone = laws.holds-remove_data c k j in ground (arith, kept, later, gone)
  remove_leftover-clears ((k, module_path) ∷ m) c j h =
      let later = remove_leftover-clears m (v.remove_module c k idx) j h in ground (arith, later)
  remove_leftover-clears ((k, group) ∷ m) c j h =
      let kept =
        sym (laws.holds-remove_group (v.remove_data c k idx) k j)
        ∙ holds-remove_leftover m (v.remove_group (v.remove_data c k idx) k idx) j h in
      let later = remove_leftover-clears m (v.remove_group (v.remove_data c k idx) k idx) j h in
      let gone = laws.holds-remove_data c k j in ground (arith, kept, later, gone)

  holds-remove_leftover_fields :
      (ids : List ℕ) (c : Cache) (j : ℕ)
      → holds (remove_leftover_fields env v idx incarnation ids c) j ≡ holds c j
  unfolding remove_leftover_fields
  holds-remove_leftover_fields [] c j = refl
  holds-remove_leftover_fields (id ∷ ids) c j =
      holds-remove_leftover_fields ids (v.remove_delayed_field c id idx) j
      ∙ laws.holds-remove_delayed_field c id j

  All-has : (P : ℕ → Type 0) (ks : List ℕ) → ((k : ℕ) → has k ks ≡ true → P k) → All P ks
  All-has P [] f = tt
  All-has P (k ∷ ks) f = (f k (ground arith), All-has P ks (λ j h. f j (ground (arith, h))))

  -- Where every entry of the transaction in the data is recorded, after an execution that succeeds
  -- the data has entries of the transaction only at the keys that this execution wrote.
  pub execute_leaves :
      (recorder recorder' : Recorder) (cache cache' : Cache) (txn : Txn) (outside : Bool) (j : ℕ)
      → ((k : ℕ) → holds cache k ≡ true → IsData (previous_keys env v idx incarnation recorder) k)
      → execute env v idx incarnation recorder cache txn ≡ ok (outside, cache', recorder')
      → holds cache' j ≡ true
      → has j (keys_of_status env v idx incarnation (v.execute_transaction cache txn idx).0) ≡ true
  unfolding execute begin
  execute_leaves recorder recorder' cache cache' txn outside j before h at =
      let (status, cache₁, reads) = v.execute_transaction cache txn idx in
      let keys = keys_of_status env v idx incarnation status in
      let s = begin env v idx incarnation recorder cache₁ reads in
      let ((t, writes), applied, h₁) =
        >>=-eq-ok (apply_status env v idx incarnation status s) _ h in
      let P : ℕ → Type 0 = λ k. has k keys ≡ true in
      let acc =
        apply_status-Accounted P status s (All-has P keys (λ k e. e))
          (λ k e. inl (before k (sym (laws.holds-execute_transaction cache txn k) ∙ e))) applied in
      let same = result _ _ _ (v.record_execution recorder idx t.read_set status writes).1 h₁ in
      let left = remove_leftover env v idx incarnation t.prev_modified_keys t.cache in
      let there : holds left j ≡ true =
        sym (holds-remove_leftover_fields t.prev_modified_delayed_fields left j)
        ∙ ap (λ c. holds c j) same
        ∙ at in
      let cleared = remove_leftover-clears t.prev_modified_keys t.cache j there in
      elim (acc j (holds-remove_leftover t.prev_modified_keys t.cache j there)) [
        | inl (inl e) ↦ absurd (cleared.0 e)
        | inl (inr e) ↦ absurd (cleared.1 e)
        | inr new ↦ new
      ]
    where
      result :
          (o : Bool) (c : Cache) (r : Recorder) (b : Bool)
          → ◌≡◌ {A = Attempt ParallelError (Bool × Cache × Recorder)}
              (if b then ok (o, c, r) else err module_path_read_write_error)
              (ok (outside, cache', recorder'))
          → c ≡ cache'
      result o c r true e = ap (λ x. x.1) (ok-injective e)
      result o c r false e = absurd (cc)
