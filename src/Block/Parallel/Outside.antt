-- ===== src/Block/Parallel/Outside.antt =====
-- An execution that reports no write outside of the previous write set has none.
use test_suites.Prelude.{
  ℕ, ◌≡◌, refl, ap, subst, ◌∙◌, Bool, true, false, none, some, List, [], ◌∷◌, ◌++◌, map,
  if◌then◌else◌, arith, All, All-append,
}
use test_suites.Prelude.Maps.{Dict, contains_key, erase, lookup-erase}
use test_suites.Prelude.Attempt.{Attempt, ok, err, >>=-eq-ok, ok-injective}
use test_suites.Block.Status.{
  ExecutionStatus, success, skip_rest, abort, speculative_execution_abort_error,
  delayed_fields_code_invariant_error, code_invariant_error,
}
use test_suites.Block.Environment.{Environment, DelayedChange}
use test_suites.Block.Parallel.{
  Versioned, KeyKind, Recorded, recorded, broken_invariant, not_applicable, ParallelError, Updating,
  take_key, apply_groups, apply_data, apply_modules, apply_deltas, apply_delayed, apply_updates,
  apply_status, begin, execute, without, collect_keys, panic_error, module_path_read_write_error,
}

abbrev pub keys_of : {A : Type 0} → List (ℕ × A) → List ℕ
keys_of = map (λ e. e.0)

module _ (env : Environment) (v : Versioned env) (idx incarnation : ℕ) where
  open env use {Output, Error, Write, Metadata, GroupOp, Txn}
  open v use {Cache, Reads, Recorder}

  abbrev St : Type 0
  St = Updating env v idx incarnation

  abbrev pub group_keys : List (ℕ × Metadata × List (ℕ × GroupOp)) → List ℕ
  group_keys = map (λ e. e.0)

  -- What a part of the updates from `s` to `s'` shows of the keys that it wrote, where the flag is
  -- still down after it.
  record Within (keys : List ℕ) (s s' : St) : Type 0 where
    clean : s.updates_outside ≡ false
    known : All (λ k. contains_key k s.prev_modified_keys ≡ true) keys
    sub :
        (k : ℕ)
        → contains_key k s'.prev_modified_keys ≡ true
        → contains_key k s.prev_modified_keys ≡ true

  contains_key-erase :
      (j k : ℕ) (m : Dict KeyKind) → contains_key k (erase j m) ≡ true → contains_key k m ≡ true
  contains_key-erase j k m h = ground (arith, lookup-erase j k m)

  All-sub :
      (s s' : St) (keys : List ℕ)
      → ((k : ℕ)
          → contains_key k s'.prev_modified_keys ≡ true
          → contains_key k s.prev_modified_keys ≡ true)
      → All (λ k. contains_key k s'.prev_modified_keys ≡ true) keys
      → All (λ k. contains_key k s.prev_modified_keys ≡ true) keys
  All-sub s s' [] sub h = tt
  All-sub s s' (k ∷ keys) sub (p, h) = (sub k p, All-sub s s' keys sub h)

  stay : (s : St) → s.updates_outside ≡ false → Within [] s s
  stay s h = record { clean = h; known = tt; sub = λ k p. p }

  both : (ks ls : List ℕ) (s t u : St) → Within ks s t → Within ls t u → Within (ks ++ ls) s u
  both ks ls s t u a b = record {
    clean = a.clean;
    known =
        All-append (λ k. contains_key k s.prev_modified_keys ≡ true) ks ls a.known
          (All-sub s t ls a.sub b.known);
    sub = λ k p. a.sub k (b.sub k p);
  }

  -- Taking a key; the cache may change afterwards, and the flag only rise.
  take_key-Within :
      (key : ℕ) (s t : St)
      → t.prev_modified_keys ≡ (take_key env v idx incarnation key s).prev_modified_keys
      → (t.updates_outside ≡ false → (take_key env v idx incarnation key s).updates_outside ≡ false)
      → t.updates_outside ≡ false
      → Within (key ∷ []) s t
  unfolding take_key
  take_key-Within key s t same rise h =
      let down = rise h in
      record {
        clean = ground (arith, down);
        known = (ground (arith, down), tt);
        sub = λ k p.
            contains_key-erase key k s.prev_modified_keys
              (subst (λ m. contains_key k m ≡ true) same p);
      }

  apply_data-Within :
      (ws : Dict Write) (s : St)
      → (apply_data env v idx incarnation ws s).updates_outside ≡ false
      → Within (keys_of ws) s (apply_data env v idx incarnation ws s)
  unfolding apply_data
  apply_data-Within [] s h = stay s h
  apply_data-Within ((key, op) ∷ ws) s h =
      let s₁ = take_key env v idx incarnation key s in
      let t = record s₁ { cache = v.write_data s₁.cache key idx incarnation op } in
      let later = apply_data-Within ws t h in
      both (key ∷ []) (keys_of ws) s t (apply_data env v idx incarnation ws t)
        (take_key-Within key s t refl (λ e. e) later.clean) later

  apply_modules-Within :
      (ws : Dict Write) (s : St)
      → (apply_modules env v idx incarnation ws s).updates_outside ≡ false
      → Within (keys_of ws) s (apply_modules env v idx incarnation ws s)
  unfolding apply_modules
  apply_modules-Within [] s h = stay s h
  apply_modules-Within ((key, op) ∷ ws) s h =
      let s₁ = take_key env v idx incarnation key s in
      let t = record s₁ { cache = v.write_module s₁.cache key idx op } in
      let later = apply_modules-Within ws t h in
      both (key ∷ []) (keys_of ws) s t (apply_modules env v idx incarnation ws t)
        (take_key-Within key s t refl (λ e. e) later.clean) later

  apply_deltas-Within :
      (ws : Dict Write) (s : St)
      → (apply_deltas env v idx incarnation ws s).updates_outside ≡ false
      → Within (keys_of ws) s (apply_deltas env v idx incarnation ws s)
  unfolding apply_deltas
  apply_deltas-Within [] s h = stay s h
  apply_deltas-Within ((key, delta) ∷ ws) s h =
      let s₁ = take_key env v idx incarnation key s in
      let t = record s₁ { cache = v.add_delta s₁.cache key idx delta } in
      let later = apply_deltas-Within ws t h in
      both (key ∷ []) (keys_of ws) s t (apply_deltas env v idx incarnation ws t)
        (take_key-Within key s t refl (λ e. e) later.clean) later

  lower : (a b : Bool) → (if a then true else b) ≡ false → b ≡ false
  lower true b h = absurd (cc)
  lower false b h = h

  apply_groups-Within :
      (ws : List (ℕ × Metadata × List (ℕ × GroupOp))) (s : St)
      → (apply_groups env v idx incarnation ws s).updates_outside ≡ false
      → Within (group_keys ws) s (apply_groups env v idx incarnation ws s)
  unfolding apply_groups
  apply_groups-Within [] s h = stay s h
  apply_groups-Within ((key, metadata_op, ops) ∷ ws) s h =
      let s₁ = take_key env v idx incarnation key s in
      let (cache, outside) =
        v.write_group (v.write_metadata s₁.cache key idx incarnation metadata_op) key idx
          incarnation ops in
      let t = record s₁ {
        cache = cache;
        updates_outside = if outside then true else s₁.updates_outside;
      } in
      let later = apply_groups-Within ws t h in
      both (key ∷ []) (group_keys ws) s t (apply_groups env v idx incarnation ws t)
        (take_key-Within key s t refl (lower outside s₁.updates_outside) later.clean) later

  -- Delayed fields leave the flag as it is.
  apply_delayed-flag :
      (changes : Dict (DelayedChange env.changes.Value env.changes.Apply)) (s : St) {t : St}
      → apply_delayed env v idx incarnation changes s ≡ ok t
      → s.updates_outside ≡ t.updates_outside
  unfolding apply_delayed
  apply_delayed-flag [] s h = ap (λ u. u.updates_outside) (ok-injective h)
  apply_delayed-flag ((id, change) ∷ changes) s {t} h =
      let (cache, status) = v.record_change s.cache id idx change in
      by_status status
        (record s {
          cache = cache;
          prev_modified_delayed_fields = without id s.prev_modified_delayed_fields;
        })
        refl (λ u e. apply_delayed-flag changes u e) h
    where
      by_status :
          (status : Recorded) (s₁ : St)
          → s.updates_outside ≡ s₁.updates_outside
          → ((u : St)
              → apply_delayed env v idx incarnation changes u ≡ ok t
              → u.updates_outside ≡ t.updates_outside)
          → (elim status as (λ _. Attempt ParallelError St) [
            | recorded ↦ apply_delayed env v idx incarnation changes s₁
            | broken_invariant ↦ err (panic_error (code_invariant_error "Record change failed"))
            | not_applicable ↦
                apply_delayed env v idx incarnation changes
                  (record s₁ { read_set = v.capture_delayed_field_read_error s₁.read_set })
          ])
            ≡ ok t
          → s.updates_outside ≡ t.updates_outside
      by_status recorded s₁ e later h = e ∙ later s₁ h
      by_status broken_invariant s₁ e later h = absurd (cc)
      by_status not_applicable s₁ e later h =
          e ∙ later (record s₁ { read_set = v.capture_delayed_field_read_error s₁.read_set }) h

  -- The keys that an output writes in the multi-version map.
  abbrev pub written_keys : Output → List ℕ
  written_keys output =
      group_keys (env.resource_group_write_set output)
      ++ (keys_of (env.resource_write_set output ++ env.aggregator_v1_write_set output)
          ++ (keys_of (env.module_write_set output)
              ++ keys_of (env.aggregator_v1_delta_set output)))

  apply_updates-known :
      (output : Output) (s : St) {t : St}
      → apply_updates env v idx incarnation output s ≡ ok t
      → t.updates_outside ≡ false
      → All (λ k. contains_key k s.prev_modified_keys ≡ true) (written_keys output)
  unfolding apply_updates
  apply_updates-known output s {t} h down =
      let groups = env.resource_group_write_set output in
      let values = env.resource_write_set output ++ env.aggregator_v1_write_set output in
      let modules = env.module_write_set output in
      let deltas = env.aggregator_v1_delta_set output in
      let s₁ = apply_groups env v idx incarnation groups s in
      let s₂ = apply_data env v idx incarnation values s₁ in
      let s₃ = apply_modules env v idx incarnation modules s₂ in
      let s₄ = apply_deltas env v idx incarnation deltas s₃ in
      let w₄ = apply_deltas-Within deltas s₃ (apply_delayed-flag _ s₄ h ∙ down) in
      let w₃ = apply_modules-Within modules s₂ w₄.clean in
      let w₂ = apply_data-Within values s₁ w₃.clean in
      let w₁ = apply_groups-Within groups s w₂.clean in
      let later = both (keys_of modules) (keys_of deltas) s₂ s₃ s₄ w₃ w₄ in
      let written = both (keys_of values) (keys_of modules ++ keys_of deltas) s₁ s₂ s₄ w₂ later in
      (both (group_keys groups) (keys_of values ++ (keys_of modules ++ keys_of deltas)) s s₁ s₄ w₁
        written).known

  -- The keys that a status writes.
  abbrev pub keys_of_status : ExecutionStatus Output Error → List ℕ
  keys_of_status (success output) = written_keys output
  keys_of_status (skip_rest output) = written_keys output
  keys_of_status _ = []

  apply_status-known :
      (status : ExecutionStatus Output Error) (s : St) {t : St} {writes : Dict Write}
      → apply_status env v idx incarnation status s ≡ ok (t, writes)
      → t.updates_outside ≡ false
      → All (λ k. contains_key k s.prev_modified_keys ≡ true) (keys_of_status status)
  unfolding apply_status
  apply_status-known (success output) s {t} {writes} h down =
      let (u, ran, e) = >>=-eq-ok (apply_updates env v idx incarnation output s) _ h in
      let same : (u, env.resource_write_set output) ≡ (t, writes) = ok-injective e in
      apply_updates-known output s ran (ap (λ r. r.0.updates_outside) same ∙ down)
  apply_status-known (skip_rest output) s {t} {writes} h down =
      let (u, ran, e) = >>=-eq-ok (apply_updates env v idx incarnation output s) _ h in
      let same : (u, env.resource_write_set output) ≡ (t, writes) = ok-injective e in
      apply_updates-known output s ran (ap (λ r. r.0.updates_outside) same ∙ down)
  apply_status-known (abort e) s h down = tt
  apply_status-known (speculative_execution_abort_error msg) s h down = tt
  apply_status-known (delayed_fields_code_invariant_error msg) s h down = tt

  -- The keys that the record has of the execution before.
  abbrev pub previous_keys : Recorder → Dict KeyKind
  previous_keys recorder = elim (v.modified_keys recorder idx) [
    | none ↦ []
    | some keys ↦ collect_keys [] keys
  ]

  -- An execution that succeeds and reports that nothing was written outside of the previous write
  -- set writes only keys that the execution before it wrote.
  pub execute_inside :
      (recorder recorder' : Recorder) (cache cache' : Cache) (txn : Txn)
      → execute env v idx incarnation recorder cache txn ≡ ok (false, cache', recorder')
      → All
          (λ k. contains_key k (previous_keys recorder) ≡ true)
          (keys_of_status (v.execute_transaction cache txn idx).0)
  unfolding execute begin
  execute_inside recorder recorder' cache cache' txn h =
      let (status, cache₁, reads) = v.execute_transaction cache txn idx in
      let s = begin env v idx incarnation recorder cache₁ reads in
      let ((t, writes), applied, h₁) =
        >>=-eq-ok (apply_status env v idx incarnation status s) _ h in
      apply_status-known status s applied
        (flag t.updates_outside _ _ (v.record_execution recorder idx t.read_set status writes).1 h₁)
    where
      flag :
          (outside : Bool) (c : Cache) (r : Recorder) (b : Bool)
          → ◌≡◌ {A = Attempt ParallelError (Bool × Cache × Recorder)}
              (if b then ok (outside, c, r) else err module_path_read_write_error)
              (ok (false, cache', recorder'))
          → outside ≡ false
      flag outside c r true e = ap (λ x. x.0) (ok-injective e)
      flag outside c r false e = absurd (cc)
