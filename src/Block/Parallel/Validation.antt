-- ===== src/Block/Parallel/Validation.antt =====
-- Validation and the re-execution before a commit: `validate`, `update_transaction_on_abort`,
-- `update_on_validation`, `validate_commit_ready` and the first part of the loop of
-- `prepare_and_queue_commit_ready_txns` (codes/aptos/modified/block-executor/src/executor.rs).
use Prim.Native.String.{String}
use test_suites.Prelude.{
  ℕ, ◌+◌, Bool, true, false, Option, none, some, List, [], ◌∷◌, if◌then◌else◌, get_elem?,
}
use test_suites.Prelude.Attempt.{Attempt, ok, err, panicked, ◌>>=◌, map_err, unwrap}
use test_suites.Block.Status.{PanicError, code_invariant_error}
use test_suites.Block.Environment.{Environment}
use test_suites.Block.Parallel.{
  Versioned, KeyKind, resource, module_path, group, ParallelError, panic_error, execute,
}

-- How `try_commit` on the delayed fields ends.
pub data CommitResult : Type 0 where
  committed : CommitResult
  re_execution_needed : CommitResult
  commit_invariant_error : String → CommitResult

-- The read sets, the estimates of the multi-version map, and the scheduler.
pub record Scheduling (env : Environment) (v : Versioned env) : Type 1 where
  pub read_set : v.Recorder → ℕ → Option v.Reads
  pub is_incorrect_use : v.Reads → Bool
  pub validate_data_reads : v.Reads → v.Cache → ℕ → Bool
  pub validate_group_reads : v.Reads → v.Cache → ℕ → Bool
  pub validate_delayed_field_reads : v.Reads → v.Cache → ℕ → Attempt PanicError Bool
  pub try_commit_fields : v.Cache → ℕ → List ℕ → v.Cache × CommitResult
  pub mark_data : v.Cache → ℕ → ℕ → v.Cache
  pub mark_module : v.Cache → ℕ → ℕ → v.Cache
  pub mark_group : v.Cache → ℕ → ℕ → v.Cache
  pub mark_delayed_field : v.Cache → ℕ → ℕ → v.Cache
  pub Scheduler : Type 0
  pub Task : Type 0
  pub retry : Task
  pub try_abort : Scheduler → ℕ → ℕ → Bool × Scheduler
  pub finish_abort : Scheduler → ℕ → ℕ → Attempt PanicError (Task × Scheduler)
  pub finish_validation : Scheduler → ℕ → ℕ → Scheduler
  pub queueing_commits_arm : Scheduler → Scheduler
  pub finish_execution_during_commit : Scheduler → ℕ → Attempt PanicError Scheduler

module _ (env : Environment) (v : Versioned env) (sch : Scheduling env v) where
  open env use {Txn}
  open v use {Cache, Reads, Recorder}
  open sch use {Scheduler, Task}

  unfoldable pub validate : ℕ → Recorder → Cache → Attempt PanicError Bool
  validate idx recorder cache = do
    reads ← unwrap (sch.read_set recorder idx)
    if sch.is_incorrect_use reads
        then err (code_invariant_error "Incorrect use detected in CapturedReads")
        else ok (
            if sch.validate_data_reads reads cache idx
            then sch.validate_group_reads reads cache idx
            else false)

  unfoldable pub mark_keys : ℕ → List (ℕ × KeyKind) → Cache → Cache
  mark_keys idx [] cache = cache
  mark_keys idx ((key, resource) ∷ rest) cache = mark_keys idx rest (sch.mark_data cache key idx)
  mark_keys idx ((key, module_path) ∷ rest) cache =
      mark_keys idx rest (sch.mark_module cache key idx)
  mark_keys idx ((key, group) ∷ rest) cache =
      mark_keys idx rest (sch.mark_group (sch.mark_data cache key idx) key idx)

  unfoldable pub mark_fields : ℕ → List ℕ → Cache → Cache
  mark_fields idx [] cache = cache
  mark_fields idx (id ∷ rest) cache = mark_fields idx rest (sch.mark_delayed_field cache id idx)

  unfoldable pub update_transaction_on_abort : ℕ → Recorder → Cache → Cache
  unfolding mark_keys mark_fields
  update_transaction_on_abort idx recorder cache =
      let marked : Cache = elim (v.modified_keys recorder idx) [
        | none ↦ cache
        | some keys ↦ mark_keys idx keys cache
      ] in
      elim (v.delayed_field_keys recorder idx) [
        | none ↦ marked
        | some ids ↦ mark_fields idx ids marked
      ]

  -- The next task, with the cache and the scheduler.
  unfoldable pub update_on_validation :
      ℕ
      → ℕ
      → Bool
      → ℕ
      → Recorder
      → Cache
      → Scheduler
      → Attempt PanicError (Task × Cache × Scheduler)
  unfolding update_transaction_on_abort
  update_on_validation idx incarnation true wave recorder cache s =
      ok (sch.retry, cache, sch.queueing_commits_arm (sch.finish_validation s idx wave))
  update_on_validation idx incarnation false wave recorder cache s =
      let (aborted, s') = sch.try_abort s idx incarnation in
      let next_task = (do
        (task, s'') ← sch.finish_abort s' idx incarnation
        ok (task, update_transaction_on_abort idx recorder cache, s'')) in
      if aborted then next_task else ok (sch.retry, cache, sch.finish_validation s' idx wave)

  -- Whether the transaction may be committed, with the cache after the attempt on its delayed
  -- fields.
  unfoldable pub validate_commit_ready : ℕ → Recorder → Cache → Attempt PanicError (Bool × Cache)
  validate_commit_ready idx recorder cache = do
    reads ← unwrap (sch.read_set recorder idx)
    valid ← sch.validate_delayed_field_reads reads cache idx
    if valid
        then elim (v.delayed_field_keys recorder idx) as (λ _. Attempt PanicError (Bool × Cache)) [
          | none ↦ ok (true, cache)
          | some ids ↦
              let (cache', result) = sch.try_commit_fields cache idx ids in
              elim result [
                | committed ↦ ok (true, cache')
                | re_execution_needed ↦ ok (false, cache')
                | commit_invariant_error msg ↦ err (code_invariant_error msg)
              ]
        ]
        else ok (false, cache)

  -- `validate_commit_ready(..).unwrap_or(false)` after the validation of a re-execution.
  unfoldable pub revalidate :
      Attempt PanicError Bool → ℕ → Recorder → Cache → Attempt ParallelError Cache
  unfolding validate_commit_ready
  revalidate (ok true) idx recorder cache = elim (validate_commit_ready idx recorder cache) [
    | ok (true, cache') ↦ ok cache'
    | panicked ↦ panicked
    | _ ↦ err (panic_error (code_invariant_error "Validation after re-execution failed"))
  ]
  revalidate (ok false) idx recorder cache =
      err (panic_error (code_invariant_error "Validation after re-execution failed"))
  revalidate (err e) idx recorder cache = err (panic_error e)
  revalidate panicked idx recorder cache = panicked

  -- A transaction that the scheduler commits is checked, and executed one more time if the check
  -- fails.
  unfoldable pub ensure_committable :
      ℕ
      → ℕ
      → List Txn
      → Recorder
      → Cache
      → Scheduler
      → Attempt ParallelError (Recorder × Cache × Scheduler)
  unfolding validate_commit_ready update_transaction_on_abort execute validate revalidate
  ensure_committable idx incarnation block recorder cache s = do
    (ready, cache₁) ← map_err panic_error (validate_commit_ready idx recorder cache)
    if ready then ok (recorder, cache₁, s) else (do
      txn ← unwrap (get_elem? block idx)
      (outside, cache₂, recorder') ←
          execute env v idx (incarnation + 1) recorder
            (update_transaction_on_abort idx recorder cache₁) txn
      s' ← map_err panic_error (sch.finish_execution_during_commit s idx)
      cache₃ ← revalidate (validate idx recorder' cache₂) idx recorder' cache₂
      ok (recorder', cache₃, s'))
