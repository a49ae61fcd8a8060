-- ===== src/Block/Parallel/Commit.antt =====
-- One iteration of the loop of `prepare_and_queue_commit_ready_txns`
-- (codes/aptos/modified/block-executor/src/executor.rs). Counters and logs are left out.
pub mod Limit
use test_suites.Prelude.{
  ℕ, ◌+◌, ◌-◌, ◌≡◌, Bool, true, false, not, ◌||◌, Option, none, some, List, [], ◌∷◌, ltb, ◌==◌,
  if◌then◌else◌, get_elem?,
}
use mathlib.Core.Option
use test_suites.Prelude.Words.{add64}
use test_suites.Prelude.Maps.{Dict}
use test_suites.Prelude.Attempt.{Attempt, ok, err, panicked, ◌>>=◌, ◌>>◌, map_err, unwrap}
use test_suites.Block.Status.{PanicError}
use test_suites.Block.Environment.{Environment}
use test_suites.Block.Parallel.{Versioned, ParallelError, panic_error}
use test_suites.Block.Parallel.Validation.{Scheduling, ensure_committable}

-- The recorded outputs, the groups of the multi-version map, the gas limit processor, and the
-- scheduler's queue of commits.
pub record Committable (env : Environment) (v : Versioned env) (sch : Scheduling env v)
    : Type 0 where
  pub check_fatal_vm_error : v.Recorder → ℕ → Attempt ParallelError (Unit {0})
  pub check_execution_status_during_commit : v.Recorder → ℕ → Attempt PanicError (Unit {0})
  pub fee_statement : v.Recorder → ℕ → Option env.Fee
  pub output_approx_size : v.Recorder → ℕ → Option ℕ
  pub get_txn_read_write_summary : v.Recorder → ℕ → env.Summary
  pub update_to_skip_rest : v.Recorder → ℕ → v.Recorder
  pub block_skips_rest_at_idx : v.Recorder → ℕ → Bool
  pub groups_to_finalize : v.Recorder → ℕ → List (ℕ × env.Metadata × Bool)
  pub record_finalized_group : v.Recorder → ℕ → List env.FinalizedGroup → v.Recorder
  pub get_last_committed_group : v.Cache → ℕ → Dict (Option env.Bytes)
  pub finalize_group : v.Cache → ℕ → ℕ → v.Cache × Dict (Option env.Bytes)
  pub should_end_block_parallel : env.Limit → Bool
  pub num_txns : sch.Scheduler → ℕ
  pub try_commit : sch.Scheduler → Option (ℕ × ℕ) × sch.Scheduler
  pub add_to_commit_queue : sch.Scheduler → ℕ → sch.Scheduler
  pub halt : sch.Scheduler → sch.Scheduler
  pub is_execution_task : sch.Task → Bool

module _ (env : Environment) (v : Versioned env) (sch : Scheduling env v)
    (k : Committable env v sch) where
  open env use {Txn, Fee, Limit, Metadata, FinalizedGroup}
  open v use {Cache, Recorder}
  open sch use {Scheduler, Task}

  pub record Committer : Type 0 where
    pub recorder : Recorder
    pub cache : Cache
    pub scheduler : Scheduler
    pub limit : Limit

  -- How an iteration ends: the loop goes on, or the function returns.
  pub data Iteration : Type 0 where
    go_on : Committer → Iteration
    return : Committer → Iteration

  unfoldable pub approx_size : List Txn → ℕ → Recorder → Attempt ParallelError (Option ℕ)
  approx_size block idx recorder = elim env.config.block_output_limit [
    | none ↦ ok none
    | some _ ↦ elim (k.output_approx_size recorder idx) [
      | none ↦ ok none
      | some approx_output ↦
          let with_bytes = (do
            txn ← unwrap (get_elem? block idx)
            ok (some (add64 approx_output (env.user_txn_bytes_len txn)))) in
          if env.config.include_user_txn_size_in_block_output
          then with_bytes
          else ok (some (add64 approx_output 0))
    ]
  ]

  -- The gas limit of a committed transaction, and the transaction that reaches it.
  unfoldable pub charge : List Txn → ℕ → Fee → Committer → Attempt ParallelError Committer
  unfolding approx_size
  charge block idx fee s = do
    approx_output_size ← approx_size block idx s.recorder
    let summary =
        Option.map (λ _. k.get_txn_read_write_summary s.recorder idx)
          env.config.conflict_penalty_window
    let limit' = env.accumulate_fee_statement s.limit fee summary approx_output_size
    ok (record s {
      limit = limit';
      recorder =
          if ltb idx (k.num_txns s.scheduler - 1)
          then if k.should_end_block_parallel limit'
            then k.update_to_skip_rest s.recorder idx
            else s.recorder
          else s.recorder;
    })

  unfoldable pub account_for_fee : List Txn → ℕ → Committer → Attempt ParallelError Committer
  unfolding charge
  account_for_fee block idx s = elim (k.fee_statement s.recorder idx) [
    | none ↦ ok s
    | some fee ↦ charge block idx fee s
  ]

  unfoldable pub finalize_groups :
      ℕ → List (ℕ × Metadata × Bool) → Cache → Attempt ParallelError (List FinalizedGroup × Cache)
  finalize_groups idx [] cache = ok ([], cache)
  finalize_groups idx ((key, metadata_op, is_read) ∷ rest) cache = do
    let (cache', finalized_result) =
        if is_read
        then (cache, k.get_last_committed_group cache key)
        else k.finalize_group cache key idx
    group ← map_err panic_error (env.map_finalized_group key finalized_result metadata_op is_read)
    (groups, cache'') ← finalize_groups idx rest cache'
    ok (group ∷ groups, cache'')

  -- The end of an iteration: the commit is queued last, after a halt as well.
  unfoldable pub queue_commit : ℕ → Task → Committer → Attempt ParallelError Iteration
  queue_commit idx task s =
      let last = (idx + 1) == k.num_txns s.scheduler in
      let queued = k.add_to_commit_queue s.scheduler idx in
      let halted = k.add_to_commit_queue (k.halt s.scheduler) idx in
      if last || k.block_skips_rest_at_idx s.recorder idx
      then if last
        then if k.is_execution_task task
          then panicked
          else ok (return (record s { scheduler = halted }))
        else ok (return (record s { scheduler = halted }))
      else ok (go_on (record s { scheduler = queued }))

  -- The part of an iteration after the check of the transaction.
  unfoldable pub commit_transaction :
      List Txn → ℕ → Task → Committer → Attempt ParallelError Iteration
  unfolding account_for_fee finalize_groups queue_commit
  commit_transaction block idx task s = do
    k.check_fatal_vm_error s.recorder idx
    map_err panic_error (k.check_execution_status_during_commit s.recorder idx)
    s₁ ← account_for_fee block idx s
    (finalized_groups, cache') ← finalize_groups idx (k.groups_to_finalize s₁.recorder idx) s₁.cache
    queue_commit idx task (record s₁ {
      cache = cache';
      recorder = k.record_finalized_group s₁.recorder idx finalized_groups;
    })

  unfoldable pub commit_next : List Txn → Task → Committer → Attempt ParallelError Iteration
  unfolding commit_transaction ensure_committable
  commit_next block task s =
      let (next, scheduler') = k.try_commit s.scheduler in
      elim next [
        | none ↦ ok (return (record s { scheduler = scheduler' }))
        | some (idx, incarnation) ↦ (do
          (recorder', cache', scheduler'') ←
              ensure_committable env v sch idx incarnation block s.recorder s.cache scheduler'
          commit_transaction block idx task
              (record s { recorder = recorder'; cache = cache'; scheduler = scheduler'' }))
      ]
