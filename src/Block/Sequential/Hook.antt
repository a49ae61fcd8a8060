-- ===== src/Block/Sequential/Hook.antt =====
-- The commit hook is only told: no result depends on it.
use test_suites.Prelude.{
  ℕ, ◌+◌, ◌-◌, ◌≡◌, refl, sym, ap, ◌∙◌, Bool, true, false, List, [], ◌∷◌, ◌++◌, ltb, if◌then◌else◌,
  length,
}
use test_suites.Prelude.Attempt.{Attempt, ok, err, panicked}
use test_suites.Block.Status.{
  ExecutionStatus, success, skip_rest, abort, speculative_execution_abort_error,
  delayed_fields_code_invariant_error, delayed_materialization_code_invariant_error, fatal_vm_error,
  fatal_block_executor_error, BlockExecutionError, code_invariant_error, error_to_return, HookCall,
  on_transaction_committed, on_execution_aborted,
}
use test_suites.Block.Environment.{Environment}
use test_suites.Block.Sequential.{
  State, Failure, Flow, next, stop, fail, crash, notify, after_push, commit_output,
  serialization_error, push_output, discard_or_push, on_output, on_failure, dispatch, step, run,
  start, finish, account_for, execute_transactions_sequential,
}

module _ (env : Environment) where
  open env use {Txn, Output, Error, Reads}

  -- A state with no calls on the hook, and the same of an end.
  abbrev mute : State env → State env
  mute s = record s { hooks = [] }

  abbrev muted : Flow env → Flow env
  muted (next s) = next (mute s)
  muted (stop s) = stop (mute s)
  muted (fail s e) = fail (mute s) e
  muted crash = crash

  module _ (has_hook fallback : Bool) (n idx : ℕ) where
    mute-notify :
        (b : Bool) (call : HookCall Output) (s : State env) → mute (notify env b call s) ≡ mute s
    unfolding notify
    mute-notify true call s = refl
    mute-notify false call s = refl

    after_push-mute :
        (must_skip : Bool) (s t : State env)
        → mute s ≡ mute t
        → muted (after_push env n idx must_skip s) ≡ muted (after_push env n idx must_skip t)
    unfolding after_push
    after_push-mute true s t e = ap stop e
    after_push-mute false s t e =
        by_tests (ltb idx (n - 1)) (env.should_end_block_sequential s.limit)
          (env.should_end_block_sequential t.limit)
          (ap (λ u. env.should_end_block_sequential u.limit) e)
      where
        by_tests :
            (more a b : Bool)
            → a ≡ b
            → muted (if more then if a then stop s else next s else next s)
              ≡ muted (if more then if b then stop t else next t else next t)
        by_tests true true true h = ap stop e
        by_tests true true false h = absurd (cc)
        by_tests true false true h = absurd (cc)
        by_tests true false false h = ap next e
        by_tests false a b h = ap next e

    push_output-mute :
        (must_skip : Bool) (s : State env) (reads : Reads) (output : Output)
        → muted (push_output env has_hook n idx must_skip s reads output)
          ≡ muted (push_output env false n idx must_skip (mute s) reads output)
    unfolding push_output
    push_output-mute must_skip s reads output = go (commit_output env s.values reads output)
      where
        go :
            (c : Attempt (Failure env) (env.Map × Output))
            → muted (elim c as (λ _. Flow env) [
              | ok (m', output') ↦
                  let s' = record s { values = m'; ret = s.ret ++ output' ∷ [] } in
                  after_push env n idx must_skip
                    (notify env has_hook (on_transaction_committed idx output') s')
              | err e ↦ fail s e
              | panicked ↦ crash
            ])
              ≡ muted (elim c as (λ _. Flow env) [
                | ok (m', output') ↦
                    let s' = record (mute s) { values = m'; ret = s.ret ++ output' ∷ [] } in
                    after_push env n idx must_skip
                      (notify env false (on_transaction_committed idx output') s')
                | err e ↦ fail (mute s) e
                | panicked ↦ crash
              ])
        go (ok (m', output')) =
            let call = on_transaction_committed idx output' in
            let s' = record s { values = m'; ret = s.ret ++ output' ∷ [] } in
            after_push-mute must_skip (notify env has_hook call s')
              (notify env false call (mute s'))
              (mute-notify has_hook call s' ∙ sym (mute-notify false call (mute s')))
        go (err e) = refl
        go panicked = refl

    discard_or_push-mute :
        (must_skip : Bool) (s : State env) (reads : Reads) (output : Output)
        → muted (discard_or_push env has_hook fallback n idx must_skip s reads output)
          ≡ muted (discard_or_push env false fallback n idx must_skip (mute s) reads output)
    unfolding discard_or_push
    discard_or_push-mute must_skip s reads output =
        by_mode fallback (serialization_error env {F = Failure env} s.values output)
      where
        discarded : State env → State env
        discarded u = record u {
          ret = u.ret ++ env.discard_output delayed_materialization_code_invariant_error ∷ [];
        }

        by_mode :
            (mode : Bool) (c : Attempt (Failure env) Bool)
            → muted (
                if mode
                then elim c as (λ _. Flow env) [
                  | ok true ↦ next (discarded s)
                  | ok false ↦ push_output env has_hook n idx must_skip s reads output
                  | err e ↦ fail s e
                  | panicked ↦ crash
                ]
                else push_output env has_hook n idx must_skip s reads output)
              ≡ muted (
                  if mode
                  then elim c as (λ _. Flow env) [
                    | ok true ↦ next (discarded (mute s))
                    | ok false ↦ push_output env false n idx must_skip (mute s) reads output
                    | err e ↦ fail (mute s) e
                    | panicked ↦ crash
                  ]
                  else push_output env false n idx must_skip (mute s) reads output)
        by_mode false c = push_output-mute must_skip s reads output
        by_mode true (ok true) = refl
        by_mode true (ok false) = push_output-mute must_skip s reads output
        by_mode true (err e) = refl
        by_mode true panicked = refl

    on_output-mute :
        (must_skip : Bool) (txn : Txn) (s : State env) (reads : Reads) (output : Output)
        → muted (on_output env has_hook fallback n idx must_skip txn s reads output)
          ≡ muted (on_output env false fallback n idx must_skip txn (mute s) reads output)
    unfolding on_output account_for
    on_output-mute must_skip txn s reads output =
        elim (env.aggregator_v1_delta_set (env.materialize_agg_v1 output s.values))
          as (λ d.
            muted (elim d as (λ _. Flow env) [
              | [] ↦
                  discard_or_push env has_hook fallback n idx must_skip
                    (account_for env txn output reads s) reads
                    (env.materialize_agg_v1 output s.values)
              | _ ↦ crash
            ])
            ≡ muted (elim d as (λ _. Flow env) [
              | [] ↦
                  discard_or_push env false fallback n idx must_skip
                    (account_for env txn output reads (mute s)) reads
                    (env.materialize_agg_v1 output s.values)
              | _ ↦ crash
            ])) [
              | [] ↦
                  discard_or_push-mute must_skip (account_for env txn output reads s) reads
                    (env.materialize_agg_v1 output s.values)
              | x ∷ xs ↦ refl
            ]

    step-mute :
        (txn : Txn) (s : State env)
        → muted (step env has_hook fallback n idx txn s)
          ≡ muted (step env false fallback n idx txn (mute s))
    unfolding step dispatch on_failure
    step-mute txn s =
        let (status, m', reads) = env.execute_transaction s.values txn idx in
        by_status status (record s { values = m' }) reads
      where
        aborted :
            (s : State env) (e : BlockExecutionError Error)
            → muted (on_failure env has_hook idx s e) ≡ muted (on_failure env false idx (mute s) e)
        aborted s e =
            ap (λ u. fail u (error_to_return e))
              (mute-notify has_hook (on_execution_aborted idx) s
                ∙ sym (mute-notify false (on_execution_aborted idx) (mute s)))

        by_status :
            (status : ExecutionStatus Output Error) (s : State env) (reads : Reads)
            → muted (dispatch env has_hook fallback n idx txn s reads status)
              ≡ muted (dispatch env false fallback n idx txn (mute s) reads status)
        by_status (success o) s reads = on_output-mute false txn s reads o
        by_status (skip_rest o) s reads = on_output-mute true txn s reads o
        by_status (abort e) s reads = aborted s (fatal_vm_error e)
        by_status (speculative_execution_abort_error m) s reads =
            aborted s (fatal_block_executor_error (code_invariant_error m))
        by_status (delayed_fields_code_invariant_error m) s reads =
            aborted s (fatal_block_executor_error (code_invariant_error m))

  -- How the loop goes on from the end of an iteration.
  abbrev onward : (State env → Flow env) → Flow env → Flow env
  onward k (next s) = k s
  onward k (stop s) = stop s
  onward k (fail s e) = fail s e
  onward k crash = crash

  onward-mute :
      (k l : State env → Flow env) (f g : Flow env)
      → ((s : State env) → muted (k s) ≡ muted (l (mute s)))
      → ((s : State env) → muted (l s) ≡ muted (l (mute s)))
      → muted f ≡ muted g
      → muted (onward k f) ≡ muted (onward l g)
  onward-mute k l (next s) (next t) hk hl e =
      let same : mute s ≡ mute t =
        ap (λ f. elim f as (λ _. State env) [ next u ↦ u | stop u ↦ u | fail u x ↦ u | crash ↦ s ])
          e in
      hk s ∙ ap (λ u. muted (l u)) same ∙ sym (hl t)
  onward-mute k l (next s) (stop t) hk hl e = absurd (cc)
  onward-mute k l (next s) (fail t x) hk hl e = absurd (cc)
  onward-mute k l (next s) crash hk hl e = absurd (cc)
  onward-mute k l (stop s) (next t) hk hl e = absurd (cc)
  onward-mute k l (stop s) (stop t) hk hl e = e
  onward-mute k l (stop s) (fail t x) hk hl e = absurd (cc)
  onward-mute k l (stop s) crash hk hl e = absurd (cc)
  onward-mute k l (fail s x) (next t) hk hl e = absurd (cc)
  onward-mute k l (fail s x) (stop t) hk hl e = absurd (cc)
  onward-mute k l (fail s x) (fail t y) hk hl e = e
  onward-mute k l (fail s x) crash hk hl e = absurd (cc)
  onward-mute k l crash (next t) hk hl e = absurd (cc)
  onward-mute k l crash (stop t) hk hl e = absurd (cc)
  onward-mute k l crash (fail t x) hk hl e = absurd (cc)
  onward-mute k l crash crash hk hl e = refl

  run-mute :
      (has_hook fallback : Bool) (n idx : ℕ) (block : List Txn) (s : State env)
      → muted (run env has_hook fallback n idx block s)
        ≡ muted (run env false fallback n idx block (mute s))
  unfolding run
  run-mute has_hook fallback n idx [] s = refl
  run-mute has_hook fallback n idx (txn ∷ block) s =
      as_onward has_hook s
      ∙ onward-mute (run env has_hook fallback n (idx + 1) block)
          (run env false fallback n (idx + 1) block) (step env has_hook fallback n idx txn s)
          (step env false fallback n idx txn (mute s))
          (run-mute has_hook fallback n (idx + 1) block) (run-mute false fallback n (idx + 1) block)
          (step-mute has_hook fallback n idx txn s)
      ∙ sym (as_onward false (mute s))
    where
      as_onward :
          (b : Bool) (s : State env)
          → muted (run env b fallback n idx (txn ∷ block) s)
            ≡ muted
                (onward (run env b fallback n (idx + 1) block) (step env b fallback n idx txn s))
      as_onward b s = by_end (step env b fallback n idx txn s)
        where
          by_end :
              (f : Flow env)
              → muted (elim f as (λ _. Flow env) [
                | next s' ↦ run env b fallback n (idx + 1) block s'
                | stop s' ↦ stop s'
                | fail s' e ↦ fail s' e
                | crash ↦ crash
              ])
                ≡ muted (onward (run env b fallback n (idx + 1) block) f)
          by_end (next u) = refl
          by_end (stop u) = refl
          by_end (fail u e) = refl
          by_end crash = refl

  finish-mute : (n : ℕ) (f : Flow env) → (finish env n f).0 ≡ (finish env n (muted f)).0
  unfolding finish
  finish-mute n (next s) = refl
  finish-mute n (stop s) = refl
  finish-mute n (fail s e) = refl
  finish-mute n crash = refl

  -- Sequential execution returns the same with a commit hook and without one, in both modes.
  pub hook_independent :
      (block : List Txn) (fallback : Bool)
      → (execute_transactions_sequential env true block fallback).0
        ≡ (execute_transactions_sequential env false block fallback).0
  unfolding execute_transactions_sequential start
  hook_independent block fallback =
      let n = length block in
      let s = start env n in
      finish-mute n (run env true fallback n 0 block s)
      ∙ ap (λ f. (finish env n f).0) (run-mute true fallback n 0 block s)
      ∙ sym (finish-mute n (run env false fallback n 0 block s))
