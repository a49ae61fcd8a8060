-- ===== src/Block/Entry/Outcomes.antt =====
-- What `execute_block` can end with, for every configuration.
use test_suites.Prelude.{
  ℕ, ◌≡◌, ◌≢◌, refl, ◌⊎◌, inl, inr, Bool, true, false, Option, none, some, List, [], ◌∷◌, ltb,
  arith, if◌then◌else◌, length, length-map, length-append, length-replicate, length-take, take, ◌-◌,
  replicate, Bool-cases, map, ◌∙◌, subst, is_empty,
}
use test_suites.Prelude.Outcome.{Outcome, returns, panics}
use test_suites.Prelude.Attempt.{Attempt, ok, err, panicked, ok-injective}
use test_suites.Block.Status.{
  LocalConfig, BlockExecutionError, SequentialBlockExecutionError, error_to_return,
  resource_group_serialization_error, HookCall, fatal_block_executor_error, code_invariant_error,
}
use test_suites.Block.Environment.{Environment}
use test_suites.Block.Sequential.{
  execute_transactions_sequential, finish, resize_with, Flow, next, stop, fail, crash, run, start,
}
use test_suites.Block.Entry.{
  Scope, WorkerResult, Result, maybe_error, execute_transactions_parallel, error_code, on_error,
  bcs_fallback, run_sequential, execute_block,
}

module _ (env : Environment) where
  open env use {Txn, Output, Error}

  -- The workers write into the results and never change their number.
  abbrev pub KeepsLength : Scope env → Type 0
  KeepsLength scope =
      (workers : ℕ) (block : List Txn) (initial final : List Output) (results : List WorkerResult)
      → scope workers block initial ≡ returns (results, final)
      → length final ≡ length initial

  -- A sequential pass panicked.
  abbrev pub Panicked : Bool → List Txn → Bool → Type 0
  Panicked has_hook block fallback =
      (execute_transactions_sequential env has_hook block fallback).0 ≡ panicked

  -- The ends that the configuration allows.
  abbrev pub IsAllowed :
      Scope env
      → LocalConfig
      → Bool
      → List Txn
      → Attempt (BlockExecutionError Error) (List Output)
      → Type 0
  IsAllowed scope local has_hook block (ok outputs) = length outputs ≡ length block
  IsAllowed scope local has_hook block (err e) = local.discard_failed_blocks ≡ false
  IsAllowed scope local has_hook block panicked =
      (local.allow_fallback ≡ false)
      ⊎ ((execute_transactions_parallel env scope local block ≡ panics)
          ⊎ (Panicked has_hook block false ⊎ Panicked has_hook block true))

  length-resize_with : (n : ℕ) (d : Output) (xs : List Output) → length (resize_with n d xs) ≡ n
  unfolding resize_with
  length-resize_with n d xs = omega (
    arith,
    length-append (take n xs) (replicate (n - length xs) d),
    length-replicate (n - length xs) d,
    length-take n xs,
  )

  sequential_length :
      (has_hook : Bool) (block : List Txn) (fallback : Bool) {outputs : List Output}
      → (execute_transactions_sequential env has_hook block fallback).0 ≡ ok outputs
      → length outputs ≡ length block
  unfolding execute_transactions_sequential
  sequential_length has_hook block fallback {outputs} h =
      go (run env has_hook fallback (length block) 0 block (start env (length block))) h
    where
      go :
          (f : Flow env)
          → (finish env (length block) f).0 ≡ ok outputs
          → length outputs ≡ length block
      go (next s) e =
          subst (λ o. length o ≡ length block) (ok-injective e)
            (length-resize_with (length block) env.skip_output s.ret)
      go (stop s) e =
          subst (λ o. length o ≡ length block) (ok-injective e)
            (length-resize_with (length block) env.skip_output s.ret)
      go (fail s x) e = absurd (cc)
      go crash e = absurd (cc)

  module _ (scope : Scope env) (local : LocalConfig) (has_hook : Bool) (block : List Txn) where
    abbrev Allowed : Attempt (BlockExecutionError Error) (List Output) → Type 0
    Allowed = IsAllowed scope local has_hook block

    on_error-Allowed : (e : BlockExecutionError Error) → Allowed (on_error env local block e)
    unfolding on_error
    on_error-Allowed e = by_config local.discard_failed_blocks refl
      where
        by_config :
            (b : Bool)
            → local.discard_failed_blocks ≡ b
            → Allowed
                (if b then ok (map (λ _. env.discard_output (error_code env e)) block) else err e)
        by_config true h = length-map (λ _. env.discard_output (error_code env e)) block
        by_config false h = h

    bcs_fallback-Allowed :
        (calls : List (HookCall Output)) → Allowed (bcs_fallback env local has_hook block calls).0
    unfolding bcs_fallback
    bcs_fallback-Allowed calls = go (execute_transactions_sequential env has_hook block true).0 refl
      where
        go :
            (r : Attempt (SequentialBlockExecutionError Error) (List Output))
            → (execute_transactions_sequential env has_hook block true).0 ≡ r
            → Allowed (elim r [
              | ok outputs ↦ ok outputs
              | err resource_group_serialization_error ↦ on_error env local block (
                  fatal_block_executor_error (
                    code_invariant_error
                      "resource group serialization during bcs fallback should not happen"))
              | err (error_to_return e) ↦ on_error env local block e
              | panicked ↦ panicked
            ])
        go (ok outputs) e = sequential_length has_hook block true e
        go (err resource_group_serialization_error) e = on_error-Allowed (
            fatal_block_executor_error (
              code_invariant_error
                "resource group serialization during bcs fallback should not happen"))
        go (err (error_to_return x)) e = on_error-Allowed x
        go panicked e = inr (inr (inr e))

    run_sequential-Allowed : Allowed (run_sequential env local has_hook block).0
    unfolding run_sequential
    run_sequential-Allowed =
        go (execute_transactions_sequential env has_hook block false).0
          (execute_transactions_sequential env has_hook block false).1 refl
      where
        by_config :
            (calls : List (HookCall Output)) (b : Bool)
            → local.allow_fallback ≡ b
            → Allowed
                (if b then bcs_fallback env local has_hook block calls else (panicked, calls)).0
        by_config calls true h = bcs_fallback-Allowed calls
        by_config calls false h = inl h

        go :
            (r : Attempt (SequentialBlockExecutionError Error) (List Output))
            (calls : List (HookCall Output))
            → (execute_transactions_sequential env has_hook block false).0 ≡ r
            → Allowed (
                let result : Result env = elim r [
                  | ok outputs ↦ (ok outputs, calls)
                  | err resource_group_serialization_error ↦
                      if local.allow_fallback
                      then bcs_fallback env local has_hook block calls
                      else (panicked, calls)
                  | err (error_to_return e) ↦ (on_error env local block e, calls)
                  | panicked ↦ (panicked, calls)
                ] in
                result.0)
        go (ok outputs) calls e = sequential_length has_hook block false e
        go (err resource_group_serialization_error) calls e =
            by_config calls local.allow_fallback refl
        go (err (error_to_return x)) calls e = on_error-Allowed x
        go panicked calls e = inr (inr (inl e))

    parallel_length :
        KeepsLength scope
        → {outputs : List Output}
        → execute_transactions_parallel env scope local block ≡ returns (some outputs)
        → length outputs ≡ length block
    unfolding execute_transactions_parallel
    parallel_length keeps {outputs} h =
        by_level (ltb 1 local.concurrency_level) (is_empty block) refl h
      where
        kept :
            (finals : List Output) (b : Bool)
            → b ≡ false
            → returns (if b then none else some finals) ≡ returns (some outputs)
            → finals ≡ outputs
        kept finals true h e = absurd (cc)
        kept finals false h e = cc e

        lost :
            (finals : List Output) (b : Bool)
            → b ≡ true
            → returns (if b then none else some finals) ≢ returns (some outputs)
        lost finals true h e = absurd (cc)
        lost finals false h e = cc

        no_block : (b : List Txn) → is_empty b ≡ true → 0 ≡ length b
        no_block [] h = refl
        no_block (t ∷ b) h = absurd (cc)

        collected :
            (r : Outcome (List WorkerResult × List Output))
            → scope local.concurrency_level block (replicate (length block) env.skip_output) ≡ r
            → (elim r as (λ _. Outcome (Option (List Output))) [
              | returns (results, finals) ↦
                  returns (if maybe_error env results then none else some finals)
              | panics ↦ panics
            ])
              ≡ returns (some outputs)
            → length outputs ≡ length block
        collected (returns (results, finals)) from e = elim (Bool-cases (maybe_error env results)) [
          | inl broken ↦ absurd (lost finals (maybe_error env results) broken e)
          | inr whole ↦
              subst (λ o. length o ≡ length block) (kept finals (maybe_error env results) whole e)
                (keeps local.concurrency_level block (replicate (length block) env.skip_output)
                    finals results from
                  ∙ length-replicate (length block) env.skip_output)
        ]
        collected panics from e = absurd (cc)

        by_level :
            (many none_there : Bool)
            → is_empty block ≡ none_there
            → (if many
                then if none_there
                  then returns (some [])
                  else elim (scope local.concurrency_level block
                        (replicate (length block) env.skip_output))
                      as (λ _. Outcome (Option (List Output))) [
                        | returns (results, finals) ↦
                            returns (if maybe_error env results then none else some finals)
                        | panics ↦ panics
                      ]
                else panics)
              ≡ returns (some outputs)
            → length outputs ≡ length block
        by_level false b e h = absurd (cc)
        by_level true true e h =
            let none_returned : [] ≡ outputs = cc h in
            subst (λ o. length o ≡ length block) none_returned (no_block block e)
        by_level true false e h =
            collected
              (scope local.concurrency_level block (replicate (length block) env.skip_output)) refl
              h

    -- Whatever the configuration, `execute_block` returns one output for each transaction of the
    -- block, or an error only if failed blocks are not discarded; it panics only if the fallback
    -- is not allowed, or the workers' scope or a sequential pass panicked.
    pub execute_block-Allowed :
        KeepsLength scope → Allowed (execute_block env scope local has_hook block).0
    unfolding execute_block
    execute_block-Allowed keeps = by_level (ltb 1 local.concurrency_level)
      where
        by_config :
            (b : Bool)
            → local.allow_fallback ≡ b
            → Allowed (if b then run_sequential env local has_hook block else (panicked, [])).0
        by_config true h = run_sequential-Allowed
        by_config false h = inl h

        after_parallel :
            (r : Outcome (Option (List Output)))
            → execute_transactions_parallel env scope local block ≡ r
            → Allowed (
                let result : Result env = elim r [
                  | returns (some outputs) ↦ (ok outputs, [])
                  | returns none ↦
                      if local.allow_fallback
                      then run_sequential env local has_hook block
                      else (panicked, [])
                  | panics ↦ (panicked, [])
                ] in
                result.0)
        after_parallel (returns (some outputs)) e = parallel_length keeps e
        after_parallel (returns none) e = by_config local.allow_fallback refl
        after_parallel panics e = inr (inl e)

        by_level :
            (many : Bool)
            → Allowed
                (if many
                  then elim (execute_transactions_parallel env scope local block)
                      as (λ _. Result env) [
                        | returns (some outputs) ↦ (ok outputs, [])
                        | returns none ↦
                            if local.allow_fallback
                            then run_sequential env local has_hook block
                            else (panicked, [])
                        | panics ↦ (panicked, [])
                      ]
                  else run_sequential env local has_hook block).0
        by_level true = after_parallel (execute_transactions_parallel env scope local block) refl
        by_level false = run_sequential-Allowed
