-- ===== src/Block/Sequential/Commits.antt =====
-- The outputs of a sequential run and the calls on its commit hook.
use test_suites.Prelude.{
  ℕ, suc, ◌+◌, ◌-◌, ◌≤◌, ◌≡◌, refl, ap, sym, ◌∙◌, ◌⊎◌, inl, inr, true, false, List, [], ◌∷◌, ◌++◌,
  arith, append-nil, append_assoc, length, replicate,
}
use test_suites.Prelude.Attempt.{Attempt, ok, err, panicked}
use test_suites.Block.Status.{HookCall, on_transaction_committed, on_execution_aborted}
use test_suites.Block.Environment.{Environment}
use test_suites.Block.Sequential.{State, Flow, next, stop, fail, crash, Failure}
use test_suites.Block.Sequential.Advance.{Advance}

-- One commit call for each output, with rising indexes.
abbrev pub committed_from : {O : Type 0} → ℕ → List O → List (HookCall O)
committed_from i [] = []
committed_from i (o ∷ os) = on_transaction_committed i o ∷ committed_from (i + 1) os

module _ (env : Environment) where
  open env use {Txn, Output}

  -- The outputs `outs` were pushed from index `idx` on, each with its commit call.
  record Trace (idx bound : ℕ) (s s' : State env) : Type 0 where
    outs : List Output
    pushed : s'.ret ≡ s.ret ++ outs
    within : length outs ≤ bound
    tail : List (HookCall Output)
    called : s'.hooks ≡ s.hooks ++ (committed_from idx outs ++ tail)
    ending : (tail ≡ []) ⊎ (tail ≡ on_execution_aborted (idx + length outs) ∷ [])

  abbrev Traces : ℕ → ℕ → State env → Flow env → Type 0
  Traces idx bound s (next s') = (t : Trace idx bound s s') × (t.tail ≡ [])
  Traces idx bound s (stop s') = (t : Trace idx bound s s') × (t.tail ≡ [])
  Traces idx bound s (fail s' e) = Trace idx bound s s'
  Traces idx bound s crash = Unit

  none_yet : (idx bound : ℕ) (s : State env) → Trace idx bound s s
  none_yet idx bound s = record {
    outs = [];
    pushed = sym (append-nil s.ret);
    within = omega arith;
    tail = [];
    called = sym (append-nil s.hooks);
    ending = inl refl;
  }

  -- Without the fallback mode an iteration that goes on calls the hook.
  Advance-call :
      (idx : ℕ) (s s' : State env) (a : Advance env true false idx s.ret s.hooks s')
      → s'.hooks ≡ s.hooks ++ on_transaction_committed idx a.output ∷ []
  Advance-call idx s s' a = elim a.called [ inl e ↦ e | inr (no_mode, _, _) ↦ absurd (cc no_mode) ]

  later_ending :
      (i j : ℕ) {tail : List (HookCall Output)}
      → i ≡ j
      → (tail ≡ []) ⊎ (tail ≡ on_execution_aborted i ∷ [])
      → (tail ≡ []) ⊎ (tail ≡ on_execution_aborted j ∷ [])
  later_ending i j e (inl h) = inl h
  later_ending i j e (inr h) = inr (h ∙ ap (λ k. on_execution_aborted k ∷ []) e)

  one_more :
      (idx bound : ℕ) (s s₁ s' : State env)
      → Advance env true false idx s.ret s.hooks s₁
      → Trace (idx + 1) bound s₁ s'
      → Trace idx (suc bound) s s'
  one_more idx bound s s₁ s' a t = record {
    outs = a.output ∷ t.outs;
    pushed = t.pushed ∙ ap (λ r. r ++ t.outs) a.pushed ∙ append_assoc s.ret (a.output ∷ []) t.outs;
    within = omega (arith, t.within);
    tail = t.tail;
    called =
        t.called
        ∙ ap (λ h. h ++ (committed_from (idx + 1) t.outs ++ t.tail)) (Advance-call idx s s₁ a)
        ∙ append_assoc s.hooks (on_transaction_committed idx a.output ∷ [])
            (committed_from (idx + 1) t.outs ++ t.tail);
    ending =
        later_ending (idx + 1 + length t.outs) (idx + suc (length t.outs)) (omega arith) t.ending;
  }

  -- What a run over `n` transactions returns, with the calls on the hook.
  abbrev pub IsCommitted : ℕ → Attempt (Failure env) (List Output) → List (HookCall Output) → Type 0
  IsCommitted n (ok outs) hooks =
      (ret : List Output) × (outs ≡ ret ++ replicate (n - length ret) env.skip_output)
      × (hooks ≡ committed_from 0 ret)
      × (length ret ≤ n)
  IsCommitted n (err e) hooks =
      (ret : List Output) × ((hooks ≡ committed_from 0 ret)
        ⊎ (hooks ≡ committed_from 0 ret ++ on_execution_aborted (length ret) ∷ []))
      × (length ret ≤ n)
  IsCommitted n panicked hooks = Unit
