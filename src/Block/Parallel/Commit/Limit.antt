-- ===== src/Block/Parallel/Commit/Limit.antt =====
-- The gas limit in the loop of commits: no transaction that reaches it lets the loop go on.
use test_suites.Prelude.{
  ℕ, ◌+◌, ◌-◌, ◌<◌, ◌≡◌, refl, sym, ap, subst, ◌∙◌, Bool, true, false, ◌||◌, Option, none, some,
  List, ltb, lt→ltb, ◌==◌, if◌then◌else◌, ◌⊎◌, inl, inr, arith,
}
use test_suites.Prelude.Attempt.{Attempt, ok, err, panicked, ◌>>◌, map_err, >>=-eq-ok, ok-injective}
use test_suites.Block.Environment.{Environment}
use test_suites.Block.Parallel.{Versioned, ParallelError, panic_error}
use test_suites.Block.Parallel.Validation.{Scheduling}
use test_suites.Block.Parallel.Commit.{
  Committable, Committer, Iteration, go_on, return, approx_size, charge, account_for_fee,
  finalize_groups, queue_commit, commit_transaction,
}

module _ (env : Environment) (v : Versioned env) (sch : Scheduling env v)
    (k : Committable env v sch) where
  open env use {Txn, Fee, FinalizedGroup}
  open v use {Recorder}
  open sch use {Task}

  -- An output with a fee can be made to skip the rest, and the record of finalised groups keeps
  -- whether an output does.
  pub record SkipLaws : Type 0 where
    pub skips :
        (r : Recorder) (idx : ℕ) (fee : Fee)
        → k.fee_statement r idx ≡ some fee
        → k.block_skips_rest_at_idx (k.update_to_skip_rest r idx) idx ≡ true
    pub keeps :
        (r : Recorder) (idx : ℕ) (groups : List FinalizedGroup)
        → k.block_skips_rest_at_idx (k.record_finalized_group r idx groups) idx
          ≡ k.block_skips_rest_at_idx r idx

  >>-eq-ok :
      {A : Type 0} (first : Attempt ParallelError (Unit {0})) (later : Attempt ParallelError A)
      {y : A}
      → (first >> later) ≡ ok y
      → later ≡ ok y
  >>-eq-ok (ok u) later h = h
  >>-eq-ok (err e) later h = absurd (cc)
  >>-eq-ok panicked later h = absurd (cc)

  go_on-injective :
      {a b : Committer env v sch k}
      → ◌≡◌ {A = Attempt ParallelError (Iteration env v sch k)} (ok (go_on a)) (ok (go_on b))
      → a ≡ b
  go_on-injective h = cc

  queue_commit-go_on :
      (idx : ℕ) (task : Task) (s s' : Committer env v sch k)
      → queue_commit env v sch k idx task s ≡ ok (go_on s')
      → (((idx + 1) == k.num_txns s.scheduler) ≡ false)
        × (k.block_skips_rest_at_idx s.recorder idx ≡ false)
        × (record s { scheduler = k.add_to_commit_queue s.scheduler idx } ≡ s')
  unfolding queue_commit
  queue_commit-go_on idx task s s' h =
      by_tests ((idx + 1) == k.num_txns s.scheduler) (k.block_skips_rest_at_idx s.recorder idx)
        (k.is_execution_task task) _ _ h
    where
      by_tests :
          (last skip executing : Bool) (halted queued : Committer env v sch k)
          → ◌≡◌ {A = Attempt ParallelError (Iteration env v sch k)}
              (if last || skip
                then if last
                  then if executing then panicked else ok (return halted)
                  else ok (return halted)
                else ok (go_on queued))
              (ok (go_on s'))
          → (last ≡ false) × (skip ≡ false) × (queued ≡ s')
      by_tests false false executing halted queued e = (refl, refl, go_on-injective e)
      by_tests false true executing halted queued e = absurd (cc)
      by_tests true skip true halted queued e = absurd (cc)
      by_tests true skip false halted queued e = absurd (cc)

  -- A charge either stays below the limit or makes the output skip the rest.
  charge-below :
      (laws : SkipLaws) (block : List Txn) (idx : ℕ) (fee : Fee) (s s₁ : Committer env v sch k)
      → k.fee_statement s.recorder idx ≡ some fee
      → idx + 1 < k.num_txns s.scheduler
      → charge env v sch k block idx fee s ≡ ok s₁
      → k.block_skips_rest_at_idx s₁.recorder idx ≡ false
      → k.should_end_block_parallel s₁.limit ≡ false
  unfolding charge
  charge-below laws block idx fee s s₁ charged more h skip =
      let (size, _, h₁) = >>=-eq-ok (approx_size env v sch k block idx s.recorder) _ h in
      let same = ok-injective h₁ in
      subst
        (λ u.
          k.block_skips_rest_at_idx u.recorder idx ≡ false
          → k.should_end_block_parallel u.limit ≡ false)
        same
        (λ e.
          by_limit (ltb idx (k.num_txns s.scheduler - 1)) _
            (lt→ltb idx (k.num_txns s.scheduler - 1) (omega arith)) e)
        skip
    where
      by_limit :
          (inner ended : Bool)
          → inner ≡ true
          → k.block_skips_rest_at_idx
              (if inner
                then if ended then k.update_to_skip_rest s.recorder idx else s.recorder
                else s.recorder)
              idx
            ≡ false
          → ended ≡ false
      by_limit true true i e = absurd (let f = laws.skips s.recorder idx fee charged in cc)
      by_limit true false i e = refl
      by_limit false ended i e = absurd (cc)

  account_for_fee-below :
      (laws : SkipLaws) (block : List Txn) (idx : ℕ) (s s₁ : Committer env v sch k)
      → idx + 1 < k.num_txns s.scheduler
      → account_for_fee env v sch k block idx s ≡ ok s₁
      → k.block_skips_rest_at_idx s₁.recorder idx ≡ false
      → (k.fee_statement s.recorder idx ≡ none) ⊎ (k.should_end_block_parallel s₁.limit ≡ false)
  unfolding account_for_fee
  account_for_fee-below laws block idx s s₁ more h skip =
      by_fee (k.fee_statement s.recorder idx) refl h
    where
      by_fee :
          (fee : Option Fee)
          → k.fee_statement s.recorder idx ≡ fee
          → ◌≡◌ {A = Attempt ParallelError (Committer env v sch k)}
              (elim fee [ none ↦ ok s | some f ↦ charge env v sch k block idx f s ])
              (ok s₁)
          → (k.fee_statement s.recorder idx ≡ none) ⊎ (k.should_end_block_parallel s₁.limit ≡ false)
      by_fee none f e = inl f
      by_fee (some fee) f e = inr (charge-below laws block idx fee s s₁ f more e skip)

  account_for_fee-scheduler :
      (block : List Txn) (idx : ℕ) (s s₁ : Committer env v sch k)
      → account_for_fee env v sch k block idx s ≡ ok s₁
      → s.scheduler ≡ s₁.scheduler
  unfolding account_for_fee charge
  account_for_fee-scheduler block idx s s₁ h = by_fee (k.fee_statement s.recorder idx) h
    where
      by_fee :
          (fee : Option Fee)
          → ◌≡◌ {A = Attempt ParallelError (Committer env v sch k)}
              (elim fee [ none ↦ ok s | some f ↦ charge env v sch k block idx f s ])
              (ok s₁)
          → s.scheduler ≡ s₁.scheduler
      by_fee none e = ap (λ u. u.scheduler) (ok-injective e)
      by_fee (some fee) e =
          let (size, _, e₁) = >>=-eq-ok (approx_size env v sch k block idx s.recorder) _ e in
          ap (λ u. u.scheduler) (ok-injective e₁)

  not_last : (idx n : ℕ) → idx < n → ((idx + 1) == n) ≡ false → idx + 1 < n
  not_last idx n h e = ground arith

  -- Where an output with a fee can be made to skip the rest and finalised groups do not change
  -- that, an iteration that lets the loop go on has queued the commit of its transaction, which is
  -- not the last one, and either the transaction has no fee or the gas limit after it does not end
  -- the block.
  pub commit_transaction-below :
      (laws : SkipLaws) (block : List Txn) (idx : ℕ) (task : Task) (s s' : Committer env v sch k)
      → idx < k.num_txns s.scheduler
      → commit_transaction env v sch k block idx task s ≡ ok (go_on s')
      → (k.add_to_commit_queue s.scheduler idx ≡ s'.scheduler)
        × (idx + 1 < k.num_txns s.scheduler)
        × ((k.fee_statement s.recorder idx ≡ none) ⊎ (k.should_end_block_parallel s'.limit ≡ false))
  unfolding commit_transaction
  commit_transaction-below laws block idx task s s' inside h =
      let h₁ = >>-eq-ok (k.check_fatal_vm_error s.recorder idx) _ h in
      let h₂ =
        >>-eq-ok (map_err panic_error (k.check_execution_status_during_commit s.recorder idx)) _
          h₁ in
      let (s₁, accounted, h₃) = >>=-eq-ok (account_for_fee env v sch k block idx s) _ h₂ in
      let ((groups, cache'), _, h₄) =
        >>=-eq-ok (finalize_groups env v sch k idx (k.groups_to_finalize s₁.recorder idx) s₁.cache)
          _ h₃ in
      let (last, skip, same) = queue_commit-go_on idx task _ s' h₄ in
      let scheduled = account_for_fee-scheduler block idx s s₁ accounted in
      let more : idx + 1 < k.num_txns s.scheduler =
        not_last idx (k.num_txns s.scheduler) inside
          (ap (λ x. (idx + 1) == k.num_txns x) scheduled ∙ last) in
      let below =
        account_for_fee-below laws block idx s s₁ more accounted
          (sym (laws.keeps s₁.recorder idx groups) ∙ skip) in
      (
        ap (λ x. k.add_to_commit_queue x idx) scheduled ∙ ap (λ u. u.scheduler) same,
        more,
        subst
            (λ l. (k.fee_statement s.recorder idx ≡ none) ⊎ (k.should_end_block_parallel l ≡ false))
            (ap (λ u. u.limit) same) below,
      )
