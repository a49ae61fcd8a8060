-- ===== src/Sui/Consensus/Served.antt =====
-- The calls of the rounds of `run_impl`, told apart.
use test_suites.Prelude.{
  ◌≡◌, refl, sym, ap, subst, ◌∙◌, Bool, true, false, List, [], ◌∷◌, ◌++◌, append-nil, if◌then◌else◌,
}
use test_suites.Prelude.Outcome.{returns, ◌>>=◌, ◌>>◌, ensure, >>=-eq-returns, returns-injective}
use test_suites.Sui.Consensus.{
  ConsensusMode, noop, direct_sequencing, ConsensusTransaction, user_transaction, other_transaction,
  ValidatorCall, process_consensus_transactions, enqueue_certificates_for_execution, sequence,
  user_certificate, run_round,
}

module _ {C : Type 0} (contains_shared_object : C → Bool) where
  -- The certificates with a shared object.
  abbrev pub shared_certificates : List (ConsensusTransaction C) → List C
  shared_certificates [] = []
  shared_certificates (user_transaction cert ∷ txs) =
      if contains_shared_object cert
      then cert ∷ shared_certificates txs
      else shared_certificates txs
  shared_certificates (other_transaction ∷ txs) = shared_certificates txs

  shared_certificates-append :
      (xs ys : List (ConsensusTransaction C))
      → shared_certificates (xs ++ ys) ≡ shared_certificates xs ++ shared_certificates ys
  shared_certificates-append [] ys = refl
  shared_certificates-append (user_transaction cert ∷ xs) ys =
      cases (contains_shared_object cert) (shared_certificates xs) (shared_certificates ys)
        (shared_certificates-append xs ys)
    where
      cases :
          (b : Bool) (m r : List C) {l : List C}
          → l ≡ m ++ r
          → (if b then cert ∷ l else l) ≡ (if b then cert ∷ m else m) ++ r
      cases true m r h = ap (λ l. cert ∷ l) h
      cases false m r h = h
  shared_certificates-append (other_transaction ∷ xs) ys = shared_certificates-append xs ys

abbrev pub enqueued : {C : Type 0} → List (ValidatorCall C) → List C
enqueued [] = []
enqueued (enqueue_certificates_for_execution cert ∷ calls) = cert ∷ enqueued calls
enqueued (process_consensus_transactions tx ∷ calls) = enqueued calls

abbrev pub processed : {C : Type 0} → List (ValidatorCall C) → List (ConsensusTransaction C)
processed [] = []
processed (enqueue_certificates_for_execution cert ∷ calls) = processed calls
processed (process_consensus_transactions tx ∷ calls) = tx ∷ processed calls

enqueued-append :
    {C : Type 0} (xs ys : List (ValidatorCall C)) → enqueued (xs ++ ys) ≡ enqueued xs ++ enqueued ys
enqueued-append [] ys = refl
enqueued-append (enqueue_certificates_for_execution cert ∷ xs) ys =
    ap (λ l. cert ∷ l) (enqueued-append xs ys)
enqueued-append (process_consensus_transactions tx ∷ xs) ys = enqueued-append xs ys

processed-append :
    {C : Type 0} (xs ys : List (ValidatorCall C))
    → processed (xs ++ ys) ≡ processed xs ++ processed ys
processed-append [] ys = refl
processed-append (enqueue_certificates_for_execution cert ∷ xs) ys = processed-append xs ys
processed-append (process_consensus_transactions tx ∷ xs) ys =
    ap (λ l. tx ∷ l) (processed-append xs ys)

-- What the mode sequences.
abbrev pub sequenced :
    {C : Type 0} → ConsensusMode → List (ConsensusTransaction C) → List (ConsensusTransaction C)
sequenced noop txs = []
sequenced direct_sequencing txs = txs

sequenced-append :
    {C : Type 0} (mode : ConsensusMode) (xs ys : List (ConsensusTransaction C))
    → sequenced mode (xs ++ ys) ≡ sequenced mode xs ++ sequenced mode ys
sequenced-append noop xs ys = refl
sequenced-append direct_sequencing xs ys = refl

module _ {C : Type 0} (contains_shared_object : C → Bool) where
  -- The calls answer exactly these transactions: every certificate with a shared object is
  -- enqueued once, in order, and every transaction is processed in order where the mode sequences.
  abbrev pub IsAnswered :
      ConsensusMode → List (ConsensusTransaction C) → List (ValidatorCall C) → Type 0
  IsAnswered mode txs calls =
      (enqueued calls ≡ shared_certificates contains_shared_object txs)
      × (processed calls ≡ sequenced mode txs)

  pub IsAnswered-append :
      (mode : ConsensusMode) (xs ys : List (ConsensusTransaction C))
      (cs ds : List (ValidatorCall C))
      → IsAnswered mode xs cs
      → IsAnswered mode ys ds
      → IsAnswered mode (xs ++ ys) (cs ++ ds)
  IsAnswered-append mode xs ys cs ds (e, p) (e', p') = (
    enqueued-append cs ds
        ∙ ap (λ l. l ++ enqueued ds) e
        ∙ ap (λ l. shared_certificates contains_shared_object xs ++ l) e'
        ∙ sym (shared_certificates-append contains_shared_object xs ys),
    processed-append cs ds
        ∙ ap (λ l. l ++ processed ds) p
        ∙ ap (λ l. sequenced mode xs ++ l) p'
        ∙ sym (sequenced-append mode xs ys),
  )

  -- The calls of a round after those that sequence.
  enqueues-IsAnswered :
      (mode : ConsensusMode) (cert : C) (before : List (ValidatorCall C))
      → enqueued before ≡ []
      → processed before ≡ sequenced mode (user_transaction cert ∷ [])
      → IsAnswered mode (user_transaction cert ∷ []) (
          before
          ++ (if contains_shared_object cert
              then enqueue_certificates_for_execution cert ∷ []
              else []))
  enqueues-IsAnswered mode cert before none_before all_before = cases (contains_shared_object cert)
    where
      cases :
          (b : Bool)
          → (enqueued (before ++ (if b then enqueue_certificates_for_execution cert ∷ [] else []))
              ≡ (if b then cert ∷ [] else []))
            × (processed
                  (before ++ (if b then enqueue_certificates_for_execution cert ∷ [] else []))
                ≡ sequenced mode (user_transaction cert ∷ []))
      cases true =
          let more = enqueue_certificates_for_execution cert ∷ [] in
          (
            enqueued-append before more ∙ ap (λ l. l ++ cert ∷ []) none_before,
            processed-append before more ∙ append-nil (processed before) ∙ all_before,
          )
      cases false = (
        ap enqueued (append-nil before) ∙ none_before,
        ap processed (append-nil before) ∙ all_before,
      )

  module _ (sequences : ConsensusTransaction C → Bool) where
    pub run_round-IsAnswered :
        (mode : ConsensusMode) (tx : ConsensusTransaction C) {calls : List (ValidatorCall C)}
        → run_round contains_shared_object sequences mode tx ≡ returns calls
        → IsAnswered mode (tx ∷ []) calls
    unfolding run_round sequence user_certificate
    run_round-IsAnswered noop other_transaction done = absurd (cc)
    run_round-IsAnswered noop (user_transaction cert) done =
        subst (IsAnswered noop (user_transaction cert ∷ [])) (returns-injective done)
          (enqueues-IsAnswered noop cert [] refl refl)
    run_round-IsAnswered direct_sequencing tx done =
        let (before, first, done₁) =
          >>=-eq-returns
            (sequence contains_shared_object sequences direct_sequencing direct_sequencing tx) _
            done in
        after tx before (sequences tx) first done₁
      where
        after :
            (tx : ConsensusTransaction C) (before : List (ValidatorCall C)) (b : Bool)
            {calls : List (ValidatorCall C)}
            → (ensure b >> returns (process_consensus_transactions tx ∷ [])) ≡ returns before
            → (user_certificate contains_shared_object sequences direct_sequencing tx >>= λ cert.
                returns (
                  before
                  ++ (if contains_shared_object cert
                      then enqueue_certificates_for_execution cert ∷ []
                      else [])))
              ≡ returns calls
            → IsAnswered direct_sequencing (tx ∷ []) calls
        after tx before false first done = absurd (cc)
        after other_transaction before true first done = absurd (cc)
        after (user_transaction cert) before true first done =
            let same = returns-injective first in
            subst (IsAnswered direct_sequencing (user_transaction cert ∷ []))
              (returns-injective done)
              (enqueues-IsAnswered direct_sequencing cert before (ap enqueued (sym same))
                (ap processed (sym same)))

    -- A user transaction, which the epoch store takes.
    abbrev pub IsServed : ConsensusTransaction C → Type 0
    IsServed tx = (cert : C) × (tx ≡ user_transaction cert) × (sequences tx ≡ true)

    pub run_round-returns :
        (mode : ConsensusMode) (tx : ConsensusTransaction C)
        → IsServed tx
        → (calls : List (ValidatorCall C)) × (run_round contains_shared_object sequences mode tx
            ≡ returns calls)
    unfolding run_round sequence user_certificate
    run_round-returns mode tx (cert, same, taken) =
        subst
          (λ t.
            (calls : List (ValidatorCall C)) × (run_round contains_shared_object sequences mode t
              ≡ returns calls))
          (sym same) (of_user mode (subst (λ t. sequences t ≡ true) same taken))
      where
        of_user :
            (mode : ConsensusMode)
            → sequences (user_transaction cert) ≡ true
            → (calls : List (ValidatorCall C)) × (run_round contains_shared_object sequences mode
                  (user_transaction cert)
                ≡ returns calls)
        of_user noop taken = (_, refl)
        of_user direct_sequencing taken = (
          process_consensus_transactions (user_transaction cert)
              ∷ (if contains_shared_object cert
                  then enqueue_certificates_for_execution cert ∷ []
                  else []),
          rw taken,
        )
