-- ===== src/Simulator/Generate/Issues.antt =====
-- Sequences of signed transactions: the numbers of each sender follow one another.
use test_suites.Prelude.{
  ℕ, zero, suc, ◌+◌, ◌≡◌, refl, sym, ap, subst, ◌∙◌, ◌≢◌, true, List, [], ◌∷◌, some, ◌==◌, ==_iff,
  if◌then◌else◌, length, get_elem?, get_elem?-set_self, get_elem?-set_ne, get_elem?-lt, set,
  Bool-cases, inl, inr, arith,
}
use test_suites.Prelude.Words.{add64}
use test_suites.Prelude.Outcome.{
  Outcome, returns, >>=-eq-returns, returns-injective, unwrap, unwrap-eq-returns,
}
use test_suites.Transactions.{SignedTransaction}
use test_suites.Universe.Account.{AccountApi, AccountCurrent, increase_account_sequence_number}
use test_suites.Simulator.Generate.{Accounts, address_of, issue, issue_each}

-- The sequence numbers of the transactions that an address signed, in order.
abbrev pub numbers_of : ℕ → List SignedTransaction → List ℕ
numbers_of d [] = []
numbers_of d (t ∷ ts) =
    if t.sender == d then t.sequence_number ∷ numbers_of d ts else numbers_of d ts

-- `k` numbers from `n` on, as words.
abbrev pub consecutive : ℕ → ℕ → List ℕ
consecutive n zero = []
consecutive n (suc k) = n ∷ consecutive (add64 n 1) k

module _ (api : AccountApi) where
  open api use {AccountData}

  -- No two accounts have one address.
  abbrev pub Distinct : Accounts api → Type 0
  Distinct accounts =
      (i j : ℕ) (a b : AccountCurrent AccountData)
      → get_elem? accounts i ≡ some a
      → get_elem? accounts j ≡ some b
      → address_of api a ≡ address_of api b
      → i ≡ j

  -- One account signed one transaction.
  pub record Issued (accounts : Accounts api) (t : SignedTransaction) (accounts' : Accounts api)
      : Type 0 where
    pub index : ℕ
    pub signer : AccountCurrent AccountData
    pub found : get_elem? accounts index ≡ some signer
    pub by : t.sender ≡ address_of api signer
    pub number : t.sequence_number ≡ signer.sequence_number
    pub written : accounts' ≡ set accounts index (increase_account_sequence_number signer)

  pub data Issues : Accounts api → List SignedTransaction → Accounts api → Type 0 where
    none_left : {accounts : Accounts api} → Issues accounts [] accounts
    one_more :
        {accounts accounts' end : Accounts api} {t : SignedTransaction}
        {ts : List SignedTransaction}
        → Issued accounts t accounts'
        → Issues accounts' ts end
        → Issues accounts (t ∷ ts) end

  -- A transaction signed by the account that it is built from.
  abbrev pub IsSigned : (AccountCurrent AccountData → SignedTransaction) → Type 0
  IsSigned build =
      (a : AccountCurrent AccountData)
      → ((build a).sender ≡ address_of api a) × ((build a).sequence_number ≡ a.sequence_number)

  pub issue-Issued :
      (accounts : Accounts api) (i : ℕ) (build : AccountCurrent AccountData → SignedTransaction)
      {t : SignedTransaction} {accounts' : Accounts api}
      → IsSigned build
      → issue api accounts i build ≡ returns (t, accounts')
      → Issued accounts t accounts'
  unfolding issue
  issue-Issued accounts i build {t} {accounts'} signed h =
      let (a, at, h₁) = >>=-eq-returns (unwrap (get_elem? accounts i)) _ h in
      let e : (build a, set accounts i (increase_account_sequence_number a)) ≡ (t, accounts') =
        returns-injective h₁ in
      record {
        index = i;
        signer = a;
        found = unwrap-eq-returns (get_elem? accounts i) at;
        by = ap (λ p. p.0.sender) (sym e) ∙ (signed a).0;
        number = ap (λ p. p.0.sequence_number) (sym e) ∙ (signed a).1;
        written = ap (λ p. p.1) (sym e);
      }

  -- What a round has to do.
  abbrev pub IsIssuing :
      {S : Type 0}
      → (ℕ → Accounts api → S → Outcome (SignedTransaction × Accounts api × S))
      → Type 0
  IsIssuing {S} round =
      (i : ℕ) (accounts : Accounts api) (s : S) (t : SignedTransaction) (accounts' : Accounts api)
      (s' : S)
      → round i accounts s ≡ returns (t, accounts', s')
      → Issued accounts t accounts'

  pub issue_each-Issues :
      {S : Type 0} (round : ℕ → Accounts api → S → Outcome (SignedTransaction × Accounts api × S))
      (n start : ℕ) (accounts : Accounts api) (s : S) {ts : List SignedTransaction}
      {end : Accounts api} {s' : S}
      → IsIssuing round
      → issue_each api round n start accounts s ≡ returns (ts, end, s')
      → Issues accounts ts end × (length ts ≡ n)
  unfolding issue_each
  issue_each-Issues round zero start accounts s {ts} {end} {s'} issuing h =
      let e : ([], accounts, s) ≡ (ts, end, s') = returns-injective h in
      subst (λ r. Issues accounts r.0 r.1 × (length r.0 ≡ 0)) e (none_left, refl)
  issue_each-Issues round (suc n) start accounts s {ts} {end} {s'} issuing h =
      let ((t, accounts₁, s₁), ran, h₁) = >>=-eq-returns (round start accounts s) _ h in
      let ((rest, end₁, s₂), looped, h₂) =
        >>=-eq-returns (issue_each api round n (start + 1) accounts₁ s₁) _ h₁ in
      let (later, many) = issue_each-Issues round n (start + 1) accounts₁ s₁ issuing looped in
      let e : (t ∷ rest, end₁, s₂) ≡ (ts, end, s') = returns-injective h₂ in
      subst (λ r. Issues accounts r.0 r.1 × (length r.0 ≡ suc n)) e
        (one_more (issuing start accounts s t accounts₁ s₁ ran) later, ap suc many)

  some-injective : {a b : AccountCurrent AccountData} → some a ≡ some b → a ≡ b
  some-injective h = cc

  set-signer :
      (accounts : Accounts api) (j k : ℕ) (b c : AccountCurrent AccountData)
      → get_elem? accounts j ≡ some b
      → get_elem? (set accounts j (increase_account_sequence_number b)) k ≡ some c
      → (d : AccountCurrent AccountData) × (get_elem? accounts k ≡ some d)
        × (address_of api c ≡ address_of api d)
  unfolding increase_account_sequence_number
  set-signer accounts j k b c at h = elim (Bool-cases (j == k)) [
    | inl same ↦
        let e : j ≡ k = (==_iff j k).0 same in
        let after =
          get_elem?-set_self accounts j (increase_account_sequence_number b)
            (get_elem?-lt accounts j b at) in
        (
          b,
          subst (λ i. get_elem? accounts i ≡ some b) e at,
          ap (address_of api) (
              some-injective (
                sym (
                  subst
                    (λ i.
                      get_elem? (set accounts j (increase_account_sequence_number b)) i ≡ some c)
                    (sym e) h)
                ∙ after)),
        )
    | inr other ↦
        let ne : j ≢ k = ground arith in (c, sym (get_elem?-set_ne accounts j k _ ne) ∙ h, refl)
  ]

  Distinct-set :
      (accounts : Accounts api) (j : ℕ) (b : AccountCurrent AccountData)
      → get_elem? accounts j ≡ some b
      → Distinct accounts
      → Distinct (set accounts j (increase_account_sequence_number b))
  Distinct-set accounts j b at distinct i k x y hx hy e =
      let (x', gx, ex) = set-signer accounts j i b x at hx in
      let (y', gy, ey) = set-signer accounts j k b y at hy in
      distinct i k x' y' gx gy (sym ex ∙ e ∙ ey)

  numbers-signed :
      (t : SignedTransaction) (ts : List SignedTransaction) (d n : ℕ)
      → t.sender ≡ d
      → t.sequence_number ≡ n
      → numbers_of d ts ≡ consecutive (add64 n 1) (length (numbers_of d ts))
      → numbers_of d (t ∷ ts) ≡ consecutive n (length (numbers_of d (t ∷ ts)))
  numbers-signed t ts d n by number h =
      let mine : (t.sender == d) ≡ true = ground arith in rw mine (rw number (ap (λ xs. n ∷ xs) h))

  numbers-other :
      (t : SignedTransaction) (ts : List SignedTransaction) (d : ℕ)
      → t.sender ≢ d
      → numbers_of d (t ∷ ts) ≡ numbers_of d ts
  numbers-other t ts d ne = ground arith

  -- In a sequence of signed transactions from accounts of distinct addresses, those of one
  -- account carry the numbers that follow its own.
  pub Issues-numbers :
      {accounts end : Accounts api} {ts : List SignedTransaction} (i : ℕ)
      (a : AccountCurrent AccountData)
      → Distinct accounts
      → get_elem? accounts i ≡ some a
      → Issues accounts ts end
      → numbers_of (address_of api a) ts
        ≡ consecutive a.sequence_number (length (numbers_of (address_of api a) ts))
  unfolding increase_account_sequence_number
  Issues-numbers i a distinct at none_left = refl
  Issues-numbers {accounts = accounts} i a distinct at
        (one_more {accounts' = accounts'} {t = t} {ts = ts} issued later) =
      let j = issued.index in
      let b = issued.signer in
      let b' = increase_account_sequence_number b in
      let still =
        subst Distinct (sym issued.written) (Distinct-set accounts j b issued.found distinct) in
      elim (Bool-cases (j == i)) [
        | inl same ↦
            let e : j ≡ i = (==_iff j i).0 same in
            let b-a : b ≡ a = some-injective (sym issued.found ∙ ap (get_elem? accounts) e ∙ at) in
            let after = get_elem?-set_self accounts j b' (get_elem?-lt accounts j b issued.found) in
            let rest =
              Issues-numbers j b' still
                (subst (λ l. get_elem? l j ≡ some b') (sym issued.written) after) later in
            subst
              (λ c.
                numbers_of (address_of api c) (t ∷ ts)
                ≡ consecutive c.sequence_number (length (numbers_of (address_of api c) (t ∷ ts))))
              b-a
              (numbers-signed t ts (address_of api b) b.sequence_number issued.by issued.number
                rest)
        | inr other ↦
            let ne : j ≢ i = ground arith in
            let rest =
              Issues-numbers i a still
                (subst (λ l. get_elem? l i ≡ some a) (sym issued.written)
                  (get_elem?-set_ne accounts j i b' ne ∙ at))
                later in
            let skipped =
              numbers-other t ts (address_of api a)
                (λ same. ne (distinct j i b a issued.found at (sym issued.by ∙ same))) in
            skipped ∙ rest ∙ ap (λ xs. consecutive a.sequence_number (length xs)) (sym skipped)
      ]
