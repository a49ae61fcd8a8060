-- ===== src/Sui/Checkpoints/Partition.antt =====
-- The checkpoints partition the transactions in order.
use test_suites.Prelude.{
  ℕ, ◌+◌, ◌≤◌, ◌<◌, ◌≡◌, refl, sym, ap, subst, ◌∙◌, Bool, true, false, some, List, [], ◌∷◌, ◌++◌,
  ltb, ◌==◌, ==_iff, if◌then◌else◌, arith, map, map-append, append-nil, append_assoc, All, length,
  length-append,
}
use test_suites.Prelude.Maps.{Dict, lookup, erase, lookup-erase}
use test_suites.Prelude.Outcome.{
  returns, ◌>>=◌, >>=-eq-returns, returns-injective, unwrap, unwrap-eq-returns,
}
use test_suites.Sui.Checkpoints.{Builder, build_from, build_checkpoints}

abbrev pub flatten : {A : Type 0} → List (List A) → List A
flatten [] = []
flatten (xs ∷ rest) = xs ++ flatten rest

-- Every chunk has `n` elements, except that the last may have fewer but has one.
abbrev pub IsChunked : {A : Type 0} → ℕ → List (List A) → Type 0
IsChunked n [] = Unit
IsChunked n (c ∷ []) = (0 < length c) × (length c ≤ n)
IsChunked n (c ∷ d ∷ rest) = (length c ≡ n) × IsChunked n (d ∷ rest)

module _ (b : Builder) where
  open b use {Transaction, Effects, Checkpoint, State}

  -- What the loop leaves: the checkpoints it built are full, and with what is still held they are
  -- what was held and the transactions with their effects.
  record Built (n : ℕ) (s : State) (ts : List Transaction) (m : Dict Effects) (cs : List Checkpoint)
      (end : State) : Type 0 where
    pairs : List (Transaction × Effects)
    ordered : map (λ p. p.0) pairs ≡ ts
    known : All (λ p. lookup (b.digest p.0) m ≡ some p.1) pairs
    split : b.held s ++ pairs ≡ flatten (map b.contents cs) ++ b.held end
    full : All (λ c. length (b.contents c) ≡ n) cs
    room : length (b.held end) < n

  known-erase :
      (k : ℕ) (m : Dict Effects) (pairs : List (Transaction × Effects))
      → All (λ p. lookup (b.digest p.0) (erase k m) ≡ some p.1) pairs
      → All (λ p. lookup (b.digest p.0) m ≡ some p.1) pairs
  known-erase k m [] h = tt
  known-erase k m (p ∷ pairs) (h, hs) =
      (ground (arith, lookup-erase k (b.digest p.0) m), known-erase k m pairs hs)

  Built-build :
      (n : ℕ) (s : State) (t : Transaction) (e : Effects) (ts : List Transaction) (m : Dict Effects)
      (cs : List Checkpoint) (end : State)
      → lookup (b.digest t) m ≡ some e
      → b.size (b.push_transaction s t e) ≡ n
      → Built n (b.build (b.push_transaction s t e)).1 ts (erase (b.digest t) m) cs end
      → Built n s (t ∷ ts) m ((b.build (b.push_transaction s t e)).0 ∷ cs) end
  Built-build n s t e ts m cs end found size later =
      let s' = b.push_transaction s t e in
      record {
        pairs = (t, e) ∷ later.pairs;
        ordered = ap (λ l. t ∷ l) later.ordered;
        known = (found, known-erase (b.digest t) m later.pairs later.known);
        split =
            sym (append_assoc (b.held s) ((t, e) ∷ []) later.pairs)
            ∙ ap (λ l. l ++ later.pairs) (sym (b.held-push_transaction s t e))
            ∙ ap (λ l. b.held s' ++ l)
                (ap (λ l. l ++ later.pairs) (sym (b.held-build s')) ∙ later.split)
            ∙ sym (append_assoc (b.held s') (flatten (map b.contents cs)) (b.held end))
            ∙ ap (λ l. (l ++ flatten (map b.contents cs)) ++ b.held end)
                (sym (b.contents-build s'));
        full = (ap length (b.contents-build s') ∙ sym (b.size-length s') ∙ size, later.full);
        room = later.room;
      }

  Built-hold :
      (n : ℕ) (s : State) (t : Transaction) (e : Effects) (ts : List Transaction) (m : Dict Effects)
      (cs : List Checkpoint) (end : State)
      → lookup (b.digest t) m ≡ some e
      → Built n (b.push_transaction s t e) ts (erase (b.digest t) m) cs end
      → Built n s (t ∷ ts) m cs end
  Built-hold n s t e ts m cs end found later = record {
    pairs = (t, e) ∷ later.pairs;
    ordered = ap (λ l. t ∷ l) later.ordered;
    known = (found, known-erase (b.digest t) m later.pairs later.known);
    split =
        sym (append_assoc (b.held s) ((t, e) ∷ []) later.pairs)
        ∙ ap (λ l. l ++ later.pairs) (sym (b.held-push_transaction s t e))
        ∙ later.split;
    full = later.full;
    room = later.room;
  }

  length-push :
      (s : State) (t : Transaction) (e : Effects)
      → b.size (b.push_transaction s t e) ≡ length (b.held s) + 1
  length-push s t e =
      b.size-length (b.push_transaction s t e)
      ∙ ap length (b.held-push_transaction s t e)
      ∙ length-append (b.held s) ((t, e) ∷ [])

  build_from-Built :
      (n : ℕ) (ts : List Transaction) (m : Dict Effects) (s : State) {cs : List Checkpoint}
      {end : State}
      → length (b.held s) < n
      → build_from b n ts m s ≡ returns (cs, end)
      → Built n s ts m cs end
  unfolding build_from
  build_from-Built n [] m s {cs} {end} lt h =
      let e : ([], s) ≡ (cs, end) = returns-injective h in
      subst (λ r. Built n s [] m r.0 r.1) e
        (record {
          pairs = [];
          ordered = refl;
          known = tt;
          split = append-nil (b.held s);
          full = tt;
          room = lt;
        })
  build_from-Built n (t ∷ ts) m s {cs} {end} lt h =
      let (e, at, h₁) = >>=-eq-returns (unwrap (lookup (b.digest t) m)) _ h in
      let found = unwrap-eq-returns (lookup (b.digest t) m) at in
      decide e found (b.size (b.push_transaction s t e) == n) refl
        (λ m' s' cs' end' lt' h'. build_from-Built n ts m' s' {cs = cs'} {end = end'} lt' h') h₁
    where
      decide :
          (e : Effects)
          → lookup (b.digest t) m ≡ some e
          → (full : Bool) → (b.size (b.push_transaction s t e) == n) ≡ full
          → ((m' : Dict Effects) (s' : State) (cs' : List Checkpoint) (end' : State)
              → length (b.held s') < n
              → build_from b n ts m' s' ≡ returns (cs', end')
              → Built n s' ts m' cs' end')
          → (if full
              then ◌>>=◌ {B = List Checkpoint × State}
                  (build_from b n ts (erase (b.digest t) m) (b.build (b.push_transaction s t e)).1)
                  (λ r. returns ((b.build (b.push_transaction s t e)).0 ∷ r.0, r.1))
              else build_from b n ts (erase (b.digest t) m) (b.push_transaction s t e))
            ≡ returns (cs, end)
          → Built n s (t ∷ ts) m cs end
      decide e found true size later h =
          let s' = b.push_transaction s t e in
          let left = erase (b.digest t) m in
          let empty : length (b.held (b.build s').1) < n =
            subst (λ l. length l < n) (sym (b.held-build s')) (omega arith) in
          let ((cs', end'), built, h'') =
            >>=-eq-returns (build_from b n ts left (b.build s').1) _ h in
          let same : ((b.build s').0 ∷ cs', end') ≡ (cs, end) = returns-injective h'' in
          subst (λ r. Built n s (t ∷ ts) m r.0 r.1) same
            (Built-build n s t e ts m cs' end' found ((==_iff (b.size s') n).0 size)
              (later left (b.build s').1 cs' end' empty built))
      decide e found false size later h =
          let s' = b.push_transaction s t e in
          let left = erase (b.digest t) m in
          let grown = length-push s t e in
          let held : b.size s' ≡ length (b.held s') = b.size-length s' in
          let room : length (b.held s') < n = ground arith in
          Built-hold n s t e ts m cs end found (later left s' cs end room h)

  IsChunked-full :
      (n : ℕ) (cs : List Checkpoint)
      → 0 < n
      → All (λ c. length (b.contents c) ≡ n) cs
      → IsChunked n (map b.contents cs)
  IsChunked-full n [] pos h = tt
  IsChunked-full n (c ∷ []) pos (e, h) = (omega arith, omega arith)
  IsChunked-full n (c ∷ d ∷ cs) pos (e, h) = (e, IsChunked-full n (d ∷ cs) pos h)

  IsChunked-last :
      (n : ℕ) (cs : List Checkpoint) (last : Checkpoint)
      → All (λ c. length (b.contents c) ≡ n) cs
      → 0 < length (b.contents last)
      → length (b.contents last) ≤ n
      → IsChunked n (map b.contents (cs ++ last ∷ []))
  IsChunked-last n [] last h pos le = (pos, le)
  IsChunked-last n (c ∷ []) last (e, h) pos le = (e, (pos, le))
  IsChunked-last n (c ∷ d ∷ cs) last (e, h) pos le = (e, IsChunked-last n (d ∷ cs) last h pos le)

  flatten-snoc :
      (xs : List (List (Transaction × Effects))) (ys : List (Transaction × Effects))
      → flatten (xs ++ ys ∷ []) ≡ flatten xs ++ ys
  flatten-snoc [] ys = append-nil ys
  flatten-snoc (x ∷ xs) ys =
      ap (λ l. x ++ l) (flatten-snoc xs ys) ∙ sym (append_assoc x (flatten xs) ys)

  -- The contents of the checkpoints built of `ts`.
  pub record IsPartition (n : ℕ) (ts : List Transaction) (m : Dict Effects)
      (chunks : List (List (Transaction × Effects))) : Type 0 where
    pub ordered : map (λ p. p.0) (flatten chunks) ≡ ts
    pub known : All (λ p. lookup (b.digest p.0) m ≡ some p.1) (flatten chunks)
    pub chunked : IsChunked n chunks

  partition :
      (n : ℕ) (s end : State) (ts : List Transaction) (m : Dict Effects) (cs : List Checkpoint)
      (chunks : List (List (Transaction × Effects)))
      → b.held s ≡ []
      → (built : Built n s ts m cs end) → flatten (map b.contents cs) ++ b.held end ≡ flatten chunks
      → IsChunked n chunks
      → IsPartition n ts m chunks
  partition n s end ts m cs chunks none_held built whole chunked =
      let all : built.pairs ≡ flatten chunks =
        ap (λ l. l ++ built.pairs) (sym none_held) ∙ built.split ∙ whole in
      record {
        ordered = ap (map (λ p. p.0)) (sym all) ∙ built.ordered;
        known = subst (All (λ p. lookup (b.digest p.0) m ≡ some p.1)) all built.known;
        chunked = chunked;
      }

  nil_of_length : (l : List (Transaction × Effects)) → length l ≡ 0 → l ≡ []
  nil_of_length [] h = refl
  nil_of_length (x ∷ l) h = absurd (omega arith)

  finish-IsPartition :
      (n : ℕ) (s end : State) (ts : List Transaction) (m : Dict Effects) (cs : List Checkpoint)
      → 0 < n
      → b.held s ≡ []
      → Built n s ts m cs end
      → (pending : Bool) → ltb 0 (b.size end) ≡ pending
      → IsPartition n ts m (map b.contents (if pending then cs ++ (b.build end).0 ∷ [] else cs))
  finish-IsPartition n s end ts m cs pos none_held built true more =
      let last = (b.build end).0 in
      let same : length (b.contents last) ≡ length (b.held end) =
        ap length (b.contents-build end) in
      let sized : b.size end ≡ length (b.held end) = b.size-length end in
      let room = built.room in
      let pending : 0 < length (b.held end) = ground arith in
      partition n s end ts m cs (map b.contents (cs ++ last ∷ [])) none_held built
        (ap (λ l. flatten (map b.contents cs) ++ l) (sym (b.contents-build end))
          ∙ sym (flatten-snoc (map b.contents cs) (b.contents last))
          ∙ ap flatten (sym (map-append b.contents cs (last ∷ []))))
        (IsChunked-last n cs last built.full (omega arith) (omega arith))
  finish-IsPartition n s end ts m cs pos none_held built false more =
      let sized : b.size end ≡ length (b.held end) = b.size-length end in
      let nothing : b.held end ≡ [] = nil_of_length (b.held end) (ground arith) in
      partition n s end ts m cs (map b.contents cs) none_held built
        (ap (λ l. flatten (map b.contents cs) ++ l) nothing
          ∙ append-nil (flatten (map b.contents cs)))
        (IsChunked-full n cs pos built.full)

  -- Built from a builder that holds nothing, with a positive size, the checkpoints hold the
  -- transactions in their order, each with its effects; every checkpoint has exactly the size,
  -- except that the last may have fewer transactions but has one.
  pub build_checkpoints-IsPartition :
      (builder : State) (ts : List Transaction) (m : Dict Effects) (n : ℕ) {cs : List Checkpoint}
      → 0 < n
      → b.held builder ≡ []
      → build_checkpoints b builder ts m n ≡ returns cs
      → IsPartition n ts m (map b.contents cs)
  unfolding build_checkpoints
  build_checkpoints-IsPartition builder ts m n {cs} pos none_held h =
      let ((cs', end), ran, h₁) = >>=-eq-returns (build_from b n ts m builder) _ h in
      let room : length (b.held builder) < n = subst (λ l. length l < n) (sym none_held) pos in
      let built = build_from-Built n ts m builder room ran in
      subst (λ l. IsPartition n ts m (map b.contents l)) (returns-injective h₁)
        (finish-IsPartition n builder end ts m cs' pos none_held built (ltb 0 (b.size end)) refl)
