-- ===== src/Simulator/Workloads/Ends.antt =====
-- No draw and no index of a workload's loop is out of range.
use test_suites.Prelude.{
  ℕ, zero, suc, ◌+◌, ◌*◌, ◌%◌, ◌≤◌, ◌<◌, ◌≡◌, refl, sym, ap, subst, ◌∙◌, List, [], length,
  length-set, get_elem?, get_elem?-total, arith,
}
use test_suites.Prelude.Outcome.{Outcome, returns, ◌>>=◌, >>=-at, unwrap}
use test_suites.Transactions.{SignedTransaction}
use test_suites.Universe.Account.{AccountApi, AccountCurrent}
use test_suites.Simulator.{Rng}
use test_suites.Simulator.Generate.{draw, Accounts, address_of, issue, issue_each}
use test_suites.Simulator.Workloads.{
  from_random, receivers_of, airdrop_transfer, vote, forums_index, vote_sharding, occupy, mint,
  breed,
}
use test_suites.Simulator.Workloads.Numbered.{
  Workload, airdrop, ballot, ballot_sharding, million_pixel, kitty_mint, kitty, empty, round_of,
  round_of-Issuing,
}

abbrev Returns : {A : Type 0} → Outcome A → Type 0
Returns {A = A} m = (b : A) × (m ≡ returns b)

-- What `n` rounds from `start` need: accounts to draw from, the first account of the split, a
-- number of shards that is a byte, and for the mints an account for each round.
abbrev pub Ready : (api : AccountApi) → Workload api → ℕ → ℕ → ℕ → Type 0
Ready api airdrop start n accounts = 0 < accounts
Ready api (ballot forums) start n accounts = (0 < accounts) × (0 < length forums)
Ready api (ballot_sharding shard_num forums) start n accounts =
    (0 < accounts) × (0 < shard_num) × (shard_num < 256) × (length forums ≡ shard_num)
Ready api (million_pixel globalstore) start n accounts = (0 < accounts) × (0 < length globalstore)
Ready api (kitty_mint globalstore gender) start n accounts =
    (0 < length globalstore) × (start + n ≤ accounts)
Ready api (kitty globalstore) start n accounts = (0 < accounts) × (0 < length globalstore)
Ready api empty start n accounts = 0 < accounts

module _ (api : AccountApi) (rng : Rng) where
  open api use {AccountData}
  open rng use {Seed}

  draw-total :
      (lo hi : ℕ) (s : Seed)
      → lo < hi
      → (k : ℕ) × (s' : Seed) × (draw rng lo hi s ≡ returns (k, s')) × (k < hi)
  unfolding draw
  draw-total lo hi s h =
      let (k, s') = rng.gen_range lo hi s in (k, s', ground arith, (rng.gen_range_lem lo hi s h).1)

  unwrap-total :
      (accounts : Accounts api) (i : ℕ)
      → i < length accounts
      → (a : AccountCurrent AccountData) × (unwrap (get_elem? accounts i) ≡ returns a)
  unwrap-total accounts i h = let (a, at) = get_elem?-total accounts i h in (a, ap unwrap at)

  issue-total :
      (accounts : Accounts api) (i : ℕ) (build : AccountCurrent AccountData → SignedTransaction)
      (s : Seed)
      → i < length accounts
      → Returns (
          ◌>>=◌ {B = SignedTransaction × Accounts api × Seed}
            (issue api accounts i build)
            (λ p. returns (p.0, p.1, s)))
  unfolding issue
  issue-total accounts i build s h =
      let (a, at) = unwrap-total accounts i h in
      >>=-at (issue api accounts i build) _
        (>>=-at (unwrap (get_elem? accounts i)) _ at (_, refl)).1 (_, refl)

  from_random-total :
      (build : AccountCurrent AccountData → SignedTransaction) (i : ℕ) (accounts : Accounts api)
      (s : Seed)
      → 0 < length accounts
      → Returns (from_random api rng build i accounts s)
  unfolding from_random
  from_random-total build i accounts s h =
      let (k, s₁, drawn, lt) = draw-total 0 (length accounts) s h in
      >>=-at (draw rng 0 (length accounts) s) _ drawn (issue-total accounts k build s₁ lt)

  receivers_of-total :
      (n : ℕ) (accounts : Accounts api) (s : Seed)
      → 0 < length accounts
      → Returns (receivers_of api rng n accounts s)
  unfolding receivers_of
  receivers_of-total zero accounts s h = (([], s), refl)
  receivers_of-total (suc n) accounts s h =
      let (k, s₁, drawn, lt) = draw-total 0 (length accounts) s h in
      let (a, at) = unwrap-total accounts k lt in
      let (rest, more) = receivers_of-total n accounts s₁ h in
      >>=-at (draw rng 0 (length accounts) s) _ drawn (
        >>=-at (unwrap (get_elem? accounts k)) _ at
          (>>=-at (receivers_of api rng n accounts s₁) _ more (_, refl)))

  forums_index-total :
      (address shard_num : ℕ)
      → 0 < shard_num
      → shard_num < 256
      → (k : ℕ) × (forums_index api rng address shard_num ≡ returns k) × (k < shard_num)
  unfolding forums_index
  forums_index-total address shard_num pos byte =
      ((address % 256) % (shard_num % 256), ground arith, omega arith)

  round-total :
      (w : Workload api) (i n : ℕ) (accounts : Accounts api) (s : Seed)
      → Ready api w i (suc n) (length accounts)
      → Returns (round_of api rng w i accounts s)
  unfolding airdrop_transfer vote vote_sharding occupy mint breed
  round-total airdrop i n accounts s h =
      let (k, s₁, drawn, lt) = draw-total 0 (length accounts) s h in
      let ((receivers, s₂), received) = receivers_of-total 5 accounts s₁ h in
      >>=-at (draw rng 0 (length accounts) s) _ drawn
        (>>=-at (receivers_of api rng 5 accounts s₁) _ received (issue-total accounts k _ s₂ lt))
  round-total (ballot forums) i n accounts s (h, first) =
      let (p, s₁) = rng.gen_range 0 3 s in
      let (forum, at) = unwrap-total forums 0 first in
      >>=-at (unwrap (get_elem? forums 0)) _ at (from_random-total _ i accounts s₁ h)
  round-total (ballot_sharding shard_num forums) i n accounts s (h, pos, byte, many) =
      let (p, s₁) = rng.gen_range 0 3 s in
      let (k, s₂, drawn, lt) = draw-total 0 (length accounts) s₁ h in
      let (sender, at) = unwrap-total accounts k lt in
      let (index, chosen, within) = forums_index-total (address_of api sender) shard_num pos byte in
      let (forum, there) = unwrap-total forums index (omega arith) in
      >>=-at (draw rng 0 (length accounts) s₁) _ drawn (
        >>=-at (unwrap (get_elem? accounts k)) _ at (
          >>=-at (forums_index api rng (address_of api sender) shard_num) _ chosen
            (>>=-at (unwrap (get_elem? forums index)) _ there (issue-total accounts k _ s₂ lt))))
  round-total (million_pixel globalstore) i n accounts s (h, first) =
      let (x, s₁) = rng.gen_range 0 100 s in
      let (y, s₂) = rng.gen_range 0 100 s₁ in
      let (store, at) = unwrap-total globalstore 0 first in
      >>=-at (unwrap (get_elem? globalstore 0)) _ at (from_random-total _ i accounts s₂ h)
  round-total (kitty_mint globalstore gender) i n accounts s (first, room) =
      let (genes, s₁) = rng.gen_range 0 4_294_967_295 s in
      let (store, at) = unwrap-total globalstore 0 first in
      >>=-at (unwrap (get_elem? globalstore 0)) _ at (issue-total accounts i _ s₁ (omega arith))
  round-total (kitty globalstore) i n accounts s (h, first) =
      let (m, s₁, drawn, _) = draw-total 0 (length accounts) s h in
      let (p, s₂, drawn', _) =
        draw-total (length accounts) (length accounts * 2) s₁ (omega arith) in
      let (store, at) = unwrap-total globalstore 0 first in
      >>=-at (draw rng 0 (length accounts) s) _ drawn (
        >>=-at (draw rng (length accounts) (length accounts * 2) s₁) _ drawn'
          (>>=-at (unwrap (get_elem? globalstore 0)) _ at (from_random-total _ i accounts s₂ h)))
  round-total empty i n accounts s h = from_random-total _ i accounts s h

  Ready-later : (w : Workload api) (i n l : ℕ) → Ready api w i (suc n) l → Ready api w (i + 1) n l
  Ready-later airdrop i n l h = h
  Ready-later (ballot forums) i n l h = h
  Ready-later (ballot_sharding shard_num forums) i n l h = h
  Ready-later (million_pixel globalstore) i n l h = h
  Ready-later (kitty_mint globalstore gender) i n l (first, room) = (first, omega arith)
  Ready-later (kitty globalstore) i n l h = h
  Ready-later empty i n l h = h

  -- A loop whose workload is ready, with accounts to draw from, ends without a panic: every draw
  -- and every index is in range.
  pub workload_returns :
      (w : Workload api) (n start : ℕ) (accounts : Accounts api) (s : Seed)
      → Ready api w start n (length accounts)
      → (end : List SignedTransaction × Accounts api × Seed) × (issue_each api
            (round_of api rng w)
            n
            start
            accounts
            s
          ≡ returns end)
  unfolding issue_each
  workload_returns w zero start accounts s ready = (([], accounts, s), refl)
  workload_returns w (suc n) start accounts s ready =
      let ((t, accounts', s'), ran) = round-total w start n accounts s ready in
      let issued = round_of-Issuing api rng w start accounts s t accounts' s' ran in
      let same : length accounts ≡ length accounts' =
        sym (ap length issued.written ∙ length-set accounts issued.index _) in
      let (rest, later) =
        workload_returns w n (start + 1) accounts' s' (
          subst (Ready api w (start + 1) n) same (Ready-later w start n (length accounts) ready)) in
      >>=-at (round_of api rng w start accounts s) _ ran
        (>>=-at (issue_each api (round_of api rng w) n (start + 1) accounts' s') _ later (_, refl))
