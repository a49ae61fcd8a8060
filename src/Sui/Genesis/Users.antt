-- ===== src/Sui/Genesis/Users.antt =====
-- The users that a new context has.
use test_suites.Prelude.{ℕ, ◌<◌, ◌≡◌, List, length, All}
use test_suites.Prelude.Outcome.{Outcome, ◌>>=◌, ◌>>◌}
use test_suites.Sui.Accounts.{Object, ObjectRef}
use test_suites.Sui.Context.{BenchmarkContext}
use test_suites.Sui.Genesis.Keys.{keys, IsKeyed}

module _ (reference : Object → ObjectRef) (key_of : ℕ → ℕ) where
  abbrev pub IsReady : ℕ → ℕ → BenchmarkContext × List Object → Type 0
  IsReady users objects r =
      (length r.0.user_accounts ≡ users)
      × (length r.1 ≡ objects)
      × IsKeyed r.0.user_accounts
      × All (λ k. k < r.0.admin_account.sender) (keys r.0.user_accounts)
