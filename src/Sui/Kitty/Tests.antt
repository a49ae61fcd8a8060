-- ===== src/Sui/Kitty/Tests.antt =====
-- The kitty test with one user.
use test_suites.Prelude.{ℕ, ◌≡◌, refl, true, false, some, [], ◌∷◌, arith}
use test_suites.Prelude.Outcome.{returns}
use test_suites.Sui.Accounts.{Account, ObjectRef}
use test_suites.Sui.Effects.{Owner, TransactionEffects}
use test_suites.Sui.Node.{Validator, baseline}
use test_suites.Sui.Context.{BenchmarkContext, Call}
use test_suites.Sui.Kitty.{run_kitty_test}
use test_suites.Sui.Kitty.Components.{run_kitty_test_components, runs_kitties}

abbrev ref_at : ℕ → ℕ → ObjectRef
ref_at id version = record { id = id; version = version; digest = 0 }

abbrev address : ℕ → Owner
address a = record { get_address_owner_address = some a; is_shared = false; is_immutable = false }

-- The gene is object 20, the kitty object 10, the gas object 1.
abbrev gene_effects : TransactionEffects
gene_effects = record {
  transaction_digest = 7;
  is_ok = true;
  created = (ref_at 20 2, address 101) ∷ [];
  mutated = (ref_at 1 2, address 101) ∷ (ref_at 10 2, address 101) ∷ [];
  all_changed_objects = [];
  gas_object = ref_at 1 2;
}

-- A validator that counts its calls and always answers with these effects.
abbrev counting : Validator
counting = record {
  Node = ℕ;
  Transaction = ℕ;
  Certificate = ℕ;
  Executable = ℕ;
  Response = ℕ;
  Signed = ℕ;
  from_transaction = λ t. t;
  from_certificate = λ c. c;
  into_unsigned = λ c. c;
  contains_shared_object = λ c. false;
  try_execute_immediately = λ n x. some (gene_effects, n);
  enqueue_certificates_for_execution = λ n cs. n;
  execute_certificate = λ n c. some (gene_effects, n);
  execute_certificate_for_testing = λ n c. some (gene_effects, n);
  handle_transaction_for_testing = λ n t. some (t, n);
  handle_transaction = λ n t. some (t, n);
  sign = λ n t. t;
  new_certificate = λ n t s. some t;
  assign_versions = λ n xs. some n;
  commit_transaction_outputs = λ n d. some n;
}

abbrev user_at : ℕ → Account
user_at version = record { sender = 101; gas_objects = ref_at 1 version ∷ [] }

abbrev one_user : ℕ → BenchmarkContext
one_user version = record {
  user_accounts = (101, user_at version) ∷ [];
  admin_account = record { sender = 102; gas_objects = [] };
  account_indexes = [];
}

abbrev breed_call : Call
breed_call = record {
  from = user_at 2;
  to = 101;
  args = (2, 2) ∷ [];
  objects = ref_at 20 2 ∷ ref_at 10 2 ∷ [];
}

run_kitty_test_components_example : runs_kitties baseline ≡ true
unfolding run_kitty_test
run_kitty_test_components_example =
    run_kitty_test_components counting (λ c. returns c.to) (λ T xs. xs) (λ T xs. refl) baseline
      false true (one_user 1) 0 {r = (one_user 2, 0)} (omega arith) refl
