-- ===== src/Sui/Genesis/Tests.antt =====
-- A new context on small inputs.
use test_suites.Prelude.{true, false}
use test_suites.Sui.Accounts.{Object, ObjectRef}
use test_suites.Sui.Genesis.{ptb, Workload}

abbrev reference : Object → ObjectRef
reference = λ o. record { id = o.id; version = 1; digest = 0 }

-- Two transactions that transfer one object each.
abbrev two_transfers : Workload
two_transfers = record {
  tx_count = 2;
  workload_kind = ptb (record {
    num_transfers = 1;
    use_native_transfer = true;
    num_dynamic_fields = 0;
    computation = 0;
    num_shared_objects = 0;
    erc20_transfer = false;
    test_kitty = false;
    num_land_objects = 0;
  });
}
