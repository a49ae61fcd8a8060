-- ===== src/Fake/Sessions.antt =====
-- Single functions that `FakeExecutor` runs in a session of the Move VM
-- (codes/aptos/modified/e2e-tests/src/executor.rs). The gas schedules that the source builds are
-- part of the session's interface.
pub mod Same
use Prim.Native.String.{String}
use test_suites.Prelude.{
  ℕ, ◌≡◌, Bool, true, false, Option, none, some, List, [], ◌∷◌, ◌++◌, if◌then◌else◌,
}
use test_suites.Prelude.Maps.{Dict}
use test_suites.Prelude.Outcome.{Outcome, returns, panics}
use test_suites.Prelude.Attempt.{Attempt, ok, err, panicked, ◌>>=◌, ◌>>◌, unwrap}
use test_suites.Fake.{Crates, FakeExecutor}

-- How timed features are built: all enabled, with or without the testing profile.
pub data TimedFeatures : Type 0 where
  enable_all : TimedFeatures
  testing : TimedFeatures

-- `MoveVmExt` and its sessions. A function that is run leaves a session, with the error if it
-- failed.
pub record Sessions (k : Crates) : Type 1 where
  pub TypeTag : Type 0
  pub Vm : Type 0
  pub Session : Type 0
  pub ChangeSet : Type 0
  pub Expression : Type 0
  pub Function : Type 0
  pub is_identifier : String → Bool
  pub new_vm : ℕ → k.Features → TimedFeatures → k.Store → Option Vm
  pub new_session : Vm → k.Store → Session
  pub run_unmetered :
      Session → k.ModuleId → String → List TypeTag → List k.Bytes → Session × Option k.VmStatus
  -- A run under the gas meter of calibration, with the expressions that it records.
  pub run_calibrated :
      Session → k.ModuleId → String → List TypeTag → List k.Bytes → Session × List Expression
  pub finish : Session → Option ChangeSet
  pub into_storage_change_set : ChangeSet → Option (Dict k.Op × List k.Event)
  -- Entry functions: the gas parameters of a state view, the function, its arguments with those of
  -- the signers, the run, and the deltas.
  pub gas_parameters : k.Features → k.Store → Bool
  pub load_function : Session → k.ModuleId → String → List TypeTag → Attempt k.VmStatus Function
  pub combine_args :
      Session → List ℕ → List k.Bytes → Function → k.Features → Attempt k.VmStatus (List k.Bytes)
  pub run_entry :
      Session → k.ModuleId → String → List TypeTag → List k.Bytes → Session × Option k.VmStatus
  pub materialize_deltas : ChangeSet → k.Store → Attempt k.VmStatus ChangeSet

module _ (k : Crates) (s : Sessions k) where
  open k use {Bytes, ModuleId, Store, Op, Event, VmStatus, Features}
  open s use {TypeTag, Session, ChangeSet, Expression}

  abbrev pub Effects : Type 0
  Effects = Dict Op × List Event

  -- `Self::name(..)` and `Self::module(..)`
  abbrev pub valid : String → Attempt VmStatus (Unit {0})
  valid name = if s.is_identifier name then ok tt else panicked

  -- The effects of a session that has ended.
  unfoldable pub effects_of : Session → Attempt VmStatus Effects
  effects_of session = do
    change_set ← unwrap (s.finish session)
    unwrap (s.into_storage_change_set change_set)

  -- A session in which the function has run without an error, by a VM with the given features.
  unfoldable pub run_function :
      TimedFeatures
      → ModuleId
      → String
      → List TypeTag
      → List Bytes
      → FakeExecutor k
      → Attempt VmStatus Session
  run_function timed id name types args e = do
    vm ← unwrap (s.new_vm e.chain_id e.features timed e.data_store)
    valid name
    let (session, failure) = s.run_unmetered (s.new_session vm e.data_store) id name types args
    elim failure as (λ _. Attempt VmStatus Session) [ none ↦ ok session | some status ↦ err status ]

  -- `unwrap_or_else(|e| panic!(..))`
  abbrev pub or_panic {ℓ} : {A : Type ℓ} → Attempt VmStatus A → Outcome A
  or_panic (ok a) = returns a
  or_panic (err status) = panics
  or_panic panicked = panics

  abbrev pub apply_effects : FakeExecutor k → Effects → FakeExecutor k
  apply_effects e (writes, events) = record e {
    data_store = k.add_write_set e.data_store writes;
    event_store = e.event_store ++ events;
  }

  unfoldable pub exec_module :
      ModuleId → String → List TypeTag → List Bytes → FakeExecutor k → Outcome (FakeExecutor k)
  unfolding run_function effects_of
  exec_module id name types args e = or_panic (do
    session ← run_function testing id name types args e
    effects ← effects_of session
    ok (apply_effects e effects))

  unfoldable pub exec :
      String → String → List TypeTag → List Bytes → FakeExecutor k → Outcome (FakeExecutor k)
  unfolding exec_module
  exec module_name name types args e =
      let ran = exec_module (k.module_id module_name) name types args e in
      if s.is_identifier module_name then ran else panics

  -- The executor stays as it is.
  unfoldable pub try_exec :
      String → String → List TypeTag → List Bytes → FakeExecutor k → Attempt VmStatus Effects
  unfolding run_function effects_of
  try_exec module_name name types args e = do
    vm ← unwrap (s.new_vm e.chain_id e.features enable_all e.data_store)
    valid module_name
    session ← run_function enable_all (k.module_id module_name) name types args e
    effects_of session

  -- An error of the function is only printed; the events are dropped.
  unfoldable pub exec_abstract_usage :
      ModuleId
      → String
      → List TypeTag
      → List Bytes
      → FakeExecutor k
      → Outcome (List Expression × FakeExecutor k)
  unfolding effects_of
  exec_abstract_usage id name types args e = or_panic (do
    vm ← unwrap (s.new_vm e.chain_id e.features testing e.data_store)
    valid name
    let (session, expressions) = s.run_calibrated (s.new_session vm e.data_store) id name types args
    (writes, events) ← effects_of session
    ok (expressions, record e { data_store = k.add_write_set e.data_store writes }))

  unfoldable pub try_exec_entry_with_state_view :
      List ℕ
      → ModuleId
      → String
      → List TypeTag
      → List Bytes
      → Store
      → Features
      → FakeExecutor k
      → Attempt VmStatus Effects
  try_exec_entry_with_state_view senders id name types args view features e = do
    if s.gas_parameters features view then ok tt else panicked
    vm ← unwrap (s.new_vm e.chain_id features testing view)
    let session = s.new_session vm view
    function ← s.load_function session id name types
    all_args ← s.combine_args session senders args function features
    let (session', failure) = s.run_entry session id name types all_args
    elim failure as (λ _. Attempt VmStatus (Unit {0})) [ none ↦ ok tt | some status ↦ err status ]
    change_set ← unwrap (s.finish session')
    change_set' ← s.materialize_deltas change_set view
    unwrap (s.into_storage_change_set change_set')
