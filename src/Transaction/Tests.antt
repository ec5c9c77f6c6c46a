-- ===== src/Transaction/Tests.antt =====
-- A run that emits a skipped, a harmless and two fatal errors; the world counts what is deployed.
use eos_updater.Prelude.{[], ◌∷◌, true, false, none, some, ℕ, ◌≡◌, refl, arith, if◌then◌else◌}
use eos_updater.Errors.{other, flatpak_skipped}
use eos_updater.Transaction.{
  Libflatpak, Transaction, install_of, emit, transaction_operation_error, transaction_run_single_op,
  fetch_transactions,
}
use eos_updater.Transaction.Laws.{
  map_error, first_fatal, or_this, transaction_run_single_op-first_fatal,
  pull_flatpaks_run-deployed,
}
use eos_updater.Fetch.Flatpaks.{pull_flatpaks}
use eos_updater.Actions.{Action, install, app, FlatpakRef}
use eos_updater.Run.{Leaves}
use eos_updater.Prelude.{is_some, pos, ◌+◌}

abbrev failing : Libflatpak ℕ
failing = record {
  new = λ w. (w, none);
  add = λ o w. none;
  errors = λ t w.
      record { code = flatpak_skipped; non_fatal = false }
      ∷ record { code = other 1; non_fatal = true }
      ∷ record { code = other 2; non_fatal = false }
      ∷ record { code = other 3; non_fatal = false }
      ∷ [];
  run = λ t aborted w. (if t.no_deploy then w else w + 1, if aborted then some (other 9) else none);
  lookup_remote_for_collection_id = λ w id. none;
}

abbrev calculator_ref : FlatpakRef
calculator_ref = record {
  kind = app;
  name = some "org.gnome.Calculator";
  arch = none;
  branch = none;
}

abbrev undeployed : Transaction
undeployed = install_of failing "eos-apps" calculator_ref true false

reported : transaction_run_single_op failing undeployed 3 ≡ (3, some (other 2))
unfolding transaction_run_single_op emit transaction_operation_error
reported = refl

transaction_run_single_op-first_fatal_example : transaction_run_single_op failing undeployed 3 ≡ (
  (failing.run undeployed (is_some (first_fatal (failing.errors undeployed 3))) 3).0,
  map_error
      (λ e. or_this e (first_fatal (failing.errors undeployed 3)))
      (failing.run undeployed (is_some (first_fatal (failing.errors undeployed 3))) 3).1,
)
transaction_run_single_op-first_fatal_example =
    transaction_run_single_op-first_fatal failing undeployed 3

abbrev wanted : Action
wanted = record {
  address = 1;
  type = install;
  source = "50-default.json";
  serial = pos 1;
  is_dependency = false;
  location = record { ref = calculator_ref; remote = some "eos-apps"; collection_id = none };
}

pull_flatpaks_run-deployed_example :
    Leaves (λ (v : ℕ). v ≡ 3) (pull_flatpaks (fetch_transactions failing) (wanted ∷ []) 3)
pull_flatpaks_run-deployed_example =
    pull_flatpaks_run-deployed failing (λ (w : ℕ). w)
      ((λ w. refl), (λ t aborted w n. ground (arith, n))) (wanted ∷ []) ((refl, (λ _ e. cc)), tt) 3
