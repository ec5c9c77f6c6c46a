-- ===== src/Installer/Tests.antt =====
-- Runs of the installer on two actions of one autoinstall file.
use eos_updater.Installer.Check.{check_ref_actions_applied_iff, IsApplied}
use eos_updater.Installer.Counter.{
  apply_flatpak_ref_actions_resumes, apply_flatpak_ref_actions-done_iff,
}
use eos_updater.Installer.Pending.{from}
use eos_updater.Errors.{io_failed, ok}
use eos_updater.Installer.Steps.{remaining}
use eos_updater.Actions.Progress.{keep_only_new_actions, Progresses}
use eos_updater.Actions.{uninstall, install, app, Action, FlatpakRef, ActionType}
use eos_updater.Installer.{
  aborted, update_counter, done, try_uninstall_application, no_progress, try_install_application,
  apply_loop, perform_action, perform, Flatpak, check_ref_actions_applied,
  apply_flatpak_ref_actions, CounterFile,
}
use eos_updater.Prelude.{
  arith, ◌≢◌, All, pos, ◌↔◌, ◌≡◌, [], ℤ, ◌∷◌, List, none, some, refl, true, false, inl,
}

abbrev game : FlatpakRef
game = record { kind = app; name = some "org.example.Game"; arch = none; branch = some "stable" }

abbrev plain : ActionType → ℤ → Action
plain type serial = record {
  address = 0;
  type = type;
  location = record { ref = game; remote = some "hub"; collection_id = none };
  source = "50-default.json";
  serial = serial;
  is_dependency = false;
}

abbrev two_actions : List Action
two_actions = plain install (pos 1) ∷ plain uninstall (pos 2) ∷ []

-- An installation on which installing succeeds and uninstalling fails.
abbrev half_broken : Flatpak (List FlatpakRef)
half_broken = record {
  transaction_install = λ w remote ref no_pull. (ref ∷ w, none);
  transaction_update = λ w ref no_pull. (w, none);
  transaction_uninstall = λ w ref. (w, some io_failed);
  lookup_remote_for_collection_id = λ w collection. none;
  get_installed_ref = λ w ref. none;
}

abbrev counter_file : CounterFile
counter_file = record { make_directory = none; load = ok no_progress; save = none }

-- The failed action is the one that is left.
left_over :
    remaining half_broken counter_file perform true [] two_actions ≡ plain uninstall (pos 2) ∷ []
unfolding remaining perform_action try_install_application try_uninstall_application
left_over = refl

not_aborted :
    (apply_flatpak_ref_actions half_broken counter_file perform true [] two_actions).outcome
    ≢ aborted
unfolding apply_flatpak_ref_actions apply_loop perform_action try_install_application
    try_uninstall_application update_counter
not_aborted e = ground arith

apply_flatpak_ref_actions_resumes_example :
    (c : Progresses) × ((apply_flatpak_ref_actions half_broken counter_file perform true []
        two_actions).counter
      ≡ ok c)
    × (keep_only_new_actions "50-default.json" (from "50-default.json" two_actions) c
        ≡ from "50-default.json" (remaining half_broken counter_file perform true [] two_actions))
apply_flatpak_ref_actions_resumes_example =
    apply_flatpak_ref_actions_resumes half_broken counter_file perform true no_progress
      "50-default.json" [] two_actions (inl refl, inl refl, refl) (refl, (refl, tt)) not_aborted
      (refl, (refl, tt))

apply_flatpak_ref_actions-done_iff_example :
    ((apply_flatpak_ref_actions half_broken counter_file perform true [] two_actions).outcome
      ≡ done)
    ↔ (remaining half_broken counter_file perform true [] two_actions ≡ [])
apply_flatpak_ref_actions-done_iff_example =
    apply_flatpak_ref_actions-done_iff half_broken counter_file perform true no_progress []
      two_actions (inl refl, inl refl, refl) (refl, (refl, tt))

check_ref_actions_applied_iff_example :
    (check_ref_actions_applied half_broken [] two_actions ≡ ok tt)
    ↔ All (IsApplied half_broken []) two_actions
check_ref_actions_applied_iff_example = check_ref_actions_applied_iff half_broken [] two_actions
