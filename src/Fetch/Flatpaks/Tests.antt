-- ===== src/Fetch/Flatpaks/Tests.antt =====
-- One flatpak to install, whose collection is configured under its remote.
use eos_updater.Fetch.Flatpaks.Agreeing.{transition_loop-Agrees, Agrees}
use eos_updater.Fetch.Flatpaks.{
  perform_install_preparation, perform_action_preparation, no_names, pull_loop, transition_loop,
  Transactions, pull_flatpaks,
}
use eos_updater.Actions.{Action, install, app}
use eos_updater.Run.{finished}
use eos_updater.Prelude.{
  All, ◌+◌, pos, [], ◌∷◌, false, none, some, ℕ, ◌≡◌, ◌↔◌, refl, if◌then◌else◌,
}
use eos_updater.Errors.{flatpak_already_installed}
use eos_updater.Errors.{ok}

-- The world counts what has been deployed.
abbrev counting : Transactions ℕ
counting = record {
  install_ref =
      λ w remote ref no_deploy. (if no_deploy then w else w + 1, some flatpak_already_installed);
  update_ref = λ w ref no_deploy. (if no_deploy then w else w + 1, none);
  lookup_remote_for_collection_id = λ w id. some "eos-apps";
}

abbrev calculator : Action
calculator = record {
  address = 1;
  type = install;
  source = "50-default.json";
  serial = pos 1;
  is_dependency = false;
  location = record {
    ref = record { kind = app; name = some "org.gnome.Calculator"; arch = none; branch = none };
    remote = some "eos-apps";
    collection_id = some "com.endlessm.Apps";
  };
}

transition_loop-Agrees_example :
    (transition_loop counting 0 no_names (calculator ∷ []) ≡ some (ok tt))
    ↔ All (Agrees counting 0) (calculator ∷ [])
transition_loop-Agrees_example = transition_loop-Agrees counting 0 (calculator ∷ [])

is_pulled : pull_flatpaks counting (calculator ∷ []) 3 ≡ finished (ok tt) 3
unfolding pull_flatpaks transition_loop pull_loop perform_action_preparation
    perform_install_preparation
is_pulled = refl
