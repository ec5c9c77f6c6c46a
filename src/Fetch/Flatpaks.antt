-- ===== src/Fetch/Flatpaks.antt =====
-- eos-updater/fetch.c: pulling the flatpaks that an update wants
-- (transition_pending_ref_action_collection_ids_to_remote_names, perform_install_preparation,
-- perform_update_preparation, perform_action_preparation, pull_flatpaks,
-- prepare_flatpaks_to_deploy).
pub mod Undeployed
pub mod Agreeing
mod Tests
use eos_updater.Actions.Progress.{
  flatten_flatpak_ref_actions_table, filter_for_new_flatpak_ref_actions, Progresses, ActionsTable,
}
use eos_updater.Run.{finished, aborted, unfinished, call, Run, ◌>>ᵣ◌}
use eos_updater.Errors.{updater, flatpak_remote_conflict, is_already_installed, is_not_installed}
use eos_updater.Actions.{
  is_install, is_update_or_install, Action, FlatpakRef, install, update, uninstall,
}
use eos_updater.Prelude.{
  ArraySort, not, str_equal, List, [], ◌∷◌, ◌++◌, true, false, none, some, Option, Bool, String, ℕ,
  zero, suc, ◌≡◌, ◌≢◌, ◌⊎◌, ◌↔◌, inl, inr, refl, arith, if◌then◌else◌, Bool-cases, Option-cases,
}
use eos_updater.Errors.{ErrorCode, Result-cases}
use eos_updater.Errors.{Result, ok, err, unset, ◌>>=◌}

-- Transactions on the installation, which pull; the Boolean is `no_deploy`. An interface, which
-- Transaction.fetch_transactions fills.
pub record Transactions (W : Type 0) : Type 0 where
  pub install_ref : W → String → FlatpakRef → Bool → W × Option ErrorCode
  pub update_ref : W → FlatpakRef → Bool → W × Option ErrorCode
  pub lookup_remote_for_collection_id : W → String → Option String

-- collection_ids_to_remote_names: `some none` is a look-up that failed.
abbrev pub Cache : Type 0
Cache = String → Option (Option String)

abbrev pub no_names : Cache
no_names id = none

abbrev pub disagrees : String → Option String → Bool
disagrees remote none = false
disagrees remote (some candidate) = not (str_equal remote candidate)

module _ {W : Type 0} (transactions : Transactions W) where
  abbrev pub cached : W → String → Option (Option String) → Option String
  cached w id none = transactions.lookup_remote_for_collection_id w id
  cached w id (some name) = name

  abbrev pub candidate : W → Cache → Option String → Option String
  candidate w cache none = none
  candidate w cache (some id) = cached w id (cache id)

  abbrev pub remember : W → Cache → Option String → Cache
  remember w cache none = cache
  remember w cache (some id) =
      λ x. if str_equal x id then some (cached w id (cache id)) else cache x

  -- `none` is a failed assertion: a ref without a remote.
  unfoldable pub transition_loop : W → Cache → List Action → Option (Result (Unit {0}))
  transition_loop w cache [] = some (ok tt)
  transition_loop w cache (a ∷ l) =
      let later = transition_loop w (remember w cache a.location.collection_id) l in
      let skipped = transition_loop w cache l in
      if is_install a.type
      then elim a.location.remote [
        | none ↦ none
        | some remote ↦
            if disagrees remote (candidate w cache a.location.collection_id)
            then some (err (updater flatpak_remote_conflict))
            else later
      ]
      else skipped

  -- How a preparation ends.
  abbrev pub ended : W × Option ErrorCode → Run W (Unit {0})
  ended (w, none) = finished (ok tt) w
  ended (w, some e) = finished (err e) w

  abbrev pub or_update : FlatpakRef → Bool → W × Option ErrorCode → Run W (Unit {0})
  or_update ref no_deploy (w, none) = finished (ok tt) w
  or_update ref no_deploy (w, some e) =
      if is_already_installed e
      then ended (transactions.update_ref w ref no_deploy)
      else finished (err e) w

  abbrev pub or_missing : W × Option ErrorCode → Run W (Unit {0})
  or_missing (w, none) = finished (ok tt) w
  or_missing (w, some e) = if is_not_installed e then finished (ok tt) w else finished (err e) w

  -- The remote is there: the transition has asserted it.
  unfoldable pub perform_install_preparation :
      Option String → FlatpakRef → Bool → W → Run W (Unit {0})
  perform_install_preparation none ref is_dependency w = aborted
  perform_install_preparation (some remote) ref is_dependency w =
      or_update ref (not is_dependency) (transactions.install_ref w remote ref (not is_dependency))

  unfoldable pub perform_update_preparation : FlatpakRef → Bool → W → Run W (Unit {0})
  perform_update_preparation ref is_dependency w =
      or_missing (transactions.update_ref w ref (not is_dependency))

  unfoldable pub perform_action_preparation : Action → W → Run W (Unit {0})
  perform_action_preparation a w = elim a.type [
    | install ↦ perform_install_preparation a.location.remote a.location.ref a.is_dependency w
    | update ↦ perform_update_preparation a.location.ref a.is_dependency w
    | uninstall ↦ finished (ok tt) w
  ]

  unfoldable pub pull_loop : List Action → W → Run W (Unit {0})
  pull_loop [] w = finished (ok tt) w
  pull_loop (a ∷ l) w = elim (is_update_or_install a.type) [
    | true ↦ perform_action_preparation a w >>ᵣ λ _ w. pull_loop l w
    | false ↦ pull_loop l w
  ]

  abbrev pub if_agreed : List Action → Option (Result (Unit {0})) → W → Run W (Unit {0})
  if_agreed actions none w = aborted
  if_agreed actions (some (ok _)) w = pull_loop actions w
  if_agreed actions (some (err e)) w = finished (err e) w
  if_agreed actions (some unset) w = finished unset w

  unfoldable pub pull_flatpaks : List Action → W → Run W (Unit {0})
  pull_flatpaks actions w = if_agreed actions (transition_loop w no_names actions) w

-- What prepare_flatpaks_to_deploy looks up: parameters. They are the actions that the commit wants,
-- the progress in the state path, the installation, and the actions with their dependencies.
pub record Wanted (W : Type 0) : Type 0 where
  pub actions_of_commit : String → W → Result ActionsTable
  pub progress : W → Result Progresses
  pub installation : W → Result (Unit {0})
  pub add_dependencies : List Action → W → Result (List Action)

-- A failed assertion stops the program.
abbrev pub asserted {ℓ} : {W B : Type 0} {A : Type ℓ} → Option A → (A → Run W B) → Run W B
asserted none k = aborted
asserted (some a) k = k a

module _ {W : Type 0} (transactions : Transactions W) (wanted : Wanted W)
    (actions : ArraySort Action) (names : ArraySort String) where
  abbrev pub with_dependencies : List Action → W → Run W (Unit {0})
  with_dependencies to_deploy w = finished (wanted.installation w) w >>ᵣ λ _ w.
      finished (wanted.add_dependencies to_deploy w) w >>ᵣ λ all w. pull_flatpaks transactions all w

  -- Of what the commit wants, what is new here is prepared.
  unfoldable pub prepare_flatpaks_to_deploy : String → W → Run W (Unit {0})
  prepare_flatpaks_to_deploy update_id w =
      finished (wanted.actions_of_commit update_id w) w >>ᵣ λ table w.
      finished (wanted.progress w) w >>ᵣ λ progress w.
      asserted (filter_for_new_flatpak_ref_actions actions table progress) (λ relevant.
        asserted (flatten_flatpak_ref_actions_table actions names relevant)
          (λ to_deploy. with_dependencies to_deploy w))
