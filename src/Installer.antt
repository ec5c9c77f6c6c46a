-- ===== src/Installer.antt =====
-- libeos-updater-flatpak-installer/perform-flatpak-actions.c: performing the actions of the
-- autoinstall lists on a flatpak installation, with the counter that records how far it got.
pub mod Pending
mod Steps
pub mod Counter
pub mod Check
mod Tests
use eos_updater.Prelude.{
  String, Bool, true, false, ◌&&◌, ◌||◌, not, Option, none, some, List, [], ◌∷◌, if◌then◌else◌,
  str_equal, is_some, strcmp0_eq,
}
use eos_updater.Errors.{
  io_failed, ErrorCode, updater, flatpak_remote_conflict, Result, ok, err, unset, is_io_exists,
  is_file_noent, is_not_installed, is_already_installed,
}
use eos_updater.Actions.{ActionType, Action, FlatpakRef, install, uninstall, update}
use eos_updater.Actions.Progress.{Progresses}

-- EosUpdaterInstallerMode, without the mode that eufi_apply_flatpak_ref_actions refuses.
pub data Mode : Type 0 where
  perform : Mode
  stamp : Mode

-- libflatpak, a parameter: transactions on an installation, which is left as it may be left also
-- by one that fails. The Boolean is `no_pull`.
pub record Flatpak (W : Type 0) : Type 0 where
  pub transaction_install : W → String → FlatpakRef → Bool → W × Option ErrorCode
  pub transaction_update : W → FlatpakRef → Bool → W × Option ErrorCode
  pub transaction_uninstall : W → FlatpakRef → W × Option ErrorCode
  pub lookup_remote_for_collection_id : W → String → Option String
  -- flatpak_installation_get_installed_ref, null with its error, or not null.
  pub get_installed_ref : W → FlatpakRef → Option ErrorCode

-- How an action ends; `aborted` is a failed assertion.
pub data Outcome : Type 0 where
  done : Outcome
  failed : ErrorCode → Outcome
  aborted : Outcome

module _ {W : Type 0} (flatpak : Flatpak W) (also_pull : Bool) where
  abbrev no_pull : Bool
  no_pull = not also_pull

  abbrev forgive_missing : W × Option ErrorCode → W × Outcome
  forgive_missing (w, none) = (w, done)
  forgive_missing (w, some e) = (w, if is_not_installed e then done else failed e)

  abbrev updated : W × Option ErrorCode → W × Outcome
  updated (w, none) = (w, done)
  updated (w, some e) = (w, failed e)

  unfoldable pub try_update_application : W → FlatpakRef → W × Outcome
  try_update_application w ref = forgive_missing (flatpak.transaction_update w ref no_pull)

  -- The remote of the collection, if one is found, must be the remote that is given.
  abbrev conflicts : W → Option String → String → Bool
  conflicts w none remote = false
  conflicts w (some collection) remote =
      elim (flatpak.lookup_remote_for_collection_id w collection) [
        | none ↦ false
        | some candidate ↦ not (str_equal remote candidate)
      ]

  abbrev installed_or_update : FlatpakRef → W × Option ErrorCode → W × Outcome
  installed_or_update ref (w, none) = (w, done)
  installed_or_update ref (w, some e) =
      if is_already_installed e
      then updated (flatpak.transaction_update w ref no_pull)
      else (w, failed e)

  unfoldable pub try_install_application :
      W → Option String → Option String → FlatpakRef → W × Outcome
  try_install_application w collection_id none ref = (w, aborted)
  try_install_application w collection_id (some remote) ref =
      if conflicts w collection_id remote
      then (w, failed (updater flatpak_remote_conflict))
      else installed_or_update ref (flatpak.transaction_install w remote ref no_pull)

  unfoldable pub try_uninstall_application : W → FlatpakRef → W × Outcome
  try_uninstall_application w ref = forgive_missing (flatpak.transaction_uninstall w ref)

  unfoldable pub perform_action : W → Action → W × Outcome
  unfolding try_install_application try_update_application try_uninstall_application
  perform_action w a = elim a.type [
    | install ↦ try_install_application w a.location.collection_id a.location.remote a.location.ref
    | update ↦ try_update_application w a.location.ref
    | uninstall ↦ try_uninstall_application w a.location.ref
  ]

-- What the file operations of update_counter come to: the error of creating the directory, the
-- contents of the counter file, and the error of saving it.
pub record CounterFile : Type 0 where
  pub make_directory : Option ErrorCode
  pub load : Result Progresses
  pub save : Option ErrorCode

abbrev pub no_progress : Progresses
no_progress name = none

-- g_key_file_set_int64 for every entry of the new progresses.
abbrev pub overwrite : Progresses → Progresses → Progresses
overwrite recorded new name = elim (new name) [ none ↦ recorded name | some serial ↦ some serial ]

abbrev save_counter : CounterFile → Progresses → Result Progresses
save_counter file contents = elim file.save [ none ↦ ok contents | some e ↦ err e ]

abbrev load_counter : CounterFile → Progresses → Result Progresses
load_counter file new = elim file.load [
  | ok recorded ↦ save_counter file (overwrite recorded new)
  | err e ↦ if is_file_noent e then save_counter file (overwrite no_progress new) else err e
  | unset ↦ unset
]

-- The contents that the counter file has afterwards.
unfoldable pub update_counter : CounterFile → Progresses → Result Progresses
update_counter file new = elim file.make_directory [
  | none ↦ load_counter file new
  | some e ↦ if is_io_exists e then load_counter file new else err e
]

-- g_hash_table_replace (new_progresses, source, serial).
abbrev pub record_progress : Action → Progresses → Progresses
record_progress a new name = if str_equal a.source name then some a.serial else new name

-- The installation and the counter file afterwards, if it was written, and how it ended.
pub record Applied (W : Type 0) : Type 0 where
  pub world : W
  pub counter : Result Progresses
  pub outcome : Outcome

module _ {W : Type 0} (flatpak : Flatpak W) (file : CounterFile) (mode : Mode)
    (also_pull : Bool) where
  abbrev finished : Result Progresses → Outcome
  finished (ok c) = done
  finished (err e) = failed e
  finished unset = aborted

  abbrev pub attempt : W → Action → W × Outcome
  attempt w a = elim mode [ perform ↦ perform_action flatpak also_pull w a | stamp ↦ (w, done) ]

  abbrev violates : Action → Bool
  violates a = a.is_dependency && not also_pull

  unfoldable pub apply_loop : W → Progresses → List Action → Applied W
  apply_loop w new [] = record {
    world = w;
    counter = update_counter file new;
    outcome = finished (update_counter file new);
  }
  apply_loop w new (a ∷ rest) =
      let (w', outcome) = attempt w a in
      let later = apply_loop w' (record_progress a new) rest in
      if violates a
      then record { world = w; counter = unset; outcome = aborted }
      else elim outcome [
        | done ↦ later
        | failed e ↦ record { world = w'; counter = update_counter file new; outcome = failed e }
        | aborted ↦ record { world = w'; counter = unset; outcome = aborted }
      ]

  unfoldable pub apply_flatpak_ref_actions : W → List Action → Applied W
  unfolding apply_loop
  apply_flatpak_ref_actions w actions = apply_loop w no_progress actions

abbrev pub installed_or_error : Option ErrorCode → Result Bool
installed_or_error none = ok true
installed_or_error (some e) = if is_not_installed e then ok false else err e

abbrev negated : Result Bool → Result Bool
negated (ok b) = ok (not b)
negated (err e) = err e
negated unset = unset

abbrev pub delta_value : ActionType → Result Bool → Result Bool
delta_value install installed = negated installed
delta_value uninstall installed = installed
delta_value update installed = ok false

module _ {W : Type 0} (flatpak : Flatpak W) (w : W) where
  -- check_if_flatpak_is_installed.
  unfoldable pub check_if_flatpak_is_installed : Action → Result Bool
  check_if_flatpak_is_installed a = installed_or_error (flatpak.get_installed_ref w a.location.ref)

  abbrev delta_if : Bool → Action → List Action → List Action
  delta_if missing a deltas = if missing then a ∷ deltas else deltas

  -- Whether the effect of the action is not seen; an update is not looked at.
  unfoldable pub delta_of : Action → Result Bool
  unfolding check_if_flatpak_is_installed
  delta_of a = delta_value a.type (check_if_flatpak_is_installed a)

  -- The actions whose effect is not seen, latest first; `deltas` is their text in the source.
  unfoldable pub deltas_loop : List Action → List Action → Result (List Action)
  deltas_loop deltas [] = ok deltas
  deltas_loop deltas (a ∷ rest) = elim (delta_of a) [
    | ok delta ↦ deltas_loop (delta_if delta a deltas) rest
    | err e ↦ err e
    | unset ↦ unset
  ]

  abbrev verdict : Result (List Action) → Result (Unit {0})
  verdict (ok []) = ok tt
  verdict (ok (a ∷ deltas)) = err io_failed
  verdict (err e) = err e
  verdict unset = unset

  unfoldable pub check_ref_actions_applied : List Action → Result (Unit {0})
  unfolding deltas_loop
  check_ref_actions_applied actions = verdict (deltas_loop [] actions)
