-- ===== src/Actions/Progress.antt =====
-- libeos-updater-util/flatpak-util.c: which actions are new with respect to the progress that was
-- recorded for each autoinstall file, which have been applied, and the list over all files.
pub mod Laws
use eos_updater.Prelude.{
  String, ℤ, ltb_ℤ, Bool, true, false, Option, none, some, List, [], ◌∷◌, ◌++◌, map, if◌then◌else◌,
  ArraySort, str_equal, strcmp,
}
use eos_updater.Actions.{Action}
use eos_updater.Actions.Squash.{squash_ref_actions_ptr_array, squash_remote_ref_actions}

-- From an autoinstall file's name to the serial that was applied last.
abbrev pub Progresses : Type 0
Progresses = String → Option ℤ

-- `filtered_actions`, which is null until the first new action.
abbrev start_adding : ℤ → Action → Option (List Action) → Option (List Action)
start_adding progress a none = if ltb_ℤ progress a.serial then some [] else none
start_adding progress a (some filtered) = some filtered

abbrev add_action : Action → Option (List Action) → Option (List Action)
add_action a none = none
add_action a (some filtered) = some (filtered ++ a ∷ [])

new_actions_loop : ℤ → Option (List Action) → List Action → Option (List Action)
new_actions_loop progress filtered [] = filtered
new_actions_loop progress filtered (a ∷ rest) =
    new_actions_loop progress (add_action a (start_adding progress a filtered)) rest

abbrev or_empty : Option (List Action) → List Action
or_empty none = []
or_empty (some filtered) = filtered

unfoldable pub keep_only_new_actions : String → List Action → Progresses → List Action
unfolding new_actions_loop
keep_only_new_actions name actions progresses = elim (progresses name) [
  | none ↦ actions
  | some progress ↦ or_empty (new_actions_loop progress none actions)
]

-- The loop breaks at the first action past the progress.
existing_actions_loop : ℤ → List Action → List Action → List Action
existing_actions_loop progress filtered [] = filtered
existing_actions_loop progress filtered (a ∷ rest) =
    let later = existing_actions_loop progress (filtered ++ a ∷ []) rest in
    if ltb_ℤ progress a.serial then filtered else later

unfoldable pub keep_only_existing_actions : String → List Action → Progresses → List Action
unfolding existing_actions_loop
keep_only_existing_actions name actions progresses = elim (progresses name) [
  | none ↦ []
  | some progress ↦ existing_actions_loop progress [] actions
]

abbrev pub ActionsTable : Type 0
ActionsTable = List (String × List Action)

-- g_hash_table_lookup in a table that is also iterated; a missing key gives no actions.
abbrev pub lookup_actions : String → ActionsTable → List Action
lookup_actions key [] = []
lookup_actions key ((name, actions) ∷ table) =
    if str_equal name key then actions else lookup_actions key table

concat_actions : ActionsTable → List String → List Action
concat_actions table [] = []
concat_actions table (key ∷ keys) = lookup_actions key table ++ concat_actions table keys

module _ (array : ArraySort Action) where
  unfoldable pub filter_flatpak_ref_actions_table :
      (String → List Action → Progresses → List Action)
      → ActionsTable
      → Progresses
      → Option ActionsTable
  filter_flatpak_ref_actions_table filter_func table progresses =
      squash_remote_ref_actions array
        (map (λ (name, actions). (name, filter_func name actions progresses)) table)

  unfoldable pub filter_for_new_flatpak_ref_actions :
      ActionsTable → Progresses → Option ActionsTable
  filter_for_new_flatpak_ref_actions table progresses =
      filter_flatpak_ref_actions_table keep_only_new_actions table progresses

  unfoldable pub filter_for_existing_flatpak_ref_actions :
      ActionsTable → Progresses → Option ActionsTable
  filter_for_existing_flatpak_ref_actions table progresses =
      filter_flatpak_ref_actions_table keep_only_existing_actions table progresses

  unfoldable pub flatten_flatpak_ref_actions_table :
      ArraySort String → ActionsTable → Option (List Action)
  unfolding concat_actions
  flatten_flatpak_ref_actions_table names table =
      squash_ref_actions_ptr_array array
        (concat_actions table (names.sort strcmp (map (λ (name, actions). name) table)))
