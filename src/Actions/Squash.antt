-- ===== src/Actions/Squash.antt =====
-- libeos-updater-util/flatpak-util.c: squash_ref_actions_ptr_array and the functions over tables
-- of action lists that use it. A GHashTable that is looked up is a function, one that is iterated
-- is a list of its entries, in whatever order it keeps them.
mod Tables
pub mod Laws
use eos_updater.Prelude.{
  String, Bool, true, false, ◌&&◌, ◌||◌, not, Option, none, some, List, [], ◌∷◌, ◌++◌, any,
  get_last?, filter, if◌then◌else◌, ArraySort, ◌==◌,
}
use eos_updater.Actions.{Action, FlatpakRef, ref_equal, is_update, sort_flatpak_remote_ref_actions}

-- The hash table from a ref to the action that is kept for it.
abbrev pub Table : Type 0
Table = FlatpakRef → Option Action

abbrev pub empty : Table
empty r = none

-- g_hash_table_replace.
abbrev pub replace : FlatpakRef → Action → Table → Table
replace r a t s = if ref_equal r s then some a else t s

-- "existing_action_for_ref == NULL || existing_action_for_ref->type == UPDATE".
abbrev pub yields : Option Action → Bool
yields none = true
yields (some e) = is_update e.type

-- One round of the first loop.
unfoldable pub squash_action : Table → Action → Table
squash_action t a =
    if not (is_update a.type) || yields (t a.location.ref) then replace a.location.ref a t else t

unfoldable pub squash_table : Table → List Action → Table
squash_table t [] = t
squash_table t (a ∷ rest) = squash_table (squash_action t a) rest

-- g_ptr_array_find_with_equal_func with euu_flatpak_remote_ref_action_equal_ref_only.
abbrev pub finds : List Action → Action → Bool
finds out a = any (λ x. ref_equal x.location.ref a.location.ref) out

-- The second loop; `none` is the failed assertion that the table has the ref.
unfoldable pub collect : Table → List Action → List Action → Option (List Action)
collect t [] out = some out
collect t (a ∷ rest) out = elim (t a.location.ref) [
  | none ↦ none
  | some s ↦
      collect t rest (if s.address == a.address && not (finds out a) then out ++ s ∷ [] else out)
]

module _ (array : ArraySort Action) where
  unfoldable pub squash_ref_actions_ptr_array : List Action → Option (List Action)
  squash_ref_actions_ptr_array actions = elim (collect (squash_table empty actions) actions []) [
    | none ↦ none
    | some out ↦ some (array.sort sort_flatpak_remote_ref_actions out)
  ]

  -- euu_squash_remote_ref_actions.
  unfoldable pub squash_remote_ref_actions :
      List (String × List Action) → Option (List (String × List Action))
  squash_remote_ref_actions [] = some []
  squash_remote_ref_actions ((key, actions) ∷ table) = elim (squash_ref_actions_ptr_array actions) [
    | none ↦ none
    | some squashed ↦ elim (squash_remote_ref_actions table) [
      | none ↦ none
      | some rest ↦ some ((key, squashed) ∷ rest)
    ]
  ]

-- What is meant to be kept for a ref: its last action that is not an update, or if all are
-- updates its last one.
abbrev pub on : FlatpakRef → Action → Bool
on r a = ref_equal a.location.ref r

abbrev pub decisive : FlatpakRef → Action → Bool
decisive r a = on r a && not (is_update a.type)

abbrev pub winner : FlatpakRef → List Action → Option Action
winner r actions = elim (get_last? (filter (decisive r) actions)) [
  | none ↦ get_last? (filter (on r) actions)
  | some a ↦ some a
]
