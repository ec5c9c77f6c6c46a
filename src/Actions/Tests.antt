-- ===== src/Actions/Tests.antt =====
-- Runs on small lists of actions, with insertion sort for the library's sort.
use eos_updater.Actions.Squash.Laws.{squash_ref_actions-filter}
use eos_updater.Actions.Order.{sort_far, sort-le_iff}
use eos_updater.Actions.Progress.Laws.{keep_only-eq-filter, is_new, keep_only_existing-append-new}
use eos_updater.Actions.{
  ref_equal, update, uninstall, ActionType, app, Action, install, LocationRef, FlatpakRef,
  sort_flatpak_remote_ref_actions,
}
use eos_updater.Actions.Squash.{
  squash_action, squash_table, collect, winner, on, squash_ref_actions_ptr_array,
}
use eos_updater.Actions.Progress.{Progresses, keep_only_new_actions, keep_only_existing_actions}
use eos_updater.Prelude.{
  ◌-ℤ◌, wrap_i32, -ℤ_parts, inr, inl, All-perm, ◌<ℤ◌, IsSorted, negsuc, All, to_list, ◌-◌, not, ◌↔◌,
  ◌⊎◌, arith, ◌^◌, Bool-cases, str_equal, pos, filter, [], ◌∷◌, leb_ℤ, if◌then◌else◌, ◌++◌, ◌≡◌,
  ◌≤ℤ◌, Permᴰ, ArraySort, ℤ, ℕ, List, none, some, refl, true, false,
}

insert : {A : Type 0} → (A → A → ℤ) → A → List A → List A
insert cmp x [] = x ∷ []
insert cmp x (y ∷ ys) =
    let later = insert cmp x ys in if leb_ℤ (cmp x y) (pos 0) then x ∷ y ∷ ys else y ∷ later

unfoldable insertion_sort : {A : Type 0} → (A → A → ℤ) → List A → List A
unfolding insert
insertion_sort cmp [] = []
insertion_sort cmp (x ∷ xs) = insert cmp x (insertion_sort cmp xs)

perm_refl : {A : Type 0} (xs : List A) → Permᴰ xs xs
perm_refl [] = Permᴰ.nil
perm_refl (x ∷ xs) = Permᴰ.cons refl (perm_refl xs)

insert-perm :
    {A : Type 0} (cmp : A → A → ℤ) (x : A) (ys : List A) → Permᴰ (insert cmp x ys) (x ∷ ys)
unfolding insert
insert-perm cmp x [] = perm_refl (x ∷ [])
insert-perm cmp x (y ∷ ys) = elim (Bool-cases (leb_ℤ (cmp x y) (pos 0))) [
  | inl le ↦ rw le (perm_refl (x ∷ y ∷ ys))
  | inr gt ↦ rw gt (Permᴰ.trans (Permᴰ.cons refl (insert-perm cmp x ys)) (Permᴰ.swap refl refl))
]

insertion_sort-perm :
    {A : Type 0} (cmp : A → A → ℤ) (xs : List A) → Permᴰ (insertion_sort cmp xs) xs
unfolding insertion_sort
insertion_sort-perm cmp [] = Permᴰ.nil
insertion_sort-perm cmp (x ∷ xs) =
    Permᴰ.trans (insert-perm cmp x (insertion_sort cmp xs))
      (Permᴰ.cons refl (insertion_sort-perm cmp xs))

le_of_leb : (a : ℤ) → leb_ℤ a (pos 0) ≡ true → a ≤ℤ pos 0
le_of_leb a h = ground arith

module _ {A : Type 0} (P : A → Type 0) (cmp : A → A → ℤ)
    (total : (a b : A) → P a → P b → (cmp a b ≤ℤ pos 0) ⊎ (cmp b a ≤ℤ pos 0))
    (transitive : (a b c : A)
      → P a
      → P b
      → P c
      → cmp a b ≤ℤ pos 0
      → cmp b c ≤ℤ pos 0
      → cmp a c ≤ℤ pos 0) where
  All-below :
      (x y : A) (zs : List A)
      → P x
      → P y
      → All P zs
      → cmp x y ≤ℤ pos 0
      → All (λ z. cmp y z ≤ℤ pos 0) zs
      → All (λ z. cmp x z ≤ℤ pos 0) zs
  All-below x y [] px py pzs le h = tt
  All-below x y (z ∷ zs) px py pzs le h =
      (transitive x y z px py pzs.0 le h.0, All-below x y zs px py pzs.1 le h.1)

  other_way : (x y : A) → P x → P y → leb_ℤ (cmp x y) (pos 0) ≡ false → cmp y x ≤ℤ pos 0
  other_way x y px py gt = elim (total x y px py) [ inl le ↦ absurd (ground arith) | inr ge ↦ ge ]

  insert-IsSorted :
      (x : A) (ys : List A) → P x → All P ys → IsSorted cmp ys → IsSorted cmp (insert cmp x ys)
  unfolding insert
  insert-IsSorted x [] px pys h = (tt, tt)
  insert-IsSorted x (y ∷ ys) px pys h = elim (Bool-cases (leb_ℤ (cmp x y) (pos 0))) [
    | inl le ↦
        rw le (
          (le_of_leb (cmp x y) le, All-below x y ys px pys.0 pys.1 (le_of_leb (cmp x y) le) h.0),
          h,
        )
    | inr gt ↦ rw gt (
      All-perm (λ z. cmp y z ≤ℤ pos 0) (insert-perm cmp x ys) (other_way x y px pys.0 gt, h.0),
      insert-IsSorted x ys px pys.1 h.1,
    )
  ]

  insertion_sort-IsSorted : (xs : List A) → All P xs → IsSorted cmp (insertion_sort cmp xs)
  unfolding insertion_sort
  insertion_sort-IsSorted [] h = tt
  insertion_sort-IsSorted (x ∷ xs) h =
      insert-IsSorted x (insertion_sort cmp xs) h.0 (All-perm P (insertion_sort-perm cmp xs) h.1)
        (insertion_sort-IsSorted xs h.1)

-- A sort as GLib documents it.
abbrev insertion : {A : Type 0} → ArraySort A
insertion = record {
  sort = insertion_sort;
  keeps = insertion_sort-perm;
  orders = λ P cmp xs total transitive h. insertion_sort-IsSorted P cmp total transitive xs h;
}

abbrev game : FlatpakRef
game = record { kind = app; name = some "org.example.Game"; arch = none; branch = some "stable" }

abbrev tool : FlatpakRef
tool = record { kind = app; name = some "org.example.Tool"; arch = none; branch = some "stable" }

abbrev at : FlatpakRef → LocationRef
at r = record { ref = r; remote = some "hub"; collection_id = none }

abbrev plain : ℕ → ActionType → FlatpakRef → ℤ → Action
plain address type r serial = record {
  address = address;
  type = type;
  location = at r;
  source = "50-default.json";
  serial = serial;
  is_dependency = false;
}

abbrev four_actions : List Action
four_actions =
    plain 0 install game (pos 3)
    ∷ plain 1 uninstall game (pos 1)
    ∷ plain 2 update game (pos 4)
    ∷ plain 3 update tool (pos 2)
    ∷ []

-- The update after the uninstall is dropped, and what is kept is sorted by serial.
squashed_four :
    squash_ref_actions_ptr_array insertion four_actions
    ≡ some (plain 1 uninstall game (pos 1) ∷ plain 3 update tool (pos 2) ∷ [])
unfolding squash_ref_actions_ptr_array insertion_sort collect squash_table squash_action ref_equal
    sort_flatpak_remote_ref_actions wrap_i32 ◌-ℤ◌
squashed_four = refl

squash_ref_actions-filter_example :
    (out : List Action) × (squash_ref_actions_ptr_array insertion four_actions ≡ some out)
    × ((r : FlatpakRef) → filter (on r) out ≡ to_list (winner r four_actions))
squash_ref_actions-filter_example = squash_ref_actions-filter insertion four_actions

abbrev applied_three : Progresses
applied_three name = if str_equal name "50-default.json" then some (pos 3) else none

abbrev rising : List Action
rising =
    plain 0 install game (pos 1) ∷ plain 1 uninstall game (pos 3) ∷ plain 2 update tool (pos 4) ∷ []

keep_only_existing-append-new_example :
    keep_only_existing_actions "50-default.json" four_actions applied_three
      ++ keep_only_new_actions "50-default.json" four_actions applied_three
    ≡ four_actions
keep_only_existing-append-new_example =
    keep_only_existing-append-new "50-default.json" four_actions applied_three

keep_only-eq-filter_example :
    (keep_only_new_actions "50-default.json" rising applied_three
      ≡ filter (is_new (applied_three "50-default.json")) rising)
    × (keep_only_existing_actions "50-default.json" rising applied_three
        ≡ filter (λ a. not (is_new (applied_three "50-default.json") a)) rising)
keep_only-eq-filter_example =
    keep_only-eq-filter "50-default.json" rising applied_three (ground arith)

sort-le_iff_example :
    (sort_flatpak_remote_ref_actions (plain 0 install game (pos 3)) (plain 1 update game (pos 7))
      ≤ℤ pos 0)
    ↔ (pos 3 ≤ℤ pos 7)
sort-le_iff_example =
    sort-le_iff (plain 0 install game (pos 3)) (plain 1 update game (pos 7))
      (ground (arith, -ℤ_parts (pos 3) (pos 7))) refl

sort_far_example :
    sort_flatpak_remote_ref_actions
      (plain 0 install game (pos (2 ^ 31 - 1)))
      (plain 1 update game (negsuc 0))
    <ℤ pos 0
sort_far_example =
    sort_far (plain 0 install game (pos (2 ^ 31 - 1))) (plain 1 update game (negsuc 0))
      (ground arith) (ground arith) (ground (arith, -ℤ_parts (pos (2 ^ 31 - 1)) (negsuc 0)))
