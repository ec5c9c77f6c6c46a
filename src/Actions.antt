-- ===== src/Actions.antt =====
-- libeos-updater-util/flatpak-util.c and .h: a flatpak ref, an action on one, and the order in
-- which actions are kept.
pub mod Order
pub mod Squash
pub mod Progress
mod Tests
use eos_updater.Prelude.{
  ℕ, ℤ, negsuc, pos, ◌-ℤ◌, wrap_i32, eqb_ℤ, String, strcmp0_eq, Bool, true, false, ◌&&◌, ◌||◌, not,
  Option, if◌then◌else◌,
}

pub data RefKind : Type 0 where
  app : RefKind
  runtime : RefKind

pub data ActionType : Type 0 where
  install : ActionType
  uninstall : ActionType
  update : ActionType

-- The four properties of a FlatpakRef that the code compares; a string may be null.
pub record FlatpakRef : Type 0 where
  pub kind : RefKind
  pub name : Option String
  pub arch : Option String
  pub branch : Option String

pub record LocationRef : Type 0 where
  pub ref : FlatpakRef
  pub remote : Option String
  pub collection_id : Option String

-- `address` tells one object from another: the code compares pointers to actions. `serial` is a
-- gint32. The only flag is IS_DEPENDENCY.
pub record Action : Type 0 where
  pub address : ℕ
  pub type : ActionType
  pub location : LocationRef
  pub source : String
  pub serial : ℤ
  pub is_dependency : Bool

abbrev pub kind_equal : RefKind → RefKind → Bool
kind_equal app app = true
kind_equal runtime runtime = true
kind_equal _ _ = false

unfoldable pub ref_equal : FlatpakRef → FlatpakRef → Bool
ref_equal a b =
    kind_equal a.kind b.kind
    && strcmp0_eq a.name b.name
    && strcmp0_eq a.arch b.arch
    && strcmp0_eq a.branch b.branch

abbrev pub is_uninstall : ActionType → Bool
is_uninstall uninstall = true
is_uninstall _ = false

abbrev pub is_install : ActionType → Bool
is_install install = true
is_install _ = false

abbrev pub is_update : ActionType → Bool
is_update update = true
is_update _ = false

abbrev pub is_update_or_install : ActionType → Bool
is_update_or_install uninstall = false
is_update_or_install _ = true

abbrev minus_one : ℤ
minus_one = negsuc 0

-- Dependencies first, or last, among actions of one serial.
tie_break : ActionType → Bool → ActionType → Bool → ℤ
tie_break type_a dep_a type_b dep_b =
    if is_update_or_install type_a && is_update_or_install type_b
    then (if dep_a && not dep_b then minus_one else if not dep_a && dep_b then pos 1 else pos 0)
    else if is_uninstall type_a && is_uninstall type_b
    then (if dep_a && not dep_b then pos 1 else if not dep_a && dep_b then minus_one else pos 0)
    else pos 0

-- The difference is a `gint` subtraction: it wraps.
unfoldable pub sort_flatpak_remote_ref_actions : Action → Action → ℤ
unfolding tie_break
sort_flatpak_remote_ref_actions a b =
    let position = wrap_i32 (a.serial -ℤ b.serial) in
    if eqb_ℤ position (pos 0)
    then tie_break a.type a.is_dependency b.type b.is_dependency
    else position
