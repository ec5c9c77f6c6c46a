-- ===== src/Actions/Order.antt =====
-- sort_flatpak_remote_ref_actions as an order: where it agrees with the serials, and where not.
use eos_updater.Prelude.{
  wrap_i32_high, ◌^◌, pos, ◌-ℤ◌, -ℤ_parts, eq_of_parts, ◌≤ℤ◌, ◌<ℤ◌, wrap_i32, wrap_i32_of_InI32,
  InI32, ◌≡◌, ◌↔◌, true, arith, strcmp0_eq_iff,
}
use eos_updater.Actions.{Action, FlatpakRef, ref_equal, sort_flatpak_remote_ref_actions}

-- Two refs are equal exactly when the comparison says so.
pub ref_equal_iff : (a b : FlatpakRef) → (ref_equal a b ≡ true) ↔ (a ≡ b)
unfolding ref_equal
ref_equal_iff a b = ground (
  arith,
  strcmp0_eq_iff a.name b.name,
  strcmp0_eq_iff a.arch b.arch,
  strcmp0_eq_iff a.branch b.branch,
)

-- The difference of the serials fits a gint.
abbrev pub IsNear : Action → Action → Type 0
IsNear a b = InI32 (a.serial -ℤ b.serial)

pub position_of_IsNear :
    (a b : Action) → IsNear a b → wrap_i32 (a.serial -ℤ b.serial) ≡ a.serial -ℤ b.serial
position_of_IsNear a b h = wrap_i32_of_InI32 (a.serial -ℤ b.serial) h

-- Off the tie the sign is the sign of the wrapped difference; on it, of the tie break.
pub sort_of_lt :
    (a b : Action)
    → IsNear a b
    → a.serial <ℤ b.serial
    → sort_flatpak_remote_ref_actions a b <ℤ pos 0
unfolding sort_flatpak_remote_ref_actions
sort_of_lt a b near lt = ground (arith, position_of_IsNear a b near, -ℤ_parts a.serial b.serial)

pub sort_of_gt :
    (a b : Action)
    → IsNear a b
    → b.serial <ℤ a.serial
    → pos 0 <ℤ sort_flatpak_remote_ref_actions a b
unfolding sort_flatpak_remote_ref_actions
sort_of_gt a b near lt = ground (arith, position_of_IsNear a b near, -ℤ_parts a.serial b.serial)

pub sort_of_eq :
    (a b : Action)
    → a.serial ≡ b.serial
    → a.is_dependency ≡ b.is_dependency
    → sort_flatpak_remote_ref_actions a b ≡ pos 0
unfolding sort_flatpak_remote_ref_actions
sort_of_eq a b e f = ground (arith, position_of_IsNear a b, -ℤ_parts a.serial b.serial)

-- For two actions that are both dependencies or both not, whose serials differ by what a gint can
-- hold, the comparison is the order of the serials.
pub sort-le_iff :
    (a b : Action)
    → IsNear a b
    → a.is_dependency ≡ b.is_dependency
    → (sort_flatpak_remote_ref_actions a b ≤ℤ pos 0) ↔ (a.serial ≤ℤ b.serial)
sort-le_iff a b near same =
    ground (
      arith,
      sort_of_lt a b near,
      sort_of_gt a b near,
      sort_of_eq a b,
      eq_of_parts a.serial b.serial,
    )

-- For two gint32 serials of which the first is larger by 2 ^ 31 or more, the comparison puts the
-- first action before the second.
pub sort_far :
    (a b : Action)
    → InI32 a.serial
    → InI32 b.serial
    → pos (2 ^ 31) ≤ℤ a.serial -ℤ b.serial
    → sort_flatpak_remote_ref_actions a b <ℤ pos 0
unfolding sort_flatpak_remote_ref_actions
sort_far a b ha hb far =
    ground (arith, wrap_i32_high (a.serial -ℤ b.serial), -ℤ_parts a.serial b.serial)
