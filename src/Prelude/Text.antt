-- ===== src/Prelude/Text.antt =====
-- C strings, compared whole: `g_strcmp0` and `g_str_equal`, and nullable strings as options.
use Prim.Native.String.{String, compare, ◌++◌}
use Prim.Native.Nat.{Ordering}
use eos_updater.Prelude.Int.{ℤ, pos, negsuc}
use mathlib.Core.Path.{◌≡◌}
use mathlib.Core.Bool.{Bool, true, false}
use mathlib.Core.Logic.{◌↔◌}
use mathlib.Core.Option.{Option, none, some}
use native.Mathlib.Omega.{arith}
use text.Mathlib.Text.{starts_with, ◌==◌}
use text.Mathlib.TextEquality.{eq_iff}

-- `g_strconcat` of two strings.
abbrev pub strconcat : String → String → String
strconcat s t = s ++ t

-- `g_str_equal`.
abbrev pub str_equal : String → String → Bool
str_equal s t = s == t

pub str_equal_iff : (s t : String) → (str_equal s t ≡ true) ↔ (s ≡ t)
str_equal_iff s t = eq_iff s t

-- `g_strcmp0 (a, b) == 0`: two null pointers are equal, and null differs from every string.
abbrev pub strcmp0_eq : Option String → Option String → Bool
strcmp0_eq none none = true
strcmp0_eq (some s) (some t) = str_equal s t
strcmp0_eq _ _ = false

pub strcmp0_eq_iff : (a b : Option String) → (strcmp0_eq a b ≡ true) ↔ (a ≡ b)
strcmp0_eq_iff none none = ground arith
strcmp0_eq_iff none (some t) = ground arith
strcmp0_eq_iff (some s) none = ground arith
strcmp0_eq_iff (some s) (some t) = ground (arith, str_equal_iff s t)

-- `g_strcmp0` on strings that are not null; only its sign is documented.
abbrev pub strcmp : String → String → ℤ
strcmp s t = elim (compare s t) [
  | Ordering.lt ↦ negsuc 0
  | Ordering.eq ↦ pos 0
  | Ordering.gt ↦ pos 1
]

-- `g_str_has_prefix`.
abbrev pub has_prefix : String → String → Bool
has_prefix s prefix = starts_with s prefix
