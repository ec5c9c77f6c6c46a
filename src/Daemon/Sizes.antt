-- ===== src/Daemon/Sizes.antt =====
-- eos-updater/poll-common.c: get_commit_sizes, with its saturating sums, and the clamping to
-- gint64 in metadata_fetch_finished.
pub mod Bounds
use eos_updater.Prelude.{
  inr, inl, ℕ, ◌+◌, ◌-◌, ◌^◌, ◌≤◌, ◌<◌, ltb, Bool, true, false, not, Option, none, some, List, [],
  ◌∷◌, if◌then◌else◌, ◌≡◌, refl, arith, All, length,
}
use Prim.Native.Nat.{min}
use eos_updater.Errors.{Result-cases, ErrorCode, Result, ok, err, unset}

abbrev pub max_uint64 : ℕ
max_uint64 = 2 ^ 64 - 1

abbrev pub max_int64 : ℕ
max_int64 = 2 ^ 63 - 1

-- OstreeCommitSizesEntry, with what ostree_repo_has_object says of its object.
pub record SizesEntry : Type 0 where
  pub archived : ℕ
  pub unpacked : ℕ
  pub exists : Result Bool

pub record Sizes : Type 0 where
  pub new_archived : ℕ
  pub new_unpacked : ℕ
  pub archived : ℕ
  pub unpacked : ℕ

unfoldable pub saturated_increment : ℕ → ℕ → ℕ
saturated_increment a b = if ltb a (max_uint64 - b) then a + b else max_uint64

unfoldable pub clamp_to_gint64 : ℕ → ℕ
clamp_to_gint64 a = if ltb max_int64 a then max_int64 else a

unfoldable pub add_sizes : SizesEntry → Bool → Sizes → Sizes
unfolding saturated_increment
add_sizes e exists s = record {
  archived = saturated_increment s.archived e.archived;
  unpacked = saturated_increment s.unpacked e.unpacked;
  new_archived = if exists then s.new_archived else saturated_increment s.new_archived e.archived;
  new_unpacked = if exists then s.new_unpacked else saturated_increment s.new_unpacked e.unpacked;
}

unfoldable pub sizes_loop : Sizes → List SizesEntry → Result Sizes
unfolding add_sizes
sizes_loop s [] = ok s
sizes_loop s (e ∷ rest) = elim e.exists [
  | ok exists ↦ sizes_loop (add_sizes e exists s) rest
  | err x ↦ err x
  | unset ↦ unset
]

abbrev pub zero_sizes : Sizes
zero_sizes = record { new_archived = 0; new_unpacked = 0; archived = 0; unpacked = 0 }

-- The argument is the commit's list of sizes, or why it cannot be read.
unfoldable pub get_commit_sizes : Result (List SizesEntry) → Result Sizes
unfolding sizes_loop
get_commit_sizes (ok entries) = sizes_loop zero_sizes entries
get_commit_sizes (err e) = err e
get_commit_sizes unset = unset

-- The sums without a bound: of all entries, and of those whose object is missing.
abbrev pub total : (SizesEntry → ℕ) → List SizesEntry → ℕ
total size [] = 0
total size (e ∷ rest) = size e + total size rest

abbrev pub missing_size : (SizesEntry → ℕ) → SizesEntry → ℕ
missing_size size e = elim e.exists [
  | ok exists ↦ if exists then 0 else size e
  | err _ ↦ 0
  | unset ↦ 0
]

abbrev pub Fits : SizesEntry → Type 0
Fits e = (e.archived ≤ max_uint64) × (e.unpacked ≤ max_uint64)
