-- ===== src/Checkpoint.antt =====
-- libeos-updater-util/checkpoint.c: whether a checkpoint is followed
-- (euu_should_follow_checkpoint, is_nvme_remap_in_use).
pub mod Laws
mod Tests
use eos_updater.Prelude.{
  has_prefix, ◌&&◌, strcmp0_eq, List, [], ◌∷◌, ◌++◌, true, false, none, some, Option, Bool, String,
  ℕ, zero, suc, ◌≡◌, ◌≢◌, ◌⊎◌, ◌↔◌, inl, inr, refl, arith, if◌then◌else◌, Bool-cases, Option-cases,
}
use eos_updater.Errors.{checkpoint_block, ErrorCode, Result-cases}
use eos_updater.Errors.{Result, ok, err, unset, ◌>>=◌}

-- EuuCheckpointBlock, by its values.
abbrev pub forced : ErrorCode
forced = checkpoint_block 0

abbrev pub nvme_remap : ErrorCode
nvme_remap = checkpoint_block 1

-- A GFileInfo, as far as it is looked at.
pub record FileInfo : Type 0 where
  pub name : String
  pub is_symlink : Bool

-- The directory of the driver, as it is read: the error of opening it, or one result for each call
-- of g_file_enumerator_iterate before the last.
abbrev pub Listing : Type 0
Listing = Result (List (Result FileInfo))

unfoldable pub nvme_loop : List (Result FileInfo) → Bool
nvme_loop [] = false
nvme_loop ((ok info) ∷ rest) =
    let later = nvme_loop rest in
    if info.is_symlink && has_prefix info.name "0000:" then true else later
nvme_loop ((err e) ∷ rest) = true
nvme_loop (unset ∷ rest) = true

unfoldable pub is_nvme_remap_in_use : Listing → Bool
is_nvme_remap_in_use (ok entries) = nvme_loop entries
is_nvme_remap_in_use (err e) = false
is_nvme_remap_in_use unset = false

-- `env` is EOS_UPDATER_FORCE_FOLLOW_CHECKPOINT.
unfoldable pub should_follow_checkpoint : Option String → Listing → Result (Unit {0})
should_follow_checkpoint env listing =
    if strcmp0_eq env (some "1")
    then ok tt
    else if strcmp0_eq env (some "0")
    then err forced
    else if is_nvme_remap_in_use listing
    then err nvme_remap
    else ok tt
