-- ===== src/Checkpoint/Laws.antt =====
-- libeos-updater-util/checkpoint.c: when a checkpoint is followed.
use eos_updater.Checkpoint.{
  nvme_remap, forced, Listing, nvme_loop, is_nvme_remap_in_use, should_follow_checkpoint, FileInfo,
}
use eos_updater.Prelude.{
  strcmp0_eq_iff, strcmp0_eq, has_prefix, All, ◌&&◌, List, [], ◌∷◌, false, some, Option, String,
  ◌≡◌, ◌≢◌, ◌⊎◌, ◌↔◌, inl, inr, refl, arith, Bool-cases,
}
use eos_updater.Errors.{Result, ok, err, unset}

-- A file that shows no device behind the driver.
abbrev pub IsIdle : Result FileInfo → Type 0
IsIdle (ok info) = (info.is_symlink && has_prefix info.name "0000:") ≡ false
IsIdle (err e) = ⊥
IsIdle unset = ⊥

-- The driver's directory cannot be opened, or all of it could be read and shows no device.
abbrev pub IsUnused : Listing → Type 0
IsUnused (ok entries) = All IsIdle entries
IsUnused (err e) = Unit
IsUnused unset = Unit

nvme_loop_iff :
    (entries : List (Result FileInfo)) → (nvme_loop entries ≡ false) ↔ All IsIdle entries
unfolding nvme_loop
nvme_loop_iff [] = (λ _. tt, λ _. refl)
nvme_loop_iff ((ok info) ∷ rest) =
    elim (Bool-cases (info.is_symlink && has_prefix info.name "0000:")) [
      | inl t ↦ (λ h. absurd (ground arith), λ h. absurd (ground arith))
      | inr f ↦ (
        λ h. (f, (nvme_loop_iff rest).0 (ground arith)),
        λ h. ground (arith, (nvme_loop_iff rest).1 h.1),
      )
    ]
nvme_loop_iff ((err e) ∷ rest) = (λ h. cc, λ h. absurd h.0)
nvme_loop_iff (unset ∷ rest) = (λ h. cc, λ h. absurd h.0)

is_nvme_remap_in_use_iff :
    (listing : Listing) → (is_nvme_remap_in_use listing ≡ false) ↔ IsUnused listing
unfolding is_nvme_remap_in_use
is_nvme_remap_in_use_iff (ok entries) = nvme_loop_iff entries
is_nvme_remap_in_use_iff (err e) = (λ _. tt, λ _. refl)
is_nvme_remap_in_use_iff unset = (λ _. tt, λ _. refl)

-- A checkpoint is followed exactly if the environment forces it, or does not forbid it and no
-- device is behind the nvme-remap driver; and where it is not, the error says which of the two
-- blocks it.
pub should_follow_checkpoint_iff :
    (env : Option String) (listing : Listing)
    → ((should_follow_checkpoint env listing ≡ ok tt)
        ↔ ((env ≡ some "1") ⊎ ((env ≢ some "0") × IsUnused listing)))
      × ((should_follow_checkpoint env listing ≡ err forced) ↔ (env ≡ some "0"))
      × ((should_follow_checkpoint env listing ≡ err nvme_remap)
          ↔ ((env ≢ some "1") × (env ≢ some "0") × ¬ IsUnused listing))
unfolding should_follow_checkpoint
should_follow_checkpoint_iff env listing = elim (Bool-cases (strcmp0_eq env (some "1"))) [
  | inl one ↦ ground (arith, strcmp0_eq_iff env (some "1"), strcmp0_eq_iff env (some "0"))
  | inr one ↦ elim (Bool-cases (strcmp0_eq env (some "0"))) [
    | inl forbidden ↦ ground (arith, strcmp0_eq_iff env (some "1"), strcmp0_eq_iff env (some "0"))
    | inr forbidden ↦ elim (Bool-cases (is_nvme_remap_in_use listing)) [
      | inl used ↦ ground (
        arith,
        strcmp0_eq_iff env (some "1"),
        strcmp0_eq_iff env (some "0"),
        is_nvme_remap_in_use_iff listing,
      )
      | inr used ↦ ground (
        arith,
        strcmp0_eq_iff env (some "1"),
        strcmp0_eq_iff env (some "0"),
        is_nvme_remap_in_use_iff listing,
      )
    ]
  ]
]

pub should_follow_checkpoint_cases :
    (env : Option String) (listing : Listing)
    → (should_follow_checkpoint env listing ≡ ok tt)
      ⊎ (should_follow_checkpoint env listing ≡ err forced)
      ⊎ (should_follow_checkpoint env listing ≡ err nvme_remap)
unfolding should_follow_checkpoint
should_follow_checkpoint_cases env listing = elim (Bool-cases (strcmp0_eq env (some "1"))) [
  | inl one ↦ inl (ground arith)
  | inr one ↦ elim (Bool-cases (strcmp0_eq env (some "0"))) [
    | inl forbidden ↦ inr (inl (ground arith))
    | inr forbidden ↦ elim (Bool-cases (is_nvme_remap_in_use listing)) [
      | inl used ↦ inr (inr (ground arith))
      | inr used ↦ inl (ground arith)
    ]
  ]
]
