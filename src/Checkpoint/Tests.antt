-- ===== src/Checkpoint/Tests.antt =====
-- A driver with a device behind it.
use eos_updater.Checkpoint.Laws.{should_follow_checkpoint_iff, IsUnused}
use eos_updater.Checkpoint.{
  nvme_remap, nvme_loop, forced, is_nvme_remap_in_use, Listing, should_follow_checkpoint,
}
use eos_updater.Prelude.{[], ◌∷◌, true, false, none, some, Option, String, ◌≡◌, ◌≢◌, ◌⊎◌, ◌↔◌, refl}
use eos_updater.Errors.{ok, err}

abbrev device : Listing
device = ok (
    ok (record { name = "bind"; is_symlink = false })
    ∷ ok (record { name = "0000:00:0e.0"; is_symlink = true })
    ∷ [])

device_blocks : should_follow_checkpoint none device ≡ err nvme_remap
unfolding should_follow_checkpoint is_nvme_remap_in_use nvme_loop
device_blocks = refl

should_follow_checkpoint_iff_example :
    ((should_follow_checkpoint none device ≡ ok tt) ↔ (
      (◌≡◌ {A = Option String} none (some "1"))
      ⊎ ((◌≢◌ {A = Option String} none (some "0")) × IsUnused device)))
    × ((should_follow_checkpoint none device ≡ err forced)
        ↔ (◌≡◌ {A = Option String} none (some "0")))
    × ((should_follow_checkpoint none device ≡ err nvme_remap) ↔ (
        (◌≢◌ {A = Option String} none (some "1"))
        × (◌≢◌ {A = Option String} none (some "0"))
        × ¬ IsUnused device))
should_follow_checkpoint_iff_example = should_follow_checkpoint_iff none device
