-- ===== src/Poll/Refspec/Laws.antt =====
-- eos-updater/poll-common.c: the ref that is upgraded on.
use eos_updater.Sysroot.{get_booted_deployment_from_loaded_sysroot, Deployment, Sysroot}
use eos_updater.Checkpoint.Laws.{should_follow_checkpoint_cases}
use eos_updater.Checkpoint.{should_follow_checkpoint}
use eos_updater.Poll.Refspec.{
  on_checkpoint, target_of, get_booted_refspec, Refspec, get_ref_to_upgrade_on_from_deployment,
  get_refspec_to_upgrade_on, follow_target, System,
}
use eos_updater.Poll.Latest.{Ostree}
use eos_updater.Prelude.{none, some, Option, String, ◌≡◌, inl, inr, refl, arith}
use eos_updater.Errors.{Result-cases}
use eos_updater.Errors.{ok}

module _ {W : Type 0} (ostree : Ostree W) (system : System W) where
  -- The metadata names a target with this ref, and the checkpoint is not blocked.
  abbrev pub Followed : Option String → String → Type 0
  Followed target ref =
      (t : String) × (remote : Option String) × (target ≡ some t)
      × (ostree.parse_refspec t ≡ ok (remote, ref))
      × (should_follow_checkpoint system.env system.driver ≡ ok tt)

  follow_target-Followed :
      (target : Option String) (ref : String)
      → Followed target ref
      → follow_target ostree system target ≡ ok (some ref)
  follow_target-Followed target ref (t, remote, e, p, f) = ground arith

  follow_target_otherwise :
      (target : Option String)
      → ((ref : String) → ¬ Followed target ref)
      → follow_target ostree system target ≡ ok none
  follow_target_otherwise none h = refl
  follow_target_otherwise (some t) h = elim (Result-cases (ostree.parse_refspec t)) [
    | inl (names, p) ↦ elim (should_follow_checkpoint_cases system.env system.driver) [
      | inl f ↦ absurd (h names.1 (t, names.0, refl, p, f))
      | inr (inl f) ↦ ground arith
      | inr (inr f) ↦ ground arith
    ]
    | inr (inl (e, p)) ↦ ground arith
    | inr (inr p) ↦ ground arith
  ]

  -- On a booted deployment with a refspec: if its commit names a target whose ref can be parsed and
  -- the checkpoint is not blocked, that ref of the booted remote is upgraded on; otherwise the
  -- booted ref is, without an error.
  pub get_refspec_to_upgrade_on-Followed :
      (w : W) (s : Sysroot) (d : Deployment) (booted : Refspec)
      → system.sysroot w ≡ ok s
      → s.repo ≡ ok tt
      → get_booted_deployment_from_loaded_sysroot s ≡ ok d
      → get_booted_refspec ostree system d w ≡ ok booted
      → ((ref : String)
          → Followed (target_of ((ostree.repo w).load_commit d.csum)) ref
          → get_refspec_to_upgrade_on ostree system w ≡ ok (on_checkpoint booted ref))
        × (((ref : String) → ¬ Followed (target_of ((ostree.repo w).load_commit d.csum)) ref)
            → get_refspec_to_upgrade_on ostree system w ≡ ok booted)
  unfolding get_refspec_to_upgrade_on get_ref_to_upgrade_on_from_deployment
  get_refspec_to_upgrade_on-Followed w s d booted e r b g = (
    (λ ref f.
        let h = follow_target-Followed (target_of ((ostree.repo w).load_commit d.csum)) ref f in
        ground arith),
    (λ n.
        let h = follow_target_otherwise (target_of ((ostree.repo w).load_commit d.csum)) n in
        ground arith),
  )
