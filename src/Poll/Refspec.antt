-- ===== src/Poll/Refspec.antt =====
-- eos-updater/poll-common.c and poll.c: the ref that is booted and the ref that is upgraded on
-- (get_booted_refspec, get_ref_to_upgrade_on_from_deployment, get_refspec_to_upgrade_on,
-- get_booted_refspec_from_default_booted_sysroot_deployment).
pub mod Laws
use eos_updater.Poll.Update.{Commit}
use eos_updater.Checkpoint.{should_follow_checkpoint, Listing}
use eos_updater.Poll.Latest.{refspec_of, CollectionRef, Ostree}
use eos_updater.Sysroot.{get_booted_deployment_from_loaded_sysroot, Deployment, Sysroot}
use eos_updater.Prelude.{
  List, [], ◌∷◌, ◌++◌, true, false, none, some, Option, Bool, String, ℕ, zero, suc, ◌≡◌, ◌≢◌, ◌⊎◌,
  ◌↔◌, inl, inr, refl, arith, if◌then◌else◌, Bool-cases, Option-cases,
}
use eos_updater.Errors.{checkpoint_block, io_failed, io_not_found, ErrorCode, Result-cases}
use eos_updater.Errors.{Result, ok, err, unset, ◌>>=◌}

-- The system besides the repository: parameters. `sysroot` is the default sysroot as it is loaded,
-- `local_repo` what opening the local repository returns, and `env` and `driver` are what
-- checkpoints depend on.
pub record System (W : Type 0) : Type 0 where
  pub sysroot : W → Result Sysroot
  pub local_repo : W → Result (Unit {0})
  pub env : Option String
  pub driver : Listing

-- The out parameters of get_booted_refspec and get_refspec_to_upgrade_on.
pub record Refspec : Type 0 where
  pub refspec : String
  pub remote : String
  pub ref : String
  pub collection_ref : Option CollectionRef

abbrev pub collection_of : String → Option String → Option CollectionRef
collection_of ref none = none
collection_of ref (some id) = some (record { collection_id = id; ref_name = ref })

-- A refspec that does not name a remote is refused.
abbrev pub named {ℓ} : {A : Type ℓ} → Option String → (String → Result A) → Result A
named none k = err io_failed
named (some remote) k = k remote

abbrev pub origin_refspec : Option (Result String) → Result String
origin_refspec none = err io_not_found
origin_refspec (some r) = r

-- The target in the commit's metadata, if the commit is there and has one.
abbrev pub target_of : Result Commit → Option String
target_of (ok commit) = commit.checkpoint_target
target_of (err _) = none
target_of unset = none

-- A checkpoint that is blocked counts as none; the metric that is sent then is left out.
abbrev pub unless_blocked : String → Result (Unit {0}) → Result (Option String)
unless_blocked ref (ok _) = ok (some ref)
unless_blocked ref (err (checkpoint_block n)) = ok none
unless_blocked ref (err e) = err e
unless_blocked ref unset = unset

abbrev pub on_checkpoint : Refspec → String → Refspec
on_checkpoint booted ref = record {
  refspec = refspec_of booted.remote ref;
  remote = booted.remote;
  ref = ref;
  collection_ref = elim booted.collection_ref [
    | none ↦ none
    | some c ↦ some (record { collection_id = c.collection_id; ref_name = ref })
  ];
}

abbrev pub upgrade_on : Refspec → Option String → Refspec
upgrade_on booted none = booted
upgrade_on booted (some ref) = on_checkpoint booted ref

module _ {W : Type 0} (ostree : Ostree W) (system : System W) where
  unfoldable pub get_booted_refspec : Deployment → W → Result Refspec
  get_booted_refspec d w = origin_refspec d.origin >>= λ refspec.
      ostree.parse_refspec refspec >>= λ names. named names.0 (λ remote.
        system.local_repo w >>= λ _. ostree.remote_collection_id remote w >>= λ id. ok (record {
          refspec = refspec;
          remote = remote;
          ref = names.1;
          collection_ref = collection_of names.1 id;
        }))

  -- A target that cannot be parsed counts as none, and its remote is ignored.
  abbrev pub follow_target : Option String → Result (Option String)
  follow_target none = ok none
  follow_target (some target) = elim (ostree.parse_refspec target) [
    | ok names ↦ unless_blocked names.1 (should_follow_checkpoint system.env system.driver)
    | err e ↦ ok none
    | unset ↦ ok none
  ]

  unfoldable pub get_ref_to_upgrade_on_from_deployment :
      Sysroot → Deployment → W → Result (Option String)
  get_ref_to_upgrade_on_from_deployment s d w =
      s.repo >>= λ _. follow_target (target_of ((ostree.repo w).load_commit d.csum))

  unfoldable pub get_refspec_to_upgrade_on : W → Result Refspec
  get_refspec_to_upgrade_on w = system.sysroot w >>= λ s.
      get_booted_deployment_from_loaded_sysroot s >>= λ d. get_booted_refspec d w >>= λ booted.
      get_ref_to_upgrade_on_from_deployment s d w >>= λ checkpoint.
      ok (upgrade_on booted checkpoint)

  unfoldable pub get_booted_refspec_from_default : W → Result Refspec
  get_booted_refspec_from_default w = system.sysroot w >>= λ s.
      get_booted_deployment_from_loaded_sysroot s >>= λ d. get_booted_refspec d w
