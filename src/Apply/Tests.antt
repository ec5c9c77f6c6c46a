-- ===== src/Apply/Tests.antt =====
-- A deployment on a booted system, whose world is the configuration.
use eos_updater.Daemon.{ApplyData}
use eos_updater.Apply.Configured.{apply_internal-Kept}
use eos_updater.Apply.Applied.{apply_internal-deploy_update, Succeeds}
use eos_updater.Apply.Laws.{Kept}
use eos_updater.Apply.{
  RepoConfig, RepoConfig, RepoConfig, RepoConfig, apply_internal, remote_group, deploy_update,
  Deployer, RepoConfig,
}
use eos_updater.Run.{finished, Leaves}
use eos_updater.Prelude.{str_equal, [], true, false, none, some, ◌≡◌, inl, refl}
use eos_updater.Errors.{ErrorCode}
use eos_updater.Errors.{Result, ok, err}

abbrev keep : RepoConfig → Result (Unit {0}) × RepoConfig
keep c = (ok tt, c)

abbrev deployer : Deployer RepoConfig
deployer = record {
  parse_refspec = λ s. ok (some "eos", "os/5");
  sysroot_lock = keep;
  sysroot_load = keep;
  sysroot = λ c. record {
    deployments = [];
    booted = some (record { osname = "eos"; csum = "beef"; origin = none });
    fallback = false;
    repo = ok tt;
    load_commit = λ s. ok 1;
    ostree_path = λ s. ok s;
  };
  is_booted = λ c. true;
  stage_tree = λ a b c. keep c;
  deploy_tree = λ a b c. keep c;
  write_deployment = keep;
  resolve_rev = λ s c. ok (some "f00d");
  prepare_transaction = keep;
  commit_deletion = λ s c. keep c;
  cleanup = keep;
  get_remote_option = λ remote key c. ok (c.value (remote_group remote) key);
  collection_binding = λ s c. ok (some "com.endlessm.Os");
  copy_config = λ c. c;
  write_config = λ new c. (ok tt, new);
}

abbrev config : RepoConfig
config = record { has_group = λ g. str_equal g "remote \"eos\""; value = λ g k. none }

abbrev apply_data : ApplyData
apply_data = record { update_id = "f00d"; update_refspec = "eos:os/5"; orig_refspec = "eos:os/4" }

apply_internal-Kept_example :
    Leaves
      (λ v. Kept (remote_group "eos") config (deployer.copy_config v))
      (apply_internal deployer apply_data config)
apply_internal-Kept_example =
    apply_internal-Kept deployer ((λ c w. inl refl), (λ remote key w h. refl))
      (
        (λ w. refl),
        (λ w. refl),
        (λ a b w. refl),
        (λ a b w. refl),
        (λ w. refl),
        (λ w. refl),
        (λ a w. refl),
        (λ w. refl),
      )
      apply_data "eos" "os/5" refl config

apply_internal-deploy_update_example :
    ((v : RepoConfig)
      → deploy_update deployer apply_data config ≡ finished (ok tt) v
      → Succeeds deployer (apply_internal deployer apply_data config))
    × ((e : ErrorCode) (v : RepoConfig)
        → deploy_update deployer apply_data config ≡ finished (err e) v
        → apply_internal deployer apply_data config ≡ finished (err e) v)
apply_internal-deploy_update_example = apply_internal-deploy_update deployer apply_data config
