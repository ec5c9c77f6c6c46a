-- ===== src/Apply.antt =====
-- eos-updater/apply.c: deploying an update (apply_internal), and what is changed in the configuration
-- of the repository after that (update_remote_branches, update_remote_collection_id).
pub mod Laws
pub mod Applied
pub mod Configured
mod Tests
use eos_updater.Daemon.{ApplyData}
use eos_updater.Sysroot.{get_booted_deployment_from_loaded_sysroot, Sysroot}
use eos_updater.Run.{unfinished, aborted, ◌>>ᵣ◌, call, finished, Run}
use eos_updater.Prelude.{
  strcmp0_eq, ◌&&◌, strconcat, str_equal, not, List, [], ◌∷◌, ◌++◌, true, false, none, some, Option,
  Bool, String, ℕ, zero, suc, ◌≡◌, ◌≢◌, ◌⊎◌, ◌↔◌, inl, inr, refl, arith, if◌then◌else◌, Bool-cases,
  Option-cases,
}
use eos_updater.Errors.{io_failed, io_not_found, ErrorCode, Result-cases}
use eos_updater.Errors.{Result, ok, err, unset, ◌>>=◌}

-- The key file of the repository's configuration.
pub record RepoConfig : Type 0 where
  pub has_group : String → Bool
  pub value : String → String → Option String

unfoldable pub set_value : String → String → String → RepoConfig → RepoConfig
set_value group key v c = record {
  has_group = λ g. if str_equal g group then true else c.has_group g;
  value = λ g k. if str_equal g group && str_equal k key then some v else c.value g k;
}

-- libostree: a parameter. The configuration is part of the world.
pub record Deployer (W : Type 0) : Type 0 where
  pub parse_refspec : String → Result (Option String × String)
  pub sysroot_lock : W → Result (Unit {0}) × W
  pub sysroot_load : W → Result (Unit {0}) × W
  pub sysroot : W → Sysroot
  pub is_booted : W → Bool
  pub stage_tree : String → String → W → Result (Unit {0}) × W
  pub deploy_tree : String → String → W → Result (Unit {0}) × W
  pub write_deployment : W → Result (Unit {0}) × W
  pub resolve_rev : String → W → Result (Option String)
  pub prepare_transaction : W → Result (Unit {0}) × W
  pub commit_deletion : String → W → Result (Unit {0}) × W
  pub cleanup : W → Result (Unit {0}) × W
  pub get_remote_option : String → String → W → Result (Option String)
  pub collection_binding : String → W → Result (Option String)
  pub copy_config : W → RepoConfig
  pub write_config : RepoConfig → W → Result (Unit {0}) × W

abbrev pub remote_group : String → String
remote_group remote = strconcat "remote \"" (strconcat remote "\"")

abbrev pub is_set : Option String → Bool
is_set none = false
is_set (some s) = not (str_equal s "")

module _ {W : Type 0} (deployer : Deployer W) where
  -- A refspec without a remote is refused.
  abbrev pub with_remote : Option String → W → (String → Run W (Unit {0})) → Run W (Unit {0})
  with_remote none w k = finished (err io_failed) w
  with_remote (some remote) w k = k remote

  -- The key is set in a group that exists, and the configuration is written.
  abbrev pub set_in_group : String → String → String → W → Run W (Unit {0})
  set_in_group remote key v w =
      if (deployer.copy_config w).has_group (remote_group remote)
      then call
          (deployer.write_config (set_value (remote_group remote) key v (deployer.copy_config w)) w)
      else finished (err io_failed) w

  abbrev pub set_binding : String → Option String → W → Run W (Unit {0})
  set_binding remote none w = finished (ok tt) w
  set_binding remote (some id) w = set_in_group remote "collection-id" id w

  -- The commit that the refspec is resolved to, which must be there.
  abbrev pub must_resolve : Option String → Result String
  must_resolve none = err io_not_found
  must_resolve (some rev) = ok rev

  unfoldable pub update_remote_collection_id : String → W → Run W (Unit {0})
  update_remote_collection_id refspec w = finished (deployer.parse_refspec refspec) w >>ᵣ λ names w.
      with_remote names.0 w (λ remote.
        finished (deployer.get_remote_option remote "collection-id" w) w >>ᵣ λ cur w.
        if is_set cur
        then finished (ok tt) w
        else (finished (deployer.resolve_rev refspec w >>= must_resolve) w >>ᵣ λ checksum w.
            finished (deployer.collection_binding checksum w) w >>ᵣ λ binding w.
            set_binding remote binding w))

  unfoldable pub update_remote_branches : String → W → Run W (Unit {0})
  update_remote_branches refspec w = finished (deployer.parse_refspec refspec) w >>ᵣ λ names w.
      with_remote names.0 w (λ remote.
        finished (deployer.get_remote_option remote "branches" w) w >>ᵣ λ cur w.
        if strcmp0_eq cur (some (strconcat names.1 ";"))
        then finished (ok tt) w
        else set_in_group remote "branches" (strconcat names.1 ";") w)

  -- A staged deployment on a booted system, a finished one elsewhere.
  abbrev pub deploy : ApplyData → W → Run W (Unit {0})
  deploy d w =
      if deployer.is_booted w
      then call (deployer.stage_tree d.update_refspec d.update_id w)
      else (call (deployer.deploy_tree d.update_refspec d.update_id w) >>ᵣ λ _ w.
          call (deployer.write_deployment w))

  abbrev pub delete_resolved : String → Option String → W → Run W (Unit {0})
  delete_resolved refspec none w = finished (ok tt) w
  delete_resolved refspec (some rev) w =
      call (deployer.prepare_transaction w) >>ᵣ λ _ w. call (deployer.commit_deletion refspec w)

  -- The ref that was upgraded from is deleted if it is another one and still there.
  abbrev pub delete_old : String → String → W → Run W (Unit {0})
  delete_old orig update_refspec w =
      if str_equal update_refspec orig
      then finished (ok tt) w
      else (finished (deployer.resolve_rev orig w) w >>ᵣ λ rev w. delete_resolved orig rev w)

  -- What must succeed.
  unfoldable pub deploy_update : ApplyData → W → Run W (Unit {0})
  deploy_update d w = call (deployer.sysroot_lock w) >>ᵣ λ _ w.
      call (deployer.sysroot_load w) >>ᵣ λ _ w.
      finished (get_booted_deployment_from_loaded_sysroot (deployer.sysroot w)) w >>ᵣ λ booted w.
      deploy d w >>ᵣ λ _ w. delete_old d.orig_refspec d.update_refspec w

  -- An error is only a warning.
  abbrev pub ignoring : Run W (Unit {0}) → (W → Run W (Unit {0})) → Run W (Unit {0})
  ignoring (finished r w) k = k w
  ignoring aborted k = aborted
  ignoring unfinished k = unfinished

  unfoldable pub clean_up : ApplyData → W → Run W (Unit {0})
  clean_up d w = ignoring (call (deployer.cleanup w)) (λ w.
      ignoring (update_remote_branches d.update_refspec w)
        (λ w. ignoring (update_remote_collection_id d.update_refspec w) (λ w. finished (ok tt) w)))

  unfoldable pub apply_internal : ApplyData → W → Run W (Unit {0})
  apply_internal d w = deploy_update d w >>ᵣ λ _ w. clean_up d w
