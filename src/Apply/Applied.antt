-- ===== src/Apply/Applied.antt =====
-- eos-updater/apply.c: how apply_internal ends, and what it leaves in the configuration.
use eos_updater.Daemon.{ApplyData}
use eos_updater.Sysroot.{get_booted_deployment_from_loaded_sysroot}
use eos_updater.Apply.{
  is_set, with_remote, must_resolve, deploy, set_value, remote_group, set_binding, delete_resolved,
  delete_old, deploy_update, ignoring, update_remote_branches, clean_up,
  update_remote_collection_id, apply_internal, RepoConfig, set_in_group, Deployer,
}
use eos_updater.Run.{
  finished, aborted, unfinished, call, look_up-Leaves, >>ᵣ-Leaves, Leaves, Run, ◌>>ᵣ◌,
}
use mathlib.Core.Path.{subst, sym}
use eos_updater.Prelude.{
  strconcat, str_equal, ◌∙◌, strcmp0_eq, true, false, none, some, Option, String, ◌≡◌, refl,
  if◌then◌else◌,
}
use eos_updater.Errors.{io_failed, ErrorCode}
use eos_updater.Errors.{ok, err, ◌>>=◌}

module _ {W : Type 0} (deployer : Deployer W) where
  abbrev AnyWorld : W → Type 0
  AnyWorld _ = Unit

  set_in_group-Leaves :
      (remote key v : String) (w : W) → Leaves AnyWorld (set_in_group deployer remote key v w)
  set_in_group-Leaves remote key v w =
      elim ((deployer.copy_config w).has_group (remote_group remote))
        as (λ b. Leaves AnyWorld (
          if b
          then call (
              deployer.write_config (set_value (remote_group remote) key v (deployer.copy_config w))
                w)
          else finished (err io_failed) w)) [ true ↦ tt | false ↦ tt ]

  branches-Leaves :
      (refspec : String) (w : W) → Leaves AnyWorld (update_remote_branches deployer refspec w)
  unfolding update_remote_branches
  branches-Leaves refspec w =
      look_up-Leaves AnyWorld (deployer.parse_refspec refspec) w _ tt
        (λ names _. named names.0 names.1)
    where
      compared :
          (remote ref : String) (cur : Option String)
          → Leaves AnyWorld (
              if strcmp0_eq cur (some (strconcat ref ";"))
              then finished (ok tt) w
              else set_in_group deployer remote "branches" (strconcat ref ";") w)
      compared remote ref cur =
          elim (strcmp0_eq cur (some (strconcat ref ";")))
            as (λ b. Leaves AnyWorld (
              if b
              then finished (ok tt) w
              else set_in_group deployer remote "branches" (strconcat ref ";") w)) [
                | true ↦ tt
                | false ↦ set_in_group-Leaves remote "branches" (strconcat ref ";") w
              ]

      named :
          (remote : Option String) (ref : String)
          → Leaves AnyWorld (
              with_remote deployer remote w (λ remote.
                finished (deployer.get_remote_option remote "branches" w) w >>ᵣ λ cur w.
                if strcmp0_eq cur (some (strconcat ref ";"))
                then finished (ok tt) w
                else set_in_group deployer remote "branches" (strconcat ref ";") w))
      named none ref = tt
      named (some remote) ref =
          look_up-Leaves AnyWorld (deployer.get_remote_option remote "branches" w) w _ tt
            (λ cur _. compared remote ref cur)

  collection-Leaves :
      (refspec : String) (w : W) → Leaves AnyWorld (update_remote_collection_id deployer refspec w)
  unfolding update_remote_collection_id
  collection-Leaves refspec w =
      look_up-Leaves AnyWorld (deployer.parse_refspec refspec) w _ tt (λ names _. named names.0)
    where
      bound :
          (remote : String) (binding : Option String)
          → Leaves AnyWorld (set_binding deployer remote binding w)
      bound remote none = tt
      bound remote (some id) = set_in_group-Leaves remote "collection-id" id w

      looked_up :
          (remote : String)
          → Leaves AnyWorld (
              finished (deployer.resolve_rev refspec w >>= must_resolve deployer) w
              >>ᵣ λ checksum w. finished (deployer.collection_binding checksum w) w >>ᵣ λ binding w.
                  set_binding deployer remote binding w)
      looked_up remote =
          look_up-Leaves AnyWorld (deployer.resolve_rev refspec w >>= must_resolve deployer) w _ tt
            (λ checksum _.
              look_up-Leaves AnyWorld (deployer.collection_binding checksum w) w _ tt
                (λ binding _. bound remote binding))

      named :
          (remote : Option String)
          → Leaves AnyWorld (
              with_remote deployer remote w (λ remote.
                finished (deployer.get_remote_option remote "collection-id" w) w >>ᵣ λ cur w.
                if is_set cur
                then finished (ok tt) w
                else (finished (deployer.resolve_rev refspec w >>= must_resolve deployer) w
                    >>ᵣ λ checksum w.
                        finished (deployer.collection_binding checksum w) w >>ᵣ λ binding w.
                        set_binding deployer remote binding w)))
      named none = tt
      named (some remote) =
          look_up-Leaves AnyWorld (deployer.get_remote_option remote "collection-id" w) w _ tt
            (λ cur _.
              elim (is_set cur)
                as (λ b. Leaves AnyWorld (
                  if b
                  then finished (ok tt) w
                  else (finished (deployer.resolve_rev refspec w >>= must_resolve deployer) w
                      >>ᵣ λ checksum w.
                          finished (deployer.collection_binding checksum w) w >>ᵣ λ binding w.
                          set_binding deployer remote binding w))) [
                            | true ↦ tt
                            | false ↦ looked_up remote
                          ])

  abbrev pub Succeeds : Run W (Unit {0}) → Type 0
  Succeeds r = (w : W) × (r ≡ finished (ok tt) w)

  ignoring-Succeeds :
      (m : Run W (Unit {0})) (k : W → Run W (Unit {0}))
      → Leaves AnyWorld m
      → ((w : W) → Succeeds (k w))
      → Succeeds (ignoring deployer m k)
  ignoring-Succeeds (finished r w) k h f = f w
  ignoring-Succeeds aborted k h f = absurd h
  ignoring-Succeeds unfinished k h f = absurd h

  clean_up-Succeeds : (d : ApplyData) (w : W) → Succeeds (clean_up deployer d w)
  unfolding clean_up
  clean_up-Succeeds d w = ignoring-Succeeds (call (deployer.cleanup w)) _ tt (λ w.
      ignoring-Succeeds (update_remote_branches deployer d.update_refspec w) _
        (branches-Leaves d.update_refspec w)
        (λ w.
          ignoring-Succeeds (update_remote_collection_id deployer d.update_refspec w) _
            (collection-Leaves d.update_refspec w) (λ w. (w, refl))))

  -- Applying succeeds exactly if the deployment does, with the deletion of the old ref, and fails
  -- with its error: what fails in the clean-up and in the configuration does not matter.
  pub apply_internal-deploy_update :
      (d : ApplyData) (w : W)
      → ((v : W)
          → deploy_update deployer d w ≡ finished (ok tt) v
          → Succeeds (apply_internal deployer d w))
        × ((e : ErrorCode) (v : W)
            → deploy_update deployer d w ≡ finished (err e) v
            → apply_internal deployer d w ≡ finished (err e) v)
  unfolding apply_internal
  apply_internal-deploy_update d w = (
    (λ v e.
        subst (λ m. Succeeds (m >>ᵣ λ _ w. clean_up deployer d w)) (sym e) (clean_up-Succeeds d v)),
    (λ c v e. subst (λ m. (m >>ᵣ λ _ w. clean_up deployer d w) ≡ finished (err c) v) (sym e) refl),
  )

  -- No call but write_config changes the configuration.
  abbrev pub Undisturbed : Type 0
  Undisturbed =
      ((w : W) → deployer.copy_config (deployer.sysroot_lock w).1 ≡ deployer.copy_config w)
      × ((w : W) → deployer.copy_config (deployer.sysroot_load w).1 ≡ deployer.copy_config w)
      × ((a b : String) (w : W)
          → deployer.copy_config (deployer.stage_tree a b w).1 ≡ deployer.copy_config w)
      × ((a b : String) (w : W)
          → deployer.copy_config (deployer.deploy_tree a b w).1 ≡ deployer.copy_config w)
      × ((w : W) → deployer.copy_config (deployer.write_deployment w).1 ≡ deployer.copy_config w)
      × ((w : W) → deployer.copy_config (deployer.prepare_transaction w).1 ≡ deployer.copy_config w)
      × ((a : String) (w : W)
          → deployer.copy_config (deployer.commit_deletion a w).1 ≡ deployer.copy_config w)
      × ((w : W) → deployer.copy_config (deployer.cleanup w).1 ≡ deployer.copy_config w)

  module _ (undisturbed : Undisturbed) (old : RepoConfig) where
    abbrev Same : W → Type 0
    Same w = deployer.copy_config w ≡ old

    deploy-Same : (d : ApplyData) (w : W) → Same w → Leaves Same (deploy deployer d w)
    deploy-Same d w h =
        elim (deployer.is_booted w)
          as (λ b. Leaves Same (
            if b
            then call (deployer.stage_tree d.update_refspec d.update_id w)
            else (call (deployer.deploy_tree d.update_refspec d.update_id w) >>ᵣ λ _ w.
                call (deployer.write_deployment w)))) [
                  | true ↦ undisturbed.2 d.update_refspec d.update_id w ∙ h
                  | false ↦
                      >>ᵣ-Leaves Same (call (deployer.deploy_tree d.update_refspec d.update_id w)) _
                        (undisturbed.3 d.update_refspec d.update_id w ∙ h)
                        (λ _ v g. undisturbed.4 v ∙ g)
                ]

    delete_resolved-Same :
        (refspec : String) (rev : Option String) (w : W)
        → Same w
        → Leaves Same (delete_resolved deployer refspec rev w)
    delete_resolved-Same refspec none w h = h
    delete_resolved-Same refspec (some r) w h =
        >>ᵣ-Leaves Same (call (deployer.prepare_transaction w)) _ (undisturbed.5 w ∙ h)
          (λ _ v g. undisturbed.6 refspec v ∙ g)

    delete_old-Same :
        (orig update : String) (w : W) → Same w → Leaves Same (delete_old deployer orig update w)
    delete_old-Same orig update w h =
        elim (str_equal update orig)
          as (λ b. Leaves Same (
            if b
            then finished (ok tt) w
            else (finished (deployer.resolve_rev orig w) w >>ᵣ λ rev w.
                delete_resolved deployer orig rev w))) [
                  | true ↦ h
                  | false ↦
                      look_up-Leaves Same (deployer.resolve_rev orig w) w _ h
                        (λ rev _. delete_resolved-Same orig rev w h)
                ]

    pub deploy_update-Same :
        (d : ApplyData) (w : W) → Same w → Leaves Same (deploy_update deployer d w)
    unfolding deploy_update
    deploy_update-Same d w h =
        >>ᵣ-Leaves Same (call (deployer.sysroot_lock w)) _ (undisturbed.0 w ∙ h) (λ _ w h.
          >>ᵣ-Leaves Same (call (deployer.sysroot_load w)) _ (undisturbed.1 w ∙ h) (λ _ w h.
            look_up-Leaves Same (get_booted_deployment_from_loaded_sysroot (deployer.sysroot w)) w _
              h
              (λ booted _.
                >>ᵣ-Leaves Same (deploy deployer d w) _ (deploy-Same d w h)
                  (λ _ w h. delete_old-Same d.orig_refspec d.update_refspec w h))))
