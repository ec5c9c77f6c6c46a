-- ===== src/Apply/Configured.antt =====
-- eos-updater/apply.c: what the whole of apply_internal leaves in the configuration.
use eos_updater.Daemon.{ApplyData}
use eos_updater.Apply.{update_remote_collection_id, update_remote_branches, ignoring}
use eos_updater.Apply.Applied.{deploy_update-Same, Undisturbed}
use eos_updater.Apply.Laws.{collection-Holds, branches-Holds, Kept-refl, Kept, Documented}
use eos_updater.Apply.{
  update_remote_collection_id, update_remote_branches, deploy_update, RepoConfig, remote_group,
  clean_up, ignoring, apply_internal, Deployer,
}
use eos_updater.Run.{finished, aborted, unfinished, call, >>ᵣ-Leaves, Leaves, Run}
use mathlib.Core.Path.{subst, sym}
use eos_updater.Prelude.{some, String, ◌≡◌, refl}
use eos_updater.Errors.{ok}

weaken :
    {W A : Type 0} (P Q : W → Type 0)
    → ((w : W) → P w → Q w)
    → (m : Run W A) → Leaves P m
    → Leaves Q m
weaken P Q f (finished r w) h = f w h
weaken P Q f aborted h = h
weaken P Q f unfinished h = h

module _ {W : Type 0} (deployer : Deployer W) where
  ignoring-Leaves :
      (P : W → Type 0) (m : Run W (Unit {0})) (k : W → Run W (Unit {0}))
      → Leaves P m
      → ((w : W) → P w → Leaves P (k w))
      → Leaves P (ignoring deployer m k)
  ignoring-Leaves P (finished r w) k h f = f w h
  ignoring-Leaves P aborted k h f = h
  ignoring-Leaves P unfinished k h f = h

  -- However applying an update ends, at whatever call it fails: in the configuration of the
  -- repository no group is new, nothing but the branches and the collection ID of the update's
  -- remote has changed, and a collection ID that was set is the same.
  pub apply_internal-Kept :
      Documented deployer
      → Undisturbed deployer
      → (d : ApplyData) (remote ref : String)
      → deployer.parse_refspec d.update_refspec ≡ ok (some remote, ref)
      → (w : W)
      → Leaves
          (λ v. Kept (remote_group remote) (deployer.copy_config w) (deployer.copy_config v))
          (apply_internal deployer d w)
  unfolding apply_internal clean_up
  apply_internal-Kept documented undisturbed d remote ref p w =
      >>ᵣ-Leaves P (deploy_update deployer d w) _
        (weaken (λ v. deployer.copy_config v ≡ deployer.copy_config w) P
          (λ v e.
            subst (Kept (remote_group remote) (deployer.copy_config w)) (sym e)
              (Kept-refl (remote_group remote) (deployer.copy_config w)))
          (deploy_update deployer d w)
          (deploy_update-Same deployer undisturbed (deployer.copy_config w) d w refl))
        (λ _ v h. ignoring-Leaves P (call (deployer.cleanup v)) then_branches (cleaned v h) (λ v h.
          ignoring-Leaves P (update_remote_branches deployer d.update_refspec v) then_collection
            (branches-Holds deployer documented old d.update_refspec remote ref p v h)
            (λ v h.
              ignoring-Leaves P (update_remote_collection_id deployer d.update_refspec v) end
                (collection-Holds deployer documented old d.update_refspec remote ref p v h)
                (λ v h. h))))
    where
      old : RepoConfig
      old = deployer.copy_config w

      P : W → Type 0
      P v = Kept (remote_group remote) (deployer.copy_config w) (deployer.copy_config v)

      cleaned : (v : W) → P v → P (deployer.cleanup v).1
      cleaned v h =
          subst (Kept (remote_group remote) (deployer.copy_config w)) (sym (undisturbed.7 v)) h

      end : W → Run W (Unit {0})
      end v = finished (ok tt) v

      then_collection : W → Run W (Unit {0})
      then_collection v =
          ignoring deployer (update_remote_collection_id deployer d.update_refspec v) end

      then_branches : W → Run W (Unit {0})
      then_branches v =
          ignoring deployer (update_remote_branches deployer d.update_refspec v) then_collection
