-- ===== src/Daemon/Machine/Reached.antt =====
-- eos-updater: what holds in every state that the daemon can get into on an installed system.
use eos_updater.Daemon.Machine.Preserved.{Reach-Invariant}
use eos_updater.Daemon.Machine.Results.{sole_apply}
use eos_updater.Daemon.Startup.{Environment}
use eos_updater.Daemon.Machine.{Reach}
use eos_updater.Daemon.Machine.Invariant.{Works, Reports}
use eos_updater.Prelude.{◌∷◌, Memᴰ, ◌++◌, false, ◌≡◌, String, List, ◌≢◌}
use eos_updater.Daemon.{apply_job, ApplyData, [], Task, Daemon, GError, Encoding}

-- GDBus never encodes an error as the empty string.
module _ (enc : Encoding) (named : (e : GError) → enc.encode_gerror e ≢ "") where
  -- On an installed system, in every state that the daemon can get into: in POLLING, FETCHING and
  -- APPLYING_UPDATE exactly one worker thread is alive, of that kind and for the update that is
  -- advertised, and in every other state none is; the state is ERROR exactly when an error name is
  -- set, if no error is encoded as the empty string; and the cancellable that the next worker gets
  -- has not been cancelled.
  pub Reach-Works :
      (env : Environment) (ids : List String) (d : Daemon)
      → Reach enc env ids d
      → Works d.updater.state d.updater.update_id d.tasks
        × Reports d.updater
        × (d.cancelled d.data_.cancellable ≡ false)
  Reach-Works env ids d reached =
      let i = Reach-Invariant enc named env ids d reached in (i.works, i.reports, i.live)

  -- On an installed system, if no error is encoded as the empty string: a worker that applies an
  -- update is alone, and a worker has fetched that update before without failing.
  pub Reach-fetched :
      (env : Environment) (ids : List String) (d : Daemon) (before after : List Task) (t : Task)
      (a : ApplyData)
      → Reach enc env ids d
      → d.tasks ≡ before ++ t ∷ after
      → t.job ≡ apply_job a
      → (before ++ after ≡ []) × Memᴰ a.update_id ids
  Reach-fetched env ids d before after t a reached found job =
      let i = Reach-Invariant enc named env ids d reached in
      let (s, same, idle) =
        sole_apply d.updater.state d.updater.update_id before after t (rw found at i.works) a job in
      (idle, rw same (rw s at i.is_fetched))
