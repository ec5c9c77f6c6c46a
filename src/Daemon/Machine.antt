-- ===== src/Daemon/Machine.antt =====
-- The daemon as a state machine: on an installed system its main thread handles a method call, or
-- takes the result of a worker thread (eos-updater/main.c, poll.c, fetch.c, apply.c).
pub mod Invariant
mod Calls
mod Results
mod Preserved
pub mod Reached
pub mod Cancelling
use eos_updater.Daemon.Sizes.{SizesEntry}
use eos_updater.Errors.{Result, io_cancelled}
use eos_updater.Daemon.Handlers.{handle, Call}
use eos_updater.Prelude.{Option, ℕ, ◌++◌, ◌∷◌, [], String, true, List, ◌≡◌}
use eos_updater.Daemon.Startup.{on_bus_acquired, Environment}
use eos_updater.Daemon.Finish.{
  apply_finished, content_fetch_finished, metadata_fetch_finished, UpdateInfo, update_progress,
  failed, returned, TaskResult,
}
use eos_updater.Daemon.{
  ApplyData, GError, poll_job, apply_job, fetch_job, poll_volume_job, Task, Job, Daemon, FetchData,
  Encoding,
}

-- GTask's `check-cancellable`: a task whose cancellable has been cancelled gives that error.
abbrev pub Honours {ℓ} : {A : Type ℓ} → Daemon → Task → TaskResult A → Type ℓ
Honours d t r =
    d.cancelled t.cancellable ≡ true → (e : GError) × (r ≡ failed e) × (e.code ≡ io_cancelled)

abbrev pub IsPoll : Job → Type 0
IsPoll poll_job = Unit
IsPoll (poll_volume_job path) = Unit
IsPoll (fetch_job f) = ⊥
IsPoll (apply_job a) = ⊥

-- What is fetched when a fetch returns: the update asked for, if the fetch succeeded.
abbrev pub fetched_by : FetchData → TaskResult (Unit {0}) → List String
fetched_by f (returned _) = f.update_id ∷ []
fetched_by f (failed e) = []

-- The worker `t` ends.
abbrev pub ended : Daemon → List Task → Daemon
ended d rest = record d { tasks = rest }

-- A step, with the updates that it has fetched.
pub data Step (enc : Encoding) : List String → Daemon → Daemon → Type 0 where
  called : (c : Call) (d : Daemon) → Step enc [] d ((handle c d).0)
  progressed : (bytes : ℕ) (d : Daemon) → Step enc [] d (update_progress bytes d)
  polled :
      (d : Daemon) (before after : List Task) (t : Task) (r : TaskResult (Option UpdateInfo))
      (sizes : Result (List SizesEntry))
      → d.tasks ≡ before ++ t ∷ after
      → IsPoll t.job
      → Honours d t r
      → Step enc [] d (metadata_fetch_finished enc r sizes (ended d (before ++ after)))
  fetched :
      (d : Daemon) (before after : List Task) (t : Task) (f : FetchData) (r : TaskResult (Unit {0}))
      → d.tasks ≡ before ++ t ∷ after
      → t.job ≡ fetch_job f
      → Honours d t r
      → Step enc (fetched_by f r) d (content_fetch_finished enc r (ended d (before ++ after)))
  applied :
      (d : Daemon) (before after : List Task) (t : Task) (a : ApplyData) (r : TaskResult (Unit {0}))
      → d.tasks ≡ before ++ t ∷ after
      → t.job ≡ apply_job a
      → Honours d t r
      → Step enc [] d (apply_finished enc r (ended d (before ++ after)))

-- The states that a daemon on an installed system can get into, with the updates it has fetched.
pub data Reach (enc : Encoding) (env : Environment) : List String → Daemon → Type 0 where
  started : Reach enc env [] ((on_bus_acquired enc env).0)
  stepped :
      (ids new_ids : List String) (d d' : Daemon)
      → Reach enc env ids d
      → Step enc new_ids d d'
      → Reach enc env (new_ids ++ ids) d'
