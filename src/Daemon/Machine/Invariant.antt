-- ===== src/Daemon/Machine/Invariant.antt =====
-- eos-updater: what holds in every state that the daemon can get into.

use eos_updater.Daemon.Machine.{IsPoll}
use eos_updater.Prelude.{
  All, ◌⊎◌, Memᴰ, ◌≤◌, ℕ, ◌<◌, [], ◌∷◌, arith, ◌↔◌, false, true, ◌≢◌, ◌≡◌, String, List,
}
use eos_updater.Daemon.{
  apply_job, ApplyData, polling, fetch_job, update_available, ready, FetchData, none_state,
  update_applied, applying_update, update_ready, Task, Daemon, error, Job, data_reset_cancellable,
  set_state_changed, Updater, clear_error, UpdaterState,
}
use eos_updater.Daemon.Handlers.{is_busy, may_poll, start}
use eos_updater.Daemon.{fetching}

-- In each busy state one worker is alive, of the kind that the state names, and it works on the
-- update that is advertised; in the others none is.
abbrev pub Works : UpdaterState → String → List Task → Type 0
Works polling id ts = (t : Task) × (ts ≡ t ∷ []) × IsPoll t.job
Works fetching id ts =
    (t : Task) × (f : FetchData) × (ts ≡ t ∷ []) × (t.job ≡ fetch_job f) × (f.update_id ≡ id)
Works applying_update id ts =
    (t : Task) × (a : ApplyData) × (ts ≡ t ∷ []) × (t.job ≡ apply_job a) × (a.update_id ≡ id)
Works none_state id ts = ts ≡ []
Works ready id ts = ts ≡ []
Works error id ts = ts ≡ []
Works update_available id ts = ts ≡ []
Works update_ready id ts = ts ≡ []
Works update_applied id ts = ts ≡ []

-- In the states after a fetch, what is advertised has been fetched.
abbrev pub IsFetched : UpdaterState → String → List String → Type 0
IsFetched update_ready id ids = Memᴰ id ids
IsFetched applying_update id ids = Memᴰ id ids
IsFetched update_applied id ids = Memᴰ id ids
IsFetched none_state id ids = Unit
IsFetched ready id ids = Unit
IsFetched error id ids = Unit
IsFetched polling id ids = Unit
IsFetched update_available id ids = Unit
IsFetched fetching id ids = Unit

-- The state is ERROR exactly when an error is set.
abbrev pub Reports : Updater → Type 0
Reports u = (u.state ≡ error) ↔ (u.error_name ≢ "")

-- A worker's cancellable is the current one, or it has been cancelled.
abbrev pub IsBound : Daemon → Task → Type 0
IsBound d t = (t.cancellable ≡ d.data_.cancellable) ⊎ (d.cancelled t.cancellable ≡ true)

pub record Invariant (ids : List String) (d : Daemon) : Type 0 where
  pub works : Works d.updater.state d.updater.update_id d.tasks
  pub is_fetched : IsFetched d.updater.state d.updater.update_id ids
  pub reports : Reports d.updater
  pub bound : All (IsBound d) d.tasks
  pub live : d.cancelled d.data_.cancellable ≡ false
  pub named : d.data_.cancellable < d.fresh
  pub unused : (k : ℕ) → d.fresh ≤ k → d.cancelled k ≡ false

pub Works-idle :
    (s : UpdaterState) (id : String) (ts : List Task) → is_busy s ≡ false → Works s id ts → ts ≡ []
Works-idle none_state id ts e h = h
Works-idle ready id ts e h = h
Works-idle error id ts e h = h
Works-idle update_available id ts e h = h
Works-idle update_ready id ts e h = h
Works-idle update_applied id ts e h = h
Works-idle polling id ts e h = ground arith
Works-idle fetching id ts e h = ground arith
Works-idle applying_update id ts e h = ground arith

pub not-busy_of_may_poll : (s : UpdaterState) → may_poll s ≡ true → is_busy s ≡ false
not-busy_of_may_poll s h = ground arith

pub clear_error-Reports : (s : UpdaterState) (u : Updater) → s ≢ error → Reports (clear_error s u)
unfolding clear_error set_state_changed
clear_error-Reports s u h = ground (arith, h)

pub start-updater :
    (s : UpdaterState) (job : Job) (d : Daemon)
    → d.cancelled d.data_.cancellable ≡ false
    → start s job d ≡ record d {
      updater = clear_error s (d.updater);
      tasks = record { job = job; cancellable = d.data_.cancellable } ∷ d.tasks;
    }
unfolding start data_reset_cancellable
start-updater s job d live = rw live
