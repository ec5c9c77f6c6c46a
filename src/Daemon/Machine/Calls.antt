-- ===== src/Daemon/Machine/Calls.antt =====
-- eos-updater: the invariant after a method call and after an update of the progress.
use eos_updater.Daemon.Finish.{is_fetching, update_progress}
use eos_updater.Daemon.Handlers.{
  cancel_call, apply, fetch, poll, fetch_full, poll_volume, start, Call, handle, apply_data,
  fetch_data, is_update_available, FetchOptions, may_poll, handle_cancel, is_update_ready,
  handle_fetch_full, is_busy, handle_apply, handle_poll, handle_poll_volume,
}
use eos_updater.Daemon.Machine.Invariant.{
  IsBound, clear_error-Reports, start-updater, IsFetched, not-busy_of_may_poll, Works-idle, Works,
  Invariant,
}
use eos_updater.Prelude.{
  ◌⊎◌, All, Memᴰ, refl, ◌+◌, ◌||◌, ◌==◌, ℕ, ◌∷◌, inr, arith, inl, [], true, Option, Bool-cases, ◌≡◌,
  String, List,
}
use eos_updater.Daemon.{
  Task, update_applied, update_available, error, ready, none_state, update_ready, none, cancel,
  data_reset_cancellable, poll_volume_job, poll_job, apply_job, fetch_job, polling, applying_update,
  Job, UpdaterState, set_state_changed, clear_error, Daemon, fetching,
}

start-Invariant :
    (s : UpdaterState) (job : Job) (d : Daemon) (ids : List String)
    → Invariant ids d
    → is_busy s ≡ true
    → d.tasks ≡ []
    → Works s d.updater.update_id (record { job = job; cancellable = d.data_.cancellable } ∷ [])
    → IsFetched s d.updater.update_id ids
    → Invariant ids (start s job d)
unfolding clear_error set_state_changed
start-Invariant s job d ids i busy idle works known = rw (start-updater s job d i.live) (record {
  works = rw idle works;
  is_fetched = known;
  reports = clear_error-Reports s d.updater (ground arith);
  bound = rw idle (inl refl, tt);
  live = i.live;
  named = i.named;
  unused = i.unused;
})

fetched_of_ready :
    (s : UpdaterState) (id : String) (ids : List String)
    → is_update_ready s ≡ true
    → IsFetched s id ids
    → Memᴰ id ids
fetched_of_ready update_ready id ids e h = h
fetched_of_ready none_state id ids e h = ground arith
fetched_of_ready ready id ids e h = ground arith
fetched_of_ready error id ids e h = ground arith
fetched_of_ready polling id ids e h = ground arith
fetched_of_ready update_available id ids e h = ground arith
fetched_of_ready fetching id ids e h = ground arith
fetched_of_ready applying_update id ids e h = ground arith
fetched_of_ready update_applied id ids e h = ground arith

-- A cancellable that has been cancelled is replaced by a fresh one.
pub reset_after_cancel :
    (d : Daemon)
    → data_reset_cancellable (cancel d.data_.cancellable d) ≡ record d {
      data_ = record (d.data_) { cancellable = d.fresh };
      cancelled = λ k. k == d.data_.cancellable || d.cancelled k;
      fresh = d.fresh + 1;
    }
unfolding data_reset_cancellable
reset_after_cancel d = ground arith

bound_after_cancel :
    (d : Daemon) (ts : List Task)
    → All (IsBound d) ts
    → All
        (λ (t : Task).
          (t.cancellable ≡ d.fresh)
          ⊎ ((t.cancellable == d.data_.cancellable || d.cancelled t.cancellable) ≡ true))
        ts
bound_after_cancel d [] h = tt
bound_after_cancel d (t ∷ ts) (inl current, h) = (inr (ground arith), bound_after_cancel d ts h)
bound_after_cancel d (t ∷ ts) (inr stopped, h) = (inr (ground arith), bound_after_cancel d ts h)

reset_after_cancel-Invariant :
    (d : Daemon) (ids : List String)
    → Invariant ids d
    → Invariant ids (data_reset_cancellable (cancel d.data_.cancellable d))
reset_after_cancel-Invariant d ids i = rw (reset_after_cancel d) (record {
  works = i.works;
  is_fetched = i.is_fetched;
  reports = i.reports;
  bound = bound_after_cancel d d.tasks i.bound;
  live = ground (arith, i.unused d.fresh (omega arith), i.named);
  named = omega arith;
  unused = λ k above. ground (arith, i.unused k (omega arith), i.named);
})

module _ (d : Daemon) (ids : List String) (i : Invariant ids d) where
  handle_poll-Invariant : Invariant ids (handle_poll d).0
  unfolding handle_poll
  handle_poll-Invariant = elim (Bool-cases (may_poll d.updater.state)) [
    | inl may ↦ rw may (
        start-Invariant polling poll_job d ids i refl
          (Works-idle d.updater.state d.updater.update_id d.tasks
            (not-busy_of_may_poll d.updater.state may) i.works)
          (record { job = poll_job; cancellable = d.data_.cancellable }, refl, tt) tt)
    | inr may_not ↦ rw may_not i
  ]

  handle_poll_volume-Invariant : (path : String) → Invariant ids (handle_poll_volume path d).0
  unfolding handle_poll_volume
  handle_poll_volume-Invariant path = elim (Bool-cases (may_poll d.updater.state)) [
    | inl may ↦ rw may (
        start-Invariant polling (poll_volume_job path) d ids i refl
          (Works-idle d.updater.state d.updater.update_id d.tasks
            (not-busy_of_may_poll d.updater.state may) i.works)
          (record { job = poll_volume_job path; cancellable = d.data_.cancellable }, refl, tt) tt)
    | inr may_not ↦ rw may_not i
  ]

  handle_fetch_full-Invariant : (o : Option FetchOptions) → Invariant ids (handle_fetch_full o d).0
  unfolding handle_fetch_full
  handle_fetch_full-Invariant o = elim (Bool-cases (is_update_available d.updater.state)) [
    | inl may ↦ rw may (
        start-Invariant fetching (fetch_job (fetch_data o d)) d ids i refl
          (Works-idle d.updater.state d.updater.update_id d.tasks (ground arith) i.works)
          (
            record { job = fetch_job (fetch_data o d); cancellable = d.data_.cancellable },
            fetch_data o d,
            refl,
            refl,
            refl,
          )
          tt)
    | inr may_not ↦ rw may_not i
  ]

  handle_apply-Invariant : Invariant ids (handle_apply d).0
  unfolding handle_apply
  handle_apply-Invariant = elim (Bool-cases (is_update_ready d.updater.state)) [
    | inl may ↦ rw may (
        start-Invariant applying_update (apply_job (apply_data d)) d ids i refl
          (Works-idle d.updater.state d.updater.update_id d.tasks (ground arith) i.works)
          (
            record { job = apply_job (apply_data d); cancellable = d.data_.cancellable },
            apply_data d,
            refl,
            refl,
            refl,
          )
          (fetched_of_ready d.updater.state d.updater.update_id ids may i.is_fetched))
    | inr may_not ↦ rw may_not i
  ]

  handle_cancel-Invariant : Invariant ids (handle_cancel d).0
  unfolding handle_cancel
  handle_cancel-Invariant = elim (Bool-cases (is_busy d.updater.state)) [
    | inl busy ↦ rw busy (reset_after_cancel-Invariant d ids i)
    | inr idle ↦ rw idle i
  ]

  pub handle-Invariant : (c : Call) → Invariant ids (handle c d).0
  unfolding handle
  handle-Invariant poll = handle_poll-Invariant
  handle-Invariant (poll_volume path) = handle_poll_volume-Invariant path
  handle-Invariant fetch = handle_fetch_full-Invariant none
  handle-Invariant (fetch_full o) = handle_fetch_full-Invariant o
  handle-Invariant apply = handle_apply-Invariant
  handle-Invariant cancel_call = handle_cancel-Invariant

  pub update_progress-Invariant : (bytes : ℕ) → Invariant ids (update_progress bytes d)
  unfolding update_progress
  update_progress-Invariant bytes = elim (Bool-cases (is_fetching d.updater.state)) [
    | inl busy ↦ rw busy (record {
      works = i.works;
      is_fetched = i.is_fetched;
      reports = i.reports;
      bound = i.bound;
      live = i.live;
      named = i.named;
      unused = i.unused;
    })
    | inr idle ↦ rw idle i
  ]
