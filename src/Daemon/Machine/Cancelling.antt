-- ===== src/Daemon/Machine/Cancelling.antt =====
-- eos-updater: what becomes of a worker after Cancel.
use eos_updater.Daemon.Machine.Calls.{reset_after_cancel}
use eos_updater.Daemon.Machine.Preserved.{Reach-Invariant}
use eos_updater.Daemon.Machine.Results.{one_task, state-cases}
use eos_updater.Daemon.Machine.{
  applied, fetched, SizesEntry, Result, polled, progressed, ended, Honours, called, Reach, Step,
}
use eos_updater.Daemon.Startup.{Environment}
use eos_updater.Daemon.Machine.Invariant.{Works, Invariant, IsBound}
use eos_updater.Prelude.{
  refl, inr, ◌∙◌, sym, arith, ◌+◌, ◌||◌, false, ◌==◌, ◌∷◌, [], ◌≢◌, true, Bool-cases, ◌++◌, inl,
  String, ℕ, ◌≡◌, ◌⊎◌, List,
}
use eos_updater.Daemon.Handlers.{
  cancel_call, apply, fetch, poll, fetch_full, poll_volume, Call, handle_apply, handle_fetch_full,
  is_update_ready, is_update_available, handle_fetch, may_poll, handle_poll_volume, is_busy,
  handle_poll, handle, handle_cancel,
}
use eos_updater.Daemon.Finish.{
  UpdateInfo, TaskResult, metadata_fetch_finished, apply_finished, content_fetch_finished,
  is_fetching, update_progress,
}
use eos_updater.Daemon.{
  Option, set_state_changed, set_error, error, GError, Task, UpdaterState, Encoding, Daemon,
}

-- A worker is alive whose cancellable has been cancelled.
abbrev pub IsDoomed : Daemon → Type 0
IsDoomed d =
    (is_busy d.updater.state ≡ true)
    × ((t : Task) × (d.tasks ≡ t ∷ []) × (d.cancelled t.cancellable ≡ true))

one_worker :
    (d : Daemon)
    → is_busy d.updater.state ≡ true
    → Works d.updater.state d.updater.update_id d.tasks
    → (t : Task) × (d.tasks ≡ t ∷ [])
one_worker d busy w = elim (state-cases d.updater.state) [
  | inl e ↦ let (t, only, p) = rw e at w in (t, only)
  | inr (inl e) ↦ let (t, f, only, job, same) = rw e at w in (t, only)
  | inr (inr (inl e)) ↦ let (t, a, only, job, same) = rw e at w in (t, only)
  | inr (inr (inr idle)) ↦ absurd (ground arith)
]

handle_cancel-busy :
    (d : Daemon)
    → is_busy d.updater.state ≡ true
    → (handle_cancel d).0 ≡ record d {
      data_ = record (d.data_) { cancellable = d.fresh };
      cancelled = λ k. k == d.data_.cancellable || d.cancelled k;
      fresh = d.fresh + 1;
    }
unfolding handle_cancel
handle_cancel-busy d busy = rw busy (reset_after_cancel d)

cancelled_of_bound :
    (d : Daemon) (t : Task)
    → IsBound d t
    → (t.cancellable == d.data_.cancellable || d.cancelled t.cancellable) ≡ true
cancelled_of_bound d t (inl e) = ground arith
cancelled_of_bound d t (inr e) = ground arith

IsDoomed-handle_cancel :
    (d : Daemon) (ids : List String)
    → Invariant ids d
    → is_busy d.updater.state ≡ true
    → IsDoomed (handle_cancel d).0
IsDoomed-handle_cancel d ids i busy =
    let (t, only) = one_worker d busy i.works in
    let b = rw only at i.bound in
    rw (handle_cancel-busy d busy) (busy, (t, only, cancelled_of_bound d t b.0))

not-may_poll : (s : UpdaterState) → is_busy s ≡ true → may_poll s ≡ false
not-may_poll s h = ground arith

not-available : (s : UpdaterState) → is_busy s ≡ true → is_update_available s ≡ false
not-available s h = ground arith

not-ready : (s : UpdaterState) → is_busy s ≡ true → is_update_ready s ≡ false
not-ready s h = ground arith

-- A call keeps the doomed worker: what is not Cancel is refused.
IsDoomed-handle : (c : Call) (d : Daemon) → IsDoomed d → IsDoomed (handle c d).0
unfolding handle handle_poll handle_poll_volume handle_fetch handle_fetch_full handle_apply
IsDoomed-handle poll d h = rw (not-may_poll d.updater.state h.0) h
IsDoomed-handle (poll_volume path) d h = rw (not-may_poll d.updater.state h.0) h
IsDoomed-handle fetch d h = rw (not-available d.updater.state h.0) h
IsDoomed-handle (fetch_full o) d h = rw (not-available d.updater.state h.0) h
IsDoomed-handle apply d h = rw (not-ready d.updater.state h.0) h
IsDoomed-handle cancel_call d (busy, (t, only, stopped)) =
    rw (handle_cancel-busy d busy) (busy, (t, only, ground arith))

IsDoomed-update_progress :
    (bytes : ℕ) (d : Daemon) → IsDoomed d → IsDoomed (update_progress bytes d)
unfolding update_progress
IsDoomed-update_progress bytes d h = elim (Bool-cases (is_fetching d.updater.state)) [
  | inl busy ↦ rw busy h
  | inr other ↦ rw other h
]

-- What is left of a doomed worker: an error, and no worker.
abbrev IsOver : Daemon → Type 0
IsOver d = (d.updater.state ≡ error) × (d.tasks ≡ [])

module _ (enc : Encoding) (d : Daemon) (before after : List Task) (t : Task) (h : IsDoomed d)
    (found : d.tasks ≡ before ++ t ∷ after) where
  same_task : (t ≡ h.1.0) × (before ++ after ≡ [])
  same_task = one_task before after t h.1.0 (sym found ∙ h.1.1)

  stopped_task : d.cancelled t.cancellable ≡ true
  stopped_task = rw same_task.0 h.1.2

  IsOver-polled :
      (r : TaskResult (Option UpdateInfo)) (sizes : Result (List SizesEntry))
      → Honours d t r
      → IsOver (metadata_fetch_finished enc r sizes (ended d (before ++ after)))
  unfolding metadata_fetch_finished set_error set_state_changed
  IsOver-polled r sizes honours =
      let (e, failure, code) = honours stopped_task in rw failure (refl, same_task.1)

  IsOver-fetched :
      (r : TaskResult (Unit {0}))
      → Honours d t r
      → IsOver (content_fetch_finished enc r (ended d (before ++ after)))
  unfolding content_fetch_finished set_error set_state_changed
  IsOver-fetched r honours =
      let (e, failure, code) = honours stopped_task in rw failure (refl, same_task.1)

  IsOver-applied :
      (r : TaskResult (Unit {0}))
      → Honours d t r
      → IsOver (apply_finished enc r (ended d (before ++ after)))
  unfolding apply_finished set_error set_state_changed
  IsOver-applied r honours =
      let (e, failure, code) = honours stopped_task in rw failure (refl, same_task.1)

-- A step from a daemon whose worker has been cancelled keeps that worker, or it ends in ERROR with
-- no worker left.
pub Step-IsDoomed :
    (enc : Encoding) (ids : List String) (d d' : Daemon)
    → Step enc ids d d'
    → IsDoomed d
    → IsDoomed d' ⊎ ((d'.updater.state ≡ error) × (d'.tasks ≡ []))
Step-IsDoomed enc _ _ _ (called c d) h = inl (IsDoomed-handle c d h)
Step-IsDoomed enc _ _ _ (progressed bytes d) h = inl (IsDoomed-update_progress bytes d h)
Step-IsDoomed enc _ _ _ (polled d before after t r sizes found kind honours) h =
    inr (IsOver-polled enc d before after t h found r sizes honours)
Step-IsDoomed enc _ _ _ (fetched d before after t f r found job honours) h =
    inr (IsOver-fetched enc d before after t h found r honours)
Step-IsDoomed enc _ _ _ (applied d before after t a r found job honours) h =
    inr (IsOver-applied enc d before after t h found r honours)

-- Steps after a cancellation, up to the first in which the worker returns.
pub data Steps (enc : Encoding) : Daemon → Daemon → Type 0 where
  none_yet : (d : Daemon) → Steps enc d d
  one_more :
      (ids : List String) (d d' d'' : Daemon)
      → Steps enc d d'
      → is_busy d'.updater.state ≡ true
      → Step enc ids d' d''
      → Steps enc d d''

Steps-IsDoomed :
    (enc : Encoding) (d d' : Daemon) → Steps enc d d' → IsDoomed d → IsDoomed d' ⊎ IsOver d'
Steps-IsDoomed enc _ _ (none_yet d) h = inl h
Steps-IsDoomed enc _ _ (one_more ids d d' d'' before busy step) h =
    elim (Steps-IsDoomed enc d d' before h) [
      | inl doomed ↦ Step-IsDoomed enc ids d' d'' step doomed
      | inr (over, none_left) ↦ absurd (ground arith)
    ]

-- On an installed system, if no error is encoded as the empty string, after Cancel in a busy
-- state: whatever is called and whatever progress
-- is reported, as long as the daemon stays busy its one worker has been cancelled; and when it
-- stops being busy its state is ERROR and no worker is left.
pub handle_cancel-stops :
    (enc : Encoding)
    → ((e : GError) → enc.encode_gerror e ≢ "")
    → (env : Environment) (ids : List String) (d d' : Daemon) → Reach enc env ids d
    → is_busy d.updater.state ≡ true
    → Steps enc (handle_cancel d).0 d'
    → IsDoomed d' ⊎ ((d'.updater.state ≡ error) × (d'.tasks ≡ []))
handle_cancel-stops enc named env ids d d' reached busy steps =
    Steps-IsDoomed enc (handle_cancel d).0 d' steps
      (IsDoomed-handle_cancel d ids (Reach-Invariant enc named env ids d reached) busy)
