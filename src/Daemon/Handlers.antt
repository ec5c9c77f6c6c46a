-- ===== src/Daemon/Handlers.antt =====
-- The handlers of the D-Bus methods: eos-updater/poll.c (handle_poll, handle_poll_volume),
-- fetch.c (handle_fetch, handle_fetch_full), apply.c (handle_apply), main.c (handle_cancel), and
-- live-boot.c (handle_on_live_boot).
pub mod Laws
use eos_updater.Prelude.{ℕ, String, Bool, true, false, Option, none, some, if◌then◌else◌}
use eos_updater.Errors.{EosUpdaterError, wrong_state, live_boot}
use eos_updater.Daemon.{
  UpdaterState, none_state, ready, error, polling, update_available, fetching, update_ready,
  applying_update, update_applied, Daemon, FetchData, ApplyData, Job, poll_job, poll_volume_job,
  fetch_job, apply_job, clear_error, data_reset_cancellable, cancel, run_in_thread,
}

-- The `a{sv}` options of FetchFull, as far as they are looked up.
pub record FetchOptions : Type 0 where
  pub force : Option Bool
  pub scheduling_timeout_seconds : Option ℕ

pub data Call : Type 0 where
  poll : Call
  poll_volume : String → Call
  fetch : Call
  fetch_full : Option FetchOptions → Call
  apply : Call
  cancel_call : Call

-- A call is completed, or an error is returned.
pub data Reply : Type 0 where
  completed : Reply
  refused : EosUpdaterError → Reply

-- Reset the cancellable, change the state and start the worker.
unfoldable pub start : UpdaterState → Job → Daemon → Daemon
unfolding data_reset_cancellable clear_error
start s job d =
    let d' = data_reset_cancellable d in
    run_in_thread job (record d' { updater = clear_error s (d'.updater) })

-- The states in which handle_poll and handle_poll_volume go on.
abbrev pub may_poll : UpdaterState → Bool
may_poll ready = true
may_poll update_available = true
may_poll update_ready = true
may_poll error = true
may_poll none_state = false
may_poll polling = false
may_poll fetching = false
may_poll applying_update = false
may_poll update_applied = false

unfoldable pub handle_poll : Daemon → Daemon × Reply
unfolding start
handle_poll d =
    if may_poll d.updater.state
    then (start polling poll_job d, completed)
    else (d, refused wrong_state)

unfoldable pub handle_poll_volume : String → Daemon → Daemon × Reply
unfolding start
handle_poll_volume path d =
    if may_poll d.updater.state
    then (start polling (poll_volume_job path) d, completed)
    else (d, refused wrong_state)

abbrev pub is_update_available : UpdaterState → Bool
is_update_available update_available = true
is_update_available _ = false

abbrev pub is_update_ready : UpdaterState → Bool
is_update_ready update_ready = true
is_update_ready _ = false

-- g_variant_lookup leaves the default where the key is missing.
abbrev or_default {ℓ} : {A : Type ℓ} → A → Option A → A
or_default d none = d
or_default d (some v) = v

abbrev option_force : Option FetchOptions → Bool
option_force none = false
option_force (some o) = or_default false o.force

abbrev option_timeout : Option FetchOptions → ℕ
option_timeout none = 0
option_timeout (some o) = or_default 0 o.scheduling_timeout_seconds

abbrev pub fetch_data : Option FetchOptions → Daemon → FetchData
fetch_data options d = record {
  force = option_force options;
  scheduling_timeout_seconds = option_timeout options;
  update_id = d.updater.update_id;
  update_refspec = d.updater.update_refspec;
}

unfoldable pub handle_fetch_full : Option FetchOptions → Daemon → Daemon × Reply
unfolding start
handle_fetch_full options d =
    if is_update_available d.updater.state
    then (start fetching (fetch_job (fetch_data options d)) d, completed)
    else (d, refused wrong_state)

unfoldable pub handle_fetch : Daemon → Daemon × Reply
unfolding handle_fetch_full
handle_fetch d = handle_fetch_full none d

abbrev pub apply_data : Daemon → ApplyData
apply_data d = record {
  update_id = d.updater.update_id;
  update_refspec = d.updater.update_refspec;
  orig_refspec = d.updater.original_refspec;
}

unfoldable pub handle_apply : Daemon → Daemon × Reply
unfolding start
handle_apply d =
    if is_update_ready d.updater.state
    then (start applying_update (apply_job (apply_data d)) d, completed)
    else (d, refused wrong_state)

-- The states in which there is something to cancel, and check_and_quit keeps checking.
abbrev pub is_busy : UpdaterState → Bool
is_busy polling = true
is_busy fetching = true
is_busy applying_update = true
is_busy none_state = false
is_busy ready = false
is_busy error = false
is_busy update_available = false
is_busy update_ready = false
is_busy update_applied = false

unfoldable pub handle_cancel : Daemon → Daemon × Reply
unfolding data_reset_cancellable
handle_cancel d =
    if is_busy d.updater.state
    then (data_reset_cancellable (cancel d.data_.cancellable d), completed)
    else (d, refused wrong_state)

unfoldable pub handle_on_live_boot : Daemon → Daemon × Reply
handle_on_live_boot d = (d, refused live_boot)

-- The handlers that on_bus_acquired connects on an installed system.
unfoldable pub handle : Call → Daemon → Daemon × Reply
unfolding handle_poll handle_poll_volume handle_fetch handle_fetch_full handle_apply handle_cancel
handle poll d = handle_poll d
handle (poll_volume path) d = handle_poll_volume path d
handle fetch d = handle_fetch d
handle (fetch_full options) d = handle_fetch_full options d
handle apply d = handle_apply d
handle cancel_call d = handle_cancel d
