-- ===== src/Daemon/Tests.antt =====
-- A daemon that polls, fetches and applies, and one that is cancelled.
use eos_updater.Daemon.Handlers.Laws.{handle-cases, accepts}
use eos_updater.Daemon.Sizes.Bounds.{get_commit_sizes-total}
use Prim.Native.Nat.{min}
use eos_updater.Daemon.Machine.Reached.{Reach-Works, Reach-fetched}
use eos_updater.Errors.{wrong_state, io_not_found, err, ok}
use eos_updater.Daemon.Handlers.{
  refused, completed, is_busy, handle_apply, handle_fetch_full, start, handle_fetch, handle_poll,
  poll, fetch, apply, handle, handle_cancel,
}
use eos_updater.Daemon.Machine.Invariant.{Reports, Works}
use eos_updater.Daemon.Sizes.{
  max_int64, clamp_to_gint64, missing_size, max_uint64, total, saturated_increment, add_sizes,
  sizes_loop, SizesEntry, Sizes, get_commit_sizes,
}
use eos_updater.Daemon.Machine.{fetched, called, started, polled, ended, stepped, Reach}
use eos_updater.Daemon.Finish.{
  set_sizes, advertise, keep_results, metadata_fetch_finished, returned, content_fetch_finished,
  UpdateInfo,
}
use eos_updater.Daemon.Machine.Cancelling.{none_yet, handle_cancel-stops, IsDoomed}
use eos_updater.Daemon.Startup.{
  is_installed_system, announce_checksum, on_bus_acquired, Environment,
}
use eos_updater.Prelude.{
  ◌≤◌, String, str_equal_iff, ◌⊎◌, arith, ◌≢◌, Memᴰ, ◌∷◌, [], ◌≡◌, List, none, some, refl, true,
  false,
}
use eos_updater.Daemon.{
  set_state_changed, clear_error, data_reset_cancellable, error, fetch_job, apply_job, poll_job,
  Task, ApplyData, Daemon, FetchData, Encoding, GError,
}

abbrev coded : Encoding
coded = record {
  encode_gerror = λ e. "com.endlessm.Updater.Error";
  error_number = λ e. 1;
  describe = λ e. "";
}

never_empty : (e : GError) → coded.encode_gerror e ≢ ""
never_empty e h = ground (arith, (str_equal_iff "com.endlessm.Updater.Error" "").1 h)

abbrev installed : Environment
installed = record {
  booted_checksum = returned "beef";
  cmdline = some "quiet splash";
  matches_live_boot = λ s. false;
  force_live_boot = none;
}

abbrev first_start : Daemon
first_start = (on_bus_acquired coded installed).0

abbrev poll_started : Daemon
poll_started = (handle poll first_start).0

polling_reached : Reach coded installed [] poll_started
polling_reached = stepped [] [] first_start poll_started started (called poll first_start)

abbrev found_update : UpdateInfo
found_update = record {
  checksum = "f00d";
  timestamp = 20;
  label = some "5.0";
  message = none;
  new_refspec = "eos:os/5";
  old_refspec = "eos:os/4";
  version = some "5.0";
  urls = none;
  offline_results_only = false;
  is_user_visible = true;
  release_notes_uri = none;
  results = none;
}

abbrev polling_task : Task
polling_task = record { job = poll_job; cancellable = 0 }

abbrev poll_ended : Daemon
poll_ended =
    metadata_fetch_finished coded (returned (some found_update)) (err io_not_found)
      (ended poll_started [])

polling_tasks : poll_started.tasks ≡ polling_task ∷ []
unfolding on_bus_acquired announce_checksum is_installed_system handle handle_poll start
    data_reset_cancellable clear_error set_state_changed
polling_tasks = refl

not_cancelled : poll_started.cancelled 0 ≡ false
unfolding on_bus_acquired announce_checksum is_installed_system handle handle_poll start
    data_reset_cancellable clear_error set_state_changed
not_cancelled = refl

available_reached : Reach coded installed [] poll_ended
available_reached = stepped [] [] poll_started poll_ended polling_reached (
    polled poll_started [] [] polling_task (returned (some found_update)) (err io_not_found)
      polling_tasks tt (λ stopped. absurd (ground (arith, not_cancelled))))

abbrev fetch_started : Daemon
fetch_started = (handle fetch poll_ended).0

abbrev wanted : FetchData
wanted = record {
  force = false;
  scheduling_timeout_seconds = 0;
  update_id = "f00d";
  update_refspec = "eos:os/5";
}

abbrev fetching_task : Task
fetching_task = record { job = fetch_job wanted; cancellable = 0 }

abbrev fetch_ended : Daemon
fetch_ended = content_fetch_finished coded (returned tt) (ended fetch_started [])

fetching_tasks : (fetch_started.tasks ≡ fetching_task ∷ []) × (fetch_started.cancelled 0 ≡ false)
unfolding on_bus_acquired announce_checksum is_installed_system handle handle_poll handle_fetch
    handle_fetch_full start data_reset_cancellable clear_error set_state_changed
    metadata_fetch_finished keep_results advertise set_sizes get_commit_sizes
fetching_tasks = (refl, refl)

fetched_reached : Reach coded installed ("f00d" ∷ []) fetch_ended
fetched_reached =
    stepped [] ("f00d" ∷ []) fetch_started fetch_ended
      (stepped [] [] poll_ended fetch_started available_reached (called fetch poll_ended))
      (fetched fetch_started [] [] fetching_task wanted (returned tt) fetching_tasks.0 refl
        (λ stopped. absurd (ground (arith, fetching_tasks.1))))

abbrev apply_started : Daemon
apply_started = (handle apply fetch_ended).0

abbrev to_apply : ApplyData
to_apply = record { update_id = "f00d"; update_refspec = "eos:os/5"; orig_refspec = "eos:os/4" }

abbrev applying_task : Task
applying_task = record { job = apply_job to_apply; cancellable = 0 }

applying_tasks : apply_started.tasks ≡ applying_task ∷ []
unfolding on_bus_acquired announce_checksum is_installed_system handle handle_poll handle_fetch
    handle_fetch_full handle_apply start data_reset_cancellable clear_error set_state_changed
    metadata_fetch_finished keep_results advertise set_sizes get_commit_sizes content_fetch_finished
applying_tasks = refl

applying_reached : Reach coded installed ("f00d" ∷ []) apply_started
applying_reached =
    stepped ("f00d" ∷ []) [] fetch_ended apply_started fetched_reached (called apply fetch_ended)

Reach-fetched_example : (◌≡◌ {A = List Task} [] []) × Memᴰ {A = String} "f00d" ("f00d" ∷ [])
Reach-fetched_example =
    Reach-fetched coded never_empty installed ("f00d" ∷ []) apply_started [] [] applying_task
      to_apply applying_reached applying_tasks refl

Reach-Works_example :
    Works apply_started.updater.state apply_started.updater.update_id apply_started.tasks
    × Reports apply_started.updater
    × (apply_started.cancelled apply_started.data_.cancellable ≡ false)
Reach-Works_example =
    Reach-Works coded never_empty installed ("f00d" ∷ []) apply_started applying_reached

polling_busy : is_busy poll_started.updater.state ≡ true
unfolding on_bus_acquired announce_checksum is_installed_system handle handle_poll start
    data_reset_cancellable clear_error set_state_changed
polling_busy = refl

handle_cancel-stops_example :
    IsDoomed (handle_cancel poll_started).0
    ⊎ (((handle_cancel poll_started).0.updater.state ≡ error)
        × ((handle_cancel poll_started).0.tasks ≡ []))
handle_cancel-stops_example =
    handle_cancel-stops coded never_empty installed [] poll_started (handle_cancel poll_started).0
      polling_reached polling_busy (none_yet (handle_cancel poll_started).0)

abbrev two_entries : List SizesEntry
two_entries =
    record { archived = 10; unpacked = 25; exists = ok true }
    ∷ record { archived = 7; unpacked = 8; exists = ok false }
    ∷ []

abbrev two_sizes : Sizes
two_sizes = record { new_archived = 7; new_unpacked = 8; archived = 17; unpacked = 33 }

summed : get_commit_sizes (ok two_entries) ≡ ok two_sizes
unfolding get_commit_sizes sizes_loop add_sizes saturated_increment
summed = refl

get_commit_sizes-total_example :
    (17 ≡ min (total (λ e. e.archived) two_entries) max_uint64)
    × (33 ≡ min (total (λ e. e.unpacked) two_entries) max_uint64)
    × (7 ≡ min (total (missing_size (λ e. e.archived)) two_entries) max_uint64)
    × (8 ≡ min (total (missing_size (λ e. e.unpacked)) two_entries) max_uint64)
    × (clamp_to_gint64 17 ≤ max_int64)
    × (clamp_to_gint64 33 ≤ max_int64)
    × (clamp_to_gint64 7 ≤ clamp_to_gint64 17)
    × (clamp_to_gint64 8 ≤ clamp_to_gint64 33)
get_commit_sizes-total_example = get_commit_sizes-total two_entries two_sizes (omega arith) summed

handle-cases_example :
    ((accepts fetch first_start.updater.state ≡ true)
      × ((handle fetch first_start).1 ≡ completed)
      × (is_busy (handle fetch first_start).0.updater.state ≡ true))
    ⊎ ((accepts fetch first_start.updater.state ≡ false)
        × (handle fetch first_start ≡ (first_start, refused wrong_state)))
handle-cases_example = handle-cases fetch first_start
