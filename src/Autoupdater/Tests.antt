-- ===== src/Autoupdater/Tests.antt =====
-- Runs of the automatic updater.
use eos_updater.Autoupdater.Steps.Runs.{main_loop-Bounded}
use eos_updater.Autoupdater.Steps.Total.{is_failing}
use eos_updater.Autoupdater.Stamp.Due.{is_time_to_update-update_stamp_file}
use eos_updater.Autoupdater.Steps.Bounds.{polls, IsWithin}
use eos_updater.Autoupdater.Results.Laws.{update_poll_results-again}
use eos_updater.Errors.{file_noent, err, ok}
use eos_updater.Autoupdater.Main.Exit.{read_config_file-bounds, main-stamp}
use eos_updater.Daemon.{fetching, polling, update_available, ready, update_ready, UpdaterState}
use eos_updater.Autoupdater.Stamp.{
  absent, update_stamp_file, is_time_to_update, sec_per_day, modified, StampIo, now_secs,
}
use eos_updater.Config.{loaded, ensure_loaded, get_file_for_key, get_uint, KeyFile, ConfigFile}
use eos_updater.Autoupdater.Main.{
  max_visible_days, drive, is_online, usec_per_day, exit_failed, main, read_config_file,
  Configuration, Ending, Launch,
}
use eos_updater.Autoupdater.Results.{
  new_results, same_update, max_uint64, missing, Proxy, write_poll_results_file, Moment,
  update_poll_results,
}
use eos_updater.Autoupdater.Steps.{
  owner_changed, replied, state_changed, Event, step_apply, step_poll, main_loop, Auto, Settings,
}
use eos_updater.Prelude.{
  any, ℕ, All, if◌then◌else◌, ◌^◌, ◌+◌, ◌<◌, [], ◌≤◌, arith, ◌∷◌, pos, List, ◌*◌, ◌≡◌, none, some,
  refl, true, false,
}

abbrev noon : Moment
noon = record { real_time = pos 43200000000; writable = true }

abbrev night : Moment
night = record { real_time = pos 86400000000; writable = false }

abbrev idle : UpdaterState → Proxy
idle s = record {
  state = s;
  update_refspec = some "eos:os/5";
  update_id = some "f00d";
  update_is_user_visible = true;
}

abbrev eager : Settings
eager = record {
  force_update = false;
  force_fetch = true;
  volume_path = none;
  last_automatic_step = step_apply;
  user_visible_delay_usecs = 1000000;
}

abbrev a_night : List Event
a_night =
    state_changed noon (idle polling)
    ∷ state_changed noon (idle update_available)
    ∷ replied false
    ∷ state_changed noon (idle fetching)
    ∷ state_changed noon (idle update_ready)
    ∷ owner_changed none
    ∷ []

main_loop-Bounded_example :
    (b : Auto) × (main_loop noon eager (idle ready) a_night missing ≡ some b)
    × All (IsWithin eager) b.calls
    × (polls b.calls ≤ 1)
    × (b.should_exit_failure ≡ any is_failing a_night)
main_loop-Bounded_example = main_loop-Bounded noon eager (idle ready) a_night missing

update_poll_results-again_example :
    update_poll_results night
      (idle update_ready)
      (update_poll_results noon (idle update_available) missing).1
    ≡ (if same_update
          (new_results noon (idle update_available))
          (new_results night (idle update_ready))
        then update_poll_results noon (idle update_available) missing
        else (
          new_results night (idle update_ready),
          write_poll_results_file false
              (new_results night (idle update_ready))
              (update_poll_results noon (idle update_available) missing).1,
        ))
update_poll_results-again_example =
    update_poll_results-again noon night (idle update_available) (idle update_ready) missing refl

abbrev working : StampIo
working = record {
  can_make_dir = true;
  can_replace = true;
  can_query = true;
  can_set = true;
  written_at = 0;
  draw = λ n. n;
}

is_time_to_update-update_stamp_file_example :
    (now_secs (pos 1000000000000) < 86400 + 14 * sec_per_day
      → (is_time_to_update working
          (pos 1000000000000)
          14
          3
          (update_stamp_file working 86400 3 absent)).0
        ≡ false)
    × (86400 + 17 * sec_per_day ≤ now_secs (pos 1000000000000)
        → (is_time_to_update working
            (pos 1000000000000)
            14
            3
            (update_stamp_file working 86400 3 absent)).0
          ≡ true)
is_time_to_update-update_stamp_file_example =
    is_time_to_update-update_stamp_file working working 86400 14 3 absent (pos 1000000000000)
      (refl, refl, refl, refl) (λ n. omega arith) (omega arith)

-- A default file that gives 1 for every key.
abbrev ones : KeyFile
ones = record {
  has_key = λ group key. true;
  get_uint64 = λ group key. ok 1;
  get_boolean = λ group key. ok true;
  get_string = λ group key. ok "";
  get_string_list = λ group key. ok [];
}

abbrev configured_by_default : ConfigFile
configured_by_default = record {
  paths = "/etc/eos-updater/eos-autoupdater.conf" ∷ [];
  default_key_file = ones;
  load = λ path. (
    record {
      has_key = λ group key. false;
      get_uint64 = λ group key. ok 0;
      get_boolean = λ group key. ok true;
      get_string = λ group key. ok "";
      get_string_list = λ group key. ok [];
    },
    err file_noent,
  );
}

abbrev daily : Configuration
daily = record {
  last_automatic_step = step_poll;
  update_interval_days = 1;
  randomized_delay_days = 1;
  user_visible_delay_usecs = usec_per_day;
}

read_daily : read_config_file configured_by_default ≡ some (some daily)
unfolding read_config_file get_uint get_file_for_key ensure_loaded loaded
read_daily = refl

read_config_file-bounds_example :
    (1 * sec_per_day ≤ max_uint64)
    × (2 * sec_per_day < 2 ^ 31)
    × ((days : ℕ) × (days ≤ max_visible_days)
        × (usec_per_day ≡ days * usec_per_day)
        × (usec_per_day ≤ max_uint64))
read_config_file-bounds_example = read_config_file-bounds configured_by_default daily read_daily

abbrev no_daemon : Launch
no_daemon = record {
  parsed = true;
  force_update = true;
  force_fetch = false;
  volume_path = none;
  config = configured_by_default;
  session_bus = true;
  nm_client = none;
  stamp = modified 5;
  first_io = working;
  start_time = pos 1000000;
  proxy = none;
  first_moment = noon;
  events = [];
  poll_file = missing;
  end_time = pos 2000000;
  last_io = working;
}

abbrev failure : Ending
failure = record { code = exit_failed; stamp = modified 5; calls = [] }

ran : main no_daemon ≡ some failure
unfolding main read_config_file get_uint get_file_for_key ensure_loaded loaded is_online drive
ran = refl

main-stamp_example : failure.stamp ≡ no_daemon.stamp
main-stamp_example = main-stamp no_daemon failure ran (ground arith)
