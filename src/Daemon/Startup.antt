-- ===== src/Daemon/Startup.antt =====
-- The daemon's start and its quit file: eos-updater/main.c (on_bus_acquired, check_and_quit) and
-- live-boot.c (is_installed_system).
use eos_updater.Prelude.{
  some, false, true, none, Option, [], ◌||◌, String, Bool, str_equal, not, pos, if◌then◌else◌,
}
use eos_updater.Errors.{is_io_failed, is_io_not_found, live_boot, not_ostree_system, ErrorCode}
use eos_updater.Daemon.Handlers.{Reply, is_busy, Call, handle_on_live_boot, handle}
use eos_updater.Daemon.Finish.{failed, returned, TaskResult}
use eos_updater.Daemon.{
  ready, Encoding, none_state, Data, set_error, Daemon, Updater, GError, clear_error,
}

-- What the environment says: eos_updater_get_booted_checksum, the contents of /proc/cmdline,
-- whether the live-boot pattern matches them, and $EU_FORCE_LIVE_BOOT.
pub record Environment : Type 0 where
  pub booted_checksum : TaskResult String
  pub cmdline : Option String
  pub matches_live_boot : String → Bool
  pub force_live_boot : Option String

abbrev is_set : Option String → Bool
is_set none = false
is_set (some s) = not (str_equal s "")

-- If the command line cannot be read, the system counts as installed.
unfoldable pub is_installed_system : Environment → Bool
is_installed_system env = elim env.cmdline [
  | none ↦ true
  | some cmdline ↦ not (env.matches_live_boot cmdline || is_set env.force_live_boot)
]

-- The properties of a new skeleton: zeros, empty strings and no signal.
abbrev pub new_updater : Updater
new_updater = record {
  state = none_state;
  error_name = "";
  error_code = 0;
  error_message = "";
  current_id = "";
  update_id = "";
  update_refspec = "";
  original_refspec = "";
  version = none;
  update_is_user_visible = false;
  release_notes_uri = none;
  update_label = "";
  update_message = "";
  full_download_size = pos 0;
  full_unpacked_size = pos 0;
  download_size = pos 0;
  unpacked_size = pos 0;
  downloaded_bytes = pos 0;
  signals = [];
}

-- eos_updater_data_init.
abbrev pub new_data : Data
new_data = record {
  overridden_urls = none;
  results = none;
  offline_results_only = false;
  cancellable = 0;
}

abbrev pub not_ostree_error : GError
not_ostree_error = record {
  code = ErrorCode.updater not_ostree_system;
  message = "Not an OSTree-based system: cannot update it.";
}

abbrev pub live_boot_error : GError
live_boot_error = record {
  code = ErrorCode.updater live_boot;
  message = "Updater disabled on live systems";
}

abbrev pub first_error : GError → GError
first_error e = if is_io_not_found e.code || is_io_failed e.code then not_ostree_error else e

unfoldable pub announce_checksum : Encoding → TaskResult String → Updater → Updater
unfolding clear_error set_error
announce_checksum enc (returned sum) u = clear_error ready (record u {
  current_id = sum;
  download_size = pos 0;
  downloaded_bytes = pos 0;
  unpacked_size = pos 0;
  update_id = "";
  update_is_user_visible = false;
  release_notes_uri = some "";
})
announce_checksum enc (failed e) u = set_error enc (first_error e) u

-- Which handlers are connected to the methods.
pub data Handlers : Type 0 where
  normal_handlers : Handlers
  live_boot_handlers : Handlers

abbrev pub new_daemon : Updater → Daemon
new_daemon u = record {
  updater = u;
  data_ = new_data;
  tasks = [];
  cancelled = λ _. false;
  fresh = 1;
}

unfoldable pub on_bus_acquired : Encoding → Environment → Daemon × Handlers
unfolding announce_checksum is_installed_system set_error
on_bus_acquired enc env =
    let u = announce_checksum enc env.booted_checksum new_updater in
    if is_installed_system env
    then (new_daemon u, normal_handlers)
    else (new_daemon (set_error enc live_boot_error u), live_boot_handlers)

-- What a method call does, by the handlers connected.
unfoldable pub dispatch : Handlers → Call → Daemon → Daemon × Reply
unfolding handle handle_on_live_boot
dispatch normal_handlers c d = handle c d
dispatch live_boot_handlers c d = handle_on_live_boot d

pub data QuitCheck : Type 0 where
  quit : QuitCheck
  keep_checking : QuitCheck

unfoldable pub check_and_quit : Daemon → QuitCheck
check_and_quit d = if is_busy d.updater.state then keep_checking else quit
