-- ===== src/Daemon/Finish.antt =====
-- What the main thread does when a worker thread has returned: eos-updater/poll-common.c
-- (metadata_fetch_finished), fetch.c (content_fetch_finished, update_progress) and apply.c
-- (apply_finished).
use eos_updater.Errors.{
  EosUpdaterError, unset, ErrorCode, is_io_not_found, is_io_failed, err, ok, Result,
}
use Prim.Native.String.{◌++◌}
use eos_updater.Prelude.{
  ℕ, false, List, true, ℕ, String, Bool, Option, none, if◌then◌else◌, pos, negsuc, ℤ,
}
use eos_updater.Daemon.Sizes.{SizesEntry, Sizes, clamp_to_gint64, get_commit_sizes}
use eos_updater.Daemon.{
  some, fetching, ready, Opaque, update_ready, update_applied, Daemon, Encoding, update_available,
  Updater, set_error, Data, UpdaterState, clear_error, GError,
}

-- What g_task_propagate_pointer and g_task_propagate_boolean give.
pub data TaskResult {ℓ} (A : Type ℓ) : Type ℓ where
  returned : A → TaskResult A
  failed : GError → TaskResult A

-- EosUpdateInfo, with the label, the message and the time of its commit.
pub record UpdateInfo : Type 0 where
  pub checksum : String
  pub timestamp : ℕ
  pub label : Option String
  pub message : Option String
  pub new_refspec : String
  pub old_refspec : String
  pub version : Option String
  pub urls : Option (List String)
  pub offline_results_only : Bool
  pub is_user_visible : Bool
  pub release_notes_uri : Option String
  pub results : Option (List Opaque)

abbrev pub or_empty : Option String → String
or_empty none = ""
or_empty (some s) = s

-- What was learnt is kept in the data, and advertised.
unfoldable pub keep_results : UpdateInfo → Data → Data
keep_results info data_ = record data_ {
  overridden_urls = info.urls;
  results = info.results;
  offline_results_only = info.offline_results_only;
}

unfoldable pub advertise : UpdateInfo → Updater → Updater
unfolding clear_error
advertise info u = record (clear_error update_available u) {
  update_id = info.checksum;
  update_refspec = info.new_refspec;
  original_refspec = info.old_refspec;
  version = info.version;
  update_is_user_visible = info.is_user_visible;
  release_notes_uri = info.release_notes_uri;
  update_label = or_empty info.label;
  update_message = or_empty info.message;
}

abbrev minus_one : ℤ
minus_one = negsuc 0

unfoldable pub set_sizes : Encoding → Result Sizes → Updater → Updater
unfolding clamp_to_gint64 set_error
set_sizes enc (ok sizes) u = record u {
  full_download_size = pos (clamp_to_gint64 sizes.archived);
  full_unpacked_size = pos (clamp_to_gint64 sizes.unpacked);
  download_size = pos (clamp_to_gint64 sizes.new_archived);
  unpacked_size = pos (clamp_to_gint64 sizes.new_unpacked);
  downloaded_bytes = pos 0;
}
set_sizes enc (err e) u =
    if is_io_not_found e
    then record u {
      full_download_size = minus_one;
      full_unpacked_size = minus_one;
      download_size = minus_one;
      unpacked_size = minus_one;
      downloaded_bytes = minus_one;
    }
    else set_error enc (record { code = e; message = enc.describe e }) u
set_sizes enc unset u = u

-- A poll that returned no update and a poll that failed both announce READY first.
unfoldable pub metadata_fetch_finished :
    Encoding → TaskResult (Option UpdateInfo) → Result (List SizesEntry) → Daemon → Daemon
unfolding keep_results advertise set_sizes get_commit_sizes clear_error set_error
metadata_fetch_finished enc (returned (some info)) entries d = record d {
  data_ = keep_results info d.data_;
  updater = set_sizes enc (get_commit_sizes entries) (advertise info d.updater);
}
metadata_fetch_finished enc (returned none) entries d = record d {
  updater = clear_error ready d.updater;
}
metadata_fetch_finished enc (failed e) entries d = record d {
  updater = set_error enc e (clear_error ready d.updater);
}

-- G_IO_ERROR_FAILED is reported as a fetching error.
abbrev pub fetch_error : GError → GError
fetch_error e =
    if is_io_failed e.code
    then record {
      code = ErrorCode.updater EosUpdaterError.fetching;
      message = "Error fetching update: " ++ e.message;
    }
    else e

unfoldable pub content_fetch_finished : Encoding → TaskResult (Unit {0}) → Daemon → Daemon
unfolding clear_error set_error
content_fetch_finished enc (returned _) d = record d {
  updater = clear_error update_ready d.updater;
}
content_fetch_finished enc (failed e) d = record d {
  updater =
      set_error enc
        (if is_io_failed e.code
          then record {
            code = ErrorCode.updater EosUpdaterError.fetching;
            message = "Error fetching update: " ++ e.message;
          }
          else e)
        d.updater;
}

unfoldable pub apply_finished : Encoding → TaskResult (Unit {0}) → Daemon → Daemon
unfolding clear_error set_error
apply_finished enc (returned _) d = record d { updater = clear_error update_applied d.updater }
apply_finished enc (failed e) d = record d { updater = set_error enc e d.updater }

abbrev pub is_fetching : UpdaterState → Bool
is_fetching fetching = true
is_fetching _ = false

unfoldable pub update_progress : ℕ → Daemon → Daemon
unfolding clamp_to_gint64
update_progress bytes d =
    if is_fetching d.updater.state
    then record d {
      updater = record (d.updater) { downloaded_bytes = pos (clamp_to_gint64 bytes) };
    }
    else d
