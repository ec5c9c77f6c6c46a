-- ===== src/Daemon.antt =====
-- The eos-updater daemon: the properties of its D-Bus object (eos-updater/object.c), the data that
-- the stages share (data.c, data.h), and the worker threads that are alive.
pub mod Sizes
pub mod Handlers
pub mod Finish
pub mod Startup
pub mod Machine
mod Tests
use Prim.Native.String
use eos_updater.Prelude.{
  ℕ, ◌+◌, ℤ, String, Bool, true, false, ◌||◌, Option, none, some, List, [], ◌∷◌, if◌then◌else◌,
  ◌==◌,
}
use eos_updater.Errors.{ErrorCode}

-- EosUpdaterState.
pub data UpdaterState : Type 0 where
  none_state : UpdaterState
  ready : UpdaterState
  error : UpdaterState
  polling : UpdaterState
  update_available : UpdaterState
  fetching : UpdaterState
  update_ready : UpdaterState
  applying_update : UpdaterState
  update_applied : UpdaterState

pub record GError : Type 0 where
  pub code : ErrorCode
  pub message : String

-- The properties of com.endlessm.Updater, and the StateChanged signals sent, latest first.
pub record Updater : Type 0 where
  pub state : UpdaterState
  pub error_name : String
  pub error_code : ℕ
  pub error_message : String
  pub current_id : String
  pub update_id : String
  pub update_refspec : String
  pub original_refspec : String
  pub version : Option String
  pub update_is_user_visible : Bool
  pub release_notes_uri : Option String
  pub update_label : String
  pub update_message : String
  pub full_download_size : ℤ
  pub full_unpacked_size : ℤ
  pub download_size : ℤ
  pub unpacked_size : ℤ
  pub downloaded_bytes : ℤ
  pub signals : List UpdaterState

-- An object of libostree that the code only passes on.
abbrev pub Opaque : Type 0
Opaque = ℕ

-- EosUpdaterData, less the repository. A cancellable is named by a number.
pub record Data : Type 0 where
  pub overridden_urls : Option (List String)
  pub results : Option (List Opaque)
  pub offline_results_only : Bool
  pub cancellable : ℕ

-- FetchData and ApplyData as the handlers fill them.
pub record FetchData : Type 0 where
  pub force : Bool
  pub scheduling_timeout_seconds : ℕ
  pub update_id : String
  pub update_refspec : String

pub record ApplyData : Type 0 where
  pub update_id : String
  pub update_refspec : String
  pub orig_refspec : String

-- What a worker thread was started for.
pub data Job : Type 0 where
  poll_job : Job
  poll_volume_job : String → Job
  fetch_job : FetchData → Job
  apply_job : ApplyData → Job

pub record Task : Type 0 where
  pub job : Job
  pub cancellable : ℕ

-- The daemon, with the worker threads that are alive, the cancellables that have been cancelled,
-- and the name of the next cancellable.
pub record Daemon : Type 0 where
  pub updater : Updater
  pub data_ : Data
  pub tasks : List Task
  pub cancelled : ℕ → Bool
  pub fresh : ℕ

-- GDBus's encoding of an error, and the text that a library gives with a code: parameters.
pub record Encoding : Type 0 where
  pub encode_gerror : GError → String
  pub error_number : GError → ℕ
  pub describe : ErrorCode → String

-- eos_updater_set_state_changed.
unfoldable pub set_state_changed : UpdaterState → Updater → Updater
set_state_changed s u = record u { state = s; signals = s ∷ u.signals }

unfoldable pub set_error : Encoding → GError → Updater → Updater
unfolding set_state_changed
set_error enc e u = set_state_changed error (record u {
  error_name = enc.encode_gerror e;
  error_code = enc.error_number e;
  error_message = e.message;
})

unfoldable pub clear_error : UpdaterState → Updater → Updater
unfolding set_state_changed
clear_error s u =
    set_state_changed s (record u { error_name = ""; error_code = 0; error_message = "" })

-- A cancellable is replaced only if it has been cancelled.
unfoldable pub data_reset_cancellable : Daemon → Daemon
data_reset_cancellable d =
    if d.cancelled d.data_.cancellable
    then record d { data_ = record (d.data_) { cancellable = d.fresh }; fresh = d.fresh + 1 }
    else d

-- g_cancellable_cancel.
abbrev pub cancel : ℕ → Daemon → Daemon
cancel c d = record d { cancelled = λ k. k == c || d.cancelled k }

-- g_task_run_in_thread.
abbrev pub run_in_thread : Job → Daemon → Daemon
run_in_thread job d = record d {
  tasks = record { job = job; cancellable = d.data_.cancellable } ∷ d.tasks;
}

-- The value that the enumeration gives a state.
abbrev pub number_of_state : UpdaterState → ℕ
number_of_state none_state = 0
number_of_state ready = 1
number_of_state error = 2
number_of_state polling = 3
number_of_state update_available = 4
number_of_state fetching = 5
number_of_state update_ready = 6
number_of_state applying_update = 7
number_of_state update_applied = 8
