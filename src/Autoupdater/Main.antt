-- ===== src/Autoupdater/Main.antt =====
-- eos-autoupdater/main.c: the configuration and the order of the checks before the main loop
-- (read_config_file, is_online, main).
pub mod Exit
use eos_updater.Errors.{unset, err, ok, Result}
use eos_updater.Autoupdater.Stamp.{
  usec_per_sec, now_secs, StampIo, sec_per_day, update_stamp_file, is_time_to_update, Stamp,
}
use eos_updater.Config.{ConfigFile, get_uint}
use Prim.Native.Nat.{min}
use eos_updater.Prelude.{
  ◌%◌, ◌&&◌, ◌/◌, ℤ, ◌*◌, leb, ◌-◌, ◌==◌, not, is_some, if◌then◌else◌, [], ◌^◌, List, ◌||◌, ℕ,
  Option, Bool, String, none, some, true, false,
}
use eos_updater.Autoupdater.Results.{PollFile, Moment, Proxy, max_uint64}
use eos_updater.Autoupdater.Steps.{
  step_apply, Event, step_fetch, step_poll, step_none, DaemonCall, Auto, Settings, UpdateStep,
  main_loop, start,
}

abbrev pub group : String
group = "Automatic Updates"

abbrev pub usec_per_day : ℕ
usec_per_day = sec_per_day * usec_per_sec

abbrev pub max_uint32 : ℕ
max_uint32 = 2 ^ 32 - 1

-- G_MAXINT32 / SEC_PER_DAY - 1.
abbrev pub max_delay_days : ℕ
max_delay_days = (2 ^ 31 - 1) / sec_per_day - 1

-- MIN (G_MAXUINT64 / USEC_PER_DAY, G_MAXUINT).
abbrev pub max_visible_days : ℕ
max_visible_days = min (max_uint64 / usec_per_day) max_uint32

pub record Configuration : Type 0 where
  pub last_automatic_step : UpdateStep
  pub update_interval_days : ℕ
  pub randomized_delay_days : ℕ
  pub user_visible_delay_usecs : ℕ

-- The cast to UpdateStep of a value that is at most UPDATE_STEP_LAST.
abbrev pub to_step : ℕ → UpdateStep
to_step n =
    if n == 0
    then step_none
    else if n == 1
    then step_poll
    else if n == 2
    then step_fetch
    else step_apply

-- An error ends the reading, a failed assertion the program; a value that could not be read with
-- no error set is 0.
abbrev pub reading :
    Option (Result ℕ) → (ℕ → Option (Option Configuration)) → Option (Option Configuration)
reading none k = none
reading (some (ok v)) k = k v
reading (some (err e)) k = some none
reading (some unset) k = k 0

-- `none` is a failed assertion, `some none` stands for FALSE.
unfoldable pub read_config_file : ConfigFile → Option (Option Configuration)
unfolding get_uint
read_config_file c =
    let step = get_uint c group "LastAutomaticStep" 0 3 [] in
    let days = get_uint c group "IntervalDays" 0 max_uint32 step.0 in
    let delay = get_uint c group "RandomizedDelayDays" 0 max_delay_days days.0 in
    let seen = get_uint c group "UserVisibleUpdateDelayDays" 0 max_visible_days delay.0 in
    reading step.1 (λ last. reading days.1 (λ interval.
      if leb interval (max_uint64 / sec_per_day)
      then reading delay.1 (λ randomized. reading seen.1 (λ visible. some (
          some (record {
            last_automatic_step = to_step last;
            update_interval_days = interval;
            randomized_delay_days = randomized;
            user_visible_delay_usecs = visible * usec_per_day % 2 ^ 64;
          }))))
      else none))

-- NMState.
pub data NmState : Type 0 where
  nm_unknown : NmState
  nm_asleep : NmState
  nm_disconnected : NmState
  nm_disconnecting : NmState
  nm_connecting : NmState
  nm_connected_local : NmState
  nm_connected_site : NmState
  nm_connected_global : NmState

abbrev pub connected : NmState → Bool
connected nm_connected_local = true
connected nm_connected_site = true
connected nm_connected_global = true
connected nm_unknown = false
connected nm_asleep = false
connected nm_disconnected = false
connected nm_disconnecting = false
connected nm_connecting = false

-- What the process finds: its arguments, the configuration, the network, the stamp file, the
-- proxy, and what the main loop dispatches until it quits.
pub record Launch : Type 0 where
  pub parsed : Bool
  pub force_update : Bool
  pub force_fetch : Bool
  pub volume_path : Option String
  pub config : ConfigFile
  pub session_bus : Bool
  pub nm_client : Option NmState
  pub stamp : Stamp
  pub first_io : StampIo
  pub start_time : ℤ
  pub proxy : Option Proxy
  pub first_moment : Moment
  pub events : List Event
  pub poll_file : PollFile
  pub end_time : ℤ
  pub last_io : StampIo

unfoldable pub is_online : Bool → Option NmState → Bool
is_online session_bus none = session_bus
is_online session_bus (some s) = session_bus || connected s

pub data ExitCode : Type 0 where
  exit_ok : ExitCode
  exit_failed : ExitCode
  exit_invalid_arguments : ExitCode
  exit_bad_configuration : ExitCode

-- How the process ends: its exit code, the stamp file, and the calls it has made.
pub record Ending : Type 0 where
  pub code : ExitCode
  pub stamp : Stamp
  pub calls : List DaemonCall

abbrev pub ended : ExitCode → Stamp → List DaemonCall → Option Ending
ended code stamp calls = some (record { code = code; stamp = stamp; calls = calls })

-- The volume option forces the update.
abbrev pub forced : Launch → Bool
forced l = l.force_update || is_some l.volume_path

abbrev pub settings : Launch → Configuration → Settings
settings l conf = record {
  force_update = forced l;
  force_fetch = l.force_fetch;
  volume_path = l.volume_path;
  last_automatic_step = conf.last_automatic_step;
  user_visible_delay_usecs = conf.user_visible_delay_usecs;
}

-- After the label `out`.
unfoldable pub finish : Launch → Configuration → Stamp → Auto → Option Ending
unfolding update_stamp_file
finish l conf stamp a =
    if a.should_exit_failure
    then ended exit_failed stamp a.calls
    else ended exit_ok
        (update_stamp_file l.last_io (now_secs l.end_time) conf.randomized_delay_days stamp) a.calls

unfoldable pub drive : Launch → Configuration → Stamp → Option Ending
unfolding main_loop finish
drive l conf stamp = elim l.proxy [
  | none ↦ ended exit_failed stamp []
  | some p ↦ elim (main_loop l.first_moment (settings l conf) p l.events l.poll_file) [
    | none ↦ none
    | some a ↦ finish l conf stamp a
  ]
]

abbrev pub due : Launch → Configuration → Bool × Stamp
due l conf =
    if forced l
    then (true, l.stamp)
    else is_time_to_update l.first_io l.start_time conf.update_interval_days
        conf.randomized_delay_days l.stamp

-- `none` is a failed assertion.
unfoldable pub main : Launch → Option Ending
unfolding read_config_file is_online is_time_to_update drive
main l =
    if not l.parsed
    then ended exit_invalid_arguments l.stamp []
    else elim (read_config_file l.config) [
      | none ↦ none
      | some none ↦ ended exit_bad_configuration l.stamp []
      | some (some conf) ↦
          if not (is_some l.volume_path) && not (is_online l.session_bus l.nm_client)
          then ended exit_ok l.stamp []
          else if (due l conf).0
          then drive l conf (due l conf).1
          else ended exit_ok (due l conf).1 []
    ]
