-- ===== src/Autoupdater/Steps.antt =====
-- eos-autoupdater/main.c: the steps that a change of the daemon's state leads to
-- (do_update_step, update_step_callback, on_state_changed, on_name_owner_changed,
-- initial_poll_idle_func).
pub mod Bounds
pub mod Total
pub mod Runs
use eos_updater.Daemon.Sizes.{max_uint64}
use eos_updater.Daemon.{
  update_applied, applying_update, update_ready, fetching, update_available, error, none_state,
  polling, number_of_state, ready, UpdaterState,
}
use eos_updater.Prelude.{
  ◌+◌, ◌||◌, ◌&&◌, [], not, ltb, ◌==◌, is_some, none, true, some, if◌then◌else◌, false, List, ℕ,
  Option, String, ◌∷◌, Bool,
}
use eos_updater.Autoupdater.Results.{
  from_epoch, Proxy, update_poll_results, PollFile, PollResults, Moment,
}

pub data UpdateStep : Type 0 where
  step_none : UpdateStep
  step_poll : UpdateStep
  step_fetch : UpdateStep
  step_apply : UpdateStep

abbrev pub number : UpdateStep → ℕ
number step_none = 0
number step_poll = 1
number step_fetch = 2
number step_apply = 3

-- What the command line and the configuration set before the main loop.
pub record Settings : Type 0 where
  pub force_update : Bool
  pub force_fetch : Bool
  pub volume_path : Option String
  pub last_automatic_step : UpdateStep
  pub user_visible_delay_usecs : ℕ

-- A call of a method of the daemon.
pub data DaemonCall : Type 0 where
  call_poll : DaemonCall
  call_poll_volume : String → DaemonCall
  call_fetch_full : Bool → DaemonCall
  call_apply : DaemonCall

-- The static variables, with the file of poll results and the calls made, latest first.
-- `running` falls with g_main_loop_quit.
pub record Auto : Type 0 where
  pub polled_already : Bool
  pub should_exit_failure : Bool
  pub previous_state : UpdaterState
  pub poll_results : Option PollResults
  pub file : PollFile
  pub calls : List DaemonCall
  pub running : Bool

abbrev pub poll_call : Settings → DaemonCall
poll_call o = elim o.volume_path [ none ↦ call_poll | some path ↦ call_poll_volume path ]

abbrev pub call : DaemonCall → Auto → Auto
call c a = record a { calls = c ∷ a.calls }

-- The time at which a user-visible update may be applied; the sum stops at the largest guint64.
unfoldable pub next_update : Settings → PollResults → ℕ
next_update o r =
    if ltb max_uint64 (r.last_changed_usecs + o.user_visible_delay_usecs)
    then max_uint64
    else r.last_changed_usecs + o.user_visible_delay_usecs

-- `none` is a failed assertion; otherwise the autoupdater, and whether to keep running.
unfoldable pub apply_step : Moment → Settings → Proxy → Auto → Option (Auto × Bool)
unfolding next_update
apply_step m o p a =
    if not o.force_update && p.update_is_user_visible
    then elim a.poll_results [
      | none ↦ none
      | some r ↦
          if ltb (from_epoch m.real_time) (next_update o r)
          then some (a, false)
          else some (call call_apply a, true)
    ]
    else some (call call_apply a, true)

unfoldable pub poll_step : Settings → Auto → Auto × Bool
poll_step o a =
    if a.polled_already
    then (a, false)
    else (call (poll_call o) (record a { poll_results = none; polled_already = true }), true)

unfoldable pub do_update_step : Moment → Settings → UpdateStep → Proxy → Auto → Option (Auto × Bool)
unfolding apply_step poll_step
do_update_step m o step p a =
    if ltb (number o.last_automatic_step) (number step) then some (a, false) else elim step [
      | step_none ↦ none
      | step_poll ↦ some (poll_step o a)
      | step_fetch ↦ some (call (call_fetch_full (o.force_update || o.force_fetch)) a, true)
      | step_apply ↦ apply_step m o p a
    ]

-- The call's D-Bus reply is an error. The step is one that was called.
unfoldable pub update_step_callback : Bool → Auto → Auto
update_step_callback failed a =
    if failed then record a { should_exit_failure = true; running = false } else a

unfoldable pub store_results : Moment → Proxy → Auto → Auto
unfolding update_poll_results
store_results m p a = record a {
  poll_results = some (update_poll_results m p a.file).0;
  file = (update_poll_results m p a.file).1;
}

unfoldable pub ensure_results : Moment → Proxy → Auto → Auto
unfolding store_results
ensure_results m p a = if is_some a.poll_results then a else store_results m p a

abbrev pub is_polling : UpdaterState → Bool
is_polling polling = true
is_polling _ = false

abbrev pub state_eq : UpdaterState → UpdaterState → Bool
state_eq a b = number_of_state a == number_of_state b

abbrev pub go_on : Auto → Option (Auto × Bool)
go_on a = some (a, true)

-- The switch of on_state_changed.
unfoldable pub react : Moment → Settings → Proxy → UpdaterState → Auto → Option (Auto × Bool)
unfolding do_update_step ensure_results
react m o p none_state a = go_on a
react m o p ready a = do_update_step m o step_poll p a
react m o p error a = some (record a { should_exit_failure = true }, false)
react m o p polling a = go_on a
react m o p update_available a = do_update_step m o step_fetch p (ensure_results m p a)
react m o p fetching a = go_on a
react m o p update_ready a = do_update_step m o step_apply p (ensure_results m p a)
react m o p applying_update a = go_on a
react m o p update_applied a = some (a, false)

-- g_main_loop_quit unless it is to continue.
abbrev pub settle : Option (Auto × Bool) → Option Auto
settle none = none
settle (some (a, true)) = some a
settle (some (a, false)) = some (record a { running = false })

unfoldable pub after_polling : Moment → Proxy → Auto → Auto
unfolding store_results
after_polling m p a = if is_polling a.previous_state then store_results m p a else a

unfoldable pub on_state_changed : Moment → Settings → Proxy → UpdaterState → Auto → Option Auto
unfolding react after_polling
on_state_changed m o p state a =
    if state_eq state a.previous_state
    then some a
    else settle (react m o p state (record (after_polling m p a) { previous_state = state }))

-- An error is taken for READY, which leads to a poll.
abbrev pub initial_state : UpdaterState → UpdaterState
initial_state error = ready
initial_state s = s

unfoldable pub initial_poll_idle_func : Moment → Settings → Proxy → Auto → Option Auto
unfolding on_state_changed
initial_poll_idle_func m o p a = on_state_changed m o p (initial_state p.state) a

-- The daemon has lost its name, or has got one.
unfoldable pub on_name_owner_changed : Option String → Auto → Auto
on_name_owner_changed owner a =
    if is_some owner then a else record a { should_exit_failure = true; running = false }

-- What the main loop dispatches after the first idle function.
pub data Event : Type 0 where
  state_changed : Moment → Proxy → Event
  replied : Bool → Event
  owner_changed : Option String → Event

unfoldable pub dispatch : Settings → Event → Auto → Option Auto
unfolding on_state_changed update_step_callback on_name_owner_changed
dispatch o (state_changed m p) a = on_state_changed m o p p.state a
dispatch o (replied failed) a = some (update_step_callback failed a)
dispatch o (owner_changed owner) a = some (on_name_owner_changed owner a)

unfoldable pub run : Settings → List Event → Auto → Option Auto
unfolding dispatch
run o [] a = some a
run o (e ∷ rest) a = elim (dispatch o e a) [ none ↦ none | some b ↦ run o rest b ]

abbrev pub start : PollFile → Auto
start file = record {
  polled_already = false;
  should_exit_failure = false;
  previous_state = none_state;
  poll_results = none;
  file = file;
  calls = [];
  running = true;
}

-- The main loop, from the first idle function on.
unfoldable pub main_loop : Moment → Settings → Proxy → List Event → PollFile → Option Auto
unfolding initial_poll_idle_func run
main_loop m o p events file = elim (initial_poll_idle_func m o p (start file)) [
  | none ↦ none
  | some a ↦ run o events a
]
