-- ===== src/Autoupdater/Steps/Runs.antt =====
-- eos-autoupdater/main.c: what a run of the main loop can do, and when it fails.
use eos_updater.Autoupdater.Steps.Total.{
  react-Reacts, after_polling-Keeps, or-false, is_failing, or-true, Reacts, is_error,
}
use eos_updater.Autoupdater.Steps.Bounds.{polls, IsWithin, Keeps, Bounded}
use eos_updater.Autoupdater.Results.{PollFile, Proxy, Moment}
use eos_updater.Autoupdater.Steps.{start, initial_state, dispatch}
use eos_updater.Autoupdater.Steps.{
  react, after_polling, owner_changed, replied, state_changed, settle, Event, on_name_owner_changed,
  update_step_callback, Auto, state_eq, run, initial_poll_idle_func, on_state_changed, main_loop,
  Settings,
}
use eos_updater.Prelude.{
  inr, inl, ◌≤◌, [], ◌∷◌, All, ap, ◌∙◌, sym, any, Bool-cases, ◌||◌, arith, List, Option, ◌≡◌, Bool,
  none, some, refl, true, false,
}
use eos_updater.Daemon.{
  update_applied, applying_update, update_ready, fetching, update_available, polling, none_state,
  UpdaterState, error, ready,
}

-- The calls are within bounds, and ERROR is recorded as a failure.
record Good (o : Settings) (a : Auto) : Type 0 where
  bounded : Bounded o a
  recorded : a.previous_state ≡ error → a.should_exit_failure ≡ true

-- No assertion fails, and the failure flag rises with `failing`.
abbrev Handles : Settings → Bool → Auto → Option Auto → Type 0
Handles o failing a r =
    (b : Auto) × (r ≡ some b)
    × Good o b
    × (b.should_exit_failure ≡ (a.should_exit_failure || failing))

error_of_eq : (s : UpdaterState) → state_eq error s ≡ true → s ≡ error
error_of_eq s h = ground arith

unchanged_failure :
    (s : UpdaterState) (a : Auto)
    → state_eq s a.previous_state ≡ true
    → (a.previous_state ≡ error → a.should_exit_failure ≡ true)
    → a.should_exit_failure ≡ (a.should_exit_failure || is_error s)
unchanged_failure error a same h =
    h (error_of_eq a.previous_state same) ∙ sym (or-true a.should_exit_failure)
unchanged_failure none_state a same h = sym (or-false a.should_exit_failure)
unchanged_failure ready a same h = sym (or-false a.should_exit_failure)
unchanged_failure polling a same h = sym (or-false a.should_exit_failure)
unchanged_failure update_available a same h = sym (or-false a.should_exit_failure)
unchanged_failure fetching a same h = sym (or-false a.should_exit_failure)
unchanged_failure update_ready a same h = sym (or-false a.should_exit_failure)
unchanged_failure applying_update a same h = sym (or-false a.should_exit_failure)
unchanged_failure update_applied a same h = sym (or-false a.should_exit_failure)

Good-of_reaction :
    (o : Settings) (s : UpdaterState) (f : Bool) (b : Auto)
    → Bounded o b
    → b.should_exit_failure ≡ (f || is_error s)
    → b.previous_state ≡ s
    → Good o b
Good-of_reaction o s f b h e prev = record {
  bounded = h;
  recorded = λ is_now. rw e (rw (sym prev ∙ is_now) (or-true f));
}

settle-Handles :
    (o : Settings) (s : UpdaterState) (a : Auto) (r : Option (Auto × Bool))
    → a.previous_state ≡ s
    → Reacts o s a r
    → Handles o (is_error s) a (settle r)
settle-Handles o s a r prev (b, true, e, h, f, kept) =
    (b, ap settle e, Good-of_reaction o s a.should_exit_failure b h f (kept ∙ prev), f)
settle-Handles o s a r prev (b, false, e, h, f, kept) = (
  record b { running = false },
  ap settle e,
  Good-of_reaction o s a.should_exit_failure (record b { running = false })
      (record { within = h.within; polled = h.polled; unpolled = h.unpolled }) f (kept ∙ prev),
  f,
)

Handles-of_failure :
    (o : Settings) (failing : Bool) (a c : Auto) (r : Option Auto)
    → c.should_exit_failure ≡ a.should_exit_failure
    → Handles o failing c r
    → Handles o failing a r
Handles-of_failure o failing a c r same (b, e, g, f) = (b, e, g, ground arith)

changed_state :
    (o : Settings) (s : UpdaterState) (a b : Auto)
    → Bounded o b
    → Keeps a b
    → Bounded o (record b { previous_state = s })
changed_state o s a b h keeps = record {
  within = h.within;
  polled = h.polled;
  unpolled = h.unpolled;
}

on_state_changed-Handles :
    (m : Moment) (o : Settings) (p : Proxy) (s : UpdaterState) (a : Auto)
    → Good o a
    → Handles o (is_error s) a (on_state_changed m o p s a)
unfolding on_state_changed
on_state_changed-Handles m o p s a g = elim (Bool-cases (state_eq s a.previous_state)) [
  | inl same ↦ rw same (a, refl, g, unchanged_failure s a same g.recorded)
  | inr changed ↦
      let (bounded, keeps) = after_polling-Keeps o m p a g.bounded in
      let now : Auto = record (after_polling m p a) { previous_state = s } in
      rw changed (
        Handles-of_failure o (is_error s) a now (settle (react m o p s now)) keeps.failure (
          settle-Handles o s now (react m o p s now) refl
            (react-Reacts m o p s now (changed_state o s a (after_polling m p a) bounded keeps))))
]

Good-of_failing :
    (o : Settings) (a : Auto)
    → Good o a
    → Good o (record a { should_exit_failure = true; running = false })
Good-of_failing o a g = record {
  bounded = record {
    within = g.bounded.within;
    polled = g.bounded.polled;
    unpolled = g.bounded.unpolled;
  };
  recorded = λ e. refl;
}

dispatch-Handles :
    (o : Settings) (e : Event) (a : Auto) → Good o a → Handles o (is_failing e) a (dispatch o e a)
unfolding dispatch update_step_callback on_name_owner_changed
dispatch-Handles o (state_changed m p) a g = on_state_changed-Handles m o p p.state a g
dispatch-Handles o (replied true) a g = (
  record a { should_exit_failure = true; running = false },
  refl,
  Good-of_failing o a g,
  sym (or-true a.should_exit_failure),
)
dispatch-Handles o (replied false) a g = (a, refl, g, sym (or-false a.should_exit_failure))
dispatch-Handles o (owner_changed none) a g = (
  record a { should_exit_failure = true; running = false },
  refl,
  Good-of_failing o a g,
  sym (or-true a.should_exit_failure),
)
dispatch-Handles o (owner_changed (some owner)) a g =
    (a, refl, g, sym (or-false a.should_exit_failure))

run-Handles :
    (o : Settings) (es : List Event) (a : Auto)
    → Good o a
    → Handles o (any is_failing es) a (run o es a)
unfolding run
run-Handles o [] a g = (a, refl, g, sym (or-false a.should_exit_failure))
run-Handles o (e ∷ rest) a g =
    let (b, handled, good, failed) = dispatch-Handles o e a g in
    let (c, done, better, later) = run-Handles o rest b good in
    (c, ground arith, better, ground arith)

start-Good : (o : Settings) (file : PollFile) → Good o (start file)
start-Good o file = record {
  bounded = record { within = tt; polled = λ e. omega arith; unpolled = λ e. refl };
  recorded = λ e. ground arith;
}

polls-le_one : (o : Settings) (b : Auto) → Bounded o b → polls b.calls ≤ 1
polls-le_one o b h = elim (Bool-cases b.polled_already) [
  | inl e ↦ h.polled e
  | inr e ↦ omega (arith, h.unpolled e)
]

initial_state-quiet : (s : UpdaterState) → is_error (initial_state s) ≡ false
initial_state-quiet s = ground arith

-- The first idle function takes ERROR for READY, so only the events that follow it can make the
-- autoupdater fail. Whatever they are, in whatever order: no assertion fails; no call is past the
-- configured last step, and at most one polls; and the autoupdater is to exit with a failure
-- exactly when one of the events shows the daemon in ERROR, is a call's error, or is the loss of
-- the daemon's name.
pub main_loop-Bounded :
    (m : Moment) (o : Settings) (p : Proxy) (es : List Event) (file : PollFile)
    → (b : Auto) × (main_loop m o p es file ≡ some b)
      × All (IsWithin o) b.calls
      × (polls b.calls ≤ 1)
      × (b.should_exit_failure ≡ any is_failing es)
unfolding main_loop initial_poll_idle_func
main_loop-Bounded m o p es file =
    let (a, begun, good, quiet) =
      on_state_changed-Handles m o p (initial_state p.state) (start file) (start-Good o file) in
    let (b, done, fine, failed) = run-Handles o es a good in
    (
      b,
      ground arith,
      fine.bounded.within,
      polls-le_one o b fine.bounded,
      failed ∙ ap (λ f. f || any is_failing es) (quiet ∙ initial_state-quiet p.state),
    )
