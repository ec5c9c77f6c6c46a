-- ===== src/Autoupdater/Steps/Total.antt =====
-- eos-autoupdater/main.c: a whole run of the main loop.
use eos_updater.Autoupdater.Steps.Bounds.{
  step_apply-Leads, step_fetch-Leads, step_poll-Leads, Keeps-refl, Leads, Keeps, Bounded,
}
use eos_updater.Autoupdater.Results.{update_poll_results, Proxy, PollResults, Moment}
use eos_updater.Daemon.{
  update_applied, applying_update, update_ready, fetching, update_available, polling, ready,
  none_state, error, UpdaterState,
}
use eos_updater.Autoupdater.Steps.{
  is_some, not, step_apply, owner_changed, replied, step_fetch, state_changed, is_polling,
  step_poll, do_update_step, Auto, Event, react, store_results, Settings, ensure_results,
  after_polling,
}
use eos_updater.Prelude.{
  inr, sym, inl, ◌∙◌, Bool-cases, Option-cases, arith, Option, ◌≡◌, ◌||◌, Bool, none, some, refl,
  true, false,
}

ensure_known :
    (m : Moment) (p : Proxy) (a : Auto) (r : PollResults)
    → a.poll_results ≡ some r
    → ensure_results m p a ≡ a
unfolding ensure_results
ensure_known m p a r e = ground arith

ensure_unknown :
    (m : Moment) (p : Proxy) (a : Auto)
    → a.poll_results ≡ none
    → ensure_results m p a ≡ store_results m p a
unfolding ensure_results
ensure_unknown m p a e = ground arith

-- The results are there, and nothing else that counts has changed.
abbrev Readies : Settings → Auto → Auto → Type 0
Readies o a b = (r : PollResults) × (b.poll_results ≡ some r) × Bounded o b × Keeps a b

store_results-Readies :
    (o : Settings) (m : Moment) (p : Proxy) (a : Auto)
    → Bounded o a
    → Readies o a (store_results m p a)
unfolding store_results
store_results-Readies o m p a h = (
  (update_poll_results m p a.file).0,
  refl,
  record { within = h.within; polled = h.polled; unpolled = h.unpolled },
  record { failure = refl; previous = refl },
)

ensure_results-Readies :
    (o : Settings) (m : Moment) (p : Proxy) (a : Auto)
    → Bounded o a
    → Readies o a (ensure_results m p a)
ensure_results-Readies o m p a h = elim (Option-cases a.poll_results) [
  | inl absent ↦ rw (ensure_unknown m p a absent) (store_results-Readies o m p a h)
  | inr (r, found) ↦ rw (ensure_known m p a r found) (r, found, h, Keeps-refl a)
]

pub after_polling-Keeps :
    (o : Settings) (m : Moment) (p : Proxy) (a : Auto)
    → Bounded o a
    → Bounded o (after_polling m p a) × Keeps a (after_polling m p a)
unfolding after_polling
after_polling-Keeps o m p a h = elim (Bool-cases (is_polling a.previous_state)) [
  | inl busy ↦ let (r, found, bounded, keeps) = store_results-Readies o m p a h in ground arith
  | inr other ↦ ground (arith, Keeps-refl a)
]

-- The failing events: the state ERROR, an error as reply, a lost name.
abbrev pub is_error : UpdaterState → Bool
is_error error = true
is_error _ = false

abbrev pub is_failing : Event → Bool
is_failing (state_changed m p) = is_error p.state
is_failing (replied failed) = failed
is_failing (owner_changed owner) = not (is_some owner)

-- What react leads to.
abbrev pub Reacts : Settings → UpdaterState → Auto → Option (Auto × Bool) → Type 0
Reacts o s a r =
    (b : Auto) × (k : Bool) × (r ≡ some (b, k))
    × Bounded o b
    × (b.should_exit_failure ≡ (a.should_exit_failure || is_error s))
    × (b.previous_state ≡ a.previous_state)

pub or-false : (b : Bool) → (b || false) ≡ b
or-false true = refl
or-false false = refl

pub or-true : (b : Bool) → (b || true) ≡ true
or-true true = refl
or-true false = refl

Reacts-of_Leads :
    (o : Settings) (s : UpdaterState) (a c : Auto) (r : Option (Auto × Bool))
    → is_error s ≡ false
    → Keeps a c
    → Leads o c r
    → Reacts o s a r
Reacts-of_Leads o s a c r quiet keeps (b, k, e, bounded, kept) = (
  b,
  k,
  e,
  bounded,
  rw (quiet, or-false a.should_exit_failure) (kept.failure ∙ keeps.failure),
  kept.previous ∙ keeps.previous,
)

go_on-Reacts :
    (o : Settings) (s : UpdaterState) (a : Auto) (k : Bool)
    → is_error s ≡ false
    → Bounded o a
    → Reacts o s a (some (a, k))
go_on-Reacts o s a k quiet h =
    (a, k, refl, h, rw (quiet, or-false a.should_exit_failure) refl, refl)

pub react-Reacts :
    (m : Moment) (o : Settings) (p : Proxy) (s : UpdaterState) (a : Auto)
    → Bounded o a
    → Reacts o s a (react m o p s a)
unfolding react
react-Reacts m o p none_state a h = go_on-Reacts o none_state a true refl h
react-Reacts m o p ready a h =
    Reacts-of_Leads o ready a a (do_update_step m o step_poll p a) refl (Keeps-refl a)
      (step_poll-Leads m o p a h)
react-Reacts m o p error a h = (
  record a { should_exit_failure = true },
  false,
  refl,
  record { within = h.within; polled = h.polled; unpolled = h.unpolled },
  sym (or-true a.should_exit_failure),
  refl,
)
react-Reacts m o p polling a h = go_on-Reacts o polling a true refl h
react-Reacts m o p update_available a h =
    let (r, found, bounded, keeps) = ensure_results-Readies o m p a h in
    Reacts-of_Leads o update_available a (ensure_results m p a)
      (do_update_step m o step_fetch p (ensure_results m p a)) refl keeps
      (step_fetch-Leads m o p (ensure_results m p a) bounded)
react-Reacts m o p fetching a h = go_on-Reacts o fetching a true refl h
react-Reacts m o p update_ready a h =
    let (r, found, bounded, keeps) = ensure_results-Readies o m p a h in
    Reacts-of_Leads o update_ready a (ensure_results m p a)
      (do_update_step m o step_apply p (ensure_results m p a)) refl keeps
      (step_apply-Leads m o p (ensure_results m p a) r found bounded)
react-Reacts m o p applying_update a h = go_on-Reacts o applying_update a true refl h
react-Reacts m o p update_applied a h = go_on-Reacts o update_applied a false refl h
