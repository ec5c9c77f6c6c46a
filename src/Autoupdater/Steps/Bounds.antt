-- ===== src/Autoupdater/Steps/Bounds.antt =====
-- eos-autoupdater/main.c: the calls that the autoupdater makes are bounded, step by step.
use eos_updater.Autoupdater.Results.{from_epoch, PollResults, Proxy, Moment}
use eos_updater.Autoupdater.Steps.{
  call_poll, next_update, none, call_fetch_full, call_poll_volume, call_apply, step_apply,
  step_fetch, call, step_poll, poll_step, poll_call, number, UpdateStep, DaemonCall, apply_step,
  Settings, do_update_step, Auto,
}
use eos_updater.Prelude.{
  ◌||◌, arith, inr, inl, ◌&&◌, not, [], ltb, suc, if◌then◌else◌, Bool-cases, false, ◌∷◌, refl,
  Option-cases, some, true, All, ℕ, Option, ◌≡◌, ◌≤◌, Bool, List,
}

abbrev pub step_of : DaemonCall → UpdateStep
step_of call_poll = step_poll
step_of (call_poll_volume path) = step_poll
step_of (call_fetch_full force) = step_fetch
step_of call_apply = step_apply

abbrev pub is_poll_call : DaemonCall → Bool
is_poll_call call_poll = true
is_poll_call (call_poll_volume path) = true
is_poll_call (call_fetch_full force) = false
is_poll_call call_apply = false

abbrev pub polls : List DaemonCall → ℕ
polls [] = 0
polls (c ∷ cs) = if is_poll_call c then suc (polls cs) else polls cs

abbrev pub IsWithin : Settings → DaemonCall → Type 0
IsWithin o c = number (step_of c) ≤ number o.last_automatic_step

-- No call is past the last automatic step; one poll at most, and none before `polled_already`.
pub record Bounded (o : Settings) (a : Auto) : Type 0 where
  pub within : All (IsWithin o) a.calls
  pub polled : a.polled_already ≡ true → polls a.calls ≤ 1
  pub unpolled : a.polled_already ≡ false → polls a.calls ≡ 0

-- What is not touched by a step.
pub record Keeps (a b : Auto) : Type 0 where
  pub failure : b.should_exit_failure ≡ a.should_exit_failure
  pub previous : b.previous_state ≡ a.previous_state

pub Keeps-refl : (a : Auto) → Keeps a a
Keeps-refl a = record { failure = refl; previous = refl }

-- A step does not fail an assertion, and stays within the bounds.
abbrev pub Leads : Settings → Auto → Option (Auto × Bool) → Type 0
Leads o a r = (b : Auto) × (k : Bool) × (r ≡ some (b, k)) × Bounded o b × Keeps a b

poll_call-IsWithin : (o : Settings) → 1 ≤ number o.last_automatic_step → IsWithin o (poll_call o)
poll_call-IsWithin o h = elim (Option-cases o.volume_path) [
  | inl absent ↦ rw absent h
  | inr (path, given) ↦ rw given h
]

is_poll-poll_call : (o : Settings) → is_poll_call (poll_call o) ≡ true
is_poll-poll_call o = elim (Option-cases o.volume_path) [
  | inl absent ↦ rw absent refl
  | inr (path, given) ↦ rw given refl
]

pub step_poll-Leads :
    (m : Moment) (o : Settings) (p : Proxy) (a : Auto)
    → Bounded o a
    → Leads o a (do_update_step m o step_poll p a)
unfolding do_update_step poll_step
step_poll-Leads m o p a h = elim (Bool-cases (ltb (number o.last_automatic_step) 1)) [
  | inl beyond ↦ (a, false, rw beyond refl, h, Keeps-refl a)
  | inr within ↦ elim (Bool-cases a.polled_already) [
    | inl already ↦ (a, false, rw (within, already) refl, h, Keeps-refl a)
    | inr first ↦ (
      call (poll_call o) (record a { poll_results = none; polled_already = true }),
      true,
      rw (within, first) refl,
      record {
        within = (poll_call-IsWithin o (ground arith), h.within);
        polled = λ e. rw (is_poll-poll_call o, h.unpolled first) (omega arith);
        unpolled = λ e. ground arith;
      },
      record { failure = refl; previous = refl },
    )
  ]
]

call-Bounded :
    (o : Settings) (c : DaemonCall) (a : Auto)
    → is_poll_call c ≡ false
    → IsWithin o c
    → Bounded o a
    → Bounded o (call c a)
call-Bounded o c a other within h = record {
  within = (within, h.within);
  polled = λ e. rw other (h.polled e);
  unpolled = λ e. rw other (h.unpolled e);
}

pub step_fetch-Leads :
    (m : Moment) (o : Settings) (p : Proxy) (a : Auto)
    → Bounded o a
    → Leads o a (do_update_step m o step_fetch p a)
unfolding do_update_step
step_fetch-Leads m o p a h = elim (Bool-cases (ltb (number o.last_automatic_step) 2)) [
  | inl beyond ↦ (a, false, rw beyond refl, h, Keeps-refl a)
  | inr within ↦ (
    call (call_fetch_full (o.force_update || o.force_fetch)) a,
    true,
    rw within refl,
    call-Bounded o (call_fetch_full (o.force_update || o.force_fetch)) a refl (ground arith) h,
    record { failure = refl; previous = refl },
  )
]

apply_step-Leads :
    (m : Moment) (o : Settings) (p : Proxy) (a : Auto) (r : PollResults)
    → IsWithin o call_apply
    → a.poll_results ≡ some r
    → Bounded o a
    → Leads o a (apply_step m o p a)
unfolding apply_step
apply_step-Leads m o p a r within found h =
    let applied = call-Bounded o call_apply a refl within h in
    elim (Bool-cases (not o.force_update && p.update_is_user_visible)) [
      | inl delayed ↦ elim (Bool-cases (ltb (from_epoch m.real_time) (next_update o r))) [
        | inl early ↦ (a, false, ground arith, h, Keeps-refl a)
        | inr due ↦ (
          call call_apply a,
          true,
          ground arith,
          applied,
          record { failure = refl; previous = refl },
        )
      ]
      | inr at_once ↦ (
        call call_apply a,
        true,
        ground arith,
        applied,
        record { failure = refl; previous = refl },
      )
    ]

pub step_apply-Leads :
    (m : Moment) (o : Settings) (p : Proxy) (a : Auto) (r : PollResults)
    → a.poll_results ≡ some r
    → Bounded o a
    → Leads o a (do_update_step m o step_apply p a)
unfolding do_update_step
step_apply-Leads m o p a r found h = elim (Bool-cases (ltb (number o.last_automatic_step) 3)) [
  | inl beyond ↦ (a, false, rw beyond refl, h, Keeps-refl a)
  | inr within ↦ rw within (apply_step-Leads m o p a r (ground arith) found h)
]
