-- ===== src/Fetch/Scheduled.antt =====
-- eos-updater/fetch.c: what check_scheduler decides.
use eos_updater.Fetch.Permitted.{wait_loop-IsPermitted, IsPermitted}
use eos_updater.Fetch.Entries.{unscheduling-IsLeft, NoneNew, IsLeft, IsScheduler, IsTracked}
use eos_updater.Fetch.{
  forbidden, Entry, State, Waiting, FetchData, wait_loop, Services, unschedule_download,
  schedule_download, check_scheduler, unscheduling, decide, remove_entry, on_world,
}
use mathlib.Core.Path.{subst}
use eos_updater.Run.{Leaves, finished, aborted, unfinished, Run, ◌>>ᵣ◌}
use eos_updater.Prelude.{
  ◌||◌, true, false, none, some, Option, Bool, ◌≡◌, ◌⊎◌, inl, inr, refl, arith, if◌then◌else◌,
}
use eos_updater.Errors.{ErrorCode}
use eos_updater.Errors.{Result, ok, err, unset}

-- It has returned an error.
abbrev IsError : {W : Type 0} → Run W (Unit {0}) → Type 0
IsError (finished (ok _) t) = ⊥
IsError (finished (err e) t) = Unit
IsError (finished unset t) = Unit
IsError aborted = Unit
IsError unfinished = Unit

unscheduling-fails :
    {W : Type 0} (services : Services W) (t : State W) (e : ErrorCode)
    → IsError (unscheduling services {A = Unit {0}} (unschedule_download services t) (err e))
unfolding unschedule_download
unscheduling-fails services t e = by_entry t.schedule_entry
  where
    by_entry :
        (o : Option Entry)
        → IsError (unscheduling services {A = Unit {0}} (remove_entry services o t.world) (err e))
    by_entry none = tt
    by_entry (some x) = tt

module _ {W : Type 0} (services : Services W) (Held : Entry → W → Type 0) (d : FetchData) where
  abbrev pub unasked : Bool
  unasked = d.force || d.offline_results_only

  -- What each end of check_scheduler tells.
  abbrev pub Decision : State W → Run (State W) (Unit {0}) → Type 0
  Decision s (finished (ok _) t) =
      ((unasked ≡ true) × (t ≡ s))
      ⊎ ((unasked ≡ false)
          × (entry : Entry) × (t.schedule_entry ≡ some entry)
          × IsPermitted (services.download_now entry t.world) (services.events t.world)
          × IsTracked services Held s.world t)
  Decision s (finished (err e) t) = (unasked ≡ false) × IsLeft services Held s.world t
  Decision s (finished unset t) = (unasked ≡ false) × IsLeft services Held s.world t
  Decision s aborted = ⊥
  Decision s unfinished = unasked ≡ false

  module _ (scheduler : IsScheduler services Held) (s : State W) where
    unscheduling-Decision :
        (t : State W) (e : ErrorCode)
        → unasked ≡ false
        → IsTracked services Held s.world t
        → Decision s (unscheduling services {A = Unit {0}} (unschedule_download services t) (err e))
    unscheduling-Decision t e f h =
        left (unscheduling services {A = Unit {0}} (unschedule_download services t) (err e))
          (unscheduling-fails services t e)
          (unscheduling-IsLeft services Held scheduler s.world t (err e) h)
      where
        left :
            (m : Run (State W) (Unit {0}))
            → IsError m
            → Leaves (IsLeft services Held s.world) m
            → Decision s m
        left (finished (ok _) t) n l = absurd n
        left (finished (err e) t) n l = (f, l)
        left (finished unset t) n l = (f, l)
        left aborted n l = absurd l
        left unfinished n l = absurd l

    decide-Decision :
        (t : State W) (entry : Entry) (v : Waiting) (o : Option Waiting)
        → unasked ≡ false
        → t.schedule_entry ≡ some entry
        → IsTracked services Held s.world t
        → v.download_now ≡ services.download_now entry t.world
        → wait_loop d.scheduling_timeout_seconds (services.events t.world) v ≡ o
        → Decision s (decide services o t)
    decide-Decision t entry v none f g k n h = f
    decide-Decision t entry v (some w) f g k n h = permitted w.download_now refl
      where
        permitted :
            (b : Bool)
            → w.download_now ≡ b
            → Decision s (
                if b
                then finished (ok tt) t
                else unscheduling services (unschedule_download services t) (err (forbidden w)))
        permitted true p = inr (
          f,
          entry,
          g,
          subst (λ x. IsPermitted x (services.events t.world)) n
              (wait_loop-IsPermitted d.scheduling_timeout_seconds (services.events t.world) v w h
                p),
          k,
        )
        permitted false p = unscheduling-Decision t (forbidden w) f k

    untracked :
        (w : W)
        → s.schedule_entry ≡ none
        → NoneNew services Held s.world w
        → IsLeft services Held s.world (record { world = w; schedule_entry = s.schedule_entry })
    untracked w n new = (n, λ x held. inl (new x held))

    -- Where there is no schedule entry yet: with `force` or offline results the scheduler is not
    -- contacted, and nothing changes. Without, where only scheduling makes an entry and mogwai keeps
    -- one until its removal succeeds or finds it invalidated: check_scheduler succeeds only with an
    -- entry that permits the download, or came to permit it, and that is the only one it has made;
    -- and when it fails, the scheduler has no entry that it had not before, except one whose removal
    -- it has just refused.
    pub check_scheduler-Decision :
        s.schedule_entry ≡ none → Decision s (check_scheduler services d s)
    unfolding check_scheduler schedule_download
    check_scheduler-Decision n = asked unasked refl
      where
        wait : Entry → State W → Run (State W) (Unit {0})
        wait entry t =
            decide services
              (wait_loop d.scheduling_timeout_seconds (services.events t.world) (record {
                download_now = services.download_now entry t.world;
                timed_out = false;
                invalidated_error = false;
                stopped = services.cancelled t.world;
              }))
              t

        keep : Entry → State W → Run (State W) Entry
        keep entry t = finished (ok entry) (record t { schedule_entry = some entry })

        made :
            (v w : W)
            → NoneNew services Held s.world v
            → (r : Result Entry) → ((x : Entry) → Held x w → Held x v ⊎ (r ≡ ok x))
            → (x : Entry) → Held x w
            → Held x s.world ⊎ (r ≡ ok x)
        made v w new r h x held = elim (h x held) [
          | inl old ↦ inl (new x old)
          | inr fresh ↦ inr fresh
        ]

        scheduled :
            unasked ≡ false
            → (r : Result Entry) (w : W) → ((x : Entry) → Held x w → Held x s.world ⊎ (r ≡ ok x))
            → Decision s (
                (finished r (record { world = w; schedule_entry = s.schedule_entry }) >>ᵣ keep)
                >>ᵣ wait)
        scheduled f (ok entry) w h =
            decide-Decision (record { world = w; schedule_entry = some entry }) entry _ _ f refl
              (λ x held. elim (h x held) [ inl old ↦ inl old | inr new ↦ inr (ground arith) ]) refl
              refl
        scheduled f (err e) w h = (
          f,
          untracked w n
              (λ x held. elim (h x held) [ inl old ↦ old | inr new ↦ absurd (ground arith) ]),
        )
        scheduled f unset w h = (
          f,
          untracked w n
              (λ x held. elim (h x held) [ inl old ↦ old | inr new ↦ absurd (ground arith) ]),
        )

        connected :
            unasked ≡ false
            → (r : Result (Unit {0})) (w : W) → NoneNew services Held s.world w
            → Decision s (
                (finished r (record { world = w; schedule_entry = s.schedule_entry }) >>ᵣ λ _ t.
                on_world services services.scheduler_schedule t >>ᵣ keep)
                >>ᵣ wait)
        connected f (ok _) w new =
            scheduled f (services.scheduler_schedule w).0 (services.scheduler_schedule w).1 (
              made w (services.scheduler_schedule w).1 new (services.scheduler_schedule w).0
                (scheduler.scheduler_schedule-Held w))
        connected f (err e) w new = (f, untracked w n new)
        connected f unset w new = (f, untracked w n new)

        asked :
            (b : Bool)
            → unasked ≡ b
            → Decision s (if b then finished (ok tt) s else (schedule_download services s >>ᵣ wait))
        asked true f = inl (f, refl)
        asked false f =
            connected f (services.scheduler_new s.world).0 (services.scheduler_new s.world).1
              (scheduler.scheduler_new-NoneNew s.world)
