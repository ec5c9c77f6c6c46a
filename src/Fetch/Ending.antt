-- ===== src/Fetch/Ending.antt =====
-- eos-updater/fetch.c: the wait for the scheduler ends.
use eos_updater.Run.{>>ᵣ-Leaves, Leaves, finished, Run, ◌>>ᵣ◌}
use eos_updater.Fetch.{
  wait_loop, forbidden, Entry, State, FetchData, Waiting, Services, unschedule_download,
  schedule_download, check_scheduler, unscheduling, decide, remove_entry, on_world,
}
use eos_updater.Prelude.{◌||◌, true, false, none, some, Option, ◌≢◌, refl, if◌then◌else◌}
use eos_updater.Errors.{ok, err}

module _ {W : Type 0} (services : Services W) where
  -- The scheduler permits the download sooner or later, or one of the things happens that end the
  -- wait for it.
  abbrev pub Decides : FetchData → Type 0
  Decides d =
      (entry : Entry) (w : W)
      → wait_loop d.scheduling_timeout_seconds (services.events w) (record {
        download_now = services.download_now entry w;
        timed_out = false;
        invalidated_error = false;
        stopped = services.cancelled w;
      })
        ≢ none

  abbrev pub Ends : Run (State W) (Unit {0}) → Type 0
  Ends = Leaves (λ _. Unit)

  decide-Ends : (o : Option Waiting) (s : State W) → o ≢ none → Ends (decide services o s)
  unfolding unschedule_download
  decide-Ends none s n = absurd (n refl)
  decide-Ends (some v) s n =
      elim v.download_now
        as (λ b.
          Leaves (λ _. Unit)
            (if b
              then finished (ok tt) s
              else unscheduling services (unschedule_download services s) (err (forbidden v)))) [
                | true ↦ tt
                | false ↦ by_entry s.schedule_entry
              ]
    where
      by_entry :
          (o : Option Entry)
          → Leaves
              (λ _. Unit)
              (unscheduling services {A = Unit {0}}
                (remove_entry services o s.world)
                (err (forbidden v)))
      by_entry none = tt
      by_entry (some x) = tt

  pub check_scheduler-Ends :
      (d : FetchData) → Decides d → (s : State W) → Ends (check_scheduler services d s)
  unfolding check_scheduler schedule_download
  check_scheduler-Ends d decides s =
      elim (d.force || d.offline_results_only)
        as (λ b.
          Leaves (λ _. Unit)
            (if b then finished (ok tt) s else (schedule_download services s >>ᵣ wait))) [
              | true ↦ tt
              | false ↦
                  >>ᵣ-Leaves (λ _. Unit) (schedule_download services s) wait
                    (>>ᵣ-Leaves (λ _. Unit) (on_world services services.scheduler_new s) _ tt
                      (λ _ s _.
                        >>ᵣ-Leaves (λ _. Unit) (on_world services services.scheduler_schedule s) _
                          tt (λ _ _ _. tt)))
                    (λ entry s _. decide-Ends _ s (decides entry s.world))
            ]
    where
      wait : Entry → State W → Run (State W) (Unit {0})
      wait entry t =
          decide services
            (wait_loop d.scheduling_timeout_seconds (services.events t.world) (record {
              download_now = services.download_now entry t.world;
              timed_out = false;
              invalidated_error = false;
              stopped = services.cancelled t.world;
            }))
            t
