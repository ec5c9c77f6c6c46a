-- ===== src/Fetch/Content/Unscheduled.antt =====
-- eos-updater/fetch.c: no schedule entry is left after a fetch.
use eos_updater.Fetch.Ending.{check_scheduler-Ends, Ends, Decides}
use eos_updater.Fetch.Content.Tracked.{
  fetch_commit-Tracked, unscheduled-IsLeft, FindsObjects, IsApart,
}
use eos_updater.Fetch.Scheduled.{check_scheduler-Decision, Decision}
use eos_updater.Fetch.Entries.{IsScheduler, IsTracked, IsLeft}
use eos_updater.Fetch.Content.{unscheduled, content_fetch, fetch_commit}
use eos_updater.Run.{>>ᵣ-Leaves, Leaves, finished, aborted, unfinished, Run, ◌>>ᵣ◌}
use eos_updater.Fetch.{Entry, State, FetchData, Services, check_scheduler, on_world}
use mathlib.Core.Path.{subst}
use eos_updater.Prelude.{none, String, ◌≡◌, inl, inr}
use eos_updater.Errors.{Result, ok, err, unset}

module _ {W : Type 0} (services : Services W) (Held : Entry → W → Type 0)
    (prepare : String → W → Result (Unit {0}) × W) where
  -- Where the wait for the scheduler ends, no pull misses an object, and only scheduling makes an
  -- entry, which mogwai keeps until its removal succeeds or finds it invalidated: a fetch that starts
  -- without a schedule entry returns; and however it ends, it has no schedule entry, and the
  -- scheduler has none that it had not before, except one whose removal it has just refused.
  pub content_fetch-IsLeft :
      (d : FetchData)
      → IsScheduler services Held
      → IsApart services Held prepare
      → FindsObjects services Held prepare
      → Decides services d
      → (s : State W) → s.schedule_entry ≡ none
      → Leaves (IsLeft services Held s.world) (content_fetch services prepare d s)
  unfolding content_fetch
  content_fetch-IsLeft d scheduler apart finds decides s n =
      after (check_scheduler services d s) (check_scheduler-Ends services d decides s)
        (check_scheduler-Decision services Held d scheduler s n)
    where
      fetching_of : State W → Run (State W) (Unit {0})
      fetching_of t =
          fetch_commit services d d.results t >>ᵣ λ _ t. on_world services (prepare d.update_id) t

      fetched :
          (t : State W)
          → IsTracked services Held s.world t
          → Leaves (IsLeft services Held s.world) (unscheduled services (fetching_of t))
      fetched t h =
          unscheduled-IsLeft services Held prepare apart s.world scheduler (fetching_of t) (
            >>ᵣ-Leaves (IsTracked services Held s.world) (fetch_commit services d d.results t) _
              (fetch_commit-Tracked services Held prepare apart s.world finds d d.results t h)
              (λ _ u k x held. k x (apart.prepare-NoneNew d.update_id u.world x held)))

      after :
          (m : Run (State W) (Unit {0}))
          → Ends services m
          → Decision services Held d s m
          → Leaves
              (IsLeft services Held s.world)
              (m >>ᵣ λ _ t. unscheduled services (fetching_of t))
      after (finished (ok _) t) h (inl same) =
          fetched t (λ x held. inl (subst (λ (u : State W). Held x u.world) same.1 held))
      after (finished (ok _) t) h (inr permitted) = fetched t permitted.4
      after (finished (err e) t) h g = g.1
      after (finished unset t) h g = g.1
      after aborted h g = absurd h
      after unfinished h g = absurd h
