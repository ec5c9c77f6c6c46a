-- ===== src/Fetch/Tests.antt =====
-- A fetch on a metered connection that the scheduler permits after a while.
use eos_updater.Fetch.Content.Unscheduled.{content_fetch-IsLeft}
use eos_updater.Fetch.Content.Tracked.{IsApart}
use eos_updater.Fetch.Ending.{Decides}
use eos_updater.Fetch.Scheduled.{check_scheduler-Decision, Decision}
use eos_updater.Fetch.Content.{
  content_fetch_old, repo_pull_from_remotes, content_fetch_old, repo_pull_from_remotes,
  fetch_commit, content_fetch,
}
use eos_updater.Fetch.Content.{repo_pull}
use eos_updater.Fetch.{
  Entry, State, Services, FetchData, idle, notify_download_now, unschedule_download,
  schedule_download, check_scheduler, wait_loop,
}
use eos_updater.Fetch.Entries.{IsScheduler, IsLeft}
use eos_updater.Run.{finished, Leaves}
use eos_updater.Prelude.{
  ◌+◌, [], ◌∷◌, true, false, none, some, String, ℕ, ◌≡◌, ◌≢◌, refl, inr, arith, Option,
}
use eos_updater.Errors.{io_failed}
use eos_updater.Errors.{Result, ok, err}

-- What was pulled, and the entry that the scheduler has.
abbrev Small : Type 0
Small = ℕ × Option Entry

abbrev permitting : Services Small
permitting = record {
  parse_refspec = λ s. ok (some "eos", "os/5");
  pull_with_options = λ remote ref url deltas w. (ok tt, (w.0 + 1, w.1));
  pull_from_remotes = λ results deltas w. (err io_failed, w);
  read_commit = λ c w. ok tt;
  random_url = λ urls w. (none, w);
  scheduler_new = λ w. (ok tt, w);
  scheduler_schedule = λ w. (ok 7, (w.0, some 7));
  entry_remove = λ e w. (ok tt, (w.0, none));
  download_now = λ e w. false;
  cancelled = λ w. false;
  events = λ w. idle ∷ notify_download_now true ∷ [];
}

abbrev Keeps : Entry → Small → Type 0
Keeps x w = w.1 ≡ some x

permitting-IsScheduler : IsScheduler permitting Keeps
permitting-IsScheduler = record {
  scheduler_new-NoneNew = λ w x held. held;
  scheduler_schedule-Held = λ w x held. inr (ground arith);
  entry_remove-NoneNew = λ e w x held. absurd (ground arith);
  entry_remove-ok = λ e w removed held. ground arith;
  entry_remove-invalidated = λ e w c failed invalidated held. ground arith;
}

abbrev online : FetchData
online = record {
  update_id = "f00d";
  update_refspec = "eos:os/5";
  overridden_urls = none;
  results = some (1 ∷ []);
  offline_results_only = false;
  force = false;
  scheduling_timeout_seconds = 0;
}

abbrev at_start : State Small
at_start = record { world = (0, none); schedule_entry = none }

abbrev prepare_nothing : String → Small → Result (Unit {0}) × Small
prepare_nothing update_id w = (ok tt, w)

permitting-IsApart : IsApart permitting Keeps prepare_nothing
permitting-IsApart = record {
  random_url-NoneNew = λ urls w x held. held;
  pull_with_options-NoneNew = λ remote ref url deltas w x held. held;
  pull_from_remotes-NoneNew = λ results deltas w x held. held;
  prepare-NoneNew = λ id w x held. held;
}

is_fetched :
    content_fetch permitting prepare_nothing online at_start
    ≡ finished (ok tt) (record { world = (1, none); schedule_entry = none })
unfolding content_fetch check_scheduler schedule_download wait_loop fetch_commit
    repo_pull_from_remotes content_fetch_old repo_pull unschedule_download
is_fetched = refl

permitted :
    wait_loop 0 (idle ∷ notify_download_now true ∷ []) (record {
      download_now = false;
      timed_out = false;
      invalidated_error = false;
      stopped = false;
    })
    ≢ none
unfolding wait_loop
permitted h = cc

check_scheduler-Decision_example :
    Decision permitting Keeps online at_start (check_scheduler permitting online at_start)
check_scheduler-Decision_example =
    check_scheduler-Decision permitting Keeps online permitting-IsScheduler at_start refl

content_fetch-IsLeft_example :
    Leaves
      (IsLeft permitting Keeps (0, none))
      (content_fetch permitting prepare_nothing online at_start)
content_fetch-IsLeft_example =
    content_fetch-IsLeft permitting Keeps prepare_nothing online permitting-IsScheduler
      permitting-IsApart (λ results w. ((λ h. cc), (λ h. cc))) decides at_start refl
  where
    decides : Decides permitting online
    decides entry w = permitted
