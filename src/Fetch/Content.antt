-- ===== src/Fetch/Content.antt =====
-- eos-updater/fetch.c: pulling an update (repo_pull, repo_pull_from_remotes, content_fetch_new,
-- content_fetch_old) and the whole of a fetch (content_fetch).
pub mod Tracked
pub mod Unscheduled
use eos_updater.Daemon.{Opaque}
use eos_updater.Fetch.{
  idle, invalidated, timeout, cancel, notify_download_now, FetchData, State, Services,
  unschedule_download, schedule_download, check_scheduler, unscheduling, decide, remove_entry,
  on_world,
}
use mathlib.Core.Path.{subst, sym}
use eos_updater.Run.{finished, aborted, unfinished, call, Run, ◌>>ᵣ◌}
use eos_updater.Prelude.{
  str_equal, List, [], ◌∷◌, ◌++◌, true, false, none, some, Option, Bool, String, ℕ, zero, suc, ◌≡◌,
  ◌≢◌, ◌⊎◌, ◌↔◌, inl, inr, refl, arith, if◌then◌else◌, Bool-cases, Option-cases,
}
use eos_updater.Errors.{is_cancelled, io_not_supported, is_io_not_found, ErrorCode, Result-cases}
use eos_updater.Errors.{Result, ok, err, unset, ◌>>=◌}

module _ {W : Type 0} (services : Services W) where
  -- A missing object may be due to a broken static delta: the pull is tried again without.
  abbrev pub without_deltas :
      String → String → Option String → Result (Unit {0}) × W → Result (Unit {0}) × W
  without_deltas remote ref url (ok _, w) = (ok tt, w)
  without_deltas remote ref url (err e, w) =
      let again = services.pull_with_options remote ref url true w in
      if is_io_not_found e then again else (err e, w)
  without_deltas remote ref url (unset, w) = (unset, w)

  unfoldable pub repo_pull : String → String → Option String → W → Result (Unit {0}) × W
  repo_pull remote ref url w =
      without_deltas remote ref url (services.pull_with_options remote ref url false w)

  -- The warning reads the message of the error that has been cleared: a null pointer is followed
  -- before the pull could be tried again. The same goes for an error that is not set.
  abbrev pub pulled : Result (Unit {0}) → State W → Run (State W) (Unit {0})
  pulled (ok _) s = finished (ok tt) s
  pulled (err e) s = if is_io_not_found e then aborted else finished (err e) s
  pulled unset s = aborted

  unfoldable pub repo_pull_from_remotes : List Opaque → State W → Run (State W) (Unit {0})
  repo_pull_from_remotes results s =
      pulled (services.pull_from_remotes results false s.world).0
        (record s { world = (services.pull_from_remotes results false s.world).1 })

  -- The override is one of the overridden URLs, at random.
  abbrev pub url_override : Option (List String) → W → Option String × W
  url_override none w = (none, w)
  url_override (some []) w = (none, w)
  url_override (some (u ∷ l)) w = services.random_url (u ∷ l) w

  abbrev pub pull_commit : FetchData → String → State W → Run (State W) (Unit {0})
  pull_commit d remote s =
      let picked = url_override d.overridden_urls s.world in
      finished (repo_pull remote d.update_id picked.0 picked.1).0
        (record s { world = (repo_pull remote d.update_id picked.0 picked.1).1 })

  abbrev pub old_from : FetchData → Option String → State W → Run (State W) (Unit {0})
  old_from d none s = finished (err io_not_supported) s
  old_from d (some remote) s =
      if str_equal d.update_id ""
      then finished (err io_not_supported) s
      else (pull_commit d remote s >>ᵣ λ _ s. finished (services.read_commit d.update_id s.world) s)

  unfoldable pub content_fetch_old : FetchData → State W → Run (State W) (Unit {0})
  content_fetch_old d s =
      if str_equal d.update_refspec ""
      then finished (err io_not_supported) s
      else (finished (services.parse_refspec d.update_refspec) s >>ᵣ λ names s.
          old_from d names.0 s)

  -- Every error of the new code but a cancellation leads to the old code.
  abbrev pub or_old : FetchData → Run (State W) (Unit {0}) → Run (State W) (Unit {0})
  or_old d (finished (ok _) s) = finished (ok tt) s
  or_old d (finished (err e) s) =
      if is_cancelled e then finished (err e) s else content_fetch_old d s
  or_old d (finished unset s) = aborted
  or_old d aborted = aborted
  or_old d unfinished = unfinished

  unfoldable pub fetch_commit :
      FetchData → Option (List Opaque) → State W → Run (State W) (Unit {0})
  fetch_commit d none s = content_fetch_old d s
  fetch_commit d (some results) s = or_old d (repo_pull_from_remotes results s)

  -- The entry is removed in the end, whether the fetch succeeded or failed.
  abbrev pub unscheduled : Run (State W) (Unit {0}) → Run (State W) (Unit {0})
  unscheduled (finished r s) = unscheduling services (unschedule_download services s) r
  unscheduled aborted = aborted
  unscheduled unfinished = unfinished

  -- `prepare` is prepare_flatpaks_to_deploy.
  unfoldable pub content_fetch :
      (String → W → Result (Unit {0}) × W) → FetchData → State W → Run (State W) (Unit {0})
  content_fetch prepare d s = check_scheduler services d s >>ᵣ λ _ s.
      unscheduled (fetch_commit d d.results s >>ᵣ λ _ s. on_world services (prepare d.update_id) s)
