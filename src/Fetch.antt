-- ===== src/Fetch.antt =====
-- eos-updater/fetch.c: asking the download scheduler (schedule_download, unschedule_download,
-- check_scheduler), pulling the update (repo_pull, repo_pull_from_remotes, content_fetch_new,
-- content_fetch_old) and both together (content_fetch).
pub mod Flatpaks
pub mod Entries
pub mod Permitted
pub mod Ending
pub mod Scheduled
pub mod Content
mod Tests
use eos_updater.Daemon.{Opaque}
use eos_updater.Run.{aborted, unfinished, ◌>>ᵣ◌, finished, Run}
use eos_updater.Prelude.{
  ◌&&◌, ltb, not, ◌||◌, List, [], ◌∷◌, ◌++◌, true, false, none, some, Option, Bool, String, ℕ, zero,
  suc, ◌≡◌, ◌≢◌, ◌⊎◌, ◌↔◌, inl, inr, refl, arith, if◌then◌else◌, Bool-cases, Option-cases,
}
use eos_updater.Errors.{io_cancelled, is_invalidated, updater, metered_connection}
use eos_updater.Errors.{ErrorCode, Result-cases}
use eos_updater.Errors.{Result, ok, err, unset, ◌>>=◌}

-- A schedule entry by its number.
abbrev pub Entry : Type 0
Entry = ℕ

-- What a round of the main context may do while check_scheduler waits: the entry's permission
-- changes, the time runs out, the entry is invalidated, the fetch is cancelled, or none of these.
pub data Event : Type 0 where
  notify_download_now : Bool → Event
  timeout : Event
  invalidated : Event
  cancel : Event
  idle : Event

-- libostree and mogwai's scheduler: parameters. The Boolean of a pull is disable-static-deltas.
-- `cancelled` is g_cancellable_is_cancelled, and `events` what happens while check_scheduler waits.
pub record Services (W : Type 0) : Type 0 where
  pub parse_refspec : String → Result (Option String × String)
  pub pull_with_options : String → String → Option String → Bool → W → Result (Unit {0}) × W
  pub pull_from_remotes : List Opaque → Bool → W → Result (Unit {0}) × W
  pub read_commit : String → W → Result (Unit {0})
  pub random_url : List String → W → Option String × W
  pub scheduler_new : W → Result (Unit {0}) × W
  pub scheduler_schedule : W → Result Entry × W
  pub entry_remove : Entry → W → Result (Unit {0}) × W
  pub download_now : Entry → W → Bool
  pub cancelled : W → Bool
  pub events : W → List Event

-- FetchData with what it uses of EosUpdaterData, besides the schedule entry.
pub record FetchData : Type 0 where
  pub update_id : String
  pub update_refspec : String
  pub overridden_urls : Option (List String)
  pub results : Option (List Opaque)
  pub offline_results_only : Bool
  pub force : Bool
  pub scheduling_timeout_seconds : ℕ

-- The world and FetchData.schedule_entry.
pub record State (W : Type 0) : Type 0 where
  pub world : W
  pub schedule_entry : Option Entry

-- The local variables that the loop of check_scheduler looks at.
pub record Waiting : Type 0 where
  pub download_now : Bool
  pub timed_out : Bool
  pub invalidated_error : Bool
  pub stopped : Bool

abbrev pub react : ℕ → Event → Waiting → Waiting
react seconds (notify_download_now b) v = record v { download_now = b }
react seconds timeout v = if ltb 0 seconds then record v { timed_out = true } else v
react seconds invalidated v = record v { invalidated_error = true }
react seconds cancel v = record v { stopped = true }
react seconds idle v = v

abbrev pub is_waiting : Waiting → Bool
is_waiting v = not v.download_now && not v.stopped && not v.timed_out && not v.invalidated_error

-- `none` where the events end before the loop does: it still waits.
unfoldable pub wait_loop : ℕ → List Event → Waiting → Option Waiting
wait_loop seconds [] v = if is_waiting v then none else some v
wait_loop seconds (e ∷ l) v =
    let later = wait_loop seconds l (react seconds e v) in if is_waiting v then later else some v

-- The error that is set when the download has not been permitted.
abbrev pub forbidden : Waiting → ErrorCode
forbidden v =
    if v.timed_out || v.invalidated_error then updater metered_connection else io_cancelled

module _ {W : Type 0} (services : Services W) where
  -- A call that leaves the schedule entry.
  abbrev pub on_world : {A : Type 0} → (W → Result A × W) → State W → Run (State W) A
  on_world f s = finished (f s.world).0 (record s { world = (f s.world).1 })

  unfoldable pub schedule_download : State W → Run (State W) Entry
  schedule_download s = on_world services.scheduler_new s >>ᵣ λ _ s.
      on_world services.scheduler_schedule s >>ᵣ λ entry s.
      finished (ok entry) (record s { schedule_entry = some entry })

  -- The entry is forgotten before it is removed; one that is already invalidated is removed.
  abbrev pub removed : Result (Unit {0}) → Result (Unit {0})
  removed (ok _) = ok tt
  removed (err e) = if is_invalidated e then ok tt else err e
  removed unset = ok tt

  abbrev pub remove_entry : Option Entry → W → Run (State W) (Unit {0})
  remove_entry none w = finished (ok tt) (record { world = w; schedule_entry = none })
  remove_entry (some entry) w =
      finished (removed (services.entry_remove entry w).0)
        (record { world = (services.entry_remove entry w).1; schedule_entry = none })

  unfoldable pub unschedule_download : State W → Run (State W) (Unit {0})
  unschedule_download s = remove_entry s.schedule_entry s.world

  -- The entry is removed, with a warning if that fails, and then this is the result.
  abbrev pub unscheduling : {A : Type 0} → Run (State W) (Unit {0}) → Result A → Run (State W) A
  unscheduling (finished _ s) r = finished r s
  unscheduling aborted r = aborted
  unscheduling unfinished r = unfinished

  abbrev pub decide : Option Waiting → State W → Run (State W) (Unit {0})
  decide none s = unfinished
  decide (some v) s =
      if v.download_now
      then finished (ok tt) s
      else unscheduling (unschedule_download s) (err (forbidden v))

  unfoldable pub check_scheduler : FetchData → State W → Run (State W) (Unit {0})
  check_scheduler d s =
      if d.force || d.offline_results_only
      then finished (ok tt) s
      else (schedule_download s >>ᵣ λ entry s.
          decide
            (wait_loop d.scheduling_timeout_seconds (services.events s.world) (record {
              download_now = services.download_now entry s.world;
              timed_out = false;
              invalidated_error = false;
              stopped = services.cancelled s.world;
            }))
            s)
