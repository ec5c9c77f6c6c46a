-- ===== src/Daemon/Machine/Preserved.antt =====
-- eos-updater: the invariant holds after every step, and from the start.
use eos_updater.Daemon.Machine.Results.{sole_apply, sole_fetch, sole_poll}
use eos_updater.Daemon.Machine.Calls.{update_progress-Invariant, handle-Invariant}
use eos_updater.Errors.{unset, is_io_not_found, err, ok, Result}
use eos_updater.Daemon.Sizes.{get_commit_sizes, SizesEntry, Sizes}
use eos_updater.Daemon.Startup.{
  live_boot_error, new_daemon, first_error, is_installed_system, new_updater, announce_checksum,
  on_bus_acquired, Environment,
}
use eos_updater.Daemon.Machine.{
  applied, fetched, polled, progressed, started, called, stepped, ended, fetched_by, Reach, Step,
}
use eos_updater.Daemon.Finish.{
  fetch_error, failed, returned, UpdateInfo, TaskResult, keep_results, advertise,
  metadata_fetch_finished, apply_finished, content_fetch_finished, set_sizes,
}
use eos_updater.Daemon.Machine.Invariant.{clear_error-Reports, Invariant, Reports}
use eos_updater.Prelude.{
  ◌⊎◌, refl, none, inr, inl, sym, Bool-cases, Memᴰ, Option, ◌++◌, ◌≤◌, ◌<◌, false, ◌≡◌, String,
  arith, List, ◌≢◌,
}
use eos_updater.Daemon.{
  error, ready, update_ready, update_applied, some, applying_update, update_available, FetchData,
  clear_error, [], ℕ, Task, Daemon, Updater, set_state_changed, GError, Encoding, set_error,
}

set_error-Reports :
    (enc : Encoding) (e : GError) (u : Updater)
    → enc.encode_gerror e ≢ ""
    → Reports (set_error enc e u)
unfolding set_error set_state_changed
set_error-Reports enc e u named = ground (arith, named)

-- GDBus never encodes an error as the empty string.
module _ (enc : Encoding) (named : (e : GError) → enc.encode_gerror e ≢ "") where
  set_error-Invariant :
      (e : GError) (d : Daemon) (ids : List String)
      → d.cancelled d.data_.cancellable ≡ false
      → d.data_.cancellable < d.fresh
      → ((k : ℕ) → d.fresh ≤ k → d.cancelled k ≡ false)
      → d.tasks ≡ []
      → Invariant ids (record d { updater = set_error enc e d.updater })
  unfolding set_error set_state_changed
  set_error-Invariant e d ids live below unused idle = record {
    works = idle;
    is_fetched = tt;
    reports = set_error-Reports enc e d.updater (named e);
    bound = rw idle tt;
    live = live;
    named = below;
    unused = unused;
  }

  with_sizes-Invariant :
      (sizes : Sizes) (d : Daemon) (ids : List String)
      → d.updater.state ≡ update_available
      → Reports d.updater
      → d.cancelled d.data_.cancellable ≡ false
      → d.data_.cancellable < d.fresh
      → ((k : ℕ) → d.fresh ≤ k → d.cancelled k ≡ false)
      → d.tasks ≡ []
      → Invariant ids (record d { updater = set_sizes enc (ok sizes) d.updater })
  unfolding set_sizes
  with_sizes-Invariant sizes d ids s rep live below unused idle = record {
    works = rw s idle;
    is_fetched = rw s tt;
    reports = rep;
    bound = rw idle tt;
    live = live;
    named = below;
    unused = unused;
  }

  sizes-Invariant :
      (r : Result Sizes) (d : Daemon) (ids : List String)
      → d.updater.state ≡ update_available
      → Reports d.updater
      → d.cancelled d.data_.cancellable ≡ false
      → d.data_.cancellable < d.fresh
      → ((k : ℕ) → d.fresh ≤ k → d.cancelled k ≡ false)
      → d.tasks ≡ []
      → Invariant ids (record d { updater = set_sizes enc r d.updater })
  unfolding set_sizes
  sizes-Invariant (ok sizes) d ids s rep live below unused idle =
      with_sizes-Invariant sizes d ids s rep live below unused idle
  sizes-Invariant (err e) d ids s rep live below unused idle =
      elim (Bool-cases (is_io_not_found e)) [
        | inl missing ↦ rw missing (record {
          works = rw s idle;
          is_fetched = rw s tt;
          reports = rep;
          bound = rw idle tt;
          live = live;
          named = below;
          unused = unused;
        })
        | inr serious ↦ rw serious (
            set_error-Invariant (record { code = e; message = enc.describe e }) d ids live below
              unused idle)
      ]
  sizes-Invariant unset d ids s rep live below unused idle = record {
    works = rw s idle;
    is_fetched = rw s tt;
    reports = rep;
    bound = rw idle tt;
    live = live;
    named = below;
    unused = unused;
  }

  module _ (d : Daemon) (ids : List String) (before after : List Task) (i : Invariant ids d) where
    polled-Invariant :
        (r : TaskResult (Option UpdateInfo)) (sizes : Result (List SizesEntry))
        → before ++ after ≡ []
        → Invariant ids (metadata_fetch_finished enc r sizes (ended d (before ++ after)))
    unfolding metadata_fetch_finished advertise keep_results clear_error set_state_changed
    polled-Invariant (returned (some info)) sizes idle =
        sizes-Invariant (get_commit_sizes sizes)
          (record d {
            data_ = keep_results info d.data_;
            updater = advertise info d.updater;
            tasks = before ++ after;
          })
          ids refl (clear_error-Reports update_available d.updater (ground arith)) i.live i.named
          i.unused idle
    polled-Invariant (returned none) sizes idle = record {
      works = idle;
      is_fetched = tt;
      reports = clear_error-Reports ready d.updater (ground arith);
      bound = rw idle tt;
      live = i.live;
      named = i.named;
      unused = i.unused;
    }
    polled-Invariant (failed e) sizes idle =
        set_error-Invariant e
          (record d { updater = clear_error ready d.updater; tasks = before ++ after }) ids i.live
          i.named i.unused idle

    fetched-Invariant :
        (f : FetchData) (r : TaskResult (Unit {0}))
        → f.update_id ≡ d.updater.update_id
        → before ++ after ≡ []
        → Invariant
            (fetched_by f r ++ ids)
            (content_fetch_finished enc r (ended d (before ++ after)))
    unfolding content_fetch_finished clear_error set_state_changed
    fetched-Invariant f (returned u) same idle = record {
      works = idle;
      is_fetched = Memᴰ.head (sym same);
      reports = clear_error-Reports update_ready d.updater (ground arith);
      bound = rw idle tt;
      live = i.live;
      named = i.named;
      unused = i.unused;
    }
    fetched-Invariant f (failed e) same idle =
        set_error-Invariant (fetch_error e) (ended d (before ++ after)) ids i.live i.named i.unused
          idle

    applied-Invariant :
        (r : TaskResult (Unit {0}))
        → d.updater.state ≡ applying_update
        → before ++ after ≡ []
        → Invariant ids (apply_finished enc r (ended d (before ++ after)))
    unfolding apply_finished clear_error set_state_changed
    applied-Invariant (returned u) s idle = record {
      works = idle;
      is_fetched = rw s at i.is_fetched;
      reports = clear_error-Reports update_applied d.updater (ground arith);
      bound = rw idle tt;
      live = i.live;
      named = i.named;
      unused = i.unused;
    }
    applied-Invariant (failed e) s idle =
        set_error-Invariant e (ended d (before ++ after)) ids i.live i.named i.unused idle

  step-Invariant :
      (ids new_ids : List String) (d d' : Daemon)
      → Invariant ids d
      → Step enc new_ids d d'
      → Invariant (new_ids ++ ids) d'
  step-Invariant ids _ _ _ i (called c d) = handle-Invariant d ids i c
  step-Invariant ids _ _ _ i (progressed bytes d) = update_progress-Invariant d ids i bytes
  step-Invariant ids _ _ _ i (polled d before after t r sizes found poll honours) =
      polled-Invariant d ids before after i r sizes
        (sole_poll d.updater.state d.updater.update_id before after t (rw found at i.works) poll).1
  step-Invariant ids _ _ _ i (fetched d before after t f r found job honours) =
      let (s, same, idle) =
        sole_fetch d.updater.state d.updater.update_id before after t (rw found at i.works) f job in
      fetched-Invariant d ids before after i f r same idle
  step-Invariant ids _ _ _ i (applied d before after t a r found job honours) =
      let (s, same, idle) =
        sole_apply d.updater.state d.updater.update_id before after t (rw found at i.works) a job in
      applied-Invariant d ids before after i r s idle

  started-Invariant :
      (u : Updater)
      → (u.state ≡ ready) ⊎ (u.state ≡ error)
      → Reports u
      → Invariant [] (new_daemon u)
  started-Invariant u (inl s) rep = record {
    works = rw s refl;
    is_fetched = rw s tt;
    reports = rep;
    bound = tt;
    live = refl;
    named = omega arith;
    unused = λ k above. refl;
  }
  started-Invariant u (inr s) rep = record {
    works = rw s refl;
    is_fetched = rw s tt;
    reports = rep;
    bound = tt;
    live = refl;
    named = omega arith;
    unused = λ k above. refl;
  }

  announced :
      (r : TaskResult String) (u : Updater)
      → (((announce_checksum enc r u).state ≡ ready) ⊎ ((announce_checksum enc r u).state ≡ error))
        × Reports (announce_checksum enc r u)
  unfolding announce_checksum clear_error set_error set_state_changed
  announced (returned sum) u = (inl refl, ground arith)
  announced (failed e) u =
      (inr refl, set_error-Reports enc (first_error e) u (named (first_error e)))

  start-Invariant : (env : Environment) → Invariant [] (on_bus_acquired enc env).0
  unfolding on_bus_acquired set_error set_state_changed
  start-Invariant env =
      let (s, rep) = announced env.booted_checksum new_updater in
      elim (Bool-cases (is_installed_system env)) [
        | inl installed ↦
            rw installed
              (started-Invariant (announce_checksum enc env.booted_checksum new_updater) s rep)
        | inr live ↦ rw live (
            started-Invariant
              (set_error enc live_boot_error
                (announce_checksum enc env.booted_checksum new_updater))
              (inr refl)
              (set_error-Reports enc live_boot_error
                (announce_checksum enc env.booted_checksum new_updater) (named live_boot_error)))
      ]

  pub Reach-Invariant :
      (env : Environment) (ids : List String) (d : Daemon) → Reach enc env ids d → Invariant ids d
  Reach-Invariant env _ _ started = start-Invariant env
  Reach-Invariant env _ _ (stepped ids new_ids d d' before step) =
      step-Invariant ids new_ids d d' (Reach-Invariant env ids d before) step
