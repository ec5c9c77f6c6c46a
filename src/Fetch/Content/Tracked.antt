-- ===== src/Fetch/Content/Tracked.antt =====
-- eos-updater/fetch.c: the schedule entries while the update is pulled.
use eos_updater.Fetch.Entries.{IsScheduler, IsTracked, IsLeft, NoneNew, unscheduling-IsLeft}
use eos_updater.Daemon.{Opaque}
use eos_updater.Fetch.Content.{
  url_override, without_deltas, repo_pull, pull_commit, pulled, unscheduled, old_from, or_old,
  repo_pull_from_remotes, fetch_commit, content_fetch_old,
}
use eos_updater.Run.{look_up-Leaves, >>ᵣ-Leaves, Leaves, finished, aborted, unfinished, Run, ◌>>ᵣ◌}
use eos_updater.Fetch.{Entry, State, FetchData, Services}
use mathlib.Core.Path.{subst, sym}
use eos_updater.Prelude.{
  [], ◌∷◌, Bool, str_equal, List, true, false, none, some, Option, String, ◌≡◌, ◌≢◌, inl, inr, refl,
  arith, if◌then◌else◌, Bool-cases,
}
use eos_updater.Errors.{io_not_supported, is_io_not_found, io_not_found, ErrorCode}
use eos_updater.Errors.{is_cancelled, Result, ok, err, unset}

module _ {W : Type 0} (services : Services W) (Held : Entry → W → Type 0)
    (prepare : String → W → Result (Unit {0}) × W) where
  -- Pulls and what prepares the flatpaks make no entry with the scheduler.
  pub record IsApart : Type 0 where
    pub random_url-NoneNew :
        (urls : List String) (w : W) → NoneNew services Held w (services.random_url urls w).1
    pub pull_with_options-NoneNew :
        (remote ref : String) (url : Option String) (no_deltas : Bool) (w : W)
        → NoneNew services Held w (services.pull_with_options remote ref url no_deltas w).1
    pub pull_from_remotes-NoneNew :
        (results : List Opaque) (no_deltas : Bool) (w : W)
        → NoneNew services Held w (services.pull_from_remotes results no_deltas w).1
    pub prepare-NoneNew : (id : String) (w : W) → NoneNew services Held w (prepare id w).1

  -- A pull from the results of the finders does not miss an object, and sets an error if it fails.
  abbrev pub FindsObjects : Type 0
  FindsObjects =
      (results : List Opaque) (w : W)
      → ((services.pull_from_remotes results false w).0 ≢ err io_not_found)
        × ((services.pull_from_remotes results false w).0 ≢ unset)

  module _ (apart : IsApart) (start : W) where
    abbrev pub Tracked : State W → Type 0
    Tracked s = IsTracked services Held start s

    without_deltas-NoneNew :
        (remote ref : String) (url : Option String) (p : Result (Unit {0}) × W)
        → NoneNew services Held p.1 (without_deltas services remote ref url p).1
    without_deltas-NoneNew remote ref url (ok _, w) x held = held
    without_deltas-NoneNew remote ref url (err e, w) x held =
        elim (Bool-cases (is_io_not_found e)) [
          | inl missing ↦
              apart.pull_with_options-NoneNew remote ref url true w x (rw missing at held)
          | inr other ↦ rw other at held
        ]
    without_deltas-NoneNew remote ref url (unset, w) x held = held

    repo_pull-NoneNew :
        (remote ref : String) (url : Option String) (w : W)
        → NoneNew services Held w (repo_pull services remote ref url w).1
    unfolding repo_pull
    repo_pull-NoneNew remote ref url w x held =
        apart.pull_with_options-NoneNew remote ref url false w x (
          without_deltas-NoneNew remote ref url (services.pull_with_options remote ref url false w)
            x held)

    url_override-NoneNew :
        (urls : Option (List String)) (w : W)
        → NoneNew services Held w (url_override services urls w).1
    url_override-NoneNew none w x held = held
    url_override-NoneNew (some []) w x held = held
    url_override-NoneNew (some (u ∷ l)) w x held = apart.random_url-NoneNew (u ∷ l) w x held

    pull_commit-Tracked :
        (d : FetchData) (remote : String) (s : State W)
        → Tracked s
        → Leaves Tracked (pull_commit services d remote s)
    pull_commit-Tracked d remote s h x held =
        let picked = url_override services d.overridden_urls s.world in
        h x (
          url_override-NoneNew d.overridden_urls s.world x
            (repo_pull-NoneNew remote d.update_id picked.0 picked.1 x held))

    content_fetch_old-Tracked :
        (d : FetchData) (s : State W) → Tracked s → Leaves Tracked (content_fetch_old services d s)
    unfolding content_fetch_old
    content_fetch_old-Tracked d s h =
        elim (str_equal d.update_refspec "")
          as (λ b. Leaves Tracked (
            if b
            then finished (err io_not_supported) s
            else (finished (services.parse_refspec d.update_refspec) s >>ᵣ λ names s.
                old_from services d names.0 s))) [
                  | true ↦ h
                  | false ↦
                      look_up-Leaves Tracked (services.parse_refspec d.update_refspec) s _ h
                        (λ names _. from names.0)
                ]
      where
        from : (remote : Option String) → Leaves Tracked (old_from services d remote s)
        from none = h
        from (some remote) =
            elim (str_equal d.update_id "")
              as (λ b. Leaves Tracked (
                if b
                then finished (err io_not_supported) s
                else (pull_commit services d remote s >>ᵣ λ _ s.
                    finished (services.read_commit d.update_id s.world) s))) [
                      | true ↦ h
                      | false ↦
                          >>ᵣ-Leaves Tracked (pull_commit services d remote s) _
                            (pull_commit-Tracked d remote s h) (λ _ _ t. t)
                    ]

    pub fetch_commit-Tracked :
        FindsObjects
        → (d : FetchData) (results : Option (List Opaque)) (s : State W) → Tracked s
        → Leaves Tracked (fetch_commit services d results s)
    unfolding fetch_commit repo_pull_from_remotes
    fetch_commit-Tracked finds d none s h = content_fetch_old-Tracked d s h
    fetch_commit-Tracked finds d (some results) s h =
        or_old_of (services.pull_from_remotes results false s.world).0 (finds results s.world)
      where
        t : State W
        t = record s { world = (services.pull_from_remotes results false s.world).1 }

        g : Tracked t
        g x held = h x (apart.pull_from_remotes-NoneNew results false s.world x held)

        or_old_of :
            (r : Result (Unit {0}))
            → (r ≢ err io_not_found) × (r ≢ unset)
            → Leaves Tracked (or_old services d (pulled services r t))
        or_old_of (ok _) n = g
        or_old_of unset n = absurd (n.1 refl)
        or_old_of (err e) n = elim (Bool-cases (is_io_not_found e)) [
          | inl m ↦ absurd (n.0 (missing e m))
          | inr m ↦
              subst
                (λ b.
                  Leaves Tracked (or_old services d (if b then aborted else finished (err e) t)))
                (sym m)
                (elim (is_cancelled e)
                  as (λ b.
                    Leaves Tracked
                      (if b then finished (err e) t else content_fetch_old services d t)) [
                        | true ↦ g
                        | false ↦ content_fetch_old-Tracked d t g
                      ])
        ]
          where
            missing :
                (e : ErrorCode)
                → is_io_not_found e ≡ true
                → (◌≡◌ {A = Result (Unit {0})} (err e) (err io_not_found))
            missing e m = ground arith

    pub unscheduled-IsLeft :
        IsScheduler services Held
        → (m : Run (State W) (Unit {0})) → Leaves Tracked m
        → Leaves (IsLeft services Held start) (unscheduled services m)
    unscheduled-IsLeft scheduler (finished r s) h =
        unscheduling-IsLeft services Held scheduler start s r h
    unscheduled-IsLeft scheduler aborted h = absurd h
    unscheduled-IsLeft scheduler unfinished h = absurd h
