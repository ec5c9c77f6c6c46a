-- ===== src/Poll/Metadata/Laws.antt =====
-- eos-updater/poll.c: polling ends, and what it reports is an update.
use eos_updater.Poll.Metadata.Configured.{read_config-Distinct}
use eos_updater.Poll.Fetchers.{latest_loop, get_latest_update, fetchers_loop, run_fetchers}
use eos_updater.Poll.Finders.Laws.{get_finders-IsSome}
use eos_updater.Poll.Sources.Order.{Distinct}
use eos_updater.Poll.Update.{Commit}
use eos_updater.Poll.Finders.{get_finders, SourcesConfig, Finder, Finders}
use eos_updater.Poll.Check.Laws.{check_for_update-Ensures, IsUpdate, Found, Descends}
use eos_updater.Daemon.Finish.{UpdateInfo}
use eos_updater.Run.{unfinished, aborted, finished, >>ᵣ-Ensures, Ensures, Run}
use eos_updater.Poll.Check.{UpdateRefInfo}
use eos_updater.Poll.Metadata.{
  volume_config, get_booted_deployment, is_dev_converted, metadata_fetch_internal, or_no_info,
  unless_none, poll_volume_internal, timestamp_of, source_main, same_source, read_config, fall_back,
  with_config, or_fall_back, info_new, has_results, ask_online, check, main_info, info_of,
  offline_first, ask, metadata_fetch_new, metadata_fetch_from_main, Polling,
}
use eos_updater.Errors.{not_ostree_system, updater}
use eos_updater.Prelude.{
  any, not, ◌||◌, ◌&&◌, ◌==◌, length, List, [], ◌∷◌, true, false, none, some, Option, Bool, String,
  ℕ, ◌≡◌, ◌≢◌, refl, if◌then◌else◌,
}
use eos_updater.Errors.{io_failed, is_cancelled}
use eos_updater.Errors.{Result, ok, err, unset}
use mathlib.Core.Path.{subst, sym}

module _ {W : Type 0} (p : Polling W) where
  -- The reported commit is in the repository, is not the booted one, and has the time that is told.
  abbrev pub Reported : Option UpdateInfo → W → Type 0
  Reported none w = Unit
  Reported (some i) w =
      (c : Commit) × IsUpdate (p.ostree.repo w) i.checksum c × (i.timestamp ≡ c.timestamp)

  abbrev pub AnEnd : Run W (Option UpdateInfo) → Type 0
  AnEnd r = Ensures Reported r

  info_of-Reported :
      (offline : Bool) (u : Option UpdateRefInfo) (w : W)
      → Found p.ostree u w
      → Reported (info_of offline u) w
  info_of-Reported offline none w h = tt
  info_of-Reported offline (some u) w h =
      elim (has_results u.results)
        as (λ b. Reported (if b then some (info_new u offline u.results) else none) w) [
          | true ↦ (u.commit, h, refl)
          | false ↦ tt
        ]

  main_info-Reported :
      (u : Option UpdateRefInfo) (w : W) → Found p.ostree u w → Reported (main_info p u) w
  main_info-Reported none w h = tt
  main_info-Reported (some u) w h = (u.commit, h, refl)

  module _ (rank : String → ℕ) (fuel : ℕ) (s : Descends p.ostree rank fuel) where
    check-Ensures :
        (finders : Option (List Finder)) (w : W) → Ensures (Found p.ostree) (check p fuel finders w)
    check-Ensures finders w =
        check_for_update-Ensures p.ostree p.system p.replace rank fuel s finders w

    ask-Ensures : (finders : List Finder) (w : W) → Ensures (Found p.ostree) (ask p fuel finders w)
    ask-Ensures [] w = tt
    ask-Ensures (f ∷ l) w = check-Ensures (some (f ∷ l)) w

    ask_online-AnEnd : (finders : List Finder) (w : W) → AnEnd (ask_online p fuel finders w)
    ask_online-AnEnd finders w =
        >>ᵣ-Ensures (Found p.ostree) Reported (ask p fuel finders w) _ (ask-Ensures finders w)
          (λ u w h. info_of-Reported false u w h)

    offline_first-AnEnd : (f : Finders) (w : W) → AnEnd (offline_first p fuel f w)
    offline_first-AnEnd f w =
        >>ᵣ-Ensures (Found p.ostree) Reported (ask p fuel f.offline w) _ (ask-Ensures f.offline w)
          (λ u w h. or_online (info_of true u) w (info_of-Reported true u w h))
      where
        or_online :
            (o : Option UpdateInfo) (w : W)
            → Reported o w
            → AnEnd
                (elim o [ some i ↦ finished (ok (some i)) w | none ↦ ask_online p fuel f.online w ])
        or_online none w h = ask_online-AnEnd f.online w
        or_online (some i) w h = h

    metadata_fetch_new-AnEnd :
        (config : SourcesConfig) (w : W)
        → Distinct config.download_order
        → config.download_order ≢ []
        → AnEnd (metadata_fetch_new p fuel config w)
    unfolding metadata_fetch_new
    metadata_fetch_new-AnEnd config w d n =
        let (f, e, some_finder) = get_finders-IsSome (p.avahi_start w) config d n in
        with_finders (get_finders (p.avahi_start w) config) f e
      where
        with_finders :
            (o : Option Finders) (f : Finders)
            → o ≡ some f
            → AnEnd (elim o [ none ↦ aborted | some f ↦ unless_none p fuel f w ])
        with_finders none f e = cc
        with_finders (some f) g e =
            elim (length f.offline == 0 && length f.online == 0)
              as (λ b. AnEnd (if b then finished (err io_failed) w else offline_first p fuel f w)) [
                | true ↦ tt
                | false ↦ offline_first-AnEnd f w
              ]

    main-AnEnd : (w : W) → AnEnd (metadata_fetch_from_main p fuel w)
    unfolding metadata_fetch_from_main
    main-AnEnd w =
        >>ᵣ-Ensures (Found p.ostree) Reported (check p fuel none w) _ (check-Ensures none w)
          (λ u w h. main_info-Reported u w h)

    one_fetcher :
        (r : Run W (Option UpdateInfo))
        → AnEnd r
        → AnEnd (elim r [
          | finished r w' ↦ elim r [
            | ok found ↦ elim found [
              | none ↦ finished (ok none) w'
              | some info ↦ finished (ok (some info)) w'
            ]
            | err e ↦ elim (is_cancelled e) [
              | true ↦ finished (err e) w'
              | false ↦ finished (ok none) w'
            ]
            | unset ↦ finished (ok none) w'
          ]
          | aborted ↦ aborted
          | unfinished ↦ unfinished
        ])
    one_fetcher (finished (ok none) w) h = tt
    one_fetcher (finished (ok (some i)) w) h = h
    one_fetcher (finished (err e) w) h =
        elim (is_cancelled e)
          as (λ b. AnEnd (elim b [ true ↦ finished (err e) w | false ↦ finished (ok none) w ])) [
            | true ↦ tt
            | false ↦ tt
          ]
    one_fetcher (finished unset w) h = tt
    one_fetcher aborted h = absurd h
    one_fetcher unfinished h = absurd h

    fall_back-AnEnd : (config : SourcesConfig) (w : W) → AnEnd (fall_back p fuel config w)
    unfolding fall_back run_fetchers fetchers_loop get_latest_update latest_loop
    fall_back-AnEnd config w =
        elim (p.disable_old_code || not (any (same_source source_main) config.download_order))
          as (λ b. AnEnd (
            if b
            then finished (ok none) w
            else run_fetchers (timestamp_of p) ((metadata_fetch_from_main p fuel, source_main) ∷ [])
                w)) [
                  | true ↦ tt
                  | false ↦ one_fetcher (metadata_fetch_from_main p fuel w) (main-AnEnd w)
                ]

    or_fall_back-AnEnd :
        (config : SourcesConfig) (r : Run W (Option UpdateInfo))
        → AnEnd r
        → AnEnd (or_fall_back p fuel config r)
    or_fall_back-AnEnd config (finished (ok (some i)) w) h = h
    or_fall_back-AnEnd config (finished (ok none) w) h = fall_back-AnEnd config w
    or_fall_back-AnEnd config (finished (err e) w) h =
        elim (is_cancelled e)
          as (λ b. AnEnd (if b then finished (err e) w else fall_back p fuel config w)) [
            | true ↦ tt
            | false ↦ fall_back-AnEnd config w
          ]
    or_fall_back-AnEnd config (finished unset w) h = fall_back-AnEnd config w
    or_fall_back-AnEnd config aborted h = absurd h
    or_fall_back-AnEnd config unfinished h = absurd h

    with_config-AnEnd :
        (r : Option (Result SourcesConfig)) (w : W)
        → r ≢ none
        → ((c : SourcesConfig)
            → r ≡ some (ok c)
            → Distinct c.download_order × (c.download_order ≢ []))
        → AnEnd (with_config p fuel r w)
    with_config-AnEnd none w n h = absurd (n refl)
    with_config-AnEnd (some (ok c)) w n h =
        or_fall_back-AnEnd c (metadata_fetch_new p fuel c w)
          (metadata_fetch_new-AnEnd c w (h c refl).0 (h c refl).1)
    with_config-AnEnd (some (err e)) w n h = tt
    with_config-AnEnd (some unset) w n h = tt

    -- Where redirections descend: polling ends without a failed assertion, and it reports an error,
    -- nothing, or a commit of the local repository that is not the booted one, with its time.
    pub metadata_fetch_internal-AnEnd :
        (order uris : Result (List String))
        → p.config ≡ record { order = some order; override_uris = some uris }
        → (w : W) → AnEnd (metadata_fetch_internal p fuel w)
    unfolding metadata_fetch_internal
    metadata_fetch_internal-AnEnd order uris c w =
        elim (is_dev_converted p (get_booted_deployment p w))
          as (λ b. AnEnd (
            if b
            then finished (err (updater not_ostree_system)) w
            else with_config p fuel (read_config p.strip p.config) w)) [
              | true ↦ tt
              | false ↦
                  subst (λ x. AnEnd (with_config p fuel (read_config p.strip x) w)) (sym c)
                    (let r =
                        read_config p.strip
                          (record { order = some order; override_uris = some uris }) in
                      with_config-AnEnd r w (read_config-Distinct p.strip order uris r refl).0
                        (read_config-Distinct p.strip order uris r refl).1)
            ]

    or_no_info-AnEnd : (r : Run W (Option UpdateInfo)) → AnEnd r → AnEnd (or_no_info p r)
    or_no_info-AnEnd (finished (ok i) w) h = h
    or_no_info-AnEnd (finished (err e) w) h = tt
    or_no_info-AnEnd (finished unset w) h = tt
    or_no_info-AnEnd aborted h = absurd h
    or_no_info-AnEnd unfinished h = absurd h

    -- The same holds of polling a volume, whatever the configuration.
    pub poll_volume_internal-AnEnd :
        (path : String) (w : W) → AnEnd (poll_volume_internal p fuel path w)
    unfolding poll_volume_internal
    poll_volume_internal-AnEnd path w =
        elim (is_dev_converted p (get_booted_deployment p w))
          as (λ b. AnEnd (
            if b
            then finished (err (updater not_ostree_system)) w
            else or_no_info p (metadata_fetch_new p fuel (volume_config p path) w))) [
              | true ↦ tt
              | false ↦
                  or_no_info-AnEnd (metadata_fetch_new p fuel (volume_config p path) w)
                    (metadata_fetch_new-AnEnd (volume_config p path) w (refl, tt) (λ h. cc))
            ]
