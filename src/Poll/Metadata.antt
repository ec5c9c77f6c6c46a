-- ===== src/Poll/Metadata.antt =====
-- eos-updater/poll.c: polling, with the finders of libostree first and with the old code after that
-- (read_config, metadata_fetch_new, metadata_fetch_from_main, metadata_fetch_internal,
-- poll_volume_internal).
pub mod Laws
pub mod Configured
use eos_updater.Poll.Fetchers.{run_fetchers}
use eos_updater.Poll.Refspec.{System}
use eos_updater.Poll.Sources.{same_source, strv_to_download_order, source_main}
use eos_updater.Poll.Latest.{Ostree}
use eos_updater.Daemon.Finish.{UpdateInfo}
use eos_updater.Poll.Finders.{get_finders, Finders, Finder, SourcesConfig}
use eos_updater.Run.{unfinished, ◌>>ᵣ◌, finished, aborted, Run}
use eos_updater.Daemon.{Opaque}
use eos_updater.Sysroot.{get_booted_deployment_from_loaded_sysroot, Deployment}
use eos_updater.Poll.Check.{check_for_update_following_checkpoint_if_allowed, UpdateRefInfo}
use eos_updater.Prelude.{
  any, ◌&&◌, strconcat, ◌==◌, not, ◌||◌, length, List, [], ◌∷◌, ◌++◌, true, false, none, some,
  Option, Bool, String, ℕ, zero, suc, ◌≡◌, ◌≢◌, ◌⊎◌, ◌↔◌, inl, inr, refl, arith, if◌then◌else◌,
  Bool-cases, Option-cases,
}
use eos_updater.Errors.{
  io_failed, not_ostree_system, is_io_failed, is_cancelled, is_io_not_found, updater,
}
use eos_updater.Errors.{ErrorCode, Result-cases}
use eos_updater.Errors.{Result, ok, err, unset, ◌>>=◌}

-- get_strv on the two keys of the configuration; `none` is a failed assertion there.
pub record PollConfig : Type 0 where
  pub order : Option (Result (List String))
  pub override_uris : Option (Result (List String))

-- An empty list is normalised to NULL; so is one that cannot be read, whose error is set although
-- read_config succeeds.
abbrev pub uris_or_null : Result (List String) → Option (List String)
uris_or_null (ok []) = none
uris_or_null (ok (u ∷ l)) = some (u ∷ l)
uris_or_null (err e) = none
uris_or_null unset = none

unfoldable pub read_config : (String → String) → PollConfig → Option (Result SourcesConfig)
read_config strip config = elim config.order [
  | none ↦ none
  | some order ↦ elim (order >>= strv_to_download_order strip) [
    | err e ↦ some (err e)
    | unset ↦ some unset
    | ok sources ↦ elim config.override_uris [
      | none ↦ none
      | some uris ↦
          some (ok (record { download_order = sources; override_uris = uris_or_null uris }))
    ]
  ]
]

abbrev pub info_new : UpdateRefInfo → Bool → Option (List Opaque) → UpdateInfo
info_new u offline results = record {
  checksum = u.checksum;
  timestamp = u.commit.timestamp;
  label = u.commit.label;
  message = u.commit.message;
  new_refspec = u.new_refspec;
  old_refspec = u.refspec;
  version = u.version;
  urls = none;
  offline_results_only = offline;
  is_user_visible = u.is_user_visible;
  release_notes_uri = some u.release_notes_uri;
  results = results;
}

-- Whether something was found: results that are neither null nor empty.
abbrev pub has_results : Option (List Opaque) → Bool
has_results none = false
has_results (some []) = false
has_results (some (r ∷ l)) = true

abbrev pub info_of : Bool → Option UpdateRefInfo → Option UpdateInfo
info_of offline none = none
info_of offline (some u) =
    if has_results u.results then some (info_new u offline u.results) else none

-- The parameters: g_strstrip, g_string_replace, ostree_repo_finder_avahi_start, the configuration,
-- whether EOS_UPDATER_DISABLE_FALLBACK_FETCHERS is set, and g_build_filename for the repository of a
-- volume.
pub record Polling (W : Type 0) : Type 0 where
  pub ostree : Ostree W
  pub system : System W
  pub strip : String → String
  pub replace : String → String → String → String
  pub avahi_start : W → Result (Unit {0})
  pub config : PollConfig
  pub disable_old_code : Bool
  pub repo_path : String → String

module _ {W : Type 0} (p : Polling W) where
  abbrev pub check : ℕ → Option (List Finder) → W → Run W (Option UpdateRefInfo)
  check fuel finders w =
      check_for_update_following_checkpoint_if_allowed p.ostree p.system p.replace fuel finders w

  -- Finders are only asked where there are some.
  abbrev pub ask : ℕ → List Finder → W → Run W (Option UpdateRefInfo)
  ask fuel [] w = finished (ok none) w
  ask fuel (f ∷ l) w = check fuel (some (f ∷ l)) w

  abbrev pub ask_online : ℕ → List Finder → W → Run W (Option UpdateInfo)
  ask_online fuel finders w = ask fuel finders w >>ᵣ λ info w. finished (ok (info_of false info)) w

  abbrev pub offline_first : ℕ → Finders → W → Run W (Option UpdateInfo)
  offline_first fuel f w = ask fuel f.offline w >>ᵣ λ info w. elim (info_of true info) [
    | some i ↦ finished (ok (some i)) w
    | none ↦ ask_online fuel f.online w
  ]

  abbrev pub unless_none : ℕ → Finders → W → Run W (Option UpdateInfo)
  unless_none fuel f w =
      if length f.offline == 0 && length f.online == 0
      then finished (err io_failed) w
      else offline_first fuel f w

  unfoldable pub metadata_fetch_new : ℕ → SourcesConfig → W → Run W (Option UpdateInfo)
  metadata_fetch_new fuel config w = elim (get_finders (p.avahi_start w) config) [
    | none ↦ aborted
    | some f ↦ unless_none fuel f w
  ]

  abbrev pub main_info : Option UpdateRefInfo → Option UpdateInfo
  main_info none = none
  main_info (some u) = some (info_new u false none)

  unfoldable pub metadata_fetch_from_main : ℕ → W → Run W (Option UpdateInfo)
  metadata_fetch_from_main fuel w = check fuel none w >>ᵣ λ info w. finished (ok (main_info info)) w

  abbrev pub timestamp_of : UpdateInfo → ℕ
  timestamp_of i = i.timestamp

  -- The old code path, which only asks the main source.
  unfoldable pub fall_back : ℕ → SourcesConfig → W → Run W (Option UpdateInfo)
  fall_back fuel config w =
      if p.disable_old_code || not (any (same_source source_main) config.download_order)
      then finished (ok none) w
      else run_fetchers timestamp_of ((metadata_fetch_from_main fuel, source_main) ∷ []) w

  -- What metadata_fetch_new returned decides whether the old code runs.
  abbrev pub or_fall_back :
      ℕ → SourcesConfig → Run W (Option UpdateInfo) → Run W (Option UpdateInfo)
  or_fall_back fuel config (finished (ok (some i)) w) = finished (ok (some i)) w
  or_fall_back fuel config (finished (ok none) w) = fall_back fuel config w
  or_fall_back fuel config (finished (err e) w) =
      if is_cancelled e then finished (err e) w else fall_back fuel config w
  or_fall_back fuel config (finished unset w) = fall_back fuel config w
  or_fall_back fuel config aborted = aborted
  or_fall_back fuel config unfinished = unfinished

  -- The check for a system that is not of OSTree; the other errors are ignored.
  abbrev pub get_booted_deployment : W → Result Deployment
  get_booted_deployment w = p.system.sysroot w >>= get_booted_deployment_from_loaded_sysroot

  abbrev pub is_dev_converted : Result Deployment → Bool
  is_dev_converted (ok d) = false
  is_dev_converted (err e) = is_io_not_found e || is_io_failed e
  is_dev_converted unset = false

  abbrev pub with_config : ℕ → Option (Result SourcesConfig) → W → Run W (Option UpdateInfo)
  with_config fuel none w = aborted
  with_config fuel (some (ok config)) w =
      or_fall_back fuel config (metadata_fetch_new fuel config w)
  with_config fuel (some (err e)) w = finished (err e) w
  with_config fuel (some unset) w = finished unset w

  unfoldable pub metadata_fetch_internal : ℕ → W → Run W (Option UpdateInfo)
  metadata_fetch_internal fuel w =
      if is_dev_converted (get_booted_deployment w)
      then finished (err (updater not_ostree_system)) w
      else with_config fuel (read_config p.strip p.config) w

  -- No info without an error is a success.
  abbrev pub or_no_info : Run W (Option UpdateInfo) → Run W (Option UpdateInfo)
  or_no_info (finished (ok i) w) = finished (ok i) w
  or_no_info (finished (err e) w) = finished (err e) w
  or_no_info (finished unset w) = finished (ok none) w
  or_no_info aborted = aborted
  or_no_info unfinished = unfinished

  abbrev pub volume_config : String → SourcesConfig
  volume_config path = record {
    download_order = source_main ∷ [];
    override_uris = some (strconcat "file://" (p.repo_path path) ∷ []);
  }

  unfoldable pub poll_volume_internal : ℕ → String → W → Run W (Option UpdateInfo)
  poll_volume_internal fuel path w =
      if is_dev_converted (get_booted_deployment w)
      then finished (err (updater not_ostree_system)) w
      else or_no_info (metadata_fetch_new fuel (volume_config path) w)
