-- ===== src/Poll/Tests/Polls.antt =====
-- Polling on the repository whose booted ref is redirected.
use eos_updater.Poll.Latest.Circle.{fetch_latest_commit_circle, Redirects}
use eos_updater.Poll.Finders.Laws.{get_finders-IsSome, IsSome}
use eos_updater.Poll.Sources.Laws.{string_to_download_source_iff}
use eos_updater.Poll.Sources.Order.{strv_to_download_order_iff, Distinct}
use eos_updater.Poll.Tests.World.{
  falls, descends, commit5, parses, rank, commit4, eos_system, booted_deployment, two_refs,
  refspec4, booted_sysroot,
}
use eos_updater.Poll.Latest.Ends.{fetch_latest_commit-Ensures, Settled}
use eos_updater.Poll.Fetchers.{get_latest_update}
use eos_updater.Poll.Refspec.Laws.{get_refspec_to_upgrade_on-Followed, Followed}
use eos_updater.Poll.Metadata.{poll_volume_internal, metadata_fetch_internal, Polling}
use eos_updater.Poll.Refspec.{on_checkpoint, get_refspec_to_upgrade_on, Refspec, get_booted_refspec}
use eos_updater.Run.{finished, unfinished, Ensures}
use eos_updater.Sysroot.{get_booted_deployment_from_loaded_sysroot}
use eos_updater.Poll.Finders.{get_finders, Finders, SourcesConfig}
use eos_updater.Poll.Latest.{
  parse_latest_commit, pull_metadata, refspec_of, fetch_loop, Ostree, fetch_latest_commit,
}
use eos_updater.Poll.Fetchers.Laws.{get_latest_update-IsLatest, IsLatest}
use eos_updater.Poll.Metadata.Laws.{
  poll_volume_internal-AnEnd, metadata_fetch_internal-AnEnd, AnEnd,
}
use eos_updater.Prelude.{str_equal, map}
use eos_updater.Poll.Sources.{
  download_source_to_string, string_to_download_source, strv_to_download_order, source_main,
  source_lan, source_volume,
}
use eos_updater.Prelude.{
  List, [], ◌∷◌, false, none, some, String, ℕ, ◌≡◌, ◌≢◌, ◌↔◌, refl, arith, if◌then◌else◌,
}
use eos_updater.Errors.{io_failed}
use eos_updater.Errors.{ok, err}

strv_to_download_order_iff_example :
    (strv_to_download_order (λ s. s) ("lan" ∷ "main" ∷ []) ≡ ok (source_lan ∷ source_main ∷ [])) ↔ (
      (◌≡◌ {A = List String}
        ("lan" ∷ "main" ∷ [])
        (map download_source_to_string (source_lan ∷ source_main ∷ [])))
      × Distinct (source_lan ∷ source_main ∷ [])
      × (source_lan ∷ source_main ∷ [] ≢ []))
strv_to_download_order_iff_example =
    strv_to_download_order_iff (λ s. s) ("lan" ∷ "main" ∷ []) (source_lan ∷ source_main ∷ [])

string_to_download_source_iff_example :
    (string_to_download_source "volume" ≡ ok source_volume)
    ↔ (◌≡◌ {A = String} "volume" (download_source_to_string source_volume))
string_to_download_source_iff_example = string_to_download_source_iff "volume" source_volume

fetch_latest_commit-Ensures_example :
    Ensures
      (Settled two_refs "eos")
      (fetch_latest_commit two_refs 2 none none (refspec_of "eos" "os/4") none tt)
fetch_latest_commit-Ensures_example =
    fetch_latest_commit-Ensures two_refs "eos" parses rank falls 2 none none "os/4" none tt
      (omega arith)

latest :
    fetch_latest_commit two_refs 2 none none (refspec_of "eos" "os/4") none tt
    ≡ finished
        (ok (record {
          results = none;
          checksum = "f00d";
          new_refspec = "eos:os/5";
          version = some "5.0";
          release_notes_uri_template = none;
        }))
        tt
unfolding fetch_latest_commit fetch_loop pull_metadata parse_latest_commit
latest = refl

abbrev back : Ostree (Unit {0})
back = record two_refs {
  repo = λ w. record {
    booted_checksum = ok "beef";
    load_commit = λ c.
        if str_equal c "beef"
        then ok commit4
        else ok (record commit5 { endoflife_rebase = some "os/4" });
    strtoull = λ s. 4;
  };
}

fetch_latest_commit_circle_example :
    fetch_latest_commit back 7 none none (refspec_of "eos" "os/4") none tt ≡ unfinished
fetch_latest_commit_circle_example =
    fetch_latest_commit_circle back "eos" "os/4" "os/5" to_five to_four 7 none none tt
  where
    to_five : Redirects back "eos" "os/4" "os/5"
    to_five =
        (refl, (λ url w. (w, refl)), (λ w. ("beef", some "com.endlessm.Os", refl, refl, refl)))

    to_four : Redirects back "eos" "os/5" "os/4"
    to_four =
        (refl, (λ url w. (w, refl)), (λ w. ("f00d", some "com.endlessm.Os", refl, refl, refl)))

abbrev lan_only : SourcesConfig
lan_only = record { download_order = source_lan ∷ []; override_uris = none }

get_finders-IsSome_example :
    (f : Finders) × (get_finders (err io_failed) lan_only ≡ some f) × IsSome f
get_finders-IsSome_example = get_finders-IsSome (err io_failed) lan_only (refl, tt) (λ h. cc)

abbrev booted_refspec : Refspec
booted_refspec = record {
  refspec = refspec4;
  remote = "eos";
  ref = "os/4";
  collection_ref = some (record { collection_id = "com.endlessm.Os"; ref_name = "os/4" });
}

is_booted_refspec : get_booted_refspec two_refs eos_system booted_deployment tt ≡ ok booted_refspec
unfolding get_booted_refspec
is_booted_refspec = refl

is_booted_deployment :
    get_booted_deployment_from_loaded_sysroot booted_sysroot ≡ ok booted_deployment
unfolding get_booted_deployment_from_loaded_sysroot
is_booted_deployment = refl

get_refspec_to_upgrade_on-Followed_example :
    ((ref : String)
      → Followed two_refs eos_system (some "eos:os/5") ref
      → get_refspec_to_upgrade_on two_refs eos_system tt ≡ ok (on_checkpoint booted_refspec ref))
    × (((ref : String) → ¬ Followed two_refs eos_system (some "eos:os/5") ref)
        → get_refspec_to_upgrade_on two_refs eos_system tt ≡ ok booted_refspec)
get_refspec_to_upgrade_on-Followed_example =
    get_refspec_to_upgrade_on-Followed two_refs eos_system tt booted_sysroot booted_deployment
      booted_refspec refl refl is_booted_deployment is_booted_refspec

abbrev polling : Polling (Unit {0})
polling = record {
  ostree = two_refs;
  system = eos_system;
  strip = λ s. s;
  replace = λ s a b. s;
  avahi_start = λ w. ok tt;
  config = record { order = some (ok ("lan" ∷ "main" ∷ [])); override_uris = some (ok []) };
  disable_old_code = false;
  repo_path = λ path. path;
}

metadata_fetch_internal-AnEnd_example : AnEnd polling (metadata_fetch_internal polling 2 tt)
metadata_fetch_internal-AnEnd_example =
    metadata_fetch_internal-AnEnd polling rank 2 descends (ok ("lan" ∷ "main" ∷ [])) (ok []) refl tt

poll_volume_internal-AnEnd_example : AnEnd polling (poll_volume_internal polling 2 "/media/usb" tt)
poll_volume_internal-AnEnd_example =
    poll_volume_internal-AnEnd polling rank 2 descends "/media/usb" tt

get_latest_update-IsLatest_example :
    IsLatest
      (λ (n : ℕ). n)
      ((source_lan, 3) ∷ (source_main, 5) ∷ [])
      (get_latest_update
        (λ (n : ℕ). n)
        (source_main ∷ source_lan ∷ [])
        ((source_lan, 3) ∷ (source_main, 5) ∷ []))
get_latest_update-IsLatest_example =
    get_latest_update-IsLatest (λ (n : ℕ). n) (source_main ∷ source_lan ∷ [])
      ((source_lan, 3) ∷ (source_main, 5) ∷ []) (λ h. cc) (refl, (refl, tt))
