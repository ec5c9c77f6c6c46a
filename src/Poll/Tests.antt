-- ===== src/Poll/Tests.antt =====
-- A newer commit on the booted ref.
mod World
mod Polls
use eos_updater.Poll.Update.Laws.{is_checksum_an_update-later}
use eos_updater.Errors.{ok}
use eos_updater.Poll.Update.{major_rises, is_checksum_an_update, Verdict, Repo, Commit}
use eos_updater.Prelude.{
  Option, str_equal, ◌<◌, String, if◌then◌else◌, ◌≡◌, ◌≢◌, some, none, false, refl,
}

abbrev older : Commit
older = record {
  checksum = "beef";
  version = some "4.0.1";
  endoflife_rebase = none;
  checkpoint_target = none;
  release_notes_uri = none;
  label = none;
  message = none;
  timestamp = 10;
}

abbrev newer : Commit
newer = record {
  checksum = "f00d";
  version = some "4.0.2";
  endoflife_rebase = none;
  checkpoint_target = none;
  release_notes_uri = none;
  label = none;
  message = none;
  timestamp = 20;
}

abbrev two_commits : Repo
two_commits = record {
  booted_checksum = ok "beef";
  load_commit = λ s. if str_equal s "beef" then ok older else ok newer;
  strtoull = λ s. 4;
}

abbrev offered : Verdict
offered = record {
  commit = some newer;
  is_user_visible = false;
  booted_version = some "4.0.1";
  update_version = some "4.0.2";
}

is_offered : is_checksum_an_update two_commits "f00d" (some "os/4") (some "os/4") ≡ ok offered
unfolding is_checksum_an_update major_rises
is_offered = refl

is_checksum_an_update-later_example :
    (◌≢◌ {A = String} "beef" "f00d")
    × (two_commits.load_commit "f00d" ≡ ok newer)
    × ((current : Commit)
        → two_commits.load_commit "beef" ≡ ok current
        → ◌≡◌ {A = Option String} (some "os/4") (some "os/4")
        → current.timestamp < newer.timestamp)
is_checksum_an_update-later_example =
    is_checksum_an_update-later two_commits "f00d" "beef" (some "os/4") (some "os/4") offered newer
      refl is_offered refl
