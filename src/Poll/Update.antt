-- ===== src/Poll/Update.antt =====
-- eos-updater/poll-common.c: whether a commit is an update of the booted one
-- (compare_major_versions, is_checksum_an_update).
pub mod Laws
use eos_updater.Errors.{unset, err, ok, ◌>>=◌, Result}
use eos_updater.Prelude.{
  ◌||◌, strcmp0_eq, str_equal, ◌&&◌, ltb, not, if◌then◌else◌, ℕ, Bool, Option, String, none, some,
  true, false,
}

-- A commit, as far as it is looked at: its name, its metadata and its time.
pub record Commit : Type 0 where
  pub checksum : String
  pub version : Option String
  pub endoflife_rebase : Option String
  pub checkpoint_target : Option String
  pub release_notes_uri : Option String
  pub label : Option String
  pub message : Option String
  pub timestamp : ℕ

-- The parameters: the booted checksum, the repository's commits, and g_ascii_strtoull.
pub record Repo : Type 0 where
  pub booted_checksum : Result String
  pub load_commit : String → Result Commit
  pub strtoull : String → ℕ

-- What is_checksum_an_update returns in its out parameters.
pub record Verdict : Type 0 where
  pub commit : Option Commit
  pub is_user_visible : Bool
  pub booted_version : Option String
  pub update_version : Option String

abbrev pub no_update : Verdict
no_update = record {
  commit = none;
  is_user_visible = false;
  booted_version = none;
  update_version = none;
}

module _ (repo : Repo) where
  -- Whether compare_major_versions is negative; a missing version makes it 0.
  unfoldable pub major_rises : Option String → Option String → Bool
  major_rises (some a) (some b) = ltb (repo.strtoull a) (repo.strtoull b)
  major_rises none b = false
  major_rises (some a) none = false

  -- A switch of the ref, or a later commit.
  abbrev pub is_newer : Option String → Option String → Commit → Commit → Bool
  is_newer booted_ref update_ref current update =
      not (strcmp0_eq booted_ref update_ref) || ltb current.timestamp update.timestamp

  abbrev pub judge : Option String → Option String → Commit → Commit → Verdict
  judge booted_ref update_ref current update = record {
    commit = if is_newer booted_ref update_ref current update then some update else none;
    is_user_visible =
        is_newer booted_ref update_ref current update && major_rises current.version update.version;
    booted_version = current.version;
    update_version = update.version;
  }

  -- With no booted commit to compare with, the commit is taken for an update.
  abbrev pub compared : Option String → Option String → Result Commit → Commit → Verdict
  compared booted_ref update_ref (ok current) update = judge booted_ref update_ref current update
  compared booted_ref update_ref (err e) update = record no_update { commit = some update }
  compared booted_ref update_ref unset update = record no_update { commit = some update }

  unfoldable pub is_checksum_an_update : String → Option String → Option String → Result Verdict
  unfolding major_rises
  is_checksum_an_update update_checksum booted_ref update_ref = repo.booted_checksum >>= λ booted.
      if str_equal booted update_checksum
      then ok no_update
      else (repo.load_commit update_checksum >>= λ update.
          ok (compared booted_ref update_ref (repo.load_commit booted) update))
