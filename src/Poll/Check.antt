-- ===== src/Poll/Check.antt =====
-- eos-updater/poll.c: whether there is an update on the booted branch or behind a checkpoint
-- (check_for_update_using_booted_branch, check_for_update_following_checkpoint_commits,
-- check_for_update_following_checkpoint_if_allowed).
pub mod Laws
use eos_updater.Run.{finished, ◌>>ᵣ◌, Run}
use eos_updater.Poll.Finders.{Finder}
use eos_updater.Poll.Update.{is_checksum_an_update, Verdict, Commit}
use eos_updater.Daemon.{Opaque}
use eos_updater.Poll.Refspec.{
  get_refspec_to_upgrade_on, get_booted_refspec_from_default, System, Refspec,
}
use eos_updater.Poll.Latest.{fetch_latest_commit, Latest, Ostree, CollectionRef}
use eos_updater.Daemon.Finish.{or_empty}
use eos_updater.Prelude.{
  List, [], ◌∷◌, ◌++◌, true, false, none, some, Option, Bool, String, ℕ, zero, suc, ◌≡◌, ◌≢◌, ◌⊎◌,
  ◌↔◌, inl, inr, refl, arith, if◌then◌else◌, Bool-cases, Option-cases,
}
use eos_updater.Errors.{ErrorCode, Result-cases}
use eos_updater.Errors.{Result, ok, err, unset, ◌>>=◌}

-- UpdateRefInfo once it is filled in; its fields are set together with the commit, and cleared with it.
pub record UpdateRefInfo : Type 0 where
  pub refspec : String
  pub remote : String
  pub ref : String
  pub collection_ref : Option CollectionRef
  pub results : Option (List Opaque)
  pub new_refspec : String
  pub checksum : String
  pub version : Option String
  pub is_user_visible : Bool
  pub release_notes_uri : String
  pub commit : Commit

abbrev pub or_dash : Option String → String
or_dash none = "-"
or_dash (some v) = v

-- `replace s a b` is g_string_replace without a limit; a null template is the empty string.
unfoldable pub format_release_notes_uri :
    (String → String → String → String) → Option String → Option String → Option String → String
format_release_notes_uri replace template booted_version update_version =
    replace (replace (or_empty template) "${booted_version}" (or_dash booted_version))
      "${update_version}" (or_dash update_version)

-- The refspec that is booted stays in the info, the rest is of what is upgraded on.
abbrev pub ref_info :
    (String → String → String → String) → String → Refspec → Latest → Verdict → Option UpdateRefInfo
ref_info replace booted_refspec on latest verdict = elim verdict.commit [
  | none ↦ none
  | some commit ↦ some (record {
    refspec = booted_refspec;
    remote = on.remote;
    ref = on.ref;
    collection_ref = on.collection_ref;
    results = latest.results;
    new_refspec = latest.new_refspec;
    checksum = latest.checksum;
    version = latest.version;
    is_user_visible = verdict.is_user_visible;
    release_notes_uri =
        format_release_notes_uri replace latest.release_notes_uri_template verdict.booted_version
          verdict.update_version;
    commit = commit;
  })
]

module _ {W : Type 0} (ostree : Ostree W) (system : System W)
    (replace : String → String → String → String) where
  -- The latest commit of a ref, and whether it is an update of the booted one.
  unfoldable pub check_ref :
      ℕ → Option (List Finder) → Refspec → Refspec → W → Run W (Option UpdateRefInfo)
  check_ref fuel finders booted on w =
      fetch_latest_commit ostree fuel none finders on.refspec on.collection_ref w >>ᵣ λ latest w.
      finished (ostree.parse_refspec latest.new_refspec) w >>ᵣ λ names w.
      finished
        (is_checksum_an_update (ostree.repo w) latest.checksum (some booted.ref) (some names.1)) w
      >>ᵣ λ verdict w. finished (ok (ref_info replace booted.refspec on latest verdict)) w

  unfoldable pub check_for_update_using_booted_branch :
      ℕ → Option (List Finder) → W → Run W (Option UpdateRefInfo)
  check_for_update_using_booted_branch fuel finders w =
      finished (get_booted_refspec_from_default ostree system w) w >>ᵣ λ booted w.
      check_ref fuel finders booted booted w

  unfoldable pub check_for_update_following_checkpoint_commits :
      ℕ → Option (List Finder) → W → Run W (Option UpdateRefInfo)
  check_for_update_following_checkpoint_commits fuel finders w =
      finished (get_booted_refspec_from_default ostree system w) w >>ᵣ λ booted w.
      finished (get_refspec_to_upgrade_on ostree system w) w >>ᵣ λ on w.
      check_ref fuel finders booted on w

  unfoldable pub check_for_update_following_checkpoint_if_allowed :
      ℕ → Option (List Finder) → W → Run W (Option UpdateRefInfo)
  check_for_update_following_checkpoint_if_allowed fuel finders w =
      check_for_update_using_booted_branch fuel finders w >>ᵣ λ on_branch w. elim on_branch [
        | some info ↦ finished (ok (some info)) w
        | none ↦ check_for_update_following_checkpoint_commits fuel finders w
      ]
