-- ===== src/Poll/Latest.antt =====
-- eos-updater/poll-common.c: fetching the latest commit of a ref, following its redirections
-- (fetch_latest_commit, parse_latest_commit).
pub mod Ends
pub mod Circle
use Prim.Native.Nat.{zero}
use eos_updater.Run.{call, ◌>>ᵣ◌, finished, aborted, unfinished, Run}
use eos_updater.Poll.Finders.{Finder}
use eos_updater.Daemon.{Opaque}
use eos_updater.Poll.Update.{Repo, Commit}
use eos_updater.Prelude.{
  strconcat, str_equal, suc, some, [], not, ◌&&◌, ◌∷◌, if◌then◌else◌, is_some, none, String, Bool,
  Option, ℕ, List,
}
use eos_updater.Prelude.{true, false}
use eos_updater.Errors.{io_not_supported, Result, ok, err, unset}

-- OstreeCollectionRef.
pub record CollectionRef : Type 0 where
  pub collection_id : String
  pub ref_name : String

-- libostree: a parameter. A call may change the local repository, which is part of the world.
pub record Ostree (W : Type 0) : Type 0 where
  pub parse_refspec : String → Result (Option String × String)
  pub pull_with_options : String → Option String → String → W → Result (Unit {0}) × W
  pub find_remotes : List Finder → CollectionRef → W → Result (List Opaque) × W
  pub pull_from_remotes : List Opaque → W → Result (Unit {0}) × W
  pub resolve_rev : String → W → Result String
  pub remote_collection_id : String → W → Result (Option String)
  pub repo : W → Repo

-- remote:ref.
abbrev pub refspec_of : String → String → String
refspec_of remote ref = strconcat remote (strconcat ":" ref)

-- g_assert (remote_name != NULL), and a null pointer that would be followed.
abbrev pub not_null : {W A B : Type 0} → Option A → (A → Run W B) → Run W B
not_null none k = aborted
not_null (some a) k = k a

-- What parse_latest_commit returns in its out parameters.
pub record Parsed : Type 0 where
  pub redirect_followed : Bool
  pub checksum : String
  pub new_refspec : String
  pub new_collection_ref : Option CollectionRef
  pub version : Option String
  pub release_notes_uri_template : Option String

-- The redirection that is followed, if any: a rebase onto the ref itself is ignored.
abbrev pub redirection : String → Option String → Option String
redirection ref none = none
redirection ref (some target) = if str_equal target ref then none else some target

abbrev pub or_ref : String → Option String → String
or_ref ref none = ref
or_ref ref (some target) = target

abbrev pub rebase_of : Result Commit → Option String
rebase_of (ok commit) = commit.endoflife_rebase
rebase_of (err _) = none
rebase_of unset = none

abbrev pub version_of : Result Commit → Option String
version_of (ok commit) = commit.version
version_of (err _) = none
version_of unset = none

abbrev pub template_of : Result Commit → Option String
template_of (ok commit) = commit.release_notes_uri
template_of (err _) = none
template_of unset = none

abbrev pub new_collection : Bool → Option String → String → Option CollectionRef
new_collection true (some id) ref = some (record { collection_id = id; ref_name = ref })
new_collection true none ref = none
new_collection false _ ref = none

-- The end of parse_latest_commit, with the ref that is upgraded on in the end.
abbrev pub parsed : Bool → String → String → String → Option String → Result Commit → Parsed
parsed wanted remote ref checksum id commit =
    let target = redirection ref (rebase_of commit) in
    record {
      redirect_followed = is_some target;
      checksum = checksum;
      new_refspec = refspec_of remote (or_ref ref target);
      new_collection_ref = new_collection wanted id (or_ref ref target);
      version = version_of commit;
      release_notes_uri_template = template_of commit;
    }

-- The local variables of fetch_latest_commit that a round of its loop replaces.
pub record Upgrade : Type 0 where
  pub refspec : String
  pub collection_ref : Option CollectionRef

-- What fetch_latest_commit returns in its out parameters.
pub record Latest : Type 0 where
  pub results : Option (List Opaque)
  pub checksum : String
  pub new_refspec : String
  pub version : Option String
  pub release_notes_uri_template : Option String

abbrev pub latest_of : Option (List Opaque) → Parsed → Latest
latest_of results p = record {
  results = results;
  checksum = p.checksum;
  new_refspec = p.new_refspec;
  version = p.version;
  release_notes_uri_template = p.release_notes_uri_template;
}

abbrev pub or_else {ℓ} : {A : Type ℓ} → Option A → Option A → Option A
or_else (some a) _ = some a
or_else none b = b

abbrev pub follow : Upgrade → Parsed → Upgrade
follow u p = record {
  refspec = p.new_refspec;
  collection_ref = or_else p.new_collection_ref u.collection_ref;
}

module _ {W : Type 0} (ostree : Ostree W) where
  unfoldable pub parse_latest_commit : Bool → String → W → Run W Parsed
  parse_latest_commit wanted refspec w = finished (ostree.parse_refspec refspec) w >>ᵣ λ names w.
      not_null names.0 (λ remote. finished (ostree.resolve_rev refspec w) w >>ᵣ λ checksum w.
      finished (ostree.remote_collection_id remote w) w >>ᵣ λ id w.
      finished
        (ok (parsed wanted remote names.1 checksum id ((ostree.repo w).load_commit checksum))) w)

  -- The metadata is only pulled where there is some.
  abbrev pub pull_found : List Opaque → W → Run W (Unit {0})
  pull_found [] w = finished (ok tt) w
  pull_found (r ∷ rs) w = call (ostree.pull_from_remotes (r ∷ rs) w)

  -- The branches of the loop's body on `finders`.
  unfoldable pub pull_metadata :
      Option String → Option (List Finder) → Upgrade → W → Run W (Option (List Opaque))
  pull_metadata url none u w = finished (ostree.parse_refspec u.refspec) w >>ᵣ λ names w.
      not_null names.0 (λ remote.
        call (ostree.pull_with_options remote url names.1 w) >>ᵣ λ _ w. finished (ok none) w)
  pull_metadata url (some finders) u w = not_null u.collection_ref (λ c.
      call (ostree.find_remotes finders c w) >>ᵣ λ results w.
      pull_found results w >>ᵣ λ _ w. finished (ok (some results)) w)

  unfoldable pub fetch_loop : ℕ → Option String → Option (List Finder) → Upgrade → W → Run W Latest
  fetch_loop zero url finders u w = unfinished
  fetch_loop (suc fuel) url finders u w = pull_metadata url finders u w >>ᵣ λ results w.
      parse_latest_commit (is_some finders) u.refspec w >>ᵣ λ p w. elim p.redirect_followed [
        | true ↦ fetch_loop fuel url finders (follow u p) w
        | false ↦ finished (ok (latest_of results p)) w
      ]

  -- The fuel bounds the rounds of the loop.
  unfoldable pub fetch_latest_commit :
      ℕ → Option String → Option (List Finder) → String → Option CollectionRef → W → Run W Latest
  fetch_latest_commit fuel url finders refspec collection_ref w =
      if is_some finders && not (is_some collection_ref)
      then finished (err io_not_supported) w
      else fetch_loop fuel url finders
          (record { refspec = refspec; collection_ref = collection_ref }) w
