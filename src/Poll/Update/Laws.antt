-- ===== src/Poll/Update/Laws.antt =====
-- eos-updater/poll-common.c: no downgrade on the booted ref.
use eos_updater.Errors.{Result-cases, ok}
use eos_updater.Poll.Update.{str_equal, Commit, Verdict, Repo, is_checksum_an_update}
use eos_updater.Prelude.{
  strcmp0_eq_iff, str_equal_iff, inr, arith, inl, Bool-cases, ◌<◌, ◌≢◌, ◌≡◌, Option, String, some,
}

-- A commit that is offered is the one asked for and not the booted one; and if the booted commit
-- can be loaded and the ref stays the same, it is later than the booted commit.
pub is_checksum_an_update-later :
    (repo : Repo) (checksum booted : String) (booted_ref update_ref : Option String) (v : Verdict)
    (update : Commit)
    → repo.booted_checksum ≡ ok booted
    → is_checksum_an_update repo checksum booted_ref update_ref ≡ ok v
    → v.commit ≡ some update
    → (booted ≢ checksum)
      × (repo.load_commit checksum ≡ ok update)
      × ((current : Commit)
          → repo.load_commit booted ≡ ok current
          → booted_ref ≡ update_ref
          → current.timestamp < update.timestamp)
unfolding is_checksum_an_update
is_checksum_an_update-later repo checksum booted booted_ref update_ref v update b h offered =
    elim (Bool-cases (str_equal booted checksum)) [
      | inl same ↦ absurd (ground arith)
      | inr other ↦ elim (Result-cases (repo.load_commit checksum)) [
        | inl (c, loaded) ↦
            ground (arith, str_equal_iff booted checksum, strcmp0_eq_iff booted_ref update_ref)
        | inr (inl (e, failed)) ↦ absurd (ground arith)
        | inr (inr failed) ↦ absurd (ground arith)
      ]
    ]
