-- ===== src/Sysroot/Tests.antt =====
-- Two deployments of the booted OS and one of another.
use eos_updater.Sysroot.{
  newest_loop, Deployment, Sysroot, get_advertisable_commit,
  get_booted_deployment_from_loaded_sysroot,
}
use eos_updater.Sysroot.Laws.{get_advertisable_commit-IsNewest, IsNewest}
use eos_updater.Sysroot.Search.{ReportsErrors, AtZero}
use eos_updater.Prelude.{
  All, str_equal, [], ◌∷◌, false, none, some, ◌≡◌, inl, inr, refl, arith, if◌then◌else◌, Bool-cases,
}
use eos_updater.Errors.{other}
use eos_updater.Errors.{ok, err}

abbrev booted_one : Deployment
booted_one = record { osname = "eos"; csum = "beef"; origin = some (ok "eos:os/5") }

abbrev staged_one : Deployment
staged_one = record { osname = "eos"; csum = "f00d"; origin = some (ok "eos:os/5") }

abbrev three_deployments : Sysroot
three_deployments = record {
  deployments =
      staged_one ∷ record { osname = "debian"; csum = "cafe"; origin = none } ∷ booted_one ∷ [];
  booted = some booted_one;
  fallback = false;
  repo = ok tt;
  load_commit = λ c.
      if str_equal c "beef" then ok 10 else if str_equal c "f00d" then ok 20 else err (other 1);
  ostree_path = λ o. ok "ostree/eos";
}

advertised :
    get_advertisable_commit three_deployments
    ≡ some (
        ok (record {
          commit_checksum = "f00d";
          commit_ostree_path = "ostree/eos";
          commit_timestamp = 20;
        }))
unfolding get_advertisable_commit get_booted_deployment_from_loaded_sysroot newest_loop
advertised = refl

is_booted : get_booted_deployment_from_loaded_sysroot three_deployments ≡ ok booted_one
unfolding get_booted_deployment_from_loaded_sysroot
is_booted = refl

get_advertisable_commit-IsNewest_example :
    IsNewest three_deployments "eos" (get_advertisable_commit three_deployments)
    × (All (AtZero three_deployments "eos") three_deployments.deployments
        → get_advertisable_commit three_deployments ≡ none)
get_advertisable_commit-IsNewest_example =
    get_advertisable_commit-IsNewest three_deployments booted_one "ostree/eos" reported refl
      is_booted refl
  where
    reported : ReportsErrors three_deployments
    reported checksum h = elim (Bool-cases (str_equal checksum "beef")) [
      | inl a ↦ absurd (ground arith)
      | inr a ↦ elim (Bool-cases (str_equal checksum "f00d")) [
        | inl b ↦ absurd (ground arith)
        | inr b ↦ absurd (ground arith)
      ]
    ]
