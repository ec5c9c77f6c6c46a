-- ===== src/Sysroot.antt =====
-- libeos-updater-util/ostree-util.c: the booted deployment, and the commit that is advertised on the
-- local network (eos_updater_get_booted_deployment_from_loaded_sysroot,
-- eos_updater_sysroot_get_advertisable_commit).
pub mod Search
pub mod Laws
mod Tests
use eos_updater.Prelude.{
  ltb, ◌||◌, str_equal, ◌==◌, List, [], ◌∷◌, ◌++◌, true, false, none, some, Option, Bool, String, ℕ,
  zero, suc, ◌≡◌, ◌≢◌, ◌⊎◌, ◌↔◌, inl, inr, refl, arith, if◌then◌else◌, Bool-cases, Option-cases,
}
use eos_updater.Errors.{io_not_found, ErrorCode, Result-cases}
use eos_updater.Errors.{Result, ok, err, unset, ◌>>=◌}

-- An OstreeDeployment; the origin is what its key file has as origin/refspec.
pub record Deployment : Type 0 where
  pub osname : String
  pub csum : String
  pub origin : Option (Result String)

-- A sysroot as libostree has loaded it: the parameters. `fallback` is whether the environment asks
-- for the fallback of the tests, `load_commit` gives the time of a commit, and `ostree_path` is
-- eos_updater_get_ostree_path.
pub record Sysroot : Type 0 where
  pub deployments : List Deployment
  pub booted : Option Deployment
  pub fallback : Bool
  pub repo : Result (Unit {0})
  pub load_commit : String → Result ℕ
  pub ostree_path : String → Result String

abbrev pub get_fake_deployment : List Deployment → Result Deployment
get_fake_deployment [] = err io_not_found
get_fake_deployment (d ∷ _) = ok d

unfoldable pub get_booted_deployment_from_loaded_sysroot : Sysroot → Result Deployment
get_booted_deployment_from_loaded_sysroot s = elim s.booted [
  | some d ↦ ok d
  | none ↦ if s.fallback then get_fake_deployment s.deployments else err io_not_found
]

-- The local variables of the loop; a timestamp of 0 stands for none.
pub record Newest : Type 0 where
  pub timestamp : ℕ
  pub checksum : Option String
  pub load_commit_error : Option ErrorCode

abbrev pub first_error : Option ErrorCode → ErrorCode → Option ErrorCode
first_error none e = some e
first_error (some f) e = some f

-- The body of the loop for a deployment of the right OS.
abbrev pub weigh : String → Result ℕ → Newest → Newest
weigh csum (ok t) n =
    if n.timestamp == 0 || ltb n.timestamp t
    then record n { timestamp = t; checksum = some csum }
    else n
weigh csum (err e) n = record n { load_commit_error = first_error n.load_commit_error e }
weigh csum unset n = n

unfoldable pub newest_loop : Sysroot → String → List Deployment → Newest → Newest
newest_loop s osname [] n = n
newest_loop s osname (d ∷ rest) n =
    newest_loop s osname rest
      (if str_equal d.osname osname then weigh d.csum (s.load_commit d.csum) n else n)

pub record Advertisable : Type 0 where
  pub commit_checksum : String
  pub commit_ostree_path : String
  pub commit_timestamp : ℕ

-- The end, where `none` is a failed assertion.
abbrev pub advertise : String → ℕ → Option String → Option ErrorCode → Option (Result Advertisable)
advertise path zero checksum none = none
advertise path zero checksum (some e) = some (err e)
advertise path (suc t) none e = none
advertise path (suc t) (some c) e =
    some (ok (record { commit_checksum = c; commit_ostree_path = path; commit_timestamp = suc t }))

abbrev pub nothing_yet : Newest
nothing_yet = record { timestamp = 0; checksum = none; load_commit_error = none }

abbrev pub search_newest : Sysroot → String → String → Option (Result Advertisable)
search_newest s osname path =
    let n = newest_loop s osname s.deployments nothing_yet in
    advertise path n.timestamp n.checksum n.load_commit_error

abbrev pub or_return {ℓ κ} :
    {A : Type ℓ} {B : Type κ} → Result A → (A → Option (Result B)) → Option (Result B)
or_return (ok a) k = k a
or_return (err e) k = some (err e)
or_return unset k = some unset

unfoldable pub get_advertisable_commit : Sysroot → Option (Result Advertisable)
get_advertisable_commit s = or_return s.repo (λ _.
    or_return (get_booted_deployment_from_loaded_sysroot s) (λ booted.
      or_return (s.ostree_path booted.osname) (λ path. search_newest s booted.osname path)))
