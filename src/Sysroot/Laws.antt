-- ===== src/Sysroot/Laws.antt =====
-- libeos-updater-util/ostree-util.c: the advertised commit is the newest of the booted OS.
use eos_updater.Sysroot.Search.{
  NotNewer, silent, visit, Seen-newest_loop, IsOf, ReportsErrors, AtZero,
}
use eos_updater.Sysroot.{
  or_return, get_booted_deployment_from_loaded_sysroot, nothing_yet, Advertisable, advertise,
  search_newest, get_advertisable_commit, newest_loop, Deployment, Newest, Sysroot,
}
use mathlib.Core.Path.{subst}
use eos_updater.Prelude.{
  str_equal_iff, sym, ap, ◌∙◌, Any, All, is_some, str_equal, List, [], ◌∷◌, false, none, some,
  Option, String, ℕ, zero, suc, ◌≡◌, ◌⊎◌, inl, inr, refl, arith, Bool-cases,
}
use eos_updater.Errors.{ErrorCode}
use eos_updater.Errors.{Result, ok, err, unset}

module _ (s : Sysroot) (osname : String) where
  -- What is advertised, whatever the path; `none` is a failed assertion.
  abbrev pub IsNewest : Option (Result Advertisable) → Type 0
  IsNewest none = All (AtZero s osname) s.deployments
  IsNewest (some (ok a)) =
      Any (IsOf s osname a.commit_checksum a.commit_timestamp) s.deployments
      × All (NotNewer s osname a.commit_timestamp) s.deployments
  IsNewest (some (err e)) = Unit
  IsNewest (some unset) = Unit

  advertise-IsNewest :
      (path : String) (t : ℕ) (checksum : Option String) (e : Option ErrorCode)
      → (t ≡ 0 → is_some e ≡ false → All (AtZero s osname) s.deployments)
      → ((checksum ≡ none) × (t ≡ 0))
        ⊎ ((c : String) × (checksum ≡ some c) × Any (IsOf s osname c t) s.deployments)
      → All (NotNewer s osname t) s.deployments
      → IsNewest (advertise path t checksum e)
  advertise-IsNewest path zero checksum none z c n = z refl refl
  advertise-IsNewest path zero checksum (some e) z c n = tt
  advertise-IsNewest path (suc t) none e z (inl c) n = absurd (ground arith)
  advertise-IsNewest path (suc t) none e z (inr c) n = absurd (ground arith)
  advertise-IsNewest path (suc t) (some x) e z (inl c) n = absurd (ground arith)
  advertise-IsNewest path (suc t) (some x) e z (inr (c, f, a)) n =
      (let g : x ≡ c = ground arith in rw g a, n)

  pub search_newest-IsNewest :
      ReportsErrors s → (path : String) → IsNewest (search_newest s osname path)
  search_newest-IsNewest reports path =
      let seen = Seen-newest_loop s osname reports s.deployments nothing_yet in
      let m = newest_loop s osname s.deployments nothing_yet in
      advertise-IsNewest path m.timestamp m.checksum m.load_commit_error
        (silent s osname s.deployments m seen.4) seen.2 seen.1

  -- Nothing has been found yet.
  abbrev Nothing : Newest → Type 0
  Nothing n = (n.timestamp ≡ 0) × (n.load_commit_error ≡ none)

  visit-Nothing :
      (d : Deployment) (n : Newest) → AtZero s osname d → Nothing n → Nothing (visit s osname d n)
  visit-Nothing d n z h = elim (Bool-cases (str_equal d.osname osname)) [
    | inr o ↦ (ground arith, ground arith)
    | inl o ↦
        let e : s.load_commit d.csum ≡ ok 0 = z ((str_equal_iff d.osname osname).0 o) in
        (ground arith, ground arith)
  ]

  newest_loop-Nothing :
      (l : List Deployment) (n : Newest)
      → All (AtZero s osname) l
      → Nothing n
      → Nothing (newest_loop s osname l n)
  unfolding newest_loop
  newest_loop-Nothing [] n a h = h
  newest_loop-Nothing (d ∷ l) n a h =
      newest_loop-Nothing l (visit s osname d n) a.1 (visit-Nothing d n a.0 h)

  advertise_nothing :
      (path : String) (t : ℕ) (checksum : Option String) (e : Option ErrorCode)
      → t ≡ 0
      → e ≡ none
      → advertise path t checksum e ≡ none
  advertise_nothing path zero checksum none z n = refl
  advertise_nothing path zero checksum (some e) z n = cc
  advertise_nothing path (suc t) checksum e z n = absurd (ground arith)

  pub search_newest_zero :
      (path : String) → All (AtZero s osname) s.deployments → search_newest s osname path ≡ none
  search_newest_zero path a =
      let h = newest_loop-Nothing s.deployments nothing_yet a (refl, refl) in
      advertise_nothing path _ _ _ h.0 h.1

-- Where the repository, the booted deployment and the path can be had, and libostree sets an error
-- whenever a commit cannot be loaded: a commit that is advertised is of a deployment of the booted
-- OS, and none of those that can be loaded is newer; and an assertion fails exactly if every
-- deployment of the booted OS has a commit that can be loaded and has the time 0.
pub get_advertisable_commit-IsNewest :
    (s : Sysroot) (booted : Deployment) (path : String)
    → ReportsErrors s
    → s.repo ≡ ok tt
    → get_booted_deployment_from_loaded_sysroot s ≡ ok booted
    → s.ostree_path booted.osname ≡ ok path
    → IsNewest s booted.osname (get_advertisable_commit s)
      × (All (AtZero s booted.osname) s.deployments → get_advertisable_commit s ≡ none)
unfolding get_advertisable_commit
get_advertisable_commit-IsNewest s booted path reports r b p =
    let search : get_advertisable_commit s ≡ search_newest s booted.osname path =
      ap
        (λ r. or_return r (λ _.
          or_return (get_booted_deployment_from_loaded_sysroot s)
            (λ d. or_return (s.ostree_path d.osname) (λ path. search_newest s d.osname path))))
        r
      ∙ ap
          (λ r. or_return r (λ (d : Deployment).
            or_return (s.ostree_path d.osname) (λ path. search_newest s d.osname path)))
          b
      ∙ ap (λ r. or_return r (λ path. search_newest s booted.osname path)) p in
    (
      subst (IsNewest s booted.osname) (sym search)
          (search_newest-IsNewest s booted.osname reports path),
      λ a. search ∙ search_newest_zero s booted.osname path a,
    )
