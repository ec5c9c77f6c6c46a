-- ===== src/Poll/Check/Laws.antt =====
-- eos-updater/poll.c: the checks end, and what they find is an update.
use eos_updater.Run.{look_up-Ensures, finished, >>ᵣ-Ensures, Ensures}
use eos_updater.Poll.Finders.{Finder}
use eos_updater.Sysroot.{get_booted_deployment_from_loaded_sysroot, Deployment}
use eos_updater.Poll.Update.Laws.{is_checksum_an_update-later}
use eos_updater.Poll.Check.{
  check_for_update_following_checkpoint_commits, check_for_update_using_booted_branch, check_ref,
  check_for_update_following_checkpoint_if_allowed, ref_info, UpdateRefInfo,
}
use eos_updater.Poll.Latest.Ends.{fetch_latest_commit-Ensures, Settled, Falls, Parses}
use eos_updater.Poll.Refspec.{
  get_ref_to_upgrade_on_from_deployment, collection_of, upgrade_on, get_booted_refspec_from_default,
  get_refspec_to_upgrade_on, named, origin_refspec, get_booted_refspec, Refspec, System,
}
use eos_updater.Poll.Latest.{fetch_latest_commit, Latest, refspec_of, Ostree}
use eos_updater.Poll.Update.{Verdict, Commit, is_checksum_an_update, Repo}
use mathlib.Core.Path.{subst, sym}
use eos_updater.Prelude.{◌<◌, List, none, some, Option, String, ℕ, ◌≡◌, ◌≢◌, inl, inr, refl, arith}
use eos_updater.Errors.{>>=-eq-ok, Result-cases}
use eos_updater.Errors.{ok, ◌>>=◌}

-- The commit is in the repository and is not the booted one.
abbrev pub IsUpdate : Repo → String → Commit → Type 0
IsUpdate repo checksum commit =
    (repo.load_commit checksum ≡ ok commit) × (repo.booted_checksum ≢ ok checksum)

module _ {W : Type 0} (ostree : Ostree W) where
  -- A refspec that names a remote is remote:ref; every other ref of that remote is taken apart in
  -- the same way, or refused; the remote's redirections lower the rank; and the fuel is above every
  -- rank.
  abbrev pub Descends : (String → ℕ) → ℕ → Type 0
  Descends rank fuel =
      ((refspec remote ref : String)
        → ostree.parse_refspec refspec ≡ ok (some remote, ref)
        → (refspec ≡ refspec_of remote ref) × Parses ostree remote × Falls ostree remote rank)
      × ((ref : String) → rank ref < fuel)

  abbrev pub Found : Option UpdateRefInfo → W → Type 0
  Found none w = Unit
  Found (some u) w = IsUpdate (ostree.repo w) u.checksum u.commit

  abbrev pub WellFormed : (String → ℕ) → Refspec → Type 0
  WellFormed rank r =
      (r.refspec ≡ refspec_of r.remote r.ref) × Parses ostree r.remote × Falls ostree r.remote rank

  update_lem :
      (repo : Repo) (checksum : String) (a b : Option String) (v : Verdict) (c : Commit)
      → is_checksum_an_update repo checksum a b ≡ ok v
      → v.commit ≡ some c
      → IsUpdate repo checksum c
  unfolding is_checksum_an_update
  update_lem repo checksum a b v c h e = elim (Result-cases repo.booted_checksum) [
    | inl (booted, f) ↦
        let later = is_checksum_an_update-later repo checksum booted a b v c f h e in
        (later.1, λ g. later.0 (ground arith))
    | inr (inl (x, f)) ↦ absurd (ground arith)
    | inr (inr f) ↦ absurd (ground arith)
  ]

  ref_info-Found :
      (replace : String → String → String → String) (booted : String) (on : Refspec) (l : Latest)
      (v : Verdict) (w : W)
      → ((c : Commit) → v.commit ≡ some c → IsUpdate (ostree.repo w) l.checksum c)
      → Found (ref_info replace booted on l v) w
  ref_info-Found replace booted on l v w h = go v.commit h
    where
      go :
          (o : Option Commit)
          → ((c : Commit) → o ≡ some c → IsUpdate (ostree.repo w) l.checksum c)
          → Found (ref_info replace booted on l (record v { commit = o })) w
      go none h = tt
      go (some c) h = h c refl

  module _ (system : System W) where
    get_booted_refspec-WellFormed :
        (rank : String → ℕ) (fuel : ℕ)
        → Descends rank fuel
        → (d : Deployment) (w : W) (b : Refspec) → get_booted_refspec ostree system d w ≡ ok b
        → WellFormed rank b
    unfolding get_booted_refspec
    get_booted_refspec-WellFormed rank fuel s d w b h =
        let (refspec, _, h1) = >>=-eq-ok (origin_refspec d.origin) _ h in
        let (names, e, h2) = >>=-eq-ok (ostree.parse_refspec refspec) _ h1 in
        parts refspec names.0 names.1 e h2
      where
        parts :
            (refspec : String) (remote : Option String) (ref : String)
            → ostree.parse_refspec refspec ≡ ok (remote, ref)
            → named remote (λ remote. system.local_repo w >>= λ _.
                ostree.remote_collection_id remote w >>= λ id. ok (record {
                  refspec = refspec;
                  remote = remote;
                  ref = ref;
                  collection_ref = collection_of ref id;
                }))
              ≡ ok b
            → WellFormed rank b
        parts refspec none ref e h = cc
        parts refspec (some remote) ref e h =
            let (_, _, h1) = >>=-eq-ok (system.local_repo w) _ h in
            let (id, _, h2) = >>=-eq-ok (ostree.remote_collection_id remote w) _ h1 in
            let k : record {
              refspec = refspec;
              remote = remote;
              ref = ref;
              collection_ref = collection_of ref id;
            }
                ≡ b =
              ground arith in
            subst (WellFormed rank) k (s.0 refspec remote ref e)

    from_default-WellFormed :
        (rank : String → ℕ) (fuel : ℕ)
        → Descends rank fuel
        → (w : W) (b : Refspec) → get_booted_refspec_from_default ostree system w ≡ ok b
        → WellFormed rank b
    unfolding get_booted_refspec_from_default
    from_default-WellFormed rank fuel s w b h =
        let (sysroot, _, h1) = >>=-eq-ok (system.sysroot w) _ h in
        let (d, _, h2) = >>=-eq-ok (get_booted_deployment_from_loaded_sysroot sysroot) _ h1 in
        get_booted_refspec-WellFormed rank fuel s d w b h2

    upgrade_on-WellFormed :
        (rank : String → ℕ) (b : Refspec) (o : Option String)
        → WellFormed rank b
        → WellFormed rank (upgrade_on b o)
    upgrade_on-WellFormed rank b none h = h
    upgrade_on-WellFormed rank b (some ref) h = (refl, h.1, h.2)

    to_upgrade_on-WellFormed :
        (rank : String → ℕ) (fuel : ℕ)
        → Descends rank fuel
        → (w : W) (b : Refspec) → get_refspec_to_upgrade_on ostree system w ≡ ok b
        → WellFormed rank b
    unfolding get_refspec_to_upgrade_on
    to_upgrade_on-WellFormed rank fuel s w b h =
        let (sysroot, _, h1) = >>=-eq-ok (system.sysroot w) _ h in
        let (d, _, h2) = >>=-eq-ok (get_booted_deployment_from_loaded_sysroot sysroot) _ h1 in
        let (booted, e, h3) = >>=-eq-ok (get_booted_refspec ostree system d w) _ h2 in
        let (o, _, h4) =
          >>=-eq-ok (get_ref_to_upgrade_on_from_deployment ostree system sysroot d w) _ h3 in
        let k : upgrade_on booted o ≡ b = ground arith in
        subst (WellFormed rank) k (
          upgrade_on-WellFormed rank booted o
            (get_booted_refspec-WellFormed rank fuel s d w booted e))

    check_ref-Ensures :
        (replace : String → String → String → String) (rank : String → ℕ) (fuel : ℕ)
        → Descends rank fuel
        → (finders : Option (List Finder)) (booted on : Refspec) (w : W) → WellFormed rank on
        → Ensures Found (check_ref ostree system replace fuel finders booted on w)
    unfolding check_ref
    check_ref-Ensures replace rank fuel s finders booted on w h =
        >>ᵣ-Ensures (Settled ostree on.remote) Found _ _
          (subst
            (λ r.
              Ensures (Settled ostree on.remote)
                (fetch_latest_commit ostree fuel none finders r on.collection_ref w))
            (sym h.0)
            (fetch_latest_commit-Ensures ostree on.remote h.1 rank h.2 fuel none finders on.ref
              on.collection_ref w (s.1 on.ref)))
          (λ latest w _.
            look_up-Ensures Found (ostree.parse_refspec latest.new_refspec) w _ (λ names _.
              look_up-Ensures Found
                (is_checksum_an_update (ostree.repo w) latest.checksum (some booted.ref)
                  (some names.1))
                w _
                (λ v e. ref_info-Found replace booted.refspec on latest v w (λ c f.
                  update_lem (ostree.repo w) latest.checksum (some booted.ref) (some names.1) v c e
                    f))))

    -- Where redirections descend, checking for an update ends without a failed assertion, and what
    -- it finds is a commit of the local repository that is not the booted one.
    pub check_for_update-Ensures :
        (replace : String → String → String → String) (rank : String → ℕ) (fuel : ℕ)
        → Descends rank fuel
        → (finders : Option (List Finder)) (w : W)
        → Ensures Found
            (check_for_update_following_checkpoint_if_allowed ostree system replace fuel finders w)
    unfolding check_for_update_following_checkpoint_if_allowed check_for_update_using_booted_branch
        check_for_update_following_checkpoint_commits
    check_for_update-Ensures replace rank fuel s finders w =
        >>ᵣ-Ensures Found Found _ _
          (look_up-Ensures Found (get_booted_refspec_from_default ostree system w) w _ (λ b e.
            check_ref-Ensures replace rank fuel s finders b b w
              (from_default-WellFormed rank fuel s w b e)))
          otherwise
      where
        otherwise :
            (o : Option UpdateRefInfo) (w : W)
            → Found o w
            → Ensures Found (elim o [
              | some info ↦ finished (ok (some info)) w
              | none ↦
                  check_for_update_following_checkpoint_commits ostree system replace fuel finders w
            ])
        otherwise (some info) w h = h
        otherwise none w h =
            look_up-Ensures Found (get_booted_refspec_from_default ostree system w) w _ (λ b _.
              look_up-Ensures Found (get_refspec_to_upgrade_on ostree system w) w _ (λ on e.
                check_ref-Ensures replace rank fuel s finders b on w
                  (to_upgrade_on-WellFormed rank fuel s w on e)))
