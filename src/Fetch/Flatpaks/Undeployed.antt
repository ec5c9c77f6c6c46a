-- ===== src/Fetch/Flatpaks/Undeployed.antt =====
-- eos-updater/fetch.c: what a fetch deploys of the flatpaks.
use eos_updater.Fetch.Flatpaks.{
  remember, no_names, candidate, if_agreed, disagrees, ended, or_update, or_missing, Cache,
  perform_update_preparation, pull_loop, transition_loop, perform_action_preparation,
  perform_install_preparation, pull_flatpaks, Transactions,
}
use mathlib.Core.Path.{◌∙◌}
use eos_updater.Run.{>>ᵣ-Leaves, Leaves, finished, ◌>>ᵣ◌}
use eos_updater.Actions.{
  LocationRef, is_update_or_install, ActionType, is_install, Action, FlatpakRef, install, update,
  uninstall,
}
use eos_updater.Prelude.{
  ℤ, All, List, [], ◌∷◌, true, false, none, some, Option, Bool, String, ℕ, ◌≡◌, ◌≢◌, inl, inr, refl,
  arith, if◌then◌else◌, Bool-cases, Option-cases,
}
use eos_updater.Errors.{is_already_installed, is_not_installed, ErrorCode}
use eos_updater.Errors.{Result, ok, err, unset}

module _ {W : Type 0} {D : Type 0} (transactions : Transactions W) (deployed : W → D) where
  -- A transaction without deployment does not change what is deployed, also where it fails.
  abbrev pub RespectsNoDeploy : Type 0
  RespectsNoDeploy =
      ((w : W) (remote : String) (ref : FlatpakRef)
        → deployed (transactions.install_ref w remote ref true).0 ≡ deployed w)
      × ((w : W) (ref : FlatpakRef) → deployed (transactions.update_ref w ref true).0 ≡ deployed w)

  -- No dependency; and what is installed has a remote.
  abbrev pub IsWaiting : Action → Type 0
  IsWaiting a = (a.is_dependency ≡ false) × (is_install a.type ≡ true → a.location.remote ≢ none)

  module _ (respects : RespectsNoDeploy) (old : D) where
    abbrev Same : W → Type 0
    Same w = deployed w ≡ old

    ended-Same : (r : W × Option ErrorCode) → Same r.0 → Leaves Same (ended transactions r)
    ended-Same (w, none) h = h
    ended-Same (w, some e) h = h

    or_missing-Same :
        (r : W × Option ErrorCode) → Same r.0 → Leaves Same (or_missing transactions r)
    or_missing-Same (w, none) h = h
    or_missing-Same (w, some e) h =
        elim (is_not_installed e)
          as (λ b. Leaves Same (if b then finished (ok tt) w else finished (err e) w)) [
            | true ↦ h
            | false ↦ h
          ]

    or_update-Same :
        (ref : FlatpakRef) (r : W × Option ErrorCode)
        → Same r.0
        → Leaves Same (or_update transactions ref true r)
    or_update-Same ref (w, none) h = h
    or_update-Same ref (w, some e) h =
        elim (is_already_installed e)
          as (λ b. Leaves Same (
            if b
            then ended transactions (transactions.update_ref w ref true)
            else finished (err e) w)) [
              | true ↦ ended-Same (transactions.update_ref w ref true) (respects.1 w ref ∙ h)
              | false ↦ h
            ]

    install-Same :
        (remote : Option String) (ref : FlatpakRef) (w : W)
        → remote ≢ none
        → Same w
        → Leaves Same (perform_install_preparation transactions remote ref false w)
    unfolding perform_install_preparation
    install-Same none ref w n h = absurd (n refl)
    install-Same (some remote) ref w n h =
        or_update-Same ref (transactions.install_ref w remote ref true)
          (respects.0 w remote ref ∙ h)

    perform-Same :
        (type : ActionType) (location : LocationRef) (dependency : Bool) (address : ℕ)
        (source : String) (serial : ℤ)
        → dependency ≡ false
        → (is_install type ≡ true → location.remote ≢ none)
        → (w : W) → Same w
        → Leaves Same (
            perform_action_preparation transactions
              (record {
                address = address;
                type = type;
                location = location;
                source = source;
                serial = serial;
                is_dependency = dependency;
              })
              w)
    unfolding perform_action_preparation perform_update_preparation
    perform-Same install location true address source serial d n w h = cc
    perform-Same install location false address source serial d n w h =
        install-Same location.remote location.ref w (n refl) h
    perform-Same update location true address source serial d n w h = cc
    perform-Same update location false address source serial d n w h =
        or_missing-Same (transactions.update_ref w location.ref true)
          (respects.1 w location.ref ∙ h)
    perform-Same uninstall location dependency address source serial d n w h = h

    pull_loop-Same :
        (l : List Action) (w : W)
        → All IsWaiting l
        → Same w
        → Leaves Same (pull_loop transactions l w)
    unfolding pull_loop
    pull_loop-Same [] w a h = h
    pull_loop-Same (x ∷ l) w a h =
        elim (is_update_or_install x.type)
          as (λ b. Leaves Same (elim b [
            | true ↦
                perform_action_preparation transactions x w >>ᵣ λ _ w. pull_loop transactions l w
            | false ↦ pull_loop transactions l w
          ])) [
            | true ↦
                >>ᵣ-Leaves Same (perform_action_preparation transactions x w) _
                  (perform-Same x.type x.location x.is_dependency x.address x.source x.serial a.0.0
                    a.0.1 w h)
                  (λ _ v g. pull_loop-Same l v a.1 g)
            | false ↦ pull_loop-Same l w a.1 h
          ]

    transition-some :
        (w : W) (c : Cache) (l : List Action)
        → All IsWaiting l
        → transition_loop transactions w c l ≢ none
    unfolding transition_loop
    transition-some w c [] a h = cc
    transition-some w c (x ∷ l) a h = elim (Bool-cases (is_install x.type)) [
      | inr i ↦ transition-some w c l a.1 (ground arith)
      | inl i ↦ elim (Option-cases x.location.remote) [
        | inl n ↦ a.0.1 i n
        | inr (remote, e) ↦
            elim (Bool-cases
              (disagrees remote (candidate transactions w c x.location.collection_id))) [
                | inl d ↦ ground arith
                | inr d ↦
                    transition-some w (remember transactions w c x.location.collection_id) l a.1
                      (ground arith)
              ]
      ]
    ]

  pub pull_flatpaks-deployed :
      RespectsNoDeploy
      → (l : List Action) → All IsWaiting l
      → (w : W) → Leaves (λ v. deployed v ≡ deployed w) (pull_flatpaks transactions l w)
  unfolding pull_flatpaks
  pull_flatpaks-deployed respects l a w =
      agreed (transition_loop transactions w no_names l)
        (transition-some respects (deployed w) w no_names l a)
    where
      agreed :
          (o : Option (Result (Unit {0})))
          → o ≢ none
          → Leaves (λ v. deployed v ≡ deployed w) (if_agreed transactions l o w)
      agreed none n = absurd (n refl)
      agreed (some (ok _)) n = pull_loop-Same respects (deployed w) l w a refl
      agreed (some (err e)) n = refl
      agreed (some unset) n = refl
