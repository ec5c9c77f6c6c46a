-- ===== src/Installer/Check.antt =====
-- eufi_check_ref_actions_applied against what it checks.
use eos_updater.Prelude.{
  ◌≢◌, true, false, Option, none, some, List, [], ◌∷◌, ◌≡◌, refl, ◌↔◌, arith, All,
}
use eos_updater.Errors.{ErrorCode, ok, is_not_installed}
use eos_updater.Actions.{Action, ActionType, install, uninstall, update}
use eos_updater.Installer.{
  installed_or_error, delta_value, delta_of, Flatpak, deltas_loop, check_ref_actions_applied,
}

module _ {W : Type 0} (flatpak : Flatpak W) (w : W) where
  -- What an action should have led to.
  abbrev Effect : ActionType → Option ErrorCode → Type 0
  Effect install found = found ≡ none
  Effect uninstall found = (e : ErrorCode) × (found ≡ some e) × (is_not_installed e ≡ true)
  Effect update found = Unit

  abbrev pub IsApplied : Action → Type 0
  IsApplied a = Effect a.type (flatpak.get_installed_ref w a.location.ref)

  delta_value-false_iff :
      (t : ActionType) (found : Option ErrorCode)
      → (delta_value t (installed_or_error found) ≡ ok false) ↔ Effect t found
  delta_value-false_iff install none = (λ h. refl, λ h. refl)
  delta_value-false_iff install (some e) = ground arith
  delta_value-false_iff uninstall none = (λ h. cc, λ h. ground arith)
  delta_value-false_iff uninstall (some e) = (λ h. (e, refl, ground arith), λ h. ground arith)
  delta_value-false_iff update found = (λ h. tt, λ h. refl)

  delta_of-false_iff : (a : Action) → (delta_of flatpak w a ≡ ok false) ↔ IsApplied a
  unfolding delta_of
  delta_of-false_iff a = delta_value-false_iff a.type (flatpak.get_installed_ref w a.location.ref)

  -- A delta that was found is never dropped.
  deltas_loop_kept :
      (d : Action) (deltas l : List Action) → deltas_loop flatpak w (d ∷ deltas) l ≢ ok []
  unfolding deltas_loop
  deltas_loop_kept d deltas [] = cc
  deltas_loop_kept d deltas (a ∷ l) =
      ground (arith, deltas_loop_kept d deltas l, deltas_loop_kept a (d ∷ deltas) l)

  deltas_loop-nil_iff : (l : List Action) → (deltas_loop flatpak w [] l ≡ ok []) ↔ All IsApplied l
  unfolding deltas_loop
  deltas_loop-nil_iff [] = (λ h. tt, λ h. refl)
  deltas_loop-nil_iff (a ∷ l) = (
    λ h. (
      (delta_of-false_iff a).0 (ground (arith, deltas_loop_kept a [] l)),
      (deltas_loop-nil_iff l).0 (ground (arith, deltas_loop_kept a [] l)),
    ),
    λ h. rw ((delta_of-false_iff a).1 h.0, deltas_loop) ((deltas_loop-nil_iff l).1 h.1),
  )

  -- The check passes exactly when every installed ref is there and every uninstalled one is found
  -- not to be; an action that updates asks for nothing.
  pub check_ref_actions_applied_iff :
      (actions : List Action)
      → (check_ref_actions_applied flatpak w actions ≡ ok tt) ↔ All IsApplied actions
  unfolding check_ref_actions_applied
  check_ref_actions_applied_iff actions = ground (arith, deltas_loop-nil_iff actions)
