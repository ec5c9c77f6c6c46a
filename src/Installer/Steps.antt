-- ===== src/Installer/Steps.antt =====
-- The rounds of the loop of eufi_apply_flatpak_ref_actions, one for each way an action ends.
use eos_updater.Prelude.{Bool, false, List, [], ◌∷◌, ◌≡◌}
use eos_updater.Errors.{ErrorCode}
use eos_updater.Actions.{Action}
use eos_updater.Actions.Progress.{Progresses}
use eos_updater.Installer.{
  Mode, Flatpak, Outcome, done, failed, aborted, CounterFile, update_counter, record_progress,
  Applied, attempt, violates, apply_loop,
}

module _ {W : Type 0} (flatpak : Flatpak W) (file : CounterFile) (mode : Mode)
    (also_pull : Bool) where
  -- The actions from the first that does not succeed on.
  unfoldable pub remaining : W → List Action → List Action
  remaining w [] = []
  remaining w (a ∷ rest) =
      let (w', outcome) = attempt flatpak file mode also_pull w a in
      let later = remaining w' rest in elim outcome [ done ↦ later | _ ↦ a ∷ rest ]

  module _ (w : W) (new : Progresses) (a : Action) (rest : List Action)
      (allowed : violates flatpak file mode also_pull a ≡ false) where
    abbrev pub next : W
    next = (attempt flatpak file mode also_pull w a).0

    abbrev pub ending : Outcome
    ending = (attempt flatpak file mode also_pull w a).1

    abbrev pub run : Applied W
    run = apply_loop flatpak file mode also_pull w new (a ∷ rest)

    pub run_done :
        ending ≡ done
        → run ≡ apply_loop flatpak file mode also_pull next (record_progress a new) rest
    unfolding apply_loop
    run_done e = rw (allowed, e, apply_loop)

    pub run_failed :
        (x : ErrorCode)
        → ending ≡ failed x
        → run ≡ record { world = next; counter = update_counter file new; outcome = failed x }
    unfolding apply_loop
    run_failed x e = rw (allowed, e, apply_loop)

    pub run_aborted : ending ≡ aborted → run.outcome ≡ aborted
    unfolding apply_loop
    run_aborted e = rw (allowed, e, apply_loop)

    pub remaining_done : ending ≡ done → remaining w (a ∷ rest) ≡ remaining next rest
    unfolding remaining
    remaining_done e = rw (e, remaining)

    pub remaining_failed : (x : ErrorCode) → ending ≡ failed x → remaining w (a ∷ rest) ≡ a ∷ rest
    unfolding remaining
    remaining_failed x e = rw (e, remaining)

    pub remaining_aborted : ending ≡ aborted → remaining w (a ∷ rest) ≡ a ∷ rest
    unfolding remaining
    remaining_aborted e = rw (e, remaining)
