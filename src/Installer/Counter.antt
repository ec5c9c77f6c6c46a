-- ===== src/Installer/Counter.antt =====
-- What the counter records when the installer stops, and what it leaves for the next run.
use eos_updater.Prelude.{
  ◌↔◌, ◌∙◌, Bool-cases, inr, ◌≢◌, inl, String, Bool, true, false, Option, some, List, [], ◌∷◌, ℤ,
  str_equal, ◌≡◌, refl, ap, arith, filter, All,
}
use eos_updater.Errors.{ok}
use eos_updater.Actions.{Action}
use eos_updater.Actions.Progress.{keep_only_new_actions, Progresses}
use eos_updater.Actions.Progress.Laws.{keep_only-eq-filter, is_new, filter-eq_self}
use eos_updater.Installer.{
  apply_flatpak_ref_actions, Mode, Flatpak, Outcome, done, failed, aborted, CounterFile,
  no_progress, overwrite, update_counter, record_progress, Applied, attempt, violates, apply_loop,
}
use eos_updater.Installer.Pending.{
  from, IsPast, NotBelow, NotBelow-refl, NotBelow-trans, drop_old, IsPast-All_new,
  IsPast-IsAscending, Outcome-cases, IsWritable, update_counter_of_IsWritable,
}
use eos_updater.Installer.Steps.{
  remaining_aborted, remaining, next, run_done, run_failed, run_aborted, remaining_done,
  remaining_failed,
}

module _ {W : Type 0} (flatpak : Flatpak W) (file : CounterFile) (mode : Mode)
    (also_pull : Bool) where
  module _ (recorded : Progresses) (writable : IsWritable file recorded) (name : String) where
    -- Where the counter stands for one file.
    abbrev Leaves : Option ℤ → Applied W → List Action → List Action → Type 0
    Leaves o applied l left =
        (c : Progresses) × (applied.counter ≡ ok c)
        × NotBelow o (c name)
        × (filter (is_new (c name)) (from name l) ≡ from name left)

    Leaves-all :
        (w : W) (o : Outcome) (new : Progresses) (l : List Action)
        → IsPast (overwrite recorded new name) (from name l)
        → Leaves
            (overwrite recorded new name)
            (record { world = w; counter = update_counter file new; outcome = o })
            l
            l
    Leaves-all w o new l past = (
      overwrite recorded new,
      update_counter_of_IsWritable file recorded new writable,
      NotBelow-refl (overwrite recorded new name),
      filter-eq_self (is_new (overwrite recorded new name)) (from name l)
          (IsPast-All_new (overwrite recorded new name) (from name l) past),
    )

    -- An action that is done: the counter moves to its serial, for its own file only.
    Leaves-own :
        (a : Action) (o : Option ℤ) (applied : Applied W) (rest left : List Action)
        → str_equal a.source name ≡ true
        → is_new o a ≡ true
        → Leaves (some a.serial) applied rest left
        → Leaves o applied (a ∷ rest) left
    Leaves-own a o applied rest left own fresh (c, written, above, kept) = (
      c,
      written,
      NotBelow-trans o a (c name) fresh above,
      rw own (drop_old a (c name) (from name rest) above ∙ kept),
    )

    Leaves-other :
        (a : Action) (o : Option ℤ) (applied : Applied W) (rest left : List Action)
        → str_equal a.source name ≡ false
        → Leaves o applied rest left
        → Leaves o applied (a ∷ rest) left
    Leaves-other a o applied rest left other (c, written, above, kept) =
        (c, written, above, rw other kept)

    overwrite_own :
        (a : Action) (new : Progresses)
        → str_equal a.source name ≡ true
        → overwrite recorded (record_progress a new) name ≡ some a.serial
    overwrite_own a new own = ground arith

    overwrite_other :
        (a : Action) (new : Progresses)
        → str_equal a.source name ≡ false
        → overwrite recorded (record_progress a new) name ≡ overwrite recorded new name
    overwrite_other a new other = ground arith

    Leaves-done :
        (a : Action) (new : Progresses) (rest left : List Action) (applied : Applied W)
        → IsPast (overwrite recorded new name) (from name (a ∷ rest))
        → (IsPast (overwrite recorded (record_progress a new) name) (from name rest)
            → Leaves (overwrite recorded (record_progress a new) name) applied rest left)
        → Leaves (overwrite recorded new name) applied (a ∷ rest) left
    Leaves-done a new rest left applied past ih = elim (Bool-cases (str_equal a.source name)) [
      | inl own ↦
          let ih' = rw (overwrite_own a new own) at ih in
          Leaves-own a (overwrite recorded new name) applied rest left own (rw own at past).0
            (ih' (rw own at past).1)
      | inr other ↦
          let ih' = rw (overwrite_other a new other) at ih in
          Leaves-other a (overwrite recorded new name) applied rest left other
            (ih' (rw other at past))
    ]

    apply_loop-Leaves_nil :
        (w : W) (new : Progresses)
        → IsPast (overwrite recorded new name) (from name [])
        → Leaves
            (overwrite recorded new name)
            (apply_loop flatpak file mode also_pull w new [])
            []
            (remaining flatpak file mode also_pull w [])
    unfolding apply_loop remaining
    apply_loop-Leaves_nil w new past =
        Leaves-all w (apply_loop flatpak file mode also_pull w new []).outcome new [] past

    apply_loop-Leaves :
        (w : W) (new : Progresses) (l : List Action)
        → All (λ a. violates flatpak file mode also_pull a ≡ false) l
        → (apply_loop flatpak file mode also_pull w new l).outcome ≢ aborted
        → IsPast (overwrite recorded new name) (from name l)
        → Leaves
            (overwrite recorded new name)
            (apply_loop flatpak file mode also_pull w new l)
            l
            (remaining flatpak file mode also_pull w l)
    apply_loop-Leaves w new [] allowed ran past = apply_loop-Leaves_nil w new past
    apply_loop-Leaves w new (a ∷ rest) allowed ran past =
        elim (Outcome-cases (attempt flatpak file mode also_pull w a).1) [
          | inl e ↦
              rw
                (
                  run_done flatpak file mode also_pull w new a rest allowed.0 e,
                  remaining_done flatpak file mode also_pull w new a rest allowed.0 e,
                )
                (Leaves-done a new rest
                  (remaining flatpak file mode also_pull
                    (next flatpak file mode also_pull w new a rest allowed.0) rest)
                  (apply_loop flatpak file mode also_pull
                    (next flatpak file mode also_pull w new a rest allowed.0)
                    (record_progress a new) rest)
                  past
                  (apply_loop-Leaves (next flatpak file mode also_pull w new a rest allowed.0)
                    (record_progress a new) rest allowed.1
                    (λ k. ran (
                      ap (λ r. r.outcome)
                        (run_done flatpak file mode also_pull w new a rest allowed.0 e)
                      ∙ k))))
          | inr (inl (x, e)) ↦
              rw
                (
                  run_failed flatpak file mode also_pull w new a rest allowed.0 x e,
                  remaining_failed flatpak file mode also_pull w new a rest allowed.0 x e,
                )
                (Leaves-all (next flatpak file mode also_pull w new a rest allowed.0) (failed x) new
                  (a ∷ rest) past)
          | inr (inr e) ↦
              absurd (ran (run_aborted flatpak file mode also_pull w new a rest allowed.0 e))
        ]

  module _ (recorded : Progresses) (writable : IsWritable file recorded) where
    apply_loop-done_nil :
        (w : W) (new : Progresses)
        → ((apply_loop flatpak file mode also_pull w new []).outcome ≡ done)
          × (remaining flatpak file mode also_pull w [] ≡ [])
    unfolding apply_loop remaining
    apply_loop-done_nil w new = (rw (update_counter_of_IsWritable file recorded new writable), refl)

    apply_loop-done_iff :
        (w : W) (new : Progresses) (l : List Action)
        → All (λ a. violates flatpak file mode also_pull a ≡ false) l
        → ((apply_loop flatpak file mode also_pull w new l).outcome ≡ done)
          ↔ (remaining flatpak file mode also_pull w l ≡ [])
    apply_loop-done_iff w new [] allowed = ground (arith, apply_loop-done_nil w new)
    apply_loop-done_iff w new (a ∷ rest) allowed =
        elim (Outcome-cases (attempt flatpak file mode also_pull w a).1) [
          | inl e ↦
              rw
                (
                  run_done flatpak file mode also_pull w new a rest allowed.0 e,
                  remaining_done flatpak file mode also_pull w new a rest allowed.0 e,
                )
                (apply_loop-done_iff (next flatpak file mode also_pull w new a rest allowed.0)
                  (record_progress a new) rest allowed.1)
          | inr (inl (x, e)) ↦
              rw
                (
                  run_failed flatpak file mode also_pull w new a rest allowed.0 x e,
                  remaining_failed flatpak file mode also_pull w new a rest allowed.0 x e,
                )
                (ground arith)
          | inr (inr e) ↦
              rw
                (
                  run_aborted flatpak file mode also_pull w new a rest allowed.0 e,
                  remaining_aborted flatpak file mode also_pull w new a rest allowed.0 e,
                )
                (ground arith)
        ]

module _ {W : Type 0} (flatpak : Flatpak W) (file : CounterFile) (mode : Mode)
    (also_pull : Bool) where
  abbrev applied : W → List Action → Applied W
  applied = apply_flatpak_ref_actions flatpak file mode also_pull

  -- For every autoinstall file the counter that is written, also after a failure, is such that the
  -- actions of the file which the next run takes for new are exactly those from the first action
  -- that did not succeed on. The serials of the file must rise from past its recorded progress,
  -- the counter file must be writable, and no assertion may fail.
  pub apply_flatpak_ref_actions_resumes :
      (recorded : Progresses) (name : String) (w : W) (actions : List Action)
      → IsWritable file recorded
      → All (λ a. violates flatpak file mode also_pull a ≡ false) actions
      → (applied w actions).outcome ≢ aborted
      → IsPast (recorded name) (from name actions)
      → (c : Progresses) × ((applied w actions).counter ≡ ok c)
        × (keep_only_new_actions name (from name actions) c
            ≡ from name (remaining flatpak file mode also_pull w actions))
  unfolding apply_flatpak_ref_actions
  apply_flatpak_ref_actions_resumes recorded name w actions writable allowed ran past =
      let (c, written, above, kept) =
        apply_loop-Leaves flatpak file mode also_pull recorded writable name w no_progress actions
          allowed ran past in
      (
        c,
        written,
        (keep_only-eq-filter name (from name actions) c
              (IsPast-IsAscending (recorded name) (from name actions) past)).0
            ∙ kept,
      )

  -- With a writable counter file, and where no action is a dependency that `also_pull` forbids, the
  -- run succeeds exactly when no action is left over.
  pub apply_flatpak_ref_actions-done_iff :
      (recorded : Progresses) (w : W) (actions : List Action)
      → IsWritable file recorded
      → All (λ a. violates flatpak file mode also_pull a ≡ false) actions
      → ((applied w actions).outcome ≡ done)
        ↔ (remaining flatpak file mode also_pull w actions ≡ [])
  unfolding apply_flatpak_ref_actions
  apply_flatpak_ref_actions-done_iff recorded w actions writable allowed =
      apply_loop-done_iff flatpak file mode also_pull recorded writable w no_progress actions
        allowed
