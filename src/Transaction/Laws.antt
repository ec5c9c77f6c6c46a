-- ===== src/Transaction/Laws.antt =====
-- libeos-updater-util/flatpak-util.c: which error a transaction reports, and what a fetch deploys.
use eos_updater.Prelude.{
  ap, List, [], ◌∷◌, true, false, none, some, Option, Bool, String, ◌≡◌, inl, inr, refl, Bool-cases,
}
use eos_updater.Errors.{ErrorCode}
use eos_updater.Errors.{is_skipped}
use eos_updater.Run.{Leaves}
use eos_updater.Prelude.{◌&&◌, not, is_some, filter, All, ◌∙◌}
use eos_updater.Transaction.{
  OperationError, transaction_operation_error, emit, preferred, Libflatpak, Transaction,
  transaction_run_single_op, added, made, perform, install_of, update_of, transaction_install,
  transaction_update, fetch_transactions,
}
use eos_updater.Fetch.Flatpaks.{pull_flatpaks}
use eos_updater.Fetch.Flatpaks.Undeployed.{pull_flatpaks-deployed, IsWaiting}
use eos_updater.Actions.{Action, FlatpakRef}

-- Neither skipped nor marked as not fatal.
abbrev pub is_fatal : OperationError → Bool
is_fatal o = not (is_skipped o.code) && not o.non_fatal

abbrev first : List OperationError → Option ErrorCode
first [] = none
first (o ∷ _) = some o.code

abbrev pub first_fatal : List OperationError → Option ErrorCode
first_fatal l = first (filter is_fatal l)

abbrev pub or_this : ErrorCode → Option ErrorCode → ErrorCode
or_this e none = e
or_this e (some f) = f

abbrev pub map_error : (ErrorCode → ErrorCode) → Option ErrorCode → Option ErrorCode
map_error f none = none
map_error f (some e) = some (f e)

-- Emitting ends with the first fatal error, which is then the one that is kept.
emit-first_fatal :
    (l : List OperationError) → emit l none ≡ (is_some (first_fatal l), first_fatal l)
unfolding emit transaction_operation_error
emit-first_fatal [] = refl
emit-first_fatal (o ∷ l) = elim (Bool-cases (is_skipped o.code)) [
  | inl s ↦ rw s (emit-first_fatal l)
  | inr s ↦ elim (Bool-cases o.non_fatal) [
    | inl n ↦ rw (s, n) (emit-first_fatal l)
    | inr n ↦ rw (s, n) refl
  ]
]

module _ {W : Type 0} (lib : Libflatpak W) where
  -- A run is asked to abort exactly if one of the errors that it emits is neither skipped nor marked
  -- as not fatal. If it succeeds no error is reported; if it fails, the first such error is, or the
  -- error of the transaction if there is none.
  pub transaction_run_single_op-first_fatal :
      (t : Transaction) (w : W)
      → let fatal = first_fatal (lib.errors t w) in
        let ended = lib.run t (is_some fatal) w in
        transaction_run_single_op lib t w ≡ (ended.0, map_error (λ e. or_this e fatal) ended.1)
  unfolding transaction_run_single_op
  transaction_run_single_op-first_fatal t w = rw (emit-first_fatal (lib.errors t w)) (
      ap (λ o. ((lib.run t (is_some (first_fatal (lib.errors t w))) w).0, o))
        (by_errors (first_fatal (lib.errors t w))
          (lib.run t (is_some (first_fatal (lib.errors t w))) w).1))
    where
      by_errors : (f o : Option ErrorCode) → preferred f o ≡ map_error (λ e. or_this e f) o
      by_errors none none = refl
      by_errors none (some e) = refl
      by_errors (some f) none = refl
      by_errors (some f) (some e) = refl

  module _ {D : Type 0} (deployed : W → D) where
    -- Making a transaction deploys nothing, nor does running one that is set not to deploy.
    abbrev pub IsFaithful : Type 0
    IsFaithful =
        ((w : W) → deployed (lib.new w).0 ≡ deployed w)
        × ((t : Transaction) (aborted : Bool) (w : W)
            → t.no_deploy ≡ true
            → deployed (lib.run t aborted w).0 ≡ deployed w)

    perform-deployed :
        IsFaithful
        → (t : Transaction) (w : W) → t.no_deploy ≡ true
        → deployed (perform lib t w).0 ≡ deployed w
    unfolding perform transaction_run_single_op
    perform-deployed faithful t w n = by_made (lib.new w) (faithful.0 w)
      where
        by_added :
            (v : W) (o : Option ErrorCode)
            → deployed v ≡ deployed w
            → deployed (added lib t v o).0 ≡ deployed w
        by_added v none h = faithful.1 t _ v n ∙ h
        by_added v (some e) h = h

        by_made :
            (p : W × Option ErrorCode)
            → deployed p.0 ≡ deployed w
            → deployed (made lib t p).0 ≡ deployed w
        by_made (v, none) h = by_added v (lib.add t.operation v) h
        by_made (v, some e) h = h

    -- With libflatpak deploying nothing when it makes a transaction or runs one that is set not to
    -- deploy: a fetch that prepares flatpaks of which none is a dependency, and of which those to
    -- install have a remote, returns, and however it ends, nothing that is deployed has changed.
    pub pull_flatpaks_run-deployed :
        IsFaithful
        → (l : List Action) → All (IsWaiting (fetch_transactions lib) deployed) l
        → (w : W)
        → Leaves (λ v. deployed v ≡ deployed w) (pull_flatpaks (fetch_transactions lib) l w)
    pull_flatpaks_run-deployed faithful l waiting w =
        pull_flatpaks-deployed (fetch_transactions lib) deployed
          (
            (λ w remote ref.
                perform-deployed faithful (install_of lib remote ref true false) w refl),
            (λ w ref. perform-deployed faithful (update_of lib ref true false true) w refl),
          )
          l waiting w

  -- The precondition is met wherever a fetch installs or updates.
  pub install_ref-transaction_install :
      (w : W) (remote : String) (ref : FlatpakRef) (no_deploy : Bool)
      → transaction_install lib remote ref no_deploy false w
        ≡ some ((fetch_transactions lib).install_ref w remote ref no_deploy)
  unfolding transaction_install
  install_ref-transaction_install w remote ref true = refl
  install_ref-transaction_install w remote ref false = refl

  pub update_ref-transaction_update :
      (w : W) (ref : FlatpakRef) (no_deploy : Bool)
      → transaction_update lib ref no_deploy false true w
        ≡ some ((fetch_transactions lib).update_ref w ref no_deploy)
  unfolding transaction_update
  update_ref-transaction_update w ref true = refl
  update_ref-transaction_update w ref false = refl
