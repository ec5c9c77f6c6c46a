-- ===== src/Transaction.antt =====
-- libeos-updater-util/flatpak-util.c: transactions with one operation, and the error that they report
-- (transaction_operation_error, transaction_run_single_op, euu_flatpak_transaction_install,
-- euu_flatpak_transaction_update, euu_flatpak_transaction_uninstall).
pub mod Laws
mod Tests
use eos_updater.Actions.{FlatpakRef}
use eos_updater.Fetch.Flatpaks.{Transactions}
use eos_updater.Prelude.{
  ◌&&◌, not, List, [], ◌∷◌, true, false, none, some, Option, Bool, String, if◌then◌else◌,
}
use eos_updater.Errors.{ErrorCode, is_skipped}

pub data Operation : Type 0 where
  op_install : String → FlatpakRef → Operation
  op_update : FlatpakRef → Operation
  op_uninstall : FlatpakRef → Operation

-- A FlatpakTransaction with its one operation, as it is set up.
pub record Transaction : Type 0 where
  pub operation : Operation
  pub no_interaction : Bool
  pub no_deploy : Bool
  pub no_pull : Bool
  pub disable_prune : Bool

-- What the signal `operation-error` carries.
pub record OperationError : Type 0 where
  pub code : ErrorCode
  pub non_fatal : Bool

-- libflatpak: parameters. `new` is flatpak_transaction_new_for_installation and `add` the function
-- that adds the operation, each with its error. A run emits `errors` one after the other, until a
-- handler asks it to abort; `run` is how it then ends, where the Boolean tells whether it was asked.
pub record Libflatpak (W : Type 0) : Type 0 where
  pub new : W → W × Option ErrorCode
  pub add : Operation → W → Option ErrorCode
  pub errors : Transaction → W → List OperationError
  pub run : Transaction → Bool → W → W × Option ErrorCode
  pub lookup_remote_for_collection_id : W → String → Option String

-- The first error is kept.
abbrev pub keep_first : Option ErrorCode → ErrorCode → Option ErrorCode
keep_first none e = some e
keep_first (some f) e = some f

-- Whether the transaction goes on, and the error of the caller.
unfoldable pub transaction_operation_error :
    OperationError → Option ErrorCode → Bool × Option ErrorCode
transaction_operation_error o caller_error =
    if is_skipped o.code
    then (true, caller_error)
    else if o.non_fatal
    then (true, caller_error)
    else (false, keep_first caller_error o.code)

-- The signals of a run: whether it was asked to abort, and the error of the caller.
unfoldable pub emit : List OperationError → Option ErrorCode → Bool × Option ErrorCode
emit [] caller_error = (false, caller_error)
emit (o ∷ rest) caller_error =
    let answer = transaction_operation_error o caller_error in
    let later = emit rest answer.1 in if answer.0 then later else (true, answer.1)

-- The error of the operation is preferred to the one of the transaction.
abbrev pub preferred : Option ErrorCode → Option ErrorCode → Option ErrorCode
preferred operation_error none = none
preferred none (some e) = some e
preferred (some f) (some e) = some f

module _ {W : Type 0} (lib : Libflatpak W) where
  unfoldable pub transaction_run_single_op : Transaction → W → W × Option ErrorCode
  transaction_run_single_op t w =
      let signalled = emit (lib.errors t w) none in
      let ended = lib.run t signalled.0 w in (ended.0, preferred signalled.1 ended.1)

  abbrev pub added : Transaction → W → Option ErrorCode → W × Option ErrorCode
  added t w (some e) = (w, some e)
  added t w none = transaction_run_single_op t w

  abbrev pub made : Transaction → W × Option ErrorCode → W × Option ErrorCode
  made t (w, some e) = (w, some e)
  made t (w, none) = added t w (lib.add t.operation w)

  -- What the three functions have in common.
  unfoldable pub perform : Transaction → W → W × Option ErrorCode
  perform t w = made t (lib.new w)

  abbrev pub install_of : String → FlatpakRef → Bool → Bool → Transaction
  install_of remote ref no_deploy no_pull = record {
    operation = op_install remote ref;
    no_interaction = true;
    no_deploy = no_deploy;
    no_pull = no_pull;
    disable_prune = false;
  }

  abbrev pub update_of : FlatpakRef → Bool → Bool → Bool → Transaction
  update_of ref no_deploy no_pull no_prune = record {
    operation = op_update ref;
    no_interaction = true;
    no_deploy = no_deploy;
    no_pull = no_pull;
    disable_prune = no_prune;
  }

  -- `none` is a precondition that is not met: the functions return with no error set.
  unfoldable pub transaction_install :
      String → FlatpakRef → Bool → Bool → W → Option (W × Option ErrorCode)
  transaction_install remote ref no_deploy no_pull w =
      if no_deploy && no_pull
      then none
      else some (perform (install_of remote ref no_deploy no_pull) w)

  unfoldable pub transaction_update :
      FlatpakRef → Bool → Bool → Bool → W → Option (W × Option ErrorCode)
  transaction_update ref no_deploy no_pull no_prune w =
      if no_deploy && no_pull
      then none
      else some (perform (update_of ref no_deploy no_pull no_prune) w)

  unfoldable pub transaction_uninstall : FlatpakRef → Bool → W → W × Option ErrorCode
  transaction_uninstall ref no_prune w =
      perform
        (record {
          operation = op_uninstall ref;
          no_interaction = true;
          no_deploy = false;
          no_pull = false;
          disable_prune = no_prune;
        })
        w

  -- The transactions of a fetch: it pulls, and does not prune after an update.
  abbrev pub fetch_transactions : Transactions W
  fetch_transactions = record {
    install_ref = λ w remote ref no_deploy. perform (install_of remote ref no_deploy false) w;
    update_ref = λ w ref no_deploy. perform (update_of ref no_deploy false true) w;
    lookup_remote_for_collection_id = lib.lookup_remote_for_collection_id;
  }
