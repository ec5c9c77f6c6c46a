-- ===== src/Daemon/Handlers/Laws.antt =====
-- The handlers of the D-Bus methods: what a call that is refused leaves alone.
use eos_updater.Daemon.{
  Daemon, set_state_changed, clear_error, data_reset_cancellable, UpdaterState,
}
use eos_updater.Daemon.Handlers.{
  cancel_call, apply, fetch, refused, poll, completed, is_busy, is_update_ready, fetch_full,
  is_update_available, poll_volume, start, handle_cancel, handle_apply, handle_fetch_full, may_poll,
  handle_fetch, handle_poll_volume, handle_poll, Call, handle,
}
use eos_updater.Prelude.{Bool-cases, arith, ◌⊎◌, ◌≡◌, Bool, true, false}
use eos_updater.Errors.{wrong_state}

-- In which states each method is accepted.
abbrev pub accepts : Call → UpdaterState → Bool
accepts poll s = may_poll s
accepts (poll_volume path) s = may_poll s
accepts fetch s = is_update_available s
accepts (fetch_full options) s = is_update_available s
accepts apply s = is_update_ready s
accepts cancel_call s = is_busy s

-- Every call is completed or refused by the state alone. One that is refused gets WrongState and
-- changes nothing; one that is completed leaves a busy state.
pub handle-cases :
    (c : Call) (d : Daemon)
    → ((accepts c d.updater.state ≡ true)
        × ((handle c d).1 ≡ completed)
        × (is_busy (handle c d).0.updater.state ≡ true))
      ⊎ ((accepts c d.updater.state ≡ false) × (handle c d ≡ (d, refused wrong_state)))
unfolding handle handle_poll handle_poll_volume handle_fetch handle_fetch_full handle_apply
    handle_cancel start data_reset_cancellable clear_error set_state_changed
handle-cases c d = elim c [
  | poll ↦ ground (
    arith,
    Bool-cases (accepts (poll) d.updater.state),
    Bool-cases (d.cancelled d.data_.cancellable),
  )
  | poll_volume path ↦ ground (
    arith,
    Bool-cases (accepts (poll_volume path) d.updater.state),
    Bool-cases (d.cancelled d.data_.cancellable),
  )
  | fetch ↦ ground (
    arith,
    Bool-cases (accepts (fetch) d.updater.state),
    Bool-cases (d.cancelled d.data_.cancellable),
  )
  | fetch_full options ↦ ground (
    arith,
    Bool-cases (accepts (fetch_full options) d.updater.state),
    Bool-cases (d.cancelled d.data_.cancellable),
  )
  | apply ↦ ground (
    arith,
    Bool-cases (accepts (apply) d.updater.state),
    Bool-cases (d.cancelled d.data_.cancellable),
  )
  | cancel_call ↦ ground (
    arith,
    Bool-cases (accepts (cancel_call) d.updater.state),
    Bool-cases (d.cancelled d.data_.cancellable),
  )
]
