-- ===== src/Daemon/Machine/Results.antt =====
-- eos-updater: the invariant after a worker has returned.
use eos_updater.Daemon.Handlers.{is_busy}
use eos_updater.Daemon.Machine.{IsPoll}
use eos_updater.Daemon.Machine.Invariant.{Works-idle, Works}
use eos_updater.Prelude.{refl, inr, inl, false, ◌⊎◌, arith, [], ◌≢◌, ◌≡◌, ◌∷◌, ◌++◌, String, List}
use eos_updater.Daemon.{
  update_applied, update_ready, update_available, error, ready, none_state, applying_update,
  polling, apply_job, fetch_job, ApplyData, FetchData, Task, UpdaterState, fetching,
}

append-nonempty : (before after : List Task) (t : Task) → before ++ t ∷ after ≢ []
append-nonempty [] after t h = ground arith
append-nonempty (x ∷ before) after t h = ground arith

pub one_task :
    (before after : List Task) (t u : Task)
    → before ++ t ∷ after ≡ u ∷ []
    → (t ≡ u) × (before ++ after ≡ [])
one_task [] after t u h = ground arith
one_task (x ∷ before) after t u h = absurd (append-nonempty before after t (ground arith))

pub state-cases :
    (s : UpdaterState)
    → (s ≡ polling) ⊎ (s ≡ fetching) ⊎ (s ≡ applying_update) ⊎ (is_busy s ≡ false)
state-cases polling = inl refl
state-cases fetching = inr (inl refl)
state-cases applying_update = inr (inr (inl refl))
state-cases none_state = inr (inr (inr refl))
state-cases ready = inr (inr (inr refl))
state-cases error = inr (inr (inr refl))
state-cases update_available = inr (inr (inr refl))
state-cases update_ready = inr (inr (inr refl))
state-cases update_applied = inr (inr (inr refl))

-- The worker that returns is the one that the state names, and no other is left.
module _ (s : UpdaterState) (id : String) (before after : List Task) (t : Task)
    (w : Works s id (before ++ t ∷ after)) where
  none_idle : is_busy s ≡ false → ⊥
  none_idle idle = append-nonempty before after t (Works-idle s id (before ++ t ∷ after) idle w)

  pub sole_poll : IsPoll t.job → (s ≡ polling) × (before ++ after ≡ [])
  sole_poll h = elim (state-cases s) [
    | inl e ↦ let (u, only, p) = rw e at w in (e, (one_task before after t u only).1)
    | inr (inl e) ↦
        let (u, f, only, job, same) = rw e at w in
        absurd (ground (arith, one_task before after t u only, h))
    | inr (inr (inl e)) ↦
        let (u, a, only, job, same) = rw e at w in
        absurd (ground (arith, one_task before after t u only, h))
    | inr (inr (inr idle)) ↦ absurd (none_idle idle)
  ]

  pub sole_fetch :
      (f : FetchData)
      → t.job ≡ fetch_job f
      → (s ≡ fetching) × (f.update_id ≡ id) × (before ++ after ≡ [])
  sole_fetch f h = elim (state-cases s) [
    | inl e ↦
        let (u, only, p) = rw e at w in absurd (ground (arith, one_task before after t u only, p))
    | inr (inl e) ↦
        let (u, g, only, job, same) = rw e at w in
        (e, ground (arith, one_task before after t u only), (one_task before after t u only).1)
    | inr (inr (inl e)) ↦
        let (u, a, only, job, same) = rw e at w in
        absurd (ground (arith, one_task before after t u only))
    | inr (inr (inr idle)) ↦ absurd (none_idle idle)
  ]

  pub sole_apply :
      (a : ApplyData)
      → t.job ≡ apply_job a
      → (s ≡ applying_update) × (a.update_id ≡ id) × (before ++ after ≡ [])
  sole_apply a h = elim (state-cases s) [
    | inl e ↦
        let (u, only, p) = rw e at w in absurd (ground (arith, one_task before after t u only, p))
    | inr (inl e) ↦
        let (u, f, only, job, same) = rw e at w in
        absurd (ground (arith, one_task before after t u only))
    | inr (inr (inl e)) ↦
        let (u, b, only, job, same) = rw e at w in
        (e, ground (arith, one_task before after t u only), (one_task before after t u only).1)
    | inr (inr (inr idle)) ↦ absurd (none_idle idle)
  ]
