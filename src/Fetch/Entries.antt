-- ===== src/Fetch/Entries.antt =====
-- eos-updater/fetch.c: the entries that a fetch has with the download scheduler.
use mathlib.Core.Path.{subst, sym}
use eos_updater.Fetch.{unscheduling, unschedule_download, remove_entry, Entry, State, Services}
use eos_updater.Run.{Leaves}
use eos_updater.Errors.{ErrorCode, ok, err, unset, Result, is_invalidated}
use eos_updater.Prelude.{
  true, false, none, some, Option, ◌≡◌, ◌⊎◌, inl, inr, refl, Bool-cases, arith,
}

-- A failure other than that of an entry which the scheduler has dropped already.
abbrev pub IsRefused : Result (Unit {0}) → Type 0
IsRefused (ok _) = ⊥
IsRefused (err e) = is_invalidated e ≡ false
IsRefused unset = Unit

-- `Held x w` says that in the world `w` the scheduler has the entry `x`.
module _ {W : Type 0} (services : Services W) (Held : Entry → W → Type 0) where
  -- Every entry of `v` is one of `w`; others may have been dropped.
  abbrev pub NoneNew : W → W → Type 0
  NoneNew w v = (x : Entry) → Held x v → Held x w

  -- mogwai's scheduler: only scheduling makes an entry, the one that it returns; and an entry is gone
  -- once its removal has succeeded or has found it invalidated.
  pub record IsScheduler : Type 0 where
    pub scheduler_new-NoneNew : (w : W) → NoneNew w (services.scheduler_new w).1
    pub scheduler_schedule-Held :
        (w : W) (x : Entry)
        → Held x (services.scheduler_schedule w).1
        → Held x w ⊎ ((services.scheduler_schedule w).0 ≡ ok x)
    pub entry_remove-NoneNew : (e : Entry) (w : W) → NoneNew w (services.entry_remove e w).1
    pub entry_remove-ok :
        (e : Entry) (w : W)
        → (services.entry_remove e w).0 ≡ ok tt
        → ¬ Held e (services.entry_remove e w).1
    pub entry_remove-invalidated :
        (e : Entry) (w : W)
        → (c : ErrorCode) → (services.entry_remove e w).0 ≡ err c
        → is_invalidated c ≡ true
        → ¬ Held e (services.entry_remove e w).1

  -- The last call was to remove it, and was refused.
  abbrev pub IsStuck : Entry → W → Type 0
  IsStuck x v =
      (u : W) × (v ≡ (services.entry_remove x u).1) × IsRefused (services.entry_remove x u).0

  -- Since `w` no entry has been made but the one of the fetch.
  abbrev pub IsTracked : W → State W → Type 0
  IsTracked w s = (x : Entry) → Held x s.world → Held x w ⊎ (s.schedule_entry ≡ some x)

  -- The fetch has no entry, and the scheduler has none that it had not at `w`, except one that it
  -- has just refused to remove.
  abbrev pub IsLeft : W → State W → Type 0
  IsLeft w t =
      (t.schedule_entry ≡ none) × ((x : Entry) → Held x t.world → Held x w ⊎ IsStuck x t.world)

  refused :
      (e : Entry) (u : W)
      → IsScheduler
      → Held e (services.entry_remove e u).1
      → IsRefused (services.entry_remove e u).0
  refused e u scheduler held = by_result (services.entry_remove e u).0 refl
    where
      by_result : (r : Result (Unit {0})) → (services.entry_remove e u).0 ≡ r → IsRefused r
      by_result (ok tt) is = scheduler.entry_remove-ok e u is held
      by_result unset is = tt
      by_result (err c) is = elim (Bool-cases (is_invalidated c)) [
        | inl gone ↦ absurd (scheduler.entry_remove-invalidated e u c is gone held)
        | inr other ↦ other
      ]

  pub unscheduling-IsLeft :
      {A : Type 0} (scheduler : IsScheduler) (w : W) (s : State W) (r : Result A)
      → IsTracked w s
      → Leaves (IsLeft w) (unscheduling services (unschedule_download services s) r)
  unfolding unschedule_download
  unscheduling-IsLeft {A = A} scheduler w s r h = removed_entry s.schedule_entry h
    where
      removed_entry :
          (o : Option Entry)
          → ((x : Entry) → Held x s.world → Held x w ⊎ (o ≡ some x))
          → Leaves (IsLeft w) (unscheduling services {A = A} (remove_entry services o s.world) r)
      removed_entry none h =
          (refl, λ x held. elim (h x held) [ inl old ↦ inl old | inr new ↦ absurd (ground arith) ])
      removed_entry (some e) h = (
        refl,
        λ x held. elim (h x (scheduler.entry_remove-NoneNew e s.world x held)) [
          | inl old ↦ inl old
          | inr new ↦
              let same : e ≡ x = ground arith in
              inr (
                subst (λ y. IsStuck y (services.entry_remove e s.world).1) same
                  (
                    s.world,
                    refl,
                    refused e s.world scheduler
                        (subst (λ y. Held y (services.entry_remove e s.world).1) (sym same) held),
                  ))
        ],
      )
