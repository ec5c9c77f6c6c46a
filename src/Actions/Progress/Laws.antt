-- ===== src/Actions/Progress/Laws.antt =====
-- Filtering by progress against its specification.
use eos_updater.Prelude.{
  Bool-cases, ◌<ℤ◌, filter, String, ℤ, ◌≤ℤ◌, none, some, List, [], ◌∷◌, ◌++◌, arith, ◌≡◌, refl,
  append_assoc, append-nil, All, Option-cases, inl, inr, ◌∙◌, sym, ap,
}
use eos_updater.Actions.{true, not, Bool, Option, Action}
use eos_updater.Actions.Progress.{
  ltb_ℤ, new_actions_loop, or_empty, existing_actions_loop, keep_only_new_actions,
  keep_only_existing_actions, Progresses,
}

-- Ordered by serial, as read_flatpak_ref_actions_from_node leaves each file's list.
abbrev pub IsAscending : List Action → Type 0
IsAscending [] = Unit
IsAscending (a ∷ l) = All (λ b. a.serial ≤ℤ b.serial) l × IsAscending l

-- Once adding has begun every action is kept.
new_actions_loop_adding :
    (progress : ℤ) (filtered l : List Action)
    → new_actions_loop progress (some filtered) l ≡ some (filtered ++ l)
unfolding new_actions_loop
new_actions_loop_adding progress filtered [] = ap some (sym (append-nil filtered))
new_actions_loop_adding progress filtered (a ∷ l) =
    new_actions_loop_adding progress (filtered ++ a ∷ []) l
    ∙ ap some (append_assoc filtered (a ∷ []) l)

existing_actions_loop-append :
    (progress : ℤ) (filtered l : List Action)
    → existing_actions_loop progress filtered l ≡ filtered ++ existing_actions_loop progress [] l
unfolding existing_actions_loop
existing_actions_loop-append progress filtered [] = sym (append-nil filtered)
existing_actions_loop-append progress filtered (a ∷ l) = ground (
  arith,
  existing_actions_loop-append progress (filtered ++ a ∷ []) l,
  existing_actions_loop-append progress (a ∷ []) l,
  append_assoc filtered (a ∷ []) (existing_actions_loop progress [] l),
  append-nil filtered,
)

new_actions_loop-split :
    (progress : ℤ) (l : List Action)
    → existing_actions_loop progress [] l ++ or_empty (new_actions_loop progress none l) ≡ l
unfolding existing_actions_loop new_actions_loop
new_actions_loop-split progress [] = refl
new_actions_loop-split progress (a ∷ l) = ground (
  arith,
  new_actions_loop_adding progress (a ∷ []) l,
  new_actions_loop-split progress l,
  existing_actions_loop-append progress (a ∷ []) l,
)

-- Whatever the progress, the actions that count as applied followed by those that count as new
-- are the actions of the file, each once and in order.
pub keep_only_existing-append-new :
    (name : String) (actions : List Action) (progresses : Progresses)
    → keep_only_existing_actions name actions progresses
        ++ keep_only_new_actions name actions progresses
      ≡ actions
unfolding keep_only_existing_actions keep_only_new_actions
keep_only_existing-append-new name actions progresses = elim (Option-cases (progresses name)) [
  | inl e ↦ rw (e, keep_only_existing_actions, keep_only_new_actions)
  | inr (progress, e) ↦
      rw (e, keep_only_existing_actions, keep_only_new_actions)
        (new_actions_loop-split progress actions)
]

-- The specification: an action is new if its serial is past the progress of its file, or if the
-- file has none yet.
abbrev pub is_new : Option ℤ → Action → Bool
is_new none a = true
is_new (some progress) a = ltb_ℤ progress a.serial

pub filter-eq_self :
    (p : Action → Bool) (l : List Action) → All (λ a. p a ≡ true) l → filter p l ≡ l
filter-eq_self p [] h = refl
filter-eq_self p (a ∷ l) h = ground (arith, filter-eq_self p l h.1)

All-mono :
    (P Q : Action → Type 0) (l : List Action) → ((a : Action) → P a → Q a) → All P l → All Q l
All-mono P Q [] f h = tt
All-mono P Q (a ∷ l) f h = (f a h.0, All-mono P Q l f h.1)

-- Past a new action of an ascending list all actions are new.
All-new :
    (progress : ℤ) (a : Action) (l : List Action)
    → progress <ℤ a.serial
    → All (λ b. a.serial ≤ℤ b.serial) l
    → All (λ b. is_new (some progress) b ≡ true) l
All-new progress a l lt h =
    All-mono (λ b. a.serial ≤ℤ b.serial) (λ b. is_new (some progress) b ≡ true) l
      (λ b le. ground arith) h

new_actions_loop-eq-filter :
    (progress : ℤ) (l : List Action)
    → IsAscending l
    → or_empty (new_actions_loop progress none l) ≡ filter (is_new (some progress)) l
unfolding new_actions_loop
new_actions_loop-eq-filter progress [] h = refl
new_actions_loop-eq-filter progress (a ∷ l) h = elim (Bool-cases (ltb_ℤ progress a.serial)) [
  | inl later ↦ ground (
    arith,
    new_actions_loop_adding progress (a ∷ []) l,
    filter-eq_self (is_new (some progress)) l (All-new progress a l (ground arith) h.0),
  )
  | inr earlier ↦ ground (arith, new_actions_loop-eq-filter progress l h.1)
]

filter-eq-nil :
    (p : Action → Bool) (l : List Action) → All (λ a. p a ≡ true) l → filter (λ a. not (p a)) l ≡ []
filter-eq-nil p [] h = refl
filter-eq-nil p (a ∷ l) h = ground (arith, filter-eq-nil p l h.1)

existing_actions_loop-eq-filter :
    (progress : ℤ) (l : List Action)
    → IsAscending l
    → existing_actions_loop progress [] l ≡ filter (λ a. not (is_new (some progress) a)) l
unfolding existing_actions_loop
existing_actions_loop-eq-filter progress [] h = refl
existing_actions_loop-eq-filter progress (a ∷ l) h = elim (Bool-cases (ltb_ℤ progress a.serial)) [
  | inl later ↦
      ground
        (arith, filter-eq-nil (is_new (some progress)) l (All-new progress a l (ground arith) h.0))
  | inr earlier ↦ ground (
    arith,
    existing_actions_loop-append progress (a ∷ []) l,
    existing_actions_loop-eq-filter progress l h.1,
  )
]

filter-none : (l : List Action) → [] ≡ filter (λ a. not (is_new none a)) l
filter-none [] = refl
filter-none (a ∷ l) = filter-none l

filter_all : (l : List Action) → l ≡ filter (is_new none) l
filter_all [] = refl
filter_all (a ∷ l) = ap (◌∷◌ a) (filter_all l)

-- On a list that ascends by serial the loops with their early exits are the two filters: what is
-- new is exactly what has a serial past the file's progress, and what exists is all else.
pub keep_only-eq-filter :
    (name : String) (actions : List Action) (progresses : Progresses)
    → IsAscending actions
    → (keep_only_new_actions name actions progresses ≡ filter (is_new (progresses name)) actions)
      × (keep_only_existing_actions name actions progresses
          ≡ filter (λ a. not (is_new (progresses name) a)) actions)
unfolding keep_only_existing_actions keep_only_new_actions
keep_only-eq-filter name actions progresses h = elim (Option-cases (progresses name)) [
  | inl e ↦
      rw (e, keep_only_existing_actions, keep_only_new_actions)
        (filter_all actions, filter-none actions)
  | inr (progress, e) ↦
      rw (e, keep_only_existing_actions, keep_only_new_actions)
        (
          new_actions_loop-eq-filter progress actions h,
          existing_actions_loop-eq-filter progress actions h,
        )
]
