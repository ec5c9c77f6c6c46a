-- ===== src/Installer/Pending.antt =====
-- The actions of one file that are past its recorded progress, and a writable counter file.
use eos_updater.Prelude.{
  inr, inl, String, true, Option, none, some, List, [], ◌∷◌, ℤ, ◌≤ℤ◌, str_equal, ◌≡◌, refl, ap, ◌⊎◌,
  arith, filter, All,
}
use eos_updater.Errors.{ErrorCode, ok, err, io_exists, file_noent}
use eos_updater.Actions.{Action}
use eos_updater.Actions.Progress.{Progresses}
use eos_updater.Actions.Progress.Laws.{is_new, IsAscending}
use eos_updater.Installer.{
  Outcome, done, failed, aborted, CounterFile, no_progress, overwrite, update_counter,
}

-- The actions that come from one autoinstall file.
abbrev pub from : String → List Action → List Action
from name l = filter (λ a. str_equal a.source name) l

-- The serials rise, from past the progress that is recorded.
abbrev pub IsPast : Option ℤ → List Action → Type 0
IsPast o [] = Unit
IsPast o (a ∷ l) = (is_new o a ≡ true) × IsPast (some a.serial) l

abbrev pub NotBelow : Option ℤ → Option ℤ → Type 0
NotBelow none _ = Unit
NotBelow (some p) none = ⊥
NotBelow (some p) (some q) = p ≤ℤ q

pub NotBelow-refl : (o : Option ℤ) → NotBelow o o
NotBelow-refl none = tt
NotBelow-refl (some p) = omega arith

pub NotBelow-trans :
    (o : Option ℤ) (a : Action) (q : Option ℤ)
    → is_new o a ≡ true
    → NotBelow (some a.serial) q
    → NotBelow o q
NotBelow-trans none a q fresh h = tt
NotBelow-trans (some p) a none fresh h = h
NotBelow-trans (some p) a (some q) fresh h = ground arith

-- An action that the counter has reached is dropped.
pub drop_old :
    (a : Action) (q : Option ℤ) (l : List Action)
    → NotBelow (some a.serial) q
    → filter (is_new q) (a ∷ l) ≡ filter (is_new q) l
drop_old a none l h = absurd h
drop_old a (some q) l h = ground arith

pub IsPast-mono : (p q : ℤ) (l : List Action) → p ≤ℤ q → IsPast (some q) l → IsPast (some p) l
IsPast-mono p q [] le h = tt
IsPast-mono p q (a ∷ l) le h = (ground arith, h.1)

pub IsPast-All_later : (p : ℤ) (l : List Action) → IsPast (some p) l → All (λ b. p ≤ℤ b.serial) l
IsPast-All_later p [] h = tt
IsPast-All_later p (a ∷ l) h =
    (ground arith, IsPast-All_later p l (IsPast-mono p a.serial l (ground arith) h.1))

pub IsPast-All_new : (o : Option ℤ) (l : List Action) → IsPast o l → All (λ a. is_new o a ≡ true) l
IsPast-All_new o [] h = tt
IsPast-All_new none (a ∷ l) h = (refl, IsPast-All_new none l (weaken l h.1))
  where
    weaken : (k : List Action) → IsPast (some a.serial) k → IsPast none k
    weaken [] i = tt
    weaken (b ∷ k) i = (refl, i.1)
IsPast-All_new (some p) (a ∷ l) h =
    (h.0, IsPast-All_new (some p) l (IsPast-mono p a.serial l (ground arith) h.1))

pub IsPast-IsAscending : (o : Option ℤ) (l : List Action) → IsPast o l → IsAscending l
IsPast-IsAscending o [] h = tt
IsPast-IsAscending o (a ∷ l) h =
    (IsPast-All_later a.serial l h.1, IsPast-IsAscending (some a.serial) l h.1)

pub Outcome-cases : (o : Outcome) → (o ≡ done) ⊎ ((x : ErrorCode) × (o ≡ failed x)) ⊎ (o ≡ aborted)
Outcome-cases done = inl refl
Outcome-cases (failed x) = inr (inl (x, refl))
Outcome-cases aborted = inr (inr refl)

-- The file can be created or read, and saved.
abbrev pub IsWritable : CounterFile → Progresses → Type 0
IsWritable file recorded =
    ((file.make_directory ≡ none) ⊎ (file.make_directory ≡ some io_exists))
    × ((file.load ≡ ok recorded) ⊎ (file.load ≡ err file_noent) × (recorded ≡ no_progress))
    × (file.save ≡ none)

pub update_counter_of_IsWritable :
    (file : CounterFile) (recorded new : Progresses)
    → IsWritable file recorded
    → update_counter file new ≡ ok (overwrite recorded new)
unfolding update_counter
update_counter_of_IsWritable file recorded new h =
    ground (arith, ap (λ (c : Progresses). overwrite c new))
