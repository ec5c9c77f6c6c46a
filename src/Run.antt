-- ===== src/Run.antt =====
-- How the code of the worker threads runs: it changes the world (the repository and the system) and
-- ends with a result, stops at a failed assertion, or is still in a loop when the fuel is used up.
use eos_updater.Prelude.{refl, ◌≡◌}
use eos_updater.Errors.{Result, ok, err, unset}

pub data Run (W : Type 0) (A : Type 0) : Type 0 where
  finished : Result A → W → Run W A
  aborted : Run W A
  unfinished : Run W A

-- A call of a library, as it returns.
abbrev pub call : {W A : Type 0} → Result A × W → Run W A
call (r, w) = finished r w

infixl 5 ◌>>ᵣ◌
abbrev pub ◌>>ᵣ◌ : {W A B : Type 0} → Run W A → (A → W → Run W B) → Run W B
finished (ok a) w >>ᵣ k = k a w
finished (err e) w >>ᵣ k = finished (err e) w
finished unset w >>ᵣ k = finished unset w
aborted >>ᵣ k = aborted
unfinished >>ᵣ k = unfinished

-- Total correctness: it returns, and a result that is not an error satisfies `P`.
abbrev pub Ensures : {W A : Type 0} → (A → W → Type 0) → Run W A → Type 0
Ensures P (finished (ok a) w) = P a w
Ensures P (finished (err e) w) = Unit
Ensures P (finished unset w) = Unit
Ensures P aborted = ⊥
Ensures P unfinished = ⊥

pub >>ᵣ-Ensures :
    {W A B : Type 0} (P : A → W → Type 0) (Q : B → W → Type 0) (m : Run W A) (k : A → W → Run W B)
    → Ensures P m
    → ((a : A) (w : W) → P a w → Ensures Q (k a w))
    → Ensures Q (m >>ᵣ k)
>>ᵣ-Ensures P Q (finished (ok a) w) k h f = f a w h
>>ᵣ-Ensures P Q (finished (err e) w) k h f = tt
>>ᵣ-Ensures P Q (finished unset w) k h f = tt
>>ᵣ-Ensures P Q aborted k h f = absurd h
>>ᵣ-Ensures P Q unfinished k h f = absurd h

pub call-Ensures : {W A : Type 0} (p : Result A × W) → Ensures (λ _ _. Unit) (call p)
call-Ensures (ok a, w) = tt
call-Ensures (err e, w) = tt
call-Ensures (unset, w) = tt

-- A look-up leaves the world as it is.
pub look_up-Ensures :
    {W A B : Type 0} (Q : B → W → Type 0) (r : Result A) (w : W) (k : A → W → Run W B)
    → ((a : A) → r ≡ ok a → Ensures Q (k a w))
    → Ensures Q (finished r w >>ᵣ k)
look_up-Ensures Q (ok a) w k f = f a refl
look_up-Ensures Q (err e) w k f = tt
look_up-Ensures Q unset w k f = tt

-- Nothing is known of what a call does to the world.
pub call_then-Ensures :
    {W A B : Type 0} (Q : B → W → Type 0) (p : Result A × W) (k : A → W → Run W B)
    → ((a : A) (w : W) → Ensures Q (k a w))
    → Ensures Q (call p >>ᵣ k)
call_then-Ensures Q (ok a, w) k f = f a w
call_then-Ensures Q (err e, w) k f = tt
call_then-Ensures Q (unset, w) k f = tt

-- It returns, and `P` holds of the world then, also after an error.
abbrev pub Leaves : {W A : Type 0} → (W → Type 0) → Run W A → Type 0
Leaves P (finished r w) = P w
Leaves P aborted = ⊥
Leaves P unfinished = ⊥

pub >>ᵣ-Leaves :
    {W A B : Type 0} (P : W → Type 0) (m : Run W A) (k : A → W → Run W B)
    → Leaves P m
    → ((a : A) (w : W) → P w → Leaves P (k a w))
    → Leaves P (m >>ᵣ k)
>>ᵣ-Leaves P (finished (ok a) w) k h f = f a w h
>>ᵣ-Leaves P (finished (err e) w) k h f = h
>>ᵣ-Leaves P (finished unset w) k h f = h
>>ᵣ-Leaves P aborted k h f = absurd h
>>ᵣ-Leaves P unfinished k h f = absurd h

pub look_up-Leaves :
    {W A B : Type 0} (P : W → Type 0) (r : Result A) (w : W) (k : A → W → Run W B)
    → P w
    → ((a : A) → r ≡ ok a → Leaves P (k a w))
    → Leaves P (finished r w >>ᵣ k)
look_up-Leaves P (ok a) w k h f = f a refl
look_up-Leaves P (err e) w k h f = h
look_up-Leaves P unset w k h f = h
