-- ===== src/Prelude/Perms.antt =====
-- Permutations of lists, and array sorting as GLib offers it.
use mathlib.Core.Path.{◌≡◌, refl, ap, ◌∙◌}
use mathlib.Core.Bool.{Bool, true, false}
use mathlib.Core.Logic.{◌⊎◌}
use mathlib.Core.List.{List, [], ◌∷◌, Permᴰ}
use mathlib.Core.List.Permᴰ
use native.Mathlib.Omega.{arith}
use eos_updater.Prelude.Tests.{if◌then◌else◌}
use eos_updater.Prelude.Lists.{filter, All, length}
use eos_updater.Prelude.Int.{ℤ, pos, ◌≤ℤ◌}

module _ {ℓ} {A : Type ℓ} where
  abbrev put : Bool → A → List A → List A
  put t c l = if t then c ∷ l else l

  put-perm : (t : Bool) (c : A) {k l : List A} → Permᴰ k l → Permᴰ (put t c k) (put t c l)
  put-perm true c h = Permᴰ.cons refl h
  put-perm false c h = h

  put_swap : (t u : Bool) (c d : A) (l : List A) → Permᴰ (put t c (put u d l)) (put u d (put t c l))
  put_swap true true c d l = Permᴰ.swap refl refl
  put_swap true false c d l = Permᴰ.refl _
  put_swap false true c d l = Permᴰ.refl _
  put_swap false false c d l = Permᴰ.refl _

  pub filter-perm :
      (p : A → Bool) {xs ys : List A} → Permᴰ xs ys → Permᴰ (filter p xs) (filter p ys)
  filter-perm p Permᴰ.nil = Permᴰ.nil
  filter-perm p (Permᴰ.cons {b} e h) = rw e (put-perm (p b) b (filter-perm p h))
  filter-perm p (Permᴰ.swap {a'} {b'} {l} e f) =
      rw (e, f) (put_swap (p b') (p a') b' a' (filter p l))
  filter-perm p (Permᴰ.trans h k) = Permᴰ.trans (filter-perm p h) (filter-perm p k)

  pub length-perm : {xs ys : List A} → Permᴰ xs ys → length xs ≡ length ys
  length-perm Permᴰ.nil = refl
  length-perm (Permᴰ.cons e h) = omega (arith, length-perm h)
  length-perm (Permᴰ.swap e f) = omega arith
  length-perm (Permᴰ.trans h k) = length-perm h ∙ length-perm k

module _ {ℓ κ} {A : Type ℓ} (P : A → Type κ) where
  pub All-perm : {xs ys : List A} → Permᴰ xs ys → All P ys → All P xs
  All-perm Permᴰ.nil h = h
  All-perm (Permᴰ.cons e p) h = (rw e h.0, All-perm p h.1)
  All-perm (Permᴰ.swap e f) h = (rw e h.1.0, (rw f h.0, h.1.1))
  All-perm (Permᴰ.trans p q) h = All-perm p (All-perm q h)

module _ {ℓ} {A : Type ℓ} where
  eq-singleton : (y : A) (xs : List A) → All (λ x. x ≡ y) xs → length xs ≡ 1 → xs ≡ y ∷ []
  eq-singleton y [] h e = absurd (omega arith)
  eq-singleton y (x ∷ []) h e = ap (λ z. z ∷ []) h.0
  eq-singleton y (x ∷ z ∷ xs) h e = absurd (omega arith)

  pub perm-singleton : {y : A} {xs : List A} → Permᴰ xs (y ∷ []) → xs ≡ y ∷ []
  perm-singleton {y} {xs} p =
      eq-singleton y xs (All-perm (λ x. x ≡ y) p (refl, tt)) (omega (arith, length-perm p))

  pub perm-nil : (xs : List A) → Permᴰ xs [] → xs ≡ []
  perm-nil [] p = refl
  perm-nil (x ∷ xs) p = absurd (omega (arith, length-perm p))

-- Every element comes before no smaller one.
abbrev pub IsSorted {ℓ} : {A : Type ℓ} → (A → A → ℤ) → List A → Type ℓ
IsSorted cmp [] = Unit
IsSorted cmp (x ∷ xs) = All (λ y. cmp x y ≤ℤ pos 0) xs × IsSorted cmp xs

-- `g_ptr_array_sort` and `g_list_sort` are GLib's: a parameter. What is documented of them: the
-- result holds the same elements, and it is in order if the comparison is an order there.
pub record ArraySort (A : Type 0) : Type 1 where
  pub sort : (A → A → ℤ) → List A → List A
  pub keeps : (cmp : A → A → ℤ) (xs : List A) → Permᴰ (sort cmp xs) xs
  pub orders :
      (P : A → Type 0) (cmp : A → A → ℤ) (xs : List A)
      → ((a b : A) → P a → P b → (cmp a b ≤ℤ pos 0) ⊎ (cmp b a ≤ℤ pos 0))
      → ((a b c : A) → P a → P b → P c → cmp a b ≤ℤ pos 0 → cmp b c ≤ℤ pos 0 → cmp a c ≤ℤ pos 0)
      → All P xs
      → IsSorted cmp (sort cmp xs)
