-- ===== src/Poll/Fetchers/Laws.antt =====
-- eos-updater/poll-common.c: get_latest_update gives the newest of what was found.
use eos_updater.Poll.Sources.{same_source, Source}
use eos_updater.Poll.Fetchers.{first_source, insert, lookup, get_latest_update, latest_loop}
use mathlib.Core.Path.{subst}
use eos_updater.Prelude.{
  All-filter, not, ◌==◌, ltb, filter, All-append, length, Any, ◌≤◌, ◌<◌, any, All, List, [], ◌∷◌,
  ◌++◌, true, none, some, Option, ℕ, ◌≡◌, ◌≢◌, inl, inr, refl, arith, Bool-cases, Option-cases,
}

module _ {I : Type 0} (timestamp : I → ℕ) where
  insert-All :
      (P : Source × I → Type 0) (s : Source) (i : I) (l : List (Source × I))
      → P (s, i)
      → All P l
      → All P (insert timestamp s i l)
  insert-All P s i l h a =
      All-append P (filter (λ e. not (same_source e.0 s)) l) ((s, i) ∷ [])
        (All-filter P (λ e. not (same_source e.0 s)) l a) (h, tt)

  insert-length : (s : Source) (i : I) (l : List (Source × I)) → 0 < length (insert timestamp s i l)
  insert-length s i l = snoc (filter (λ e. not (same_source e.0 s)) l)
    where
      snoc : (k : List (Source × I)) → 0 < length (k ++ (s, i) ∷ [])
      snoc [] = omega arith
      snoc (x ∷ k) = omega arith

  abbrev Newest : List (Source × I) → ℕ → List (Source × I) → Type 0
  Newest l m r =
      (n : ℕ) × All (λ e. timestamp e.1 ≡ n) r
      × (m ≤ n)
      × All (λ e. timestamp e.1 ≤ n) l
      × (0 < length r)

  wider :
      (e : Source × I) (l r : List (Source × I)) (m k : ℕ)
      → m ≤ k
      → timestamp e.1 ≤ k
      → Newest l k r
      → Newest (e ∷ l) m r
  wider e l r m k a b (n, c, d, f, g) = (n, c, omega arith, (omega arith, f), g)

  latest_loop-Newest :
      (l : List (Source × I)) (m : ℕ) (latest : List (Source × I))
      → All (λ e. timestamp e.1 ≡ m) latest
      → 0 < length latest
      → Newest l m (latest_loop timestamp l (some m) latest)
  unfolding latest_loop
  latest_loop-Newest [] m latest h n = (m, h, omega arith, tt, n)
  latest_loop-Newest (e ∷ l) m latest h n = elim (Bool-cases (ltb m (timestamp e.1))) [
    | inl t ↦ rw t (
        wider e l _ m (timestamp e.1) (ground arith) (omega arith) (
          latest_loop-Newest l (timestamp e.1) (insert timestamp e.0 e.1 [])
            (insert-All (λ x. timestamp x.1 ≡ timestamp e.1) e.0 e.1 [] refl tt)
            (insert-length e.0 e.1 [])))
    | inr t ↦ elim (Bool-cases (timestamp e.1 == m)) [
      | inl u ↦
          rw (t, u)
            (wider e l _ m m (omega arith) (ground arith) (
              latest_loop-Newest l m (insert timestamp e.0 e.1 latest)
                (insert-All (λ x. timestamp x.1 ≡ m) e.0 e.1 latest (ground arith) h)
                (insert-length e.0 e.1 latest)))
      | inr u ↦
          rw (t, u)
            (wider e l _ m m (omega arith) (ground arith) (latest_loop-Newest l m latest h n))
    ]
  ]

  latest_loop-All :
      (P : Source × I → Type 0) (l : List (Source × I)) (t : Option ℕ) (latest : List (Source × I))
      → All P latest
      → All P l
      → All P (latest_loop timestamp l t latest)
  unfolding latest_loop
  latest_loop-All P [] t latest h a = h
  latest_loop-All P (e ∷ l) none latest h a =
      latest_loop-All P l (some (timestamp e.1)) (insert timestamp e.0 e.1 [])
        (insert-All P e.0 e.1 [] a.0 tt) a.1
  latest_loop-All P (e ∷ l) (some m) latest h a = elim (Bool-cases (ltb m (timestamp e.1))) [
    | inl t ↦ rw t (
        latest_loop-All P l (some (timestamp e.1)) (insert timestamp e.0 e.1 [])
          (insert-All P e.0 e.1 [] a.0 tt) a.1)
    | inr t ↦ elim (Bool-cases (timestamp e.1 == m)) [
      | inl u ↦
          rw (t, u)
            (latest_loop-All P l (some m) (insert timestamp e.0 e.1 latest)
              (insert-All P e.0 e.1 latest a.0 h) a.1)
      | inr u ↦ rw (t, u) (latest_loop-All P l (some m) latest h a.1)
    ]
  ]

  lookup-All :
      (P : Source × I → Type 0) (s : Source) (l : List (Source × I)) (i : I)
      → All P l
      → lookup timestamp s l ≡ some i
      → (t : Source) × P (t, i)
  lookup-All P s [] i a h = cc
  lookup-All P s (e ∷ l) i a h = elim (Bool-cases (same_source e.0 s)) [
    | inl t ↦ (e.0, let k : e.1 ≡ i = ground arith in subst (λ x. P (e.0, x)) k a.0)
    | inr t ↦ lookup-All P s l i a.1 (ground arith)
  ]

  first_source-All :
      (P : Source × I → Type 0) (sources : List Source) (l : List (Source × I)) (i : I)
      → All P l
      → first_source timestamp sources l ≡ some i
      → (t : Source) × P (t, i)
  first_source-All P [] l i a h = cc
  first_source-All P (s ∷ rest) l i a h = elim (Option-cases (lookup timestamp s l)) [
    | inl n ↦ first_source-All P rest l i a (ground arith)
    | inr (j, e) ↦ lookup-All P s l i a (ground arith)
  ]

  -- With entries of these sources there is one that is found.
  first_source-some :
      (sources : List Source) (e : Source × I) (l : List (Source × I))
      → any (same_source e.0) sources ≡ true
      → first_source timestamp sources (e ∷ l) ≢ none
  first_source-some [] e l h k = cc
  first_source-some (s ∷ rest) e l h k = elim (Bool-cases (same_source e.0 s)) [
    | inl t ↦ ground arith
    | inr t ↦ elim (Option-cases (lookup timestamp s l)) [
      | inl n ↦ first_source-some rest e l (ground arith) (ground arith)
      | inr (j, f) ↦ ground arith
    ]
  ]

  members : (l : List (Source × I)) → All (λ e. Any (λ x. x ≡ e) l) l
  members [] = tt
  members (e ∷ l) = (inl refl, weaken l (members l))
    where
      weaken :
          (k : List (Source × I))
          → All (λ x. Any (λ y. y ≡ x) l) k
          → All (λ x. Any (λ y. y ≡ x) (e ∷ l)) k
      weaken [] h = tt
      weaken (x ∷ k) h = (inr h.0, weaken k h.1)

  abbrev pub IsLatest : List (Source × I) → Option I → Type 0
  IsLatest table none = ⊥
  IsLatest table (some i) =
      ((s : Source) × Any (λ x. x ≡ (s, i)) table) × All (λ e. timestamp e.1 ≤ timestamp i) table

  -- If something was found, and only from sources of the list, then the result is one of the
  -- updates that were found, and none of them has a later commit, in whatever order the hash table
  -- is iterated.
  pub get_latest_update-IsLatest :
      (sources : List Source) (table : List (Source × I))
      → table ≢ []
      → All (λ e. any (same_source e.0) sources ≡ true) table
      → IsLatest table (get_latest_update timestamp sources table)
  unfolding get_latest_update latest_loop
  get_latest_update-IsLatest sources [] n h = absurd (n refl)
  get_latest_update-IsLatest sources (e ∷ l) n h = chosen (first_source timestamp sources kept) refl
    where
      kept : List (Source × I)
      kept = latest_loop timestamp l (some (timestamp e.1)) (insert timestamp e.0 e.1 [])

      newest : Newest l (timestamp e.1) kept
      newest =
          latest_loop-Newest l (timestamp e.1) (insert timestamp e.0 e.1 [])
            (insert-All (λ x. timestamp x.1 ≡ timestamp e.1) e.0 e.1 [] refl tt)
            (insert-length e.0 e.1 [])

      every : (P : Source × I → Type 0) → All P (e ∷ l) → All P kept
      every P a = latest_loop-All P (e ∷ l) none [] tt a

      found :
          (k : List (Source × I))
          → 0 < length k
          → All (λ e. any (same_source e.0) sources ≡ true) k
          → first_source timestamp sources k ≢ none
      found [] p a = absurd (omega arith)
      found (x ∷ k) p a = first_source-some sources x k a.0

      below :
          (i : I)
          → timestamp i ≡ newest.0
          → (k : List (Source × I)) → All (λ e. timestamp e.1 ≤ newest.0) k
          → All (λ e. timestamp e.1 ≤ timestamp i) k
      below i q [] a = tt
      below i q (x ∷ k) a = (omega (arith, a.0), below i q k a.1)

      chosen : (o : Option I) → first_source timestamp sources kept ≡ o → IsLatest (e ∷ l) o
      chosen none k = found kept newest.4 (every (λ e. any (same_source e.0) sources ≡ true) h) k
      chosen (some i) k =
          let (t, q) = first_source-All (λ x. timestamp x.1 ≡ newest.0) sources kept i newest.1 k in
          (
            first_source-All (λ x. Any (λ y. y ≡ x) (e ∷ l)) sources kept i
                (every (λ x. Any (λ y. y ≡ x) (e ∷ l)) (members (e ∷ l))) k,
            below i q (e ∷ l) (omega (arith, newest.2), newest.3),
          )
