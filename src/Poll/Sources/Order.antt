-- ===== src/Poll/Sources/Order.antt =====
-- eos-updater/poll.c: what strv_to_download_order accepts.
use eos_updater.Poll.Sources.Laws.{string_to_download_source_iff}
use eos_updater.Poll.Sources.{
  not_empty, strv_to_download_order, string_to_download_source, download_source_to_string,
  same_source, order_loop, Source,
}
use eos_updater.Prelude.{
  inr, Bool-cases, inl, ◌≢◌, ◌↔◌, append_assoc, refl, any-append, [], append-nil, false, arith,
  ◌++◌, ◌∷◌, All, ◌≡◌, map, any, String, List,
}
use eos_updater.Errors.{Result-cases, >>=-eq-ok, ◌>>=◌, ok}

-- No source stands twice in the list.
abbrev pub Distinct : List Source → Type 0
Distinct [] = Unit
Distinct (s ∷ l) = (any (same_source s) l ≡ false) × Distinct l

abbrev Fresh : List Source → Source → Type 0
Fresh array s = any (same_source s) array ≡ false

same_source_sym : (a b : Source) → same_source a b ≡ same_source b a
same_source_sym a b = ground arith

not_later :
    (s : Source) (array l : List Source)
    → All (Fresh (array ++ s ∷ [])) l
    → any (same_source s) l ≡ false
not_later s array [] h = refl
not_later s array (t ∷ l) h =
    ground (
      arith,
      not_later s array l h.1,
      any-append (same_source t) array (s ∷ []),
      same_source_sym s t,
    )

Fresh-before :
    (s : Source) (array l : List Source) → All (Fresh (array ++ s ∷ [])) l → All (Fresh array) l
Fresh-before s array [] h = tt
Fresh-before s array (t ∷ l) h =
    (ground (arith, any-append (same_source t) array (s ∷ [])), Fresh-before s array l h.1)

Fresh-after :
    (s : Source) (array l : List Source)
    → All (Fresh array) l
    → any (same_source s) l ≡ false
    → All (Fresh (array ++ s ∷ [])) l
Fresh-after s array [] h e = tt
Fresh-after s array (t ∷ l) h e = (
  ground (arith, any-append (same_source t) array (s ∷ []), same_source_sym s t),
  Fresh-after s array l h.1 (ground arith),
)

-- What the loop has found besides `array`.
abbrev Found : (String → String) → List Source → List String → List Source → Type 0
Found strip array l new =
    (map strip l ≡ map download_source_to_string new) × All (Fresh array) new × Distinct new

order_loop-finds :
    (strip : String → String) (array : List Source) (l : List String) {r : List Source}
    → order_loop strip array l ≡ ok r
    → (new : List Source) × (r ≡ array ++ new) × Found strip array l new
unfolding order_loop
order_loop-finds strip array [] h = ([], ground (arith, append-nil array), (refl, tt, tt))
order_loop-finds strip array (s ∷ rest) {r = r} h =
    elim (Result-cases (string_to_download_source (strip s))) [
      | inl (source, e) ↦ elim (Bool-cases (any (same_source source) array)) [
        | inl d ↦ absurd (ground arith)
        | inr d ↦
            joined source (ground arith) d
              (order_loop-finds strip (array ++ source ∷ []) rest (ground arith))
      ]
      | inr (inl (e, f)) ↦ absurd (ground arith)
      | inr (inr f) ↦ absurd (ground arith)
    ]
  where
    joined :
        (source : Source)
        → string_to_download_source (strip s) ≡ ok source
        → any (same_source source) array ≡ false
        → (new : List Source) × (r ≡ (array ++ source ∷ []) ++ new)
          × Found strip (array ++ source ∷ []) rest new
        → (new : List Source) × (r ≡ array ++ new) × Found strip array (s ∷ rest) new
    joined source e d (new, g, f) = (
      source ∷ new,
      ground (arith, append_assoc array (source ∷ []) new),
      (
        ground (arith, string_to_download_source_iff (strip s) source),
        (d, Fresh-before source array new f.1),
        (not_later source array new f.1, f.2),
      ),
    )

order_loop-reads :
    (strip : String → String) (array : List Source) (l : List String) (new : List Source)
    → Found strip array l new
    → order_loop strip array l ≡ ok (array ++ new)
unfolding order_loop
order_loop-reads strip array [] [] h = ground (arith, append-nil array)
order_loop-reads strip array [] (t ∷ new) h = absurd (ground arith)
order_loop-reads strip array (s ∷ rest) [] h = absurd (ground arith)
order_loop-reads strip array (s ∷ rest) (t ∷ new) h =
    let later =
      order_loop-reads strip (array ++ t ∷ []) rest new
        (ground arith, Fresh-after t array new h.1.1 h.2.0, h.2.1) in
    ground (arith, named, fresh, later, append_assoc array (t ∷ []) new)
  where
    named : string_to_download_source (strip s) ≡ ok t
    named = (string_to_download_source_iff (strip s) t).1 (ground arith)

    fresh : any (same_source t) array ≡ false
    fresh = h.1.0

-- The configuration is accepted exactly if each of its entries, stripped of blanks, is the name of
-- a source, there is at least one, and none stands twice; the order is then that of the entries.
pub strv_to_download_order_iff :
    (strip : String → String) (sources : List String) (order : List Source)
    → (strv_to_download_order strip sources ≡ ok order)
      ↔ ((map strip sources ≡ map download_source_to_string order) × Distinct order × (order ≢ []))
unfolding strv_to_download_order
strv_to_download_order_iff strip sources order = (accepted, λ h. accepts order h)
  where
    fresh : (l : List Source) → All (Fresh []) l
    fresh [] = tt
    fresh (s ∷ l) = (refl, fresh l)

    nonempty : (o : List Source) → not_empty o ≡ ok order → (o ≡ order) × (order ≢ [])
    nonempty [] n = cc
    nonempty (s ∷ l) n = ground arith

    read :
        order_loop strip [] sources >>= not_empty ≡ ok order
        → (order_loop strip [] sources ≡ ok order) × (order ≢ [])
    read h =
        let (o, m, n) = >>=-eq-ok (order_loop strip [] sources) not_empty h in
        ground (arith, nonempty o n)

    accepted :
        order_loop strip [] sources >>= not_empty ≡ ok order
        → (map strip sources ≡ map download_source_to_string order) × Distinct order × (order ≢ [])
    accepted h =
        let (new, e, f) = order_loop-finds strip [] sources (read h).0 in
        rw e (f.0, f.2, rw (← e) (read h).1)

    accepts :
        (o : List Source)
        → (map strip sources ≡ map download_source_to_string o) × Distinct o × (o ≢ [])
        → order_loop strip [] sources >>= not_empty ≡ ok o
    accepts [] h = absurd (h.2 refl)
    accepts (s ∷ l) h =
        rw (order_loop-reads strip [] sources (s ∷ l) (h.0, fresh (s ∷ l), h.1)) refl
