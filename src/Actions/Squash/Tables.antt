-- ===== src/Actions/Squash/Tables.antt =====
-- The table that the first loop of squash_ref_actions_ptr_array fills.
use eos_updater.Prelude.{
  ◌∙◌, All, is_some, Bool, true, false, ◌&&◌, ◌||◌, not, Option, none, some, List, [], ◌∷◌, any,
  get_last?, filter, if◌then◌else◌, ◌==◌, ◌≡◌, refl, sym, ap, arith, Option-cases, inl, inr,
}
use eos_updater.Actions.{Action, FlatpakRef, is_update}
use eos_updater.Actions.Order.{ref_equal_iff}
use eos_updater.Actions.Squash.{
  Table, empty, yields, squash_action, squash_table, on, decisive, winner,
}

-- What the first loop does to a table at one ref.
abbrev pub beats : FlatpakRef → Option Action → List Action → Option Action
beats r o [] = o
beats r o (a ∷ l) =
    beats r (if on r a then (if not (is_update a.type) || yields o then some a else o) else o) l

pub squash_action-apply :
    (t : Table) (a : Action) (r : FlatpakRef)
    → squash_action t a r
      ≡ (if on r a then (if not (is_update a.type) || yields (t r) then some a else t r) else t r)
unfolding squash_action
squash_action-apply t a r = ground (arith, ref_equal_iff a.location.ref r, ap t)

pub squash_table-apply :
    (t : Table) (l : List Action) (r : FlatpakRef) → squash_table t l r ≡ beats r (t r) l
unfolding squash_table
squash_table-apply t [] r = refl
squash_table-apply t (a ∷ l) r =
    rw (← squash_action-apply t a r) (squash_table-apply (squash_action t a) l r)

-- An accumulator on the right of `winner`.
abbrev pub better : Option Action → Option Action → Option Action → Option Action
better o none none = o
better o (some a) _ = some a
better o none (some a) = if yields o then some a else o

pub beats-winner :
    (r : FlatpakRef) (o : Option Action) (l : List Action)
    → beats r o l ≡ better o (get_last? (filter (decisive r) l)) (get_last? (filter (on r) l))
beats-winner r o [] = refl
beats-winner r o (a ∷ l) = ground (arith, beats-winner r o l, beats-winner r (some a) l)

-- The table after the first loop holds exactly the winner of every ref.
pub squash_table-eq-winner :
    (actions : List Action) (r : FlatpakRef) → squash_table empty actions r ≡ winner r actions
squash_table-eq-winner actions r =
    ground (arith, squash_table-apply empty actions r, beats-winner r none actions)

pub get_last?-filter :
    (p : Action → Bool) (l : List Action) (w : Action)
    → get_last? (filter p l) ≡ some w
    → p w ≡ true
get_last?-filter p [] w h = cc
get_last?-filter p (a ∷ l) w h = ground (arith, get_last?-filter p l w, ap p)

pub any-address :
    (p : Action → Bool) (l : List Action) (w : Action)
    → get_last? (filter p l) ≡ some w
    → any (λ a. p a && w.address == a.address) l ≡ true
any-address p [] w h = cc
any-address p (a ∷ l) w h = ground (arith, any-address p l w)

pub winner-on :
    (r : FlatpakRef) (l : List Action) (w : Action) → winner r l ≡ some w → on r w ≡ true
winner-on r l w h = ground (arith, get_last?-filter (decisive r) l w, get_last?-filter (on r) l w)

pub any_mono :
    (p q : Action → Bool) (l : List Action)
    → ((a : Action) → p a ≡ true → q a ≡ true)
    → any p l ≡ true
    → any q l ≡ true
any_mono p q [] h e = cc
any_mono p q (a ∷ l) h e = ground (arith, h a, any_mono p q l h)

abbrev pub same_address : Option Action → Action → Bool
same_address none a = false
same_address (some w) a = w.address == a.address

-- The ref's own action is met in the second loop.
abbrev pub picked : Option Action → FlatpakRef → List Action → Bool
picked o r l = any (λ a. on r a && same_address o a) l

pub picked-winner :
    (r : FlatpakRef) (l : List Action) (w : Action)
    → winner r l ≡ some w
    → picked (some w) r l ≡ true
picked-winner r l w h = elim (Option-cases (get_last? (filter (decisive r) l))) [
  | inl e ↦ any-address (on r) l w (ground arith)
  | inr (v, e) ↦
      any_mono (λ a. decisive r a && w.address == a.address) (λ a. on r a && w.address == a.address)
        l (λ a k. ground arith) (any-address (decisive r) l w (ground arith))
]

abbrev pub OnRef : Table → Type 0
OnRef t = (r : FlatpakRef) (w : Action) → t r ≡ some w → on r w ≡ true

pub squash_table-OnRef : (actions : List Action) → OnRef (squash_table empty actions)
squash_table-OnRef actions r w e =
    winner-on r actions w (sym (squash_table-eq-winner actions r) ∙ e)

-- Once the table has a ref it keeps having it.
pub beats-some :
    (r : FlatpakRef) (o : Option Action) (l : List Action)
    → is_some o ≡ true
    → is_some (beats r o l) ≡ true
beats-some r o [] h = h
beats-some r o (a ∷ l) h = ground (arith, beats-some r (some a) l, beats-some r o l)

pub beats-head :
    (a : Action) (o : Option Action) (l : List Action)
    → is_some (beats a.location.ref o (a ∷ l)) ≡ true
beats-head a none l = ground (
  arith,
  (ref_equal_iff a.location.ref a.location.ref).1 refl,
  beats-some a.location.ref (some a) l,
)
beats-head a (some w) l =
    ground (arith, beats-some a.location.ref (some a) l, beats-some a.location.ref (some w) l)

abbrev pub IsKnown : Table → Action → Type 0
IsKnown t a = is_some (t a.location.ref) ≡ true

pub squash_table-IsKnown : (t : Table) (l : List Action) → All (IsKnown (squash_table t l)) l
unfolding squash_table
squash_table-IsKnown t [] = tt
squash_table-IsKnown t (a ∷ l) = (
  rw (squash_table-apply t (a ∷ l) a.location.ref) (beats-head a (t a.location.ref) l),
  squash_table-IsKnown (squash_action t a) l,
)
