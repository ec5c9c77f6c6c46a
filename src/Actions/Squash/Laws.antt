-- ===== src/Actions/Squash/Laws.antt =====
-- What squashing keeps of each ref.
use eos_updater.Prelude.{
  ◌∙◌, Permᴰ, All, append-nil, Bool, true, false, ◌&&◌, ◌||◌, not, Option, none, some, List, [],
  ◌∷◌, ◌++◌, any, filter, if◌then◌else◌, ◌==◌, ◌≡◌, refl, ap, arith, to_list, filter-append,
  any-append, any-eq-false, Bool-cases, Option-cases, inl, inr, filter-perm, perm-singleton,
  perm-nil,
}
use eos_updater.Actions.{sort_flatpak_remote_ref_actions, Action, FlatpakRef, ref_equal}
use eos_updater.Actions.Order.{ref_equal_iff}
use eos_updater.Actions.Squash.{
  ArraySort, Table, empty, squash_table, finds, collect, on, winner, squash_ref_actions_ptr_array,
}
use eos_updater.Actions.Squash.Tables.{
  squash_table-eq-winner, picked, picked-winner, OnRef, squash_table-OnRef, IsKnown,
  squash_table-IsKnown,
}

-- One round of the second loop appends, or not.
abbrev push : Bool → Action → List Action → List Action
push b s out = if b then out ++ s ∷ [] else out

filter-push :
    (p : Action → Bool) (b : Bool) (s : Action) (out : List Action)
    → filter p (push b s out) ≡ filter p out ++ (if b && p s then s ∷ [] else [])
filter-push p b s out = ground (arith, filter-append p out (s ∷ []), append-nil (filter p out))

any-push :
    (p : Action → Bool) (b : Bool) (s : Action) (out : List Action)
    → any p (push b s out) ≡ (any p out || (b && p s))
any-push p b s out = ground (arith, any-append p out (s ∷ []))

-- The ref of the action at hand, and another ref.
module _ (r : FlatpakRef) (s a : Action) (here : on r a ≡ true) where
  on-eq : a.location.ref ≡ r
  on-eq = (ref_equal_iff a.location.ref r).0 here

  finds-eq-any : (out : List Action) → finds out a ≡ any (on r) out
  finds-eq-any out = ap (λ q. any (λ (x : Action). ref_equal x.location.ref q) out) on-eq

on-false :
    (r : FlatpakRef) (s a : Action) → on a.location.ref s ≡ true → on r a ≡ false → on r s ≡ false
on-false r s a h k = ap (λ q. ref_equal q r) ((ref_equal_iff s.location.ref a.location.ref).0 h) ∙ k

collect-filter :
    (t : Table) (l out : List Action) (r : FlatpakRef) {res : List Action}
    → OnRef t
    → collect t l out ≡ some res
    → filter (on r) res ≡ (
        if any (on r) out
        then filter (on r) out
        else if picked (t r) r l
        then to_list (t r)
        else [])
unfolding collect
collect-filter t [] out r h e = ground (arith, any-eq-false (on r) out)
collect-filter t (a ∷ l) out r {res} h e = elim (Option-cases (t a.location.ref)) [
  | inl missing ↦ absurd (ground arith)
  | inr (s, found) ↦
      let b = s.address == a.address && not (finds out a) in
      let ih = collect-filter t l (push b s out) r {res = res} h (ground arith) in
      elim (Bool-cases (on r a)) [
        | inl here ↦ ground (
          arith,
          filter-push (on r) b s out,
          any-push (on r) b s out,
          any-eq-false (on r) out,
          h r s,
          ap t (on-eq r s a here),
          finds-eq-any r s a here out,
        )
        | inr there ↦ ground (
          arith,
          filter-push (on r) b s out,
          any-push (on r) b s out,
          on-false r s a (h a.location.ref s found) there,
          append-nil (filter (on r) out),
        )
      ]
]

collect-total :
    (t : Table) (l out : List Action)
    → All (IsKnown t) l
    → (res : List Action) × (collect t l out ≡ some res)
unfolding collect
collect-total t [] out h = (out, refl)
collect-total t (a ∷ l) out h = elim (Option-cases (t a.location.ref)) [
  | inl e ↦ absurd (ground arith)
  | inr (s, e) ↦
      rw (e, collect)
        (collect-total t l (push (s.address == a.address && not (finds out a)) s out) h.1)
]

filter_of_perm :
    (p : Action → Bool) (o : Option Action) {xs ys : List Action}
    → Permᴰ xs ys
    → filter p ys ≡ to_list o
    → filter p xs ≡ to_list o
filter_of_perm p none {xs} m e = perm-nil (filter p xs) (rw e at (filter-perm p m))
filter_of_perm p (some w) {xs} m e = perm-singleton (rw e at (filter-perm p m))

picked-to_list :
    (r : FlatpakRef) (l : List Action)
    → (if picked (winner r l) r l then to_list (winner r l) else []) ≡ to_list (winner r l)
picked-to_list r l = elim (Option-cases (winner r l)) [
  | inl e ↦ ground arith
  | inr (w, e) ↦ rw (e, picked-winner r l w e)
]

-- For every list of actions the result holds of each ref its winner and nothing else: the last
-- install or uninstall of the ref, or its last update if it has only updates.
pub squash_ref_actions-filter :
    (array : ArraySort Action) (actions : List Action)
    → (out : List Action) × (squash_ref_actions_ptr_array array actions ≡ some out)
      × ((r : FlatpakRef) → filter (on r) out ≡ to_list (winner r actions))
unfolding squash_ref_actions_ptr_array
squash_ref_actions-filter array actions =
    let t = squash_table empty actions in
    let (res, e) = collect-total t actions [] (squash_table-IsKnown empty actions) in
    (
      array.sort sort_flatpak_remote_ref_actions res,
      rw (e, squash_ref_actions_ptr_array),
      λ r. filter_of_perm (on r) (winner r actions) (array.keeps _ res) (
          collect-filter t actions [] r (squash_table-OnRef actions) e
          ∙ ap (λ o. if picked o r actions then to_list o else [])
              (squash_table-eq-winner actions r)
          ∙ picked-to_list r actions),
    )
