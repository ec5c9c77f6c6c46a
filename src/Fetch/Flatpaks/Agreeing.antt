-- ===== src/Fetch/Flatpaks/Agreeing.antt =====
-- eos-updater/fetch.c: the cache of transition_pending_ref_action_collection_ids_to_remote_names
-- does not change what it decides.
use eos_updater.Actions.{is_install, Action}
use eos_updater.Fetch.Flatpaks.{
  no_names, disagrees, remember, cached, candidate, transition_loop, Cache, Transactions,
}
use mathlib.Core.Path.{subst, sym, ap, ◌∙◌}
use eos_updater.Prelude.{
  str_equal_iff, str_equal, All, List, [], ◌∷◌, true, false, none, some, Option, String, ◌≡◌, ◌↔◌,
  inl, inr, refl, arith, Bool-cases, Option-cases,
}
use eos_updater.Errors.{ok}

module _ {W : Type 0} (transactions : Transactions W) (w : W) where
  abbrev pub found_remote : Option String → Option String
  found_remote none = none
  found_remote (some id) = transactions.lookup_remote_for_collection_id w id

  -- An install names a remote, and it is the one that its collection ID is found under, if any.
  abbrev pub Agrees : Action → Type 0
  Agrees a =
      is_install a.type ≡ true
      → (remote : String) × (a.location.remote ≡ some remote)
        × (disagrees remote (found_remote a.location.collection_id) ≡ false)

  -- What is remembered is what the look-up gives.
  abbrev Faithful : Cache → Type 0
  Faithful cache =
      (id : String) (name : Option String)
      → cache id ≡ some name
      → name ≡ transactions.lookup_remote_for_collection_id w id

  cached_lem :
      (cache : Cache)
      → Faithful cache
      → (id : String)
      → cached transactions w id (cache id) ≡ transactions.lookup_remote_for_collection_id w id
  cached_lem cache f id = elim (Option-cases (cache id)) [
    | inl e ↦ ground (arith, e)
    | inr (name, e) ↦ ground (arith, e, f id name e)
  ]

  candidate_lem :
      (cache : Cache)
      → Faithful cache
      → (id : Option String) → candidate transactions w cache id ≡ found_remote id
  candidate_lem cache f none = refl
  candidate_lem cache f (some id) = cached_lem cache f id

  remember-Faithful :
      (cache : Cache)
      → Faithful cache
      → (id : Option String) → Faithful (remember transactions w cache id)
  remember-Faithful cache f none x name e = f x name e
  remember-Faithful cache f (some id) x name e = elim (Bool-cases (str_equal x id)) [
    | inl s ↦
        let k : cached transactions w id (cache id) ≡ name = ground arith in
        let y : x ≡ id = (str_equal_iff x id).0 s in
        sym k
        ∙ cached_lem cache f id
        ∙ ap (λ z. transactions.lookup_remote_for_collection_id w z) (sym y)
    | inr s ↦ f x name (ground arith)
  ]

  clash :
      (remote r : String) (cache : Cache)
      → Faithful cache
      → (id : Option String) → r ≡ remote
      → disagrees remote (candidate transactions w cache id) ≡ true
      → disagrees r (found_remote id) ≡ false
      → ⊥
  clash remote r cache f id q d m =
      let k : disagrees remote (found_remote id) ≡ true =
        subst (λ x. disagrees remote x ≡ true) (candidate_lem cache f id) d in
      let n : disagrees remote (found_remote id) ≡ false =
        subst (λ x. disagrees x (found_remote id) ≡ false) q m in
      ground arith

  transition_loop_iff :
      (cache : Cache)
      → Faithful cache
      → (l : List Action) → (transition_loop transactions w cache l ≡ some (ok tt)) ↔ All Agrees l
  unfolding transition_loop
  transition_loop_iff cache f [] = (λ _. tt, λ _. refl)
  transition_loop_iff cache f (a ∷ l) = elim (Bool-cases (is_install a.type)) [
    | inr i ↦ (
      (λ h. ((λ j. absurd (ground arith)), (transition_loop_iff cache f l).0 (ground arith))),
      (λ h. ground (arith, (transition_loop_iff cache f l).1 h.1)),
    )
    | inl i ↦ elim (Option-cases a.location.remote) [
      | inl n ↦
          ((λ h. absurd (ground arith)), (λ h. absurd (let (r, e, _) = h.0 i in ground arith)))
      | inr (remote, e) ↦
          elim (Bool-cases
            (disagrees remote (candidate transactions w cache a.location.collection_id))) [
              | inl d ↦ (
                (λ h. absurd (ground arith)),
                (λ h. absurd (
                    let (r, k, m) = h.0 i in
                    clash remote r cache f a.location.collection_id (ground arith) d m)),
              )
              | inr d ↦ (
                (λ h. (
                  (λ j. (
                    remote,
                    e,
                    subst (λ x. disagrees remote x ≡ false)
                        (candidate_lem cache f a.location.collection_id) d,
                  )),
                  (transition_loop_iff (remember transactions w cache a.location.collection_id)
                        (remember-Faithful cache f a.location.collection_id) l).0
                      (ground arith),
                )),
                (λ h. ground (
                  arith,
                  (transition_loop_iff (remember transactions w cache a.location.collection_id)
                        (remember-Faithful cache f a.location.collection_id) l).1
                      h.1,
                )),
              )
            ]
    ]
  ]

  -- With its cache of look-ups the transition succeeds exactly if every ref to install names a
  -- remote that is the one its collection ID is found under, where it is found under one.
  pub transition_loop-Agrees :
      (l : List Action) → (transition_loop transactions w no_names l ≡ some (ok tt)) ↔ All Agrees l
  transition_loop-Agrees l = transition_loop_iff no_names (λ id name e. absurd (ground arith)) l
