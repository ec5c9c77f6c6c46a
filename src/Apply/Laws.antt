-- ===== src/Apply/Laws.antt =====
-- eos-updater/apply.c: what applying an update changes in the configuration of the repository.
use eos_updater.Run.{Leaves}
use eos_updater.Apply.{
  must_resolve, set_binding, update_remote_branches, update_remote_collection_id, set_in_group,
  remote_group, Deployer, is_set, RepoConfig, set_value,
}
use mathlib.Core.Path.{subst, sym}
use eos_updater.Run.{finished, call, look_up-Leaves, Leaves, ◌>>ᵣ◌}
use eos_updater.Prelude.{
  strconcat, strcmp0_eq, ◌&&◌, str_equal_iff, str_equal, true, false, none, some, Option, Bool,
  String, ◌≡◌, ◌⊎◌, inl, inr, refl, arith, if◌then◌else◌, Bool-cases,
}
use eos_updater.Errors.{io_failed}
use eos_updater.Errors.{ok, err, ◌>>=◌}

-- Only the two keys of the remote may have changed, a collection ID that was set has not, and no
-- group is new.
abbrev pub Kept : String → RepoConfig → RepoConfig → Type 0
Kept group old new =
    ((g : String) → new.has_group g ≡ old.has_group g)
    × ((g key : String)
        → str_equal g group ≡ false
          ⊎ ((str_equal key "branches" ≡ false) × (str_equal key "collection-id" ≡ false))
        → new.value g key ≡ old.value g key)
    × (is_set (old.value group "collection-id") ≡ true
        → new.value group "collection-id" ≡ old.value group "collection-id")

pub Kept-refl : (group : String) (c : RepoConfig) → Kept group c c
Kept-refl group c = ((λ g. refl), (λ g key h. refl), (λ h. refl))

set_value-Kept :
    (group key v : String) (old c : RepoConfig)
    → Kept group old c
    → c.has_group group ≡ true
    → (str_equal key "branches" ≡ true)
      ⊎ ((str_equal key "collection-id" ≡ true) × (is_set (c.value group "collection-id") ≡ false))
    → Kept group old (set_value group key v c)
unfolding set_value
set_value-Kept group key v old c h g k = (
  (λ x. elim (Bool-cases (str_equal x group)) [
    | inl e ↦ ground (arith, h.0 x, str_equal_iff x group)
    | inr e ↦ ground (arith, h.0 x)
  ]),
  (λ x y n. elim (Bool-cases (str_equal x group && str_equal y key)) [
    | inl e ↦ absurd (
        ground (
          arith,
          str_equal_iff y key,
          str_equal_iff key "branches",
          str_equal_iff y "branches",
          str_equal_iff key "collection-id",
          str_equal_iff y "collection-id",
        ))
    | inr e ↦ ground (arith, h.1 x y n)
  ]),
  (λ n. elim (Bool-cases (str_equal "collection-id" key)) [
    | inl e ↦ absurd (clash ((str_equal_iff "collection-id" key).0 e) k n)
    | inr e ↦ elim (Bool-cases (str_equal group group)) [
      | inl f ↦ ground (arith, h.2 n)
      | inr f ↦ ground (arith, h.2 n)
    ]
  ]),
)
  where
    clash :
        "collection-id" ≡ key
        → (str_equal key "branches" ≡ true)
          ⊎ ((str_equal key "collection-id" ≡ true)
              × (is_set (c.value group "collection-id") ≡ false))
        → is_set (old.value group "collection-id") ≡ true
        → ⊥
    clash e (inl b) n = differ (subst (λ x. str_equal x "branches" ≡ true) (sym e) b)
      where
        differ : str_equal "collection-id" "branches" ≡ true → ⊥
        differ d = cc
    clash e (inr b) n = ground (arith, h.2 n)

module _ {W : Type 0} (deployer : Deployer W) where
  -- What libostree documents: writing the configuration changes it to what is written, or fails and
  -- leaves it; deploying does not change it; and an option of a remote that is defined in it is
  -- read from it.
  abbrev pub Documented : Type 0
  Documented =
      ((c : RepoConfig) (w : W)
        → (deployer.copy_config (deployer.write_config c w).1 ≡ c)
          ⊎ (deployer.copy_config (deployer.write_config c w).1 ≡ deployer.copy_config w))
      × ((remote key : String) (w : W)
          → (deployer.copy_config w).has_group (remote_group remote) ≡ true
          → deployer.get_remote_option remote key w
            ≡ ok ((deployer.copy_config w).value (remote_group remote) key))

  abbrev Holds : String → RepoConfig → W → Type 0
  Holds remote old w = Kept (remote_group remote) old (deployer.copy_config w)

  module _ (documented : Documented) (old : RepoConfig) where
    pub set_in_group-Holds :
        (remote key v : String) (w : W)
        → Holds remote old w
        → (str_equal key "branches" ≡ true)
          ⊎ ((str_equal key "collection-id" ≡ true)
              × (is_set ((deployer.copy_config w).value (remote_group remote) "collection-id")
                  ≡ false))
          ⊎ ((deployer.copy_config w).has_group (remote_group remote) ≡ false)
        → Leaves (Holds remote old) (set_in_group deployer remote key v w)
    set_in_group-Holds remote key v w h k =
        written ((deployer.copy_config w).has_group (remote_group remote)) refl
      where
        changed : RepoConfig
        changed = set_value (remote_group remote) key v (deployer.copy_config w)

        changed-Kept :
            (deployer.copy_config w).has_group (remote_group remote) ≡ true
            → Kept (remote_group remote) old changed
        changed-Kept e = elim k [
          | inl b ↦
              set_value-Kept (remote_group remote) key v old (deployer.copy_config w) h e (inl b)
          | inr (inl b) ↦
              set_value-Kept (remote_group remote) key v old (deployer.copy_config w) h e (inr b)
          | inr (inr f) ↦ absurd (ground arith)
        ]

        written :
            (b : Bool)
            → (deployer.copy_config w).has_group (remote_group remote) ≡ b
            → Leaves
                (Holds remote old)
                (if b then call (deployer.write_config changed w) else finished (err io_failed) w)
        written false e = h
        written true e = elim (documented.0 changed w) [
          | inl f ↦ subst (Kept (remote_group remote) old) (sym f) (changed-Kept e)
          | inr f ↦ subst (Kept (remote_group remote) old) (sym f) h
        ]

    pub branches-Holds :
        (refspec remote ref : String)
        → deployer.parse_refspec refspec ≡ ok (some remote, ref)
        → (w : W) → Holds remote old w
        → Leaves (Holds remote old) (update_remote_branches deployer refspec w)
    unfolding update_remote_branches
    branches-Holds refspec remote ref p w h = rw p (
        look_up-Leaves (Holds remote old) (deployer.get_remote_option remote "branches" w) w _ h
          (λ cur e.
            elim (strcmp0_eq cur (some (strconcat ref ";")))
              as (λ b. Leaves (Holds remote old) (
                if b
                then finished (ok tt) w
                else set_in_group deployer remote "branches" (strconcat ref ";") w)) [
                  | true ↦ h
                  | false ↦ set_in_group-Holds remote "branches" (strconcat ref ";") w h (inl refl)
                ]))

    pub collection-Holds :
        (refspec remote ref : String)
        → deployer.parse_refspec refspec ≡ ok (some remote, ref)
        → (w : W) → Holds remote old w
        → Leaves (Holds remote old) (update_remote_collection_id deployer refspec w)
    unfolding update_remote_collection_id
    collection-Holds refspec remote ref p w h = rw p (
        look_up-Leaves (Holds remote old) (deployer.get_remote_option remote "collection-id" w) w _
          h (λ cur e. unset_yet cur e (is_set cur) refl))
      where
        set_it :
            (cur : Option String)
            → deployer.get_remote_option remote "collection-id" w ≡ ok cur
            → is_set cur ≡ false
            → (binding : Option String)
            → Leaves (Holds remote old) (set_binding deployer remote binding w)
        set_it cur e u none = h
        set_it cur e u (some id) =
            set_in_group-Holds remote "collection-id" id w h
              (elim (Bool-cases ((deployer.copy_config w).has_group (remote_group remote))) [
                | inl g ↦
                    let r = documented.1 remote "collection-id" w g in
                    inr (inl (refl, ground arith))
                | inr g ↦ inr (inr g)
              ])

        unset_yet :
            (cur : Option String)
            → deployer.get_remote_option remote "collection-id" w ≡ ok cur
            → (b : Bool) → is_set cur ≡ b
            → Leaves (Holds remote old) (
                if b
                then finished (ok tt) w
                else (finished (deployer.resolve_rev refspec w >>= must_resolve deployer) w
                    >>ᵣ λ checksum w.
                        finished (deployer.collection_binding checksum w) w >>ᵣ λ binding w.
                        set_binding deployer remote binding w))
        unset_yet cur e true u = h
        unset_yet cur e false u =
            look_up-Leaves (Holds remote old)
              (deployer.resolve_rev refspec w >>= must_resolve deployer) w _ h
              (λ checksum _.
                look_up-Leaves (Holds remote old) (deployer.collection_binding checksum w) w _ h
                  (λ binding _. set_it cur e u binding))
