-- ===== src/Poll/Finders/Laws.antt =====
-- eos-updater/poll.c: get_finders on an order that strv_to_download_order has accepted.
use eos_updater.Poll.Sources.Order.{Distinct}
use eos_updater.Poll.Sources.{source_lan, same_source, Source}
use eos_updater.Poll.Finders.{
  no_finders, finder_avahi, finder_mount, finder_config, null, terminated, with_terminators,
  remove_avahi, SourcesConfig, override, started, Finders, finders_loop, get_finders, Finder,
}
use eos_updater.Poll.Sources.{source_main, source_lan, source_volume}
use eos_updater.Prelude.{
  any, ◌+◌, ◌≤◌, ◌<◌, length, List, [], ◌∷◌, ◌++◌, true, false, none, some, Option, String, suc,
  ◌≡◌, ◌≢◌, inl, inr, refl, arith, Bool-cases,
}
use eos_updater.Errors.{Result, ok, err, unset}

-- Something is in one of the two lists.
abbrev pub IsSome : Finders → Type 0
IsSome f = 0 < length f.offline + length f.online

length-append_lem : {A : Type 0} (xs ys : List A) → length (xs ++ ys) ≡ length xs + length ys
length-append_lem [] ys = omega arith
length-append_lem (x ∷ xs) ys = omega (arith, length-append_lem xs ys)

-- The Avahi finder is made once at most.
finders_loop-IsSome :
    (l : List Source) (f : Finders)
    → Distinct l
    → (f.avahi ≡ true → any (same_source source_lan) l ≡ false)
    → (g : Finders) × (finders_loop l f ≡ some g)
      × (length f.offline + length f.online + length l ≤ length g.offline + length g.online)
unfolding finders_loop
finders_loop-IsSome [] f d a = (f, refl, omega arith)
finders_loop-IsSome (source_main ∷ l) f d a =
    let (g, e, n) =
      finders_loop-IsSome l (record f { online = f.online ++ finder_config ∷ [] }) d.1 a in
    (g, e, omega (arith, length-append_lem f.online (finder_config ∷ [])))
finders_loop-IsSome (source_volume ∷ l) f d a =
    let (g, e, n) =
      finders_loop-IsSome l (record f { offline = f.offline ++ finder_mount ∷ [] }) d.1 a in
    (g, e, omega (arith, length-append_lem f.offline (finder_mount ∷ [])))
finders_loop-IsSome (source_lan ∷ l) f d a =
    let (g, e, n) =
      finders_loop-IsSome l (record f { offline = f.offline ++ finder_avahi ∷ []; avahi = true })
        d.1 (λ _. d.0) in
    (g, ground arith, omega (arith, length-append_lem f.offline (finder_avahi ∷ [])))

terminated-le :
    (l : List Finder)
    → (0 < length l → 2 ≤ length (terminated l)) × (length l ≤ length (terminated l))
terminated-le [] = (λ h. absurd (omega arith), omega arith)
terminated-le (x ∷ l) = (
  (λ h. omega (arith, length-append_lem l (null ∷ []))),
  omega (arith, length-append_lem l (null ∷ [])),
)

length-remove_avahi : (l : List Finder) → length l ≤ suc (length (remove_avahi l))
length-remove_avahi [] = omega arith
length-remove_avahi (x ∷ l) = ground (arith, length-remove_avahi l)

override-IsSome : (uris : Option (List String)) (f : Finders) → IsSome f → IsSome (override uris f)
override-IsSome none f h = h
override-IsSome (some u) f h = omega arith

started-IsSome :
    (start : Result (Unit {0})) (f : Finders)
    → IsSome f
    → IsSome (started start (with_terminators f))
started-IsSome (ok _) f h = omega (arith, terminated-le f.offline, terminated-le f.online)
started-IsSome (err e) f h = elim (Bool-cases f.avahi) [
  | inl a ↦ ground (
    arith,
    terminated-le f.offline,
    terminated-le f.online,
    length-remove_avahi (terminated f.offline),
  )
  | inr a ↦ ground (arith, terminated-le f.offline, terminated-le f.online)
]
started-IsSome unset f h = omega (arith, terminated-le f.offline, terminated-le f.online)

-- On an accepted order no assertion of get_finders fails, and one of its two lists is not empty,
-- also when the Avahi finder could not be started: the terminator stays.
pub get_finders-IsSome :
    (start : Result (Unit {0})) (config : SourcesConfig)
    → Distinct config.download_order
    → config.download_order ≢ []
    → (f : Finders) × (get_finders start config ≡ some f) × IsSome f
unfolding get_finders
get_finders-IsSome start config d n = made config.download_order config.override_uris d n
  where
    made :
        (l : List Source) (uris : Option (List String))
        → Distinct l
        → l ≢ []
        → (f : Finders) × (get_finders start (record { download_order = l; override_uris = uris })
            ≡ some f)
          × IsSome f
    made [] uris d n = absurd (n refl)
    made (s ∷ l) uris d n =
        let (g, e, m) = finders_loop-IsSome (s ∷ l) no_finders d (λ h. absurd (ground arith)) in
        (
          started start (with_terminators (override uris g)),
          ground (arith, e),
          started-IsSome start (override uris g) (override-IsSome uris g (omega arith)),
        )
