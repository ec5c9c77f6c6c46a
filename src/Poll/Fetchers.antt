-- ===== src/Poll/Fetchers.antt =====
-- eos-updater/poll-common.c: what the old code asks, source by source (run_fetchers), and the newest
-- of what was found (get_latest_update).
pub mod Laws
use eos_updater.Poll.Latest.{or_else}
use eos_updater.Run.{unfinished, aborted, finished, Run}
use eos_updater.Poll.Sources.{same_source, Source}
use eos_updater.Prelude.{
  not, ◌==◌, ltb, filter, List, [], ◌∷◌, ◌++◌, true, false, none, some, Option, Bool, String, ℕ,
  zero, suc, ◌≡◌, ◌≢◌, ◌⊎◌, ◌↔◌, inl, inr, refl, arith, if◌then◌else◌, Bool-cases, Option-cases,
}
use eos_updater.Errors.{is_cancelled, ErrorCode, Result-cases}
use eos_updater.Errors.{Result, ok, err, unset, ◌>>=◌}

module _ {I : Type 0} (timestamp : I → ℕ) where
  -- source_to_update and latest, hash tables by the name of the source.
  abbrev pub lookup : Source → List (Source × I) → Option I
  lookup s [] = none
  lookup s (e ∷ l) = let rest = lookup s l in if same_source e.0 s then some e.1 else rest

  -- g_hash_table_insert: the entry of that name is replaced.
  abbrev pub insert : Source → I → List (Source × I) → List (Source × I)
  insert s i l = filter (λ e. not (same_source e.0 s)) l ++ (s, i) ∷ []

  -- The loop over source_to_update, with latest_timestamp and latest.
  unfoldable pub latest_loop : List (Source × I) → Option ℕ → List (Source × I) → List (Source × I)
  latest_loop [] t latest = latest
  latest_loop (e ∷ l) none latest = latest_loop l (some (timestamp e.1)) (insert e.0 e.1 [])
  latest_loop (e ∷ l) (some t) latest =
      let newer = latest_loop l (some (timestamp e.1)) (insert e.0 e.1 []) in
      let same = latest_loop l (some t) (insert e.0 e.1 latest) in
      let older = latest_loop l (some t) latest in
      if ltb t (timestamp e.1) then newer else if timestamp e.1 == t then same else older

  -- The loop over the sources.
  abbrev pub first_source : List Source → List (Source × I) → Option I
  first_source [] latest = none
  first_source (s ∷ l) latest = or_else (lookup s latest) (first_source l latest)

  -- The table is passed in the order of its iterator.
  unfoldable pub get_latest_update : List Source → List (Source × I) → Option I
  get_latest_update sources source_to_update =
      first_source sources (latest_loop source_to_update none [])

  module _ {W : Type 0} where
    -- libostree sets an error whenever it fails, so `unset` stands with the errors.
    -- The loop over the fetchers, each with its source, and what is done with what they found.
    unfoldable pub fetchers_loop :
        List ((W → Run W (Option I)) × Source)
        → List (Source × I)
        → W
        → (List (Source × I) → W → Run W (Option I))
        → Run W (Option I)
    fetchers_loop [] table w k = k table w
    fetchers_loop (f ∷ rest) table w k = elim (f.0 w) [
      | finished r w' ↦ elim r [
        | ok found ↦ elim found [
          | none ↦ fetchers_loop rest table w' k
          | some info ↦ fetchers_loop rest (insert f.1 info table) w' k
        ]
        | err e ↦ elim (is_cancelled e) [
          | true ↦ finished (err e) w'
          | false ↦ fetchers_loop rest table w' k
        ]
        | unset ↦ fetchers_loop rest table w' k
      ]
      | aborted ↦ aborted
      | unfinished ↦ unfinished
    ]

    abbrev pub sources_of : List ((W → Run W (Option I)) × Source) → List Source
    sources_of [] = []
    sources_of (f ∷ l) = f.1 ∷ sources_of l

    unfoldable pub run_fetchers : List ((W → Run W (Option I)) × Source) → W → Run W (Option I)
    run_fetchers fetchers w =
        fetchers_loop fetchers [] w
          (λ table w. finished (ok (get_latest_update (sources_of fetchers) table)) w)
