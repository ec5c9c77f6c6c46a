-- ===== src/Poll/Finders.antt =====
-- eos-updater/poll.c: which finders of libostree are asked (get_finders).
pub mod Laws
use eos_updater.Poll.Sources.{source_volume, source_lan, source_main, Source}
use eos_updater.Prelude.{
  ◌++◌, some, true, String, ◌∷◌, false, none, Bool, Option, List, if◌then◌else◌, [],
}
use eos_updater.Errors.{Result, ok, err, unset}

-- An OstreeRepoFinder by how it was made, and the NULL at the end of an array of them.
pub data Finder : Type 0 where
  finder_config : Finder
  finder_avahi : Finder
  finder_mount : Finder
  finder_override : List String → Finder
  null : Finder

-- SourcesConfig.
pub record SourcesConfig : Type 0 where
  pub download_order : List Source
  pub override_uris : Option (List String)

-- What get_finders returns in its out parameters; `avahi` is whether the Avahi finder runs.
pub record Finders : Type 0 where
  pub offline : List Finder
  pub online : List Finder
  pub avahi : Bool

-- The loop over the download order; the second Avahi finder fails an assertion.
unfoldable pub finders_loop : List Source → Finders → Option Finders
finders_loop [] f = some f
finders_loop (source_main ∷ rest) f =
    finders_loop rest (record f { online = f.online ++ finder_config ∷ [] })
finders_loop (source_lan ∷ rest) f =
    let later =
      finders_loop rest (record f { offline = f.offline ++ finder_avahi ∷ []; avahi = true }) in
    if f.avahi then none else later
finders_loop (source_volume ∷ rest) f =
    finders_loop rest (record f { offline = f.offline ++ finder_mount ∷ [] })

abbrev pub override : Option (List String) → Finders → Finders
override none f = f
override (some uris) f = record { offline = []; online = finder_override uris ∷ []; avahi = false }

-- The NULL terminator is added to an array that is not empty.
abbrev pub terminated : List Finder → List Finder
terminated [] = []
terminated (x ∷ l) = (x ∷ l) ++ null ∷ []

abbrev pub is_avahi : Finder → Bool
is_avahi finder_avahi = true
is_avahi _ = false

-- g_ptr_array_remove: the first element that is the finder is removed.
abbrev pub remove_avahi : List Finder → List Finder
remove_avahi [] = []
remove_avahi (x ∷ l) = let rest = remove_avahi l in if is_avahi x then l else x ∷ rest

-- `start` is what ostree_repo_finder_avahi_start returns.
abbrev pub started : Result (Unit {0}) → Finders → Finders
started (ok _) f = f
started (err e) f =
    if f.avahi then record f { offline = remove_avahi f.offline; avahi = false } else f
started unset f = f

abbrev pub with_terminators : Finders → Finders
with_terminators f = record f { offline = terminated f.offline; online = terminated f.online }

abbrev pub no_finders : Finders
no_finders = record { offline = []; online = []; avahi = false }

-- `none` is a failed assertion.
unfoldable pub get_finders : Result (Unit {0}) → SourcesConfig → Option Finders
get_finders start config = elim config.download_order [
  | [] ↦ none
  | s ∷ l ↦ elim (finders_loop (s ∷ l) no_finders) [
    | none ↦ none
    | some f ↦ some (started start (with_terminators (override config.override_uris f)))
  ]
]
