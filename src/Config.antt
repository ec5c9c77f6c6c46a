-- ===== src/Config.antt =====
-- libeos-updater-util/config-util.c: a key is looked up in an ordered list of configuration files,
-- the default one last, and the files are loaded when they are first needed.
pub mod Laws
mod Tests
use Prim.Native.Nat.{zero}
use eos_updater.Errors.{unset, is_file_noent, key_file_invalid_value, ◌>>=◌, err, ok, Result}
use eos_updater.Prelude.{
  ◌^◌, ◌%◌, [], suc, ◌++◌, ◌||◌, ◌∷◌, some, ltb, none, if◌then◌else◌, Option, Bool, List, String, ℕ,
}

-- GKeyFile, as far as it is asked.
pub record KeyFile : Type 0 where
  pub has_key : String → String → Bool
  pub get_uint64 : String → String → Result ℕ
  pub get_boolean : String → String → Result Bool
  pub get_string : String → String → Result String
  pub get_string_list : String → String → Result (List String)

-- EuuConfigFile. `load` is g_key_file_load_from_file: what it leaves in the key file, and its
-- result.
pub record ConfigFile : Type 0 where
  pub paths : List String
  pub default_key_file : KeyFile
  pub load : String → KeyFile × Result (Unit {0})

abbrev pub get_elem? {ℓ} : {A : Type ℓ} → List A → ℕ → Option A
get_elem? [] n = none
get_elem? (x ∷ l) zero = some x
get_elem? (x ∷ l) (suc n) = get_elem? l n

-- A file that does not exist counts as an empty one.
unfoldable pub loaded : KeyFile → Result (Unit {0}) → Result KeyFile
loaded k (ok _) = ok k
loaded k (err e) = if is_file_noent e then ok k else err e
loaded k unset = unset

-- The files loaded so far, and the key file at `idx`, whose path is `path`. A file is remembered
-- before it is known whether it could be loaded.
unfoldable pub ensure_loaded :
    ConfigFile → ℕ → String → List KeyFile → List KeyFile × Result KeyFile
unfolding loaded
ensure_loaded c idx path key_files = elim (get_elem? key_files idx) [
  | some k ↦ (key_files, ok k)
  | none ↦ (key_files ++ (c.load path).0 ∷ [], loaded (c.load path).0 (c.load path).1)
]

-- The first key file, from index `idx` on, that has the key; `none` if the default has not either.
unfoldable pub get_file_for_key :
    ConfigFile
    → String
    → String
    → List String
    → ℕ
    → List KeyFile
    → List KeyFile × Result (Option KeyFile)
unfolding ensure_loaded
get_file_for_key c group key [] idx key_files =
    (key_files, ok (if c.default_key_file.has_key group key then some c.default_key_file else none))
get_file_for_key c group key (path ∷ rest) idx key_files =
    let now = ensure_loaded c idx path key_files in
    let later = get_file_for_key c group key rest (suc idx) now.0 in
    elim now.1 [
      | ok k ↦ if k.has_key group key then (now.0, ok (some k)) else later
      | err e ↦ (now.0, err e)
      | unset ↦ (now.0, unset)
    ]

-- The range check of euu_config_file_get_uint; the value is a guint.
abbrev pub in_range : ℕ → ℕ → ℕ → Result ℕ
in_range min_value max_value v =
    if ltb v min_value || ltb max_value v then err key_file_invalid_value else ok (v % 2 ^ 32)

-- `none` is a failed assertion: the key is in no file.
abbrev pub read_uint : String → String → ℕ → ℕ → Result (Option KeyFile) → Option (Result ℕ)
read_uint group key min_value max_value (ok (some k)) =
    some (k.get_uint64 group key >>= in_range min_value max_value)
read_uint group key min_value max_value (ok none) = none
read_uint group key min_value max_value (err e) = some (err e)
read_uint group key min_value max_value unset = some unset

unfoldable pub get_uint :
    ConfigFile → String → String → ℕ → ℕ → List KeyFile → List KeyFile × Option (Result ℕ)
unfolding get_file_for_key
get_uint c group key min_value max_value key_files =
    let found = get_file_for_key c group key c.paths 0 key_files in
    (found.0, read_uint group key min_value max_value found.1)

-- The end of the other accessors; `none` is a failed assertion: the key is in no file.
abbrev pub read_value {ℓ} :
    {A : Type ℓ} → (KeyFile → Result A) → Result (Option KeyFile) → Option (Result A)
read_value get (ok (some k)) = some (get k)
read_value get (ok none) = none
read_value get (err e) = some (err e)
read_value get unset = some unset

unfoldable pub get_boolean :
    ConfigFile → String → String → List KeyFile → List KeyFile × Option (Result Bool)
get_boolean c group key key_files =
    let found = get_file_for_key c group key c.paths 0 key_files in
    (found.0, read_value (λ k. k.get_boolean group key) found.1)

unfoldable pub get_string :
    ConfigFile → String → String → List KeyFile → List KeyFile × Option (Result String)
get_string c group key key_files =
    let found = get_file_for_key c group key c.paths 0 key_files in
    (found.0, read_value (λ k. k.get_string group key) found.1)

unfoldable pub get_strv :
    ConfigFile → String → String → List KeyFile → List KeyFile × Option (Result (List String))
get_strv c group key key_files =
    let found = get_file_for_key c group key c.paths 0 key_files in
    (found.0, read_value (λ k. k.get_string_list group key) found.1)
