-- ===== src/Errors.antt =====
-- GError as the updater sees it: libeos-updater-util/types.h (EosUpdaterError), the GLib, flatpak
-- and checkpoint codes that the code compares, and what a C function that can fail returns.
use eos_updater.Prelude.{inr, inl, ◌⊎◌, ℕ, Bool, true, false, ◌≡◌, refl}

pub data EosUpdaterError : Type 0 where
  wrong_state : EosUpdaterError
  live_boot : EosUpdaterError
  wrong_configuration : EosUpdaterError
  not_ostree_system : EosUpdaterError
  fetching : EosUpdaterError
  malformed_autoinstall_spec : EosUpdaterError
  unknown_entry_in_autoinstall_spec : EosUpdaterError
  flatpak_remote_conflict : EosUpdaterError
  metered_connection : EosUpdaterError

-- A domain with its code. `other` is any pair that the code never compares.
pub data ErrorCode : Type 0 where
  updater : EosUpdaterError → ErrorCode
  io_cancelled : ErrorCode
  io_failed : ErrorCode
  io_not_found : ErrorCode
  io_not_supported : ErrorCode
  io_exists : ErrorCode
  file_noent : ErrorCode
  key_file_invalid_value : ErrorCode
  flatpak_not_installed : ErrorCode
  flatpak_already_installed : ErrorCode
  flatpak_skipped : ErrorCode
  schedule_entry_invalidated : ErrorCode
  checkpoint_block : ℕ → ErrorCode
  other : ℕ → ErrorCode

-- `unset` is a failure that is returned with no GError set.
pub data Result {ℓ} (A : Type ℓ) : Type ℓ where
  ok : A → Result A
  err : ErrorCode → Result A
  unset : Result A

infixl 5 ◌>>=◌ ◌>>◌
abbrev pub ◌>>=◌ {ℓ κ} : {A : Type ℓ} {B : Type κ} → Result A → (A → Result B) → Result B
ok a >>= k = k a
err e >>= k = err e
unset >>= k = unset

abbrev pub ◌>>◌ {ℓ} : {B : Type ℓ} → Result (Unit {0}) → Result B → Result B
m >> k = m >>= λ _. k

pub >>=-eq-ok {ℓ κ} :
    {A : Type ℓ} {B : Type κ} (m : Result A) (k : A → Result B) {b : B}
    → (m >>= k) ≡ ok b
    → (a : A) × (m ≡ ok a) × (k a ≡ ok b)
>>=-eq-ok (ok a) k h = (a, refl, h)
>>=-eq-ok (err e) k h = cc
>>=-eq-ok unset k h = cc

-- `g_error_matches` against the codes that the source names.
abbrev pub is_cancelled : ErrorCode → Bool
is_cancelled io_cancelled = true
is_cancelled _ = false

abbrev pub is_io_failed : ErrorCode → Bool
is_io_failed io_failed = true
is_io_failed _ = false

abbrev pub is_io_not_found : ErrorCode → Bool
is_io_not_found io_not_found = true
is_io_not_found _ = false

abbrev pub is_io_exists : ErrorCode → Bool
is_io_exists io_exists = true
is_io_exists _ = false

abbrev pub is_file_noent : ErrorCode → Bool
is_file_noent file_noent = true
is_file_noent _ = false

abbrev pub is_invalid_value : ErrorCode → Bool
is_invalid_value key_file_invalid_value = true
is_invalid_value _ = false

abbrev pub is_not_installed : ErrorCode → Bool
is_not_installed flatpak_not_installed = true
is_not_installed _ = false

abbrev pub is_already_installed : ErrorCode → Bool
is_already_installed flatpak_already_installed = true
is_already_installed _ = false

abbrev pub is_skipped : ErrorCode → Bool
is_skipped flatpak_skipped = true
is_skipped _ = false

abbrev pub is_invalidated : ErrorCode → Bool
is_invalidated schedule_entry_invalidated = true
is_invalidated _ = false

abbrev pub is_malformed : ErrorCode → Bool
is_malformed (updater malformed_autoinstall_spec) = true
is_malformed _ = false

abbrev pub is_unknown_entry : ErrorCode → Bool
is_unknown_entry (updater unknown_entry_in_autoinstall_spec) = true
is_unknown_entry _ = false

pub Result-cases {ℓ} :
    {A : Type ℓ} (r : Result A)
    → ((a : A) × (r ≡ ok a)) ⊎ ((e : ErrorCode) × (r ≡ err e)) ⊎ (r ≡ unset)
Result-cases (ok a) = inl (a, refl)
Result-cases (err e) = inr (inl (e, refl))
Result-cases unset = inr (inr refl)
