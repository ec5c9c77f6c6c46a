-- ===== src/Poll/Sources/Laws.antt =====
-- eos-updater/poll-common.c and poll.c: what the names and the order of the download sources are.
use eos_updater.Prelude.{
  inr, str_equal_iff, inl, refl, arith, true, Bool-cases, ◌↔◌, str_equal, ◌≡◌, String,
}
use eos_updater.Poll.Sources.{
  source_volume, source_lan, source_main, same_source, string_to_download_source,
  download_source_to_string, Source,
}
use eos_updater.Errors.{ok}

download_source_to_string_injective :
    (a b : Source)
    → str_equal (download_source_to_string a) (download_source_to_string b) ≡ same_source a b
unfolding download_source_to_string
download_source_to_string_injective source_main source_main = refl
download_source_to_string_injective source_main source_lan = refl
download_source_to_string_injective source_main source_volume = refl
download_source_to_string_injective source_lan source_main = refl
download_source_to_string_injective source_lan source_lan = refl
download_source_to_string_injective source_lan source_volume = refl
download_source_to_string_injective source_volume source_main = refl
download_source_to_string_injective source_volume source_lan = refl
download_source_to_string_injective source_volume source_volume = refl

pub same_source_iff : (a b : Source) → (same_source a b ≡ true) ↔ (a ≡ b)
same_source_iff a b = ground arith

to_string_of :
    (s : String) (a : Source) → string_to_download_source s ≡ ok a → s ≡ download_source_to_string a
unfolding string_to_download_source
to_string_of s a h = elim (Bool-cases (str_equal s (download_source_to_string source_main))) [
  | inl m ↦ ground (arith, str_equal_iff s (download_source_to_string source_main))
  | inr m ↦ elim (Bool-cases (str_equal s (download_source_to_string source_lan))) [
    | inl l ↦ ground (arith, str_equal_iff s (download_source_to_string source_lan))
    | inr l ↦ elim (Bool-cases (str_equal s (download_source_to_string source_volume))) [
      | inl v ↦ ground (arith, str_equal_iff s (download_source_to_string source_volume))
      | inr v ↦ ground arith
    ]
  ]
]

of_to_string : (a : Source) → string_to_download_source (download_source_to_string a) ≡ ok a
unfolding string_to_download_source download_source_to_string
of_to_string source_main = refl
of_to_string source_lan = refl
of_to_string source_volume = refl

-- A string is read as a source exactly if it is what that source is printed as.
pub string_to_download_source_iff :
    (s : String) (a : Source)
    → (string_to_download_source s ≡ ok a) ↔ (s ≡ download_source_to_string a)
string_to_download_source_iff s a = (to_string_of s a, λ e. rw e (of_to_string a))
