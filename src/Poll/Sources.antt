-- ===== src/Poll/Sources.antt =====
-- eos-updater/poll-common.c and poll.c: the names of the download sources and the order in which
-- they are to be tried (download_source_to_string, string_to_download_source,
-- strv_to_download_order).
pub mod Laws
pub mod Order
use eos_updater.Errors.{unset, wrong_configuration, ◌>>=◌, ok, err, Result}
use eos_updater.Errors.{updater}
use eos_updater.Prelude.{
  any, ◌++◌, str_equal, ◌∷◌, [], if◌then◌else◌, List, Bool, String, none, some, true, false,
}

-- EosUpdaterDownloadSource.
pub data Source : Type 0 where
  source_main : Source
  source_lan : Source
  source_volume : Source

unfoldable pub download_source_to_string : Source → String
download_source_to_string source_main = "main"
download_source_to_string source_lan = "lan"
download_source_to_string source_volume = "volume"

-- The search through order_key_str.
unfoldable pub string_to_download_source : String → Result Source
unfolding download_source_to_string
string_to_download_source s =
    if str_equal s (download_source_to_string source_main)
    then ok source_main
    else if str_equal s (download_source_to_string source_lan)
    then ok source_lan
    else if str_equal s (download_source_to_string source_volume)
    then ok source_volume
    else err (updater wrong_configuration)

abbrev pub same_source : Source → Source → Bool
same_source source_main source_main = true
same_source source_lan source_lan = true
same_source source_volume source_volume = true
same_source _ _ = false

-- The loop of strv_to_download_order. `strip` is g_strstrip; `array` holds what was found, which
-- is also what the hash table holds.
unfoldable pub order_loop : (String → String) → List Source → List String → Result (List Source)
order_loop strip array [] = ok array
order_loop strip array (s ∷ rest) = elim (string_to_download_source (strip s)) [
  | ok source ↦
      let later = order_loop strip (array ++ source ∷ []) rest in
      if any (same_source source) array then err (updater wrong_configuration) else later
  | err e ↦ err e
  | unset ↦ unset
]

abbrev pub not_empty : List Source → Result (List Source)
not_empty [] = err (updater wrong_configuration)
not_empty (s ∷ l) = ok (s ∷ l)

unfoldable pub strv_to_download_order : (String → String) → List String → Result (List Source)
strv_to_download_order strip sources = order_loop strip [] sources >>= not_empty
