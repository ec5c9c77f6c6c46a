-- ===== src/AvahiService.antt =====
-- libeos-updater-util/avahi-service-file.c: the options of the service file that advertises a
-- repository over DNS-SD, and their checks.
pub mod Records
pub mod Accepted
pub mod Sizes
pub mod Files
pub mod Laws
mod Tests
use Prim.Native.String.{len}
use eos_updater.Run.{Run, finished, aborted, ◌>>ᵣ◌}
use eos_updater.Config.{get_elem?}
use eos_updater.Prelude.{
  ltb, ◌==◌, ◌||◌, ◌-◌, ◌%◌, ◌^◌, is_some, List, [], ◌∷◌, true, false, none, some, Option, String,
  ℕ, if◌then◌else◌,
}
use eos_updater.Errors.{io_failed, Result, ok, err, ◌>>◌, ◌>>=◌, unset}

-- GVariant, as far as it is used here; `filter` is a value of type (yyay).
pub data Variant : Type 0 where
  byte : ℕ → Variant
  uint16 : ℕ → Variant
  uint32 : ℕ → Variant
  uint64 : ℕ → Variant
  text : String → Variant
  binary : List ℕ → Variant
  filter : ℕ → ℕ → List ℕ → Variant

-- GVariantDict.
abbrev pub Options : Type 0
Options = String → Option Variant

-- g_variant_dict_lookup with the types "y", "q", "u" and "t": a value of another type is not found.
abbrev pub lookup_y : Option Variant → Option ℕ
lookup_y (some (byte v)) = some (v % 2 ^ 8)
lookup_y _ = none

abbrev pub lookup_q : Option Variant → Option ℕ
lookup_q (some (uint16 v)) = some (v % 2 ^ 16)
lookup_q _ = none

abbrev pub lookup_u : Option Variant → Option ℕ
lookup_u (some (uint32 v)) = some (v % 2 ^ 32)
lookup_u _ = none

abbrev pub lookup_t : Option Variant → Option ℕ
lookup_t (some (uint64 v)) = some (v % 2 ^ 64)
lookup_t _ = none

-- A variable keeps its initial value if the key is not found.
abbrev pub or_default : ℕ → Option ℕ → ℕ
or_default v none = v
or_default v (some w) = w

-- EosOstreeAvahiSizeLevel.
pub data SizeLevel : Type 0 where
  custom : SizeLevel
  support_faulty_hardware : SizeLevel
  fit_single_dns_message : SizeLevel
  fit_single_ethernet_packet : SizeLevel
  fit_single_multicast_dns_packet : SizeLevel
  fit_16_bit_limit : SizeLevel
  absolutely_lax : SizeLevel

-- In the order of their numbers.
abbrev pub size_levels : List SizeLevel
size_levels =
    custom ∷ support_faulty_hardware ∷ fit_single_dns_message ∷ fit_single_ethernet_packet
    ∷ fit_single_multicast_dns_packet ∷ fit_16_bit_limit ∷ absolutely_lax ∷ []

abbrev pub custom_size : Options → Option ℕ
custom_size d = lookup_t (d "txt-records-custom-size")

abbrev pub known_level : Options → Option SizeLevel → Result SizeLevel
known_level d none = err io_failed
known_level d (some custom) = if is_some (custom_size d) then ok custom else err io_failed
known_level d (some level) = ok level

unfoldable pub get_and_check_txt_records_size_level : Options → Result SizeLevel
get_and_check_txt_records_size_level d =
    known_level d (get_elem? size_levels (or_default 2 (lookup_y (d "txt-records-size-level"))))

unfoldable pub get_repository_index : Options → ℕ
get_repository_index d = or_default 0 (lookup_q (d "repository-index"))

-- `avahi_port` is EOS_AVAHI_PORT, which the build sets.
unfoldable pub get_and_check_avahi_service_port : ℕ → Options → Result ℕ
get_and_check_avahi_service_port avahi_port d =
    let port = or_default avahi_port (lookup_q (d "port")) in
    if port == 0 then err io_failed else ok port

abbrev pub max_bloom_size : ℕ
max_bloom_size = 255 - len "rb" - 3

unfoldable pub get_and_check_bloom_size : Options → Result ℕ
get_and_check_bloom_size d =
    let bloom_size = or_default max_bloom_size (lookup_u (d "bloom-size")) in
    if bloom_size == 0
    then err io_failed
    else if ltb max_bloom_size bloom_size
    then err io_failed
    else ok bloom_size

unfoldable pub get_and_check_bloom_k : Options → Result ℕ
get_and_check_bloom_k d =
    let bloom_k = or_default 1 (lookup_y (d "bloom-k")) in
    if bloom_k == 0 then err io_failed else ok bloom_k

unfoldable pub get_and_check_bloom_hash_func_id : Options → Result ℕ
get_and_check_bloom_hash_func_id d =
    let bloom_hash_id = or_default 1 (lookup_y (d "bloom-hash-id")) in
    if bloom_hash_id == 1 then ok bloom_hash_id else err io_failed

unfoldable pub get_and_check_version : Options → Result ℕ
get_and_check_version d =
    let version = or_default 1 (lookup_y (d "force-version")) in
    if version == 0 || ltb 1 version then err io_failed else ok version

unfoldable pub check_v1_options : ℕ → Options → Result (Unit {0})
check_v1_options avahi_port d = get_and_check_bloom_size d >>= λ _. get_and_check_bloom_k d >>= λ _.
    get_and_check_bloom_hash_func_id d >>= λ _.
    get_and_check_avahi_service_port avahi_port d >>= λ _.
    get_and_check_txt_records_size_level d >>= λ _. ok tt

-- eos_ostree_avahi_service_file_check_options.
unfoldable pub check_options : {W : Type 0} → ℕ → Options → W → Run W (Unit {0})
check_options avahi_port d w = finished (get_and_check_version d) w >>ᵣ λ version w.
    elim (version == 1) [ true ↦ finished (check_v1_options avahi_port d) w | false ↦ aborted ]
