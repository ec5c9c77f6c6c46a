-- ===== src/AvahiService/Files.antt =====
-- libeos-updater-util/avahi-service-file.c: generating the service file of a repository.
use eos_updater.Run.{Run, finished, aborted, call, ◌>>ᵣ◌}
use eos_updater.Poll.Latest.{CollectionRef}
use eos_updater.AvahiService.{
  Variant, byte, uint16, uint64, binary, filter, Options, get_repository_index,
  get_and_check_avahi_service_port, get_and_check_bloom_size, get_and_check_bloom_k,
  get_and_check_bloom_hash_func_id, get_and_check_version,
}
use eos_updater.AvahiService.Records.{Glib, generate_from_avahi_service_template}
use eos_updater.Prelude.{
  ◌==◌, strconcat, ℤ, pos, negsuc, List, [], ◌∷◌, true, false, none, some, Option, String, ℕ,
}
use eos_updater.Errors.{io_failed, Result, ok, err, unset}

-- OstreeBloomHashFunc: the functions of ostree-bloom.h.
pub data HashFunc : Type 0 where
  ostree_str_bloom_hash : HashFunc
  ostree_collection_ref_bloom_hash : HashFunc

-- OstreeBloom, a copy of libostree's.
pub record Bloom (F : Type 0) : Type 0 where
  pub new : ℕ → ℕ → HashFunc → F
  pub add_element : F → CollectionRef → F
  pub get_k : F → ℕ
  pub get_hash_func : F → HashFunc
  pub get_size : F → ℕ
  pub seal : F → List ℕ

-- `none` is the failed assertion.
abbrev pub hash_func_to_id : HashFunc → Option ℕ
hash_func_to_id ostree_collection_ref_bloom_hash = some 1
hash_func_to_id ostree_str_bloom_hash = none

abbrev pub id_to_hash_func : ℕ → Option HashFunc
id_to_hash_func i = elim (i == 1) [ true ↦ some ostree_collection_ref_bloom_hash | false ↦ none ]

-- A checked value of type Option: `none` aborts.
abbrev pub assert_some : {W A : Type 0} → Option A → W → Run W A
assert_some none w = aborted
assert_some (some a) w = finished (ok a) w

abbrev pub variant_to_binary_variant : Glib → Variant → Variant
variant_to_binary_variant glib variant = binary (glib.get_data_as_bytes variant)

-- The variants of the four records, in the binary form in which they are sent.
abbrev pub v1_records : Glib → ℕ → ℕ → List ℕ → ℕ → ℕ → List (String × Variant)
v1_records glib bloom_k bloom_hash_func_id bits timestamp index =
    ("v", variant_to_binary_variant glib (byte 1))
    ∷ ("rb", variant_to_binary_variant glib (filter bloom_k bloom_hash_func_id bits))
    ∷ ("st", variant_to_binary_variant glib (uint64 (glib.uint64_to_be timestamp)))
    ∷ ("ri", variant_to_binary_variant glib (uint16 (glib.uint16_to_be index)))
    ∷ []

-- The argument is what g_date_time_to_unix returns.
abbrev pub get_unix_summary_timestamp : ℤ → Result ℕ
get_unix_summary_timestamp (pos t) = ok t
get_unix_summary_timestamp (negsuc t) = err io_failed

unfoldable pub get_ostree_service_file : Glib → String → ℕ → String
get_ostree_service_file glib directory index =
    glib.build_filename directory
      (strconcat "eos-ostree-updater-" (strconcat (glib.print_uint16 index) ".service"))

module _ {F : Type 0} (bloom : Bloom F) where
  unfoldable pub get_clean_bloom_filter : {W : Type 0} → Options → W → Run W F
  get_clean_bloom_filter d w = finished (get_and_check_bloom_size d) w >>ᵣ λ bloom_size w.
      finished (get_and_check_bloom_k d) w >>ᵣ λ bloom_k w.
      finished (get_and_check_bloom_hash_func_id d) w >>ᵣ λ bloom_hash_func_id w.
      assert_some (id_to_hash_func bloom_hash_func_id) w >>ᵣ λ hash_func w.
      finished (ok (bloom.new bloom_size bloom_k hash_func)) w

  unfoldable pub add_elements : F → List CollectionRef → F
  add_elements f [] = f
  add_elements f (r ∷ refs) = add_elements (bloom.add_element f r) refs

  -- bloom_k, bloom_hash_func_id and the bits of the filter.
  unfoldable pub get_bloom_filter_data :
      {W : Type 0} → List CollectionRef → Options → W → Run W (ℕ × ℕ × List ℕ)
  get_bloom_filter_data refs_to_advertise d w = get_clean_bloom_filter d w >>ᵣ λ f w.
      let f = add_elements f refs_to_advertise in
      assert_some (hash_func_to_id (bloom.get_hash_func f)) w >>ᵣ λ id w.
      finished (ok (bloom.get_k f, id, bloom.seal f)) w

-- `replace_contents` is g_file_replace_contents.
module _ {W F : Type 0} (glib : Glib) (bloom : Bloom F) (avahi_port : ℕ)
    (replace_contents : String → String → W → Result (Unit {0}) × W) where
  unfoldable pub generate_avahi_service_template_to_file :
      String → String → String → ℕ → List (String × Variant) → Options → W → Run W (Unit {0})
  generate_avahi_service_template_to_file path name type port txt_records d w =
      generate_from_avahi_service_template glib name type port txt_records d w >>ᵣ λ contents w.
      call (replace_contents path contents w)

  unfoldable pub generate_ostree_avahi_v1_service_file :
      String → List CollectionRef → ℤ → Options → W → Run W (Unit {0})
  generate_ostree_avahi_v1_service_file directory refs_to_advertise summary_timestamp d w =
      get_bloom_filter_data bloom refs_to_advertise d w >>ᵣ λ data_ w.
      finished (get_and_check_avahi_service_port avahi_port d) w >>ᵣ λ port w.
      finished (get_unix_summary_timestamp summary_timestamp) w >>ᵣ λ timestamp w.
      generate_avahi_service_template_to_file
        (get_ostree_service_file glib directory (get_repository_index d))
        "EOS OSTree update service on %h" "_ostree_repo._tcp" port
        (v1_records glib data_.0 data_.1 data_.2 timestamp (get_repository_index d)) d w

  -- eos_ostree_avahi_service_file_generate; without a ref it returns with no error set.
  unfoldable pub generate : String → List CollectionRef → ℤ → Options → W → Run W (Unit {0})
  generate directory [] summary_timestamp d w = finished unset w
  generate directory (ref ∷ refs) summary_timestamp d w =
      finished (get_and_check_version d) w >>ᵣ λ version w. elim (version == 1) [
        | true ↦ generate_ostree_avahi_v1_service_file directory (ref ∷ refs) summary_timestamp d w
        | false ↦ aborted
      ]
