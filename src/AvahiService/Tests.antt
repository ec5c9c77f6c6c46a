-- ===== src/AvahiService/Tests.antt =====
-- A file system that keeps what was last written, a filter with no bit set, and options with a
-- small filter.
use eos_updater.AvahiService.Laws.{generate_accepted}
use eos_updater.Run.{call, finished}
use eos_updater.AvahiService.Files.{get_ostree_service_file, generate, HashFunc, Bloom}
use eos_updater.AvahiService.Records.{Glib}
use eos_updater.AvahiService.Sizes.{Fits, IsSized, IsSerialised}
use eos_updater.Poll.Latest.{CollectionRef}
use eos_updater.AvahiService.{
  filter, binary, text, io_failed, uint64, uint16, get_repository_index, byte,
  get_and_check_avahi_service_port, get_and_check_bloom_hash_func_id, get_and_check_bloom_k,
  get_and_check_txt_records_size_level, uint32, get_and_check_version, check_v1_options,
  get_and_check_bloom_size, Variant, SizeLevel, Options, check_options,
}
use eos_updater.Prelude.{
  pos, ◌+◌, strconcat, str_equal, ap, length, List, [], ◌∷◌, none, some, String, ℕ, zero, suc, ◌≡◌,
  refl, arith, if◌then◌else◌,
}
use eos_updater.Errors.{Result, ok, err}

abbrev zeros : ℕ → List ℕ
zeros zero = []
zeros (suc n) = 0 ∷ zeros n

length-zeros : (n : ℕ) → length (zeros n) ≡ n
length-zeros zero = refl
length-zeros (suc n) = ap suc (length-zeros n)

abbrev bytes_of : Variant → List ℕ
bytes_of (byte v) = v ∷ []
bytes_of (uint16 v) = zeros 2
bytes_of (uint32 v) = zeros 4
bytes_of (uint64 v) = zeros 8
bytes_of (text v) = []
bytes_of (binary v) = v
bytes_of (filter k i bits) = k ∷ i ∷ bits

abbrev plain_glib : Glib
plain_glib = record {
  markup_escape_text = λ s. s;
  base64_encode = λ _. "AA==";
  get_data_as_bytes = bytes_of;
  uint16_to_be = λ n. n;
  uint64_to_be = λ n. n;
  print_uint16 = λ _. "0";
  build_filename = λ s t. strconcat s (strconcat "/" t);
}

plain_glib-IsSerialised : IsSerialised plain_glib
plain_glib-IsSerialised = record {
  length-byte = λ _. refl;
  length-uint16 = λ _. refl;
  length-uint64 = λ _. refl;
  length-filter = λ _ _ bits. omega arith;
}

abbrev empty_bloom : Bloom (ℕ × ℕ × HashFunc)
empty_bloom = record {
  new = λ n k h. (n, k, h);
  add_element = λ f _. f;
  get_k = λ f. f.1;
  get_hash_func = λ f. f.2;
  get_size = λ f. f.0;
  seal = λ f. zeros f.0;
}

empty_bloom-IsSized : IsSized empty_bloom
empty_bloom-IsSized = record {
  get_hash_func-new = λ _ _ _. refl;
  get_hash_func-add = λ _ _. refl;
  get_size-new = λ _ _ _. refl;
  get_size-add = λ _ _. refl;
  length-seal = λ f. length-zeros f.0;
}

abbrev small : Options
small key = if str_equal key "bloom-size" then some (uint32 8) else none

abbrev write_last : String → String → List String → Result (Unit {0}) × List String
write_last path contents w = (ok tt, contents ∷ [])

abbrev one_ref : CollectionRef
one_ref = record { collection_id = "com.endlessm.Os"; ref_name = "os/eos/amd64/master" }

small_accepted : check_options {W = List String} 43381 small [] ≡ finished (ok tt) []
unfolding check_options check_v1_options get_and_check_version get_and_check_bloom_size
    get_and_check_bloom_k get_and_check_bloom_hash_func_id get_and_check_avahi_service_port
    get_and_check_txt_records_size_level
small_accepted = refl

generate_accepted_example :
    (size : ℕ) × (level : SizeLevel) × (contents : String) × (get_and_check_bloom_size small
      ≡ ok size)
    × (get_and_check_txt_records_size_level small ≡ ok level)
    × (Fits small level (size + 28)
        → generate plain_glib empty_bloom 43381 write_last "/etc/avahi"
            (one_ref ∷ [])
            (pos 1500000000)
            small
            []
          ≡ call (
              write_last
                (get_ostree_service_file plain_glib "/etc/avahi" (get_repository_index small))
                contents
                []))
    × (¬ Fits small level (size + 28)
        → generate plain_glib empty_bloom 43381 write_last "/etc/avahi"
            (one_ref ∷ [])
            (pos 1500000000)
            small
            []
          ≡ finished (err io_failed) [])
generate_accepted_example =
    generate_accepted plain_glib plain_glib-IsSerialised empty_bloom empty_bloom-IsSized 43381
      write_last "/etc/avahi" one_ref [] 1500000000 small [] small_accepted
