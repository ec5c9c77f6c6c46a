-- ===== src/AvahiService/Laws.antt =====
-- libeos-updater-util/avahi-service-file.c: what a service file whose options are accepted comes to.
use eos_updater.Poll.Latest.{CollectionRef}
use eos_updater.AvahiService.Accepted.{check_options-Accepted, Accepted}
use eos_updater.AvahiService.{
  get_repository_index, get_and_check_bloom_size, check_options,
  get_and_check_txt_records_size_level, SizeLevel, uint16, uint64, filter, byte, Options,
}
use eos_updater.AvahiService.Sizes.{
  validate_total_size-decides, Fits, add_elements-IsSized, records_loop-cons, IsSized, IsSerialised,
}
use eos_updater.Run.{call, ◌>>ᵣ◌, finished, Run}
use eos_updater.AvahiService.Records.{
  service_group, generate_from_avahi_service_template, validate_total_size, txt_records_to_string,
  Glib, records_loop,
}
use eos_updater.AvahiService.Files.{
  get_ostree_service_file, generate_avahi_service_template_to_file,
  generate_ostree_avahi_v1_service_file, generate, hash_func_to_id, assert_some,
  variant_to_binary_variant, add_elements, ostree_collection_ref_bloom_hash, v1_records, Bloom,
  get_clean_bloom_filter, get_bloom_filter_data,
}
use eos_updater.Prelude.{pos, ap, ◌∙◌, ◌+◌, ◌≤◌, length, List, [], ◌∷◌, String, ℕ, ◌≡◌, refl, arith}
use eos_updater.Errors.{io_failed}
use eos_updater.Errors.{Result, ok, err}

go_on :
    {W A B : Type 0} {m : Run W A} {a : A} {v : W} (k : A → W → Run W B)
    → m ≡ finished (ok a) v
    → (m >>ᵣ k) ≡ k a v
go_on k h = ap (λ m. m >>ᵣ k) h

looked_up :
    {W A B : Type 0} {r : Result A} {a : A} (w : W) (k : A → W → Run W B)
    → r ≡ ok a
    → (finished r w >>ᵣ k) ≡ k a w
looked_up w k h = ap (λ r. finished r w >>ᵣ k) h

v1_records-loop :
    {W : Type 0} (glib : Glib) (serialised : IsSerialised glib) (k i : ℕ) (bits : List ℕ)
    (timestamp index : ℕ) (w : W)
    → length bits ≤ 250
    → (t : String) × (records_loop glib (v1_records glib k i bits timestamp index) ("", 0) w
        ≡ finished (ok (t, length bits + 28)) w)
unfolding records_loop
v1_records-loop glib serialised k i bits timestamp index w le =
    let be64 = glib.uint64_to_be timestamp in
    let be16 = glib.uint16_to_be index in
    let n = length bits in
    let v = serialised.length-byte 1 in
    let rb = serialised.length-filter k i bits in
    let st = serialised.length-uint64 be64 in
    let ri = serialised.length-uint16 be16 in
    let after_st = ("ri", variant_to_binary_variant glib (uint16 be16)) ∷ [] in
    let after_rb = ("st", variant_to_binary_variant glib (uint64 be64)) ∷ after_st in
    let after_v = ("rb", variant_to_binary_variant glib (filter k i bits)) ∷ after_rb in
    records_loop-cons glib "v" (byte 1) after_v "" 0 4 (n + 28) w (omega (arith, v))
      (omega (arith, v))
      λ s.
        records_loop-cons glib "rb" (filter k i bits) after_rb s 4 (n + 10) (n + 28) w
          (omega (arith, rb, le)) (omega (arith, rb))
          λ s.
            records_loop-cons glib "st" (uint64 be64) after_st s (n + 10) (n + 22) (n + 28) w
              (omega (arith, st)) (omega (arith, st))
              λ s.
                records_loop-cons glib "ri" (uint16 be16) [] s (n + 22) (n + 28) (n + 28) w
                  (omega (arith, ri)) (omega (arith, ri)) λ s. (s, refl)

get_clean_bloom_filter-ok :
    {W F : Type 0} (bloom : Bloom F) {avahi_port : ℕ} (d : Options) (a : Accepted avahi_port d)
    (w : W)
    → get_clean_bloom_filter bloom d w
      ≡ finished (ok (bloom.new a.size a.k ostree_collection_ref_bloom_hash)) w
unfolding get_clean_bloom_filter
get_clean_bloom_filter-ok bloom d a w =
    looked_up w _ a.size-eq ∙ looked_up w _ a.k-eq ∙ looked_up w _ a.hash

get_bloom_filter_data-ok :
    {W F : Type 0} (bloom : Bloom F) (sized : IsSized bloom) {avahi_port : ℕ} (d : Options)
    (a : Accepted avahi_port d) (refs : List CollectionRef) (w : W)
    → (k : ℕ) × (bits : List ℕ) × (length bits ≡ a.size)
      × (get_bloom_filter_data bloom refs d w ≡ finished (ok (k, 1, bits)) w)
unfolding get_bloom_filter_data
get_bloom_filter_data-ok bloom sized d a refs w =
    let new = bloom.new a.size a.k ostree_collection_ref_bloom_hash in
    let all = add_elements bloom new refs in
    let kept = add_elements-IsSized bloom sized new refs in
    let hash = kept.0 ∙ sized.get_hash_func-new a.size a.k ostree_collection_ref_bloom_hash in
    (
      bloom.get_k all,
      bloom.seal all,
      sized.length-seal all
          ∙ kept.1
          ∙ sized.get_size-new a.size a.k ostree_collection_ref_bloom_hash,
      go_on _ (get_clean_bloom_filter-ok bloom d a w)
          ∙ ap
              (λ h. assert_some (hash_func_to_id h) w >>ᵣ λ id w.
                finished (ok (bloom.get_k all, id, bloom.seal all)) w)
              hash,
    )

txt_records_to_string-ok :
    {W : Type 0} (glib : Glib) (serialised : IsSerialised glib) (k : ℕ) (bits : List ℕ)
    (timestamp index size : ℕ) (d : Options) (level : SizeLevel) (w : W)
    → get_and_check_txt_records_size_level d ≡ ok level
    → length bits ≡ size
    → size ≤ 250
    → (t : String) × (Fits d level (size + 28)
        → txt_records_to_string glib (v1_records glib k 1 bits timestamp index) d w
          ≡ finished (ok t) w)
      × (¬ Fits d level (size + 28)
          → txt_records_to_string glib (v1_records glib k 1 bits timestamp index) d w
            ≡ finished (err io_failed) w)
unfolding txt_records_to_string
txt_records_to_string-ok glib serialised k bits timestamp index size d level w at same le =
    let r = v1_records-loop glib serialised k 1 bits timestamp index w (omega (arith, same, le)) in
    let n = ap (λ n. n + 28) same in
    let v = validate_total_size-decides (size + 28) d level w at in
    let checked =
      go_on (λ sn w. validate_total_size sn.1 d w >>ᵣ λ _ w. finished (ok sn.0) w)
        (r.1 ∙ ap (λ n. finished (ok (r.0, n)) w) n) in
    (
      r.0,
      λ f. checked ∙ ap (λ m. m >>ᵣ λ _ w. finished (ok r.0) w) (v.0 f),
      λ f. checked ∙ ap (λ m. m >>ᵣ λ _ w. finished (ok r.0) w) (v.1 f),
    )

-- Where GLib serialises a variant to its size and a Bloom filter keeps its size and its hash
-- function: with options that check_options accepts, at least one ref and a time that is not
-- negative, no assertion fails and no record is too long. The records take 28 bytes more than the
-- filter; if that is within the limit of the accepted level, the service file of the repository's
-- index is written, and the result is that of the writing; if it is not, there is an error and
-- nothing is written.
pub generate_accepted :
    {W F : Type 0} (glib : Glib) (serialised : IsSerialised glib) (bloom : Bloom F)
    (sized : IsSized bloom) (avahi_port : ℕ)
    (replace_contents : String → String → W → Result (Unit {0}) × W) (directory : String)
    (ref : CollectionRef) (refs : List CollectionRef) (timestamp : ℕ) (d : Options) (w : W)
    → check_options avahi_port d w ≡ finished (ok tt) w
    → (size : ℕ) × (level : SizeLevel) × (contents : String) × (get_and_check_bloom_size d
        ≡ ok size)
      × (get_and_check_txt_records_size_level d ≡ ok level)
      × (Fits d level (size + 28)
          → generate glib bloom avahi_port replace_contents directory
              (ref ∷ refs)
              (pos timestamp)
              d
              w
            ≡ call (
                replace_contents
                  (get_ostree_service_file glib directory (get_repository_index d))
                  contents
                  w))
      × (¬ Fits d level (size + 28)
          → generate glib bloom avahi_port replace_contents directory
              (ref ∷ refs)
              (pos timestamp)
              d
              w
            ≡ finished (err io_failed) w)
unfolding generate generate_ostree_avahi_v1_service_file generate_avahi_service_template_to_file
    generate_from_avahi_service_template
generate_accepted {W = W} glib serialised bloom sized avahi_port replace_contents directory ref refs
      timestamp d w h =
    let a = check_options-Accepted avahi_port d w h in
    let filled = get_bloom_filter_data-ok bloom sized d a (ref ∷ refs) w in
    let index = get_repository_index d in
    let txt =
      txt_records_to_string-ok glib serialised filled.0 filled.1 timestamp index a.size d a.level w
        a.level-eq filled.2 a.size-le in
    let in_group =
      service_group glib "EOS OSTree update service on %h" "_ostree_repo._tcp" a.port in
    let write = λ (m : Run W String). (m >>ᵣ λ t w. finished (ok (in_group t)) w) >>ᵣ λ contents w.
    call (replace_contents (get_ostree_service_file glib directory index) contents w) in
    let start = looked_up w _ a.version ∙ go_on _ filled.3 ∙ looked_up w _ a.port-eq in
    (
      a.size,
      a.level,
      in_group txt.0,
      a.size-eq,
      a.level-eq,
      λ f. start ∙ ap write (txt.1 f),
      λ f. start ∙ ap write (txt.2 f),
    )
