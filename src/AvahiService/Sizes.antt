-- ===== src/AvahiService/Sizes.antt =====
-- libeos-updater-util/avahi-service-file.c: the size of the records, and its limits.
use eos_updater.Run.{◌>>ᵣ◌, finished}
use eos_updater.Poll.Latest.{CollectionRef}
use eos_updater.AvahiService.{
  absolutely_lax, len, fit_16_bit_limit, fit_single_multicast_dns_packet, filter,
  fit_single_ethernet_packet, fit_single_dns_message, uint64, uint16, support_faulty_hardware,
  known_level, byte, custom, custom_size, Variant, SizeLevel, get_and_check_txt_records_size_level,
  Options,
}
use eos_updater.AvahiService.Files.{variant_to_binary_variant, HashFunc, Bloom, add_elements}
use eos_updater.AvahiService.Records.{
  binary_record, validate_at, check_record_size, records_loop, handle_binary_record, fits,
  validate_total_size, Glib,
}
use eos_updater.Prelude.{
  ap, ltb, ◌∙◌, ◌+◌, ◌≤◌, length, List, [], ◌∷◌, none, some, Option, String, ℕ, ◌≡◌, inl, inr, refl,
  arith, Bool-cases, Option-cases,
}
use eos_updater.Errors.{io_failed}
use eos_updater.Errors.{ok, err}

-- GVariant's serialisation: the sizes of the types that are sent. The last member of a tuple needs
-- no offset.
pub record IsSerialised (glib : Glib) : Type 0 where
  pub length-byte : (v : ℕ) → length (glib.get_data_as_bytes (byte v)) ≡ 1
  pub length-uint16 : (v : ℕ) → length (glib.get_data_as_bytes (uint16 v)) ≡ 2
  pub length-uint64 : (v : ℕ) → length (glib.get_data_as_bytes (uint64 v)) ≡ 8
  pub length-filter :
      (k i : ℕ) (bits : List ℕ)
      → length (glib.get_data_as_bytes (filter k i bits)) ≡ 2 + length bits

-- A filter keeps the size and the hash function that it is made with, and seals to its size.
pub record IsSized {F : Type 0} (bloom : Bloom F) : Type 0 where
  pub get_hash_func-new : (n k : ℕ) (h : HashFunc) → bloom.get_hash_func (bloom.new n k h) ≡ h
  pub get_hash_func-add :
      (f : F) (r : CollectionRef)
      → bloom.get_hash_func (bloom.add_element f r) ≡ bloom.get_hash_func f
  pub get_size-new : (n k : ℕ) (h : HashFunc) → bloom.get_size (bloom.new n k h) ≡ n
  pub get_size-add :
      (f : F) (r : CollectionRef) → bloom.get_size (bloom.add_element f r) ≡ bloom.get_size f
  pub length-seal : (f : F) → length (bloom.seal f) ≡ bloom.get_size f

handle_binary_record-ok :
    (glib : Glib) (s : String) (n : ℕ) (key : String) (v : List ℕ)
    → length v + len key + 1 ≤ 255
    → (t : String) × (handle_binary_record glib s n key v
        ≡ ok (t, n + (1 + (length v + len key + 1))))
unfolding handle_binary_record check_record_size
handle_binary_record-ok glib s n key v le = (binary_record glib s key v, ground (arith, le))

-- The size that `total_size` comes to at a level.
abbrev pub Fits : Options → SizeLevel → ℕ → Type 0
Fits d custom n = (limit : ℕ) × (custom_size d ≡ some limit) × (n ≤ limit)
Fits d support_faulty_hardware n = n ≤ 256
Fits d fit_single_dns_message n = n ≤ 400
Fits d fit_single_ethernet_packet n = n ≤ 1300
Fits d fit_single_multicast_dns_packet n = n ≤ 8900
Fits d fit_16_bit_limit n = n ≤ 65535
Fits d absolutely_lax n = Unit

known_level-custom :
    (d : Options) (o : Option SizeLevel)
    → known_level d o ≡ ok custom
    → (limit : ℕ) × (custom_size d ≡ some limit)
known_level-custom d none h = cc
known_level-custom d (some custom) h = elim (Option-cases (custom_size d)) [
  | inl unknown ↦ absurd (ground (arith, unknown))
  | inr known ↦ known
]
known_level-custom d (some support_faulty_hardware) h = cc
known_level-custom d (some fit_single_dns_message) h = cc
known_level-custom d (some fit_single_ethernet_packet) h = cc
known_level-custom d (some fit_single_multicast_dns_packet) h = cc
known_level-custom d (some fit_16_bit_limit) h = cc
known_level-custom d (some absolutely_lax) h = cc

level-custom :
    (d : Options)
    → get_and_check_txt_records_size_level d ≡ ok custom
    → (limit : ℕ) × (custom_size d ≡ some limit)
unfolding get_and_check_txt_records_size_level
level-custom d h = known_level-custom d _ h

validate_custom :
    {W : Type 0} (n : ℕ) (d : Options) (w : W) (limit : ℕ)
    → custom_size d ≡ some limit
    → (Fits d custom n → validate_at n d custom w ≡ finished (ok tt) w)
      × (¬ Fits d custom n → validate_at n d custom w ≡ finished (err io_failed) w)
unfolding fits
validate_custom n d w limit h = (
  λ f. let e = f.1 in let le = f.2 in ground arith,
  λ no. elim (Bool-cases (ltb limit n)) [
    | inl more ↦ ground arith
    | inr less ↦ absurd (no (limit, h, ground arith))
  ],
)

pub validate_total_size-decides :
    {W : Type 0} (n : ℕ) (d : Options) (level : SizeLevel) (w : W)
    → get_and_check_txt_records_size_level d ≡ ok level
    → (Fits d level n → validate_total_size n d w ≡ finished (ok tt) w)
      × (¬ Fits d level n → validate_total_size n d w ≡ finished (err io_failed) w)
unfolding validate_total_size fits
validate_total_size-decides n d custom w h =
    let v = validate_custom n d w (level-custom d h).0 (level-custom d h).1 in
    (
      λ f. ap (λ l. finished l w >>ᵣ λ level w. validate_at n d level w) h ∙ v.0 f,
      λ no. ap (λ l. finished l w >>ᵣ λ level w. validate_at n d level w) h ∙ v.1 no,
    )
validate_total_size-decides n d support_faulty_hardware w h = ground arith
validate_total_size-decides n d fit_single_dns_message w h = ground arith
validate_total_size-decides n d fit_single_ethernet_packet w h = ground arith
validate_total_size-decides n d fit_single_multicast_dns_packet w h = ground arith
validate_total_size-decides n d fit_16_bit_limit w h = ground arith
validate_total_size-decides n d absolutely_lax w h = (λ _. ground arith, λ no. absurd (no tt))

-- One more record.
pub records_loop-cons :
    {W : Type 0} (glib : Glib) (key : String) (v : Variant) (rest : List (String × Variant))
    (s : String) (n m total : ℕ) (w : W)
    → length (glib.get_data_as_bytes v) + len key + 1 ≤ 255
    → n + (1 + (length (glib.get_data_as_bytes v) + len key + 1)) ≡ m
    → ((t : String) → (u : String) × (records_loop glib rest (t, m) w ≡ finished (ok (u, total)) w))
    → (u : String) × (records_loop glib ((key, variant_to_binary_variant glib v) ∷ rest) (s, n) w
        ≡ finished (ok (u, total)) w)
unfolding records_loop
records_loop-cons glib key v rest s n m total w le e later =
    let r = handle_binary_record-ok glib s n key (glib.get_data_as_bytes v) le in
    let next = later r.0 in
    (
      next.0,
      ap (λ m. finished m w >>ᵣ λ sn w. records_loop glib rest sn w) (r.1 ∙ ap (λ m. ok (r.0, m)) e)
          ∙ next.1,
    )

pub add_elements-IsSized :
    {F : Type 0} (bloom : Bloom F) (sized : IsSized bloom) (f : F) (refs : List CollectionRef)
    → (bloom.get_hash_func (add_elements bloom f refs) ≡ bloom.get_hash_func f)
      × (bloom.get_size (add_elements bloom f refs) ≡ bloom.get_size f)
unfolding add_elements
add_elements-IsSized bloom sized f [] = (refl, refl)
add_elements-IsSized bloom sized f (r ∷ refs) =
    let later = add_elements-IsSized bloom sized (bloom.add_element f r) refs in
    (later.0 ∙ sized.get_hash_func-add f r, later.1 ∙ sized.get_size-add f r)
