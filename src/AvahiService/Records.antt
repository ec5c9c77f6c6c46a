-- ===== src/AvahiService/Records.antt =====
-- libeos-updater-util/avahi-service-file.c: the TXT records of a service file, their size, and the
-- text of the file. All sizes are of data in memory, so no sum of them wraps.
use Prim.Native.String.{len}
use eos_updater.Run.{Run, finished, aborted, ◌>>ᵣ◌}
use eos_updater.AvahiService.{
  Variant, byte, uint16, uint32, uint64, text, binary, filter, Options, SizeLevel, custom,
  support_faulty_hardware, fit_single_dns_message, fit_single_ethernet_packet,
  fit_single_multicast_dns_packet, fit_16_bit_limit, absolutely_lax, custom_size,
  get_and_check_txt_records_size_level,
}
use eos_updater.Prelude.{
  ltb, length, strconcat, List, [], ◌∷◌, none, some, String, ℕ, ◌+◌, if◌then◌else◌,
}
use eos_updater.Errors.{io_failed, Result, ok, err, ◌>>=◌}

-- GLib: g_markup_escape_text, g_base64_encode, g_variant_get_data_as_bytes, GUINT16_TO_BE and
-- GUINT64_TO_BE, a number in decimal, and g_build_filename of two parts.
pub record Glib : Type 0 where
  pub markup_escape_text : String → String
  pub base64_encode : List ℕ → String
  pub get_data_as_bytes : Variant → List ℕ
  pub uint16_to_be : ℕ → ℕ
  pub uint64_to_be : ℕ → ℕ
  pub print_uint16 : ℕ → String
  pub build_filename : String → String → String

unfoldable pub check_record_size : ℕ → Result (Unit {0})
check_record_size record_size = if ltb 255 record_size then err io_failed else ok tt

module _ (glib : Glib) where
  abbrev pub text_record : String → String → String → String
  text_record records_str key value_string = strconcat records_str (
      strconcat "    <txt-record>" (
        strconcat (glib.markup_escape_text key)
          (strconcat "=" (strconcat (glib.markup_escape_text value_string) "</txt-record>\n"))))

  -- The records so far and their size.
  unfoldable pub handle_text_record : String → ℕ → String → String → Result (String × ℕ)
  handle_text_record records_str total_size key value_string =
      let record_size = len value_string + len key + 1 in
      check_record_size record_size >>= λ _.
      ok (text_record records_str key value_string, total_size + (1 + record_size))

  abbrev pub binary_record : String → String → List ℕ → String
  binary_record records_str key value_data = strconcat records_str (
      strconcat "    <txt-record value-format=\"binary-base64\">" (
        strconcat (glib.markup_escape_text key) (
          strconcat "=" (
            strconcat (glib.markup_escape_text (glib.base64_encode value_data))
              "</txt-record>\n"))))

  unfoldable pub handle_binary_record : String → ℕ → String → List ℕ → Result (String × ℕ)
  handle_binary_record records_str total_size key value_data =
      let record_size = length value_data + len key + 1 in
      check_record_size record_size >>= λ _.
      ok (binary_record records_str key value_data, total_size + (1 + record_size))

  -- The body of the loop; the assertion of classify_txt_value fails on all other types.
  abbrev pub handle_record : {W : Type 0} → String → Variant → String × ℕ → W → Run W (String × ℕ)
  handle_record key (text v) (s, n) w = finished (handle_text_record s n key v) w
  handle_record key (binary v) (s, n) w = finished (handle_binary_record s n key v) w
  handle_record key (byte v) (s, n) w = aborted
  handle_record key (uint16 v) (s, n) w = aborted
  handle_record key (uint32 v) (s, n) w = aborted
  handle_record key (uint64 v) (s, n) w = aborted
  handle_record key (filter k i v) (s, n) w = aborted

  unfoldable pub records_loop :
      {W : Type 0} → List (String × Variant) → String × ℕ → W → Run W (String × ℕ)
  records_loop [] sn w = finished (ok sn) w
  records_loop (r ∷ rest) sn w = handle_record r.0 r.1 sn w >>ᵣ λ sn w. records_loop rest sn w

unfoldable pub fits : ℕ → ℕ → Result (Unit {0})
fits total_size limit = if ltb limit total_size then err io_failed else ok tt

abbrev pub validate_at : {W : Type 0} → ℕ → Options → SizeLevel → W → Run W (Unit {0})
validate_at total_size d custom w = elim (custom_size d) [
  | none ↦ aborted
  | some limit ↦ finished (fits total_size limit) w
]
validate_at total_size d support_faulty_hardware w = finished (fits total_size 256) w
validate_at total_size d fit_single_dns_message w = finished (fits total_size 400) w
validate_at total_size d fit_single_ethernet_packet w = finished (fits total_size 1300) w
validate_at total_size d fit_single_multicast_dns_packet w = finished (fits total_size 8900) w
validate_at total_size d fit_16_bit_limit w = finished (fits total_size 65535) w
validate_at total_size d absolutely_lax w = finished (ok tt) w

unfoldable pub validate_total_size : {W : Type 0} → ℕ → Options → W → Run W (Unit {0})
validate_total_size total_size d w =
    finished (get_and_check_txt_records_size_level d) w >>ᵣ λ level w.
    validate_at total_size d level w

module _ (glib : Glib) where
  unfoldable pub txt_records_to_string :
      {W : Type 0} → List (String × Variant) → Options → W → Run W String
  txt_records_to_string txt_records d w = records_loop glib txt_records ("", 0) w >>ᵣ λ sn w.
      validate_total_size sn.1 d w >>ᵣ λ _ w. finished (ok sn.0) w

  unfoldable pub service_group : String → String → ℕ → String → String
  service_group name type port txt_records_str =
      strconcat "<service-group>\n  <name replace-wildcards=\"yes\">" (
        strconcat (glib.markup_escape_text name) (
          strconcat "</name>\n  <service>\n    <type>" (
            strconcat (glib.markup_escape_text type) (
              strconcat "</type>\n    <port>" (
                strconcat (glib.print_uint16 port) (
                  strconcat "</port>\n"
                    (strconcat txt_records_str "  </service>\n</service-group>\n")))))))

  unfoldable pub generate_from_avahi_service_template :
      {W : Type 0} → String → String → ℕ → List (String × Variant) → Options → W → Run W String
  generate_from_avahi_service_template name type port txt_records d w =
      txt_records_to_string txt_records d w >>ᵣ λ txt_records_str w.
      finished (ok (service_group name type port txt_records_str)) w
