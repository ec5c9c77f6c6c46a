-- ===== src/Config/Tests.antt =====
-- A key that only the default file has.
use eos_updater.Errors.{ok}
use eos_updater.Config.Laws.{get_uint-bounds}
use eos_updater.Config.{get_file_for_key, KeyFile, ConfigFile, get_uint}
use eos_updater.Prelude.{arith, ◌≡◌, [], ◌≤◌, some, refl, true}

abbrev seven : KeyFile
seven = record {
  has_key = λ group key. true;
  get_uint64 = λ group key. ok 7;
  get_boolean = λ group key. ok true;
  get_string = λ group key. ok "";
  get_string_list = λ group key. ok [];
}

abbrev defaults_only : ConfigFile
defaults_only = record { paths = []; default_key_file = seven; load = λ path. (seven, ok tt) }

found_seven : (get_uint defaults_only "Automatic Updates" "IntervalDays" 0 30 []).1 ≡ some (ok 7)
unfolding get_uint get_file_for_key
found_seven = refl

get_uint-bounds_example : (0 ≤ 7) × (7 ≤ 30)
get_uint-bounds_example =
    get_uint-bounds defaults_only "Automatic Updates" "IntervalDays" 0 30 7 [] (omega arith)
      found_seven
