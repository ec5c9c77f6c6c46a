-- ===== src/Autoupdater/Results.antt =====
-- eos-autoupdater/main.c: the poll results, in memory and in their file
-- (poll_results_new, read_poll_results_file, write_poll_results_file, update_poll_results).
pub mod Laws
use eos_updater.Daemon.{UpdaterState}
use eos_updater.Prelude.{
  negsuc, pos, [], some, ◌-◌, ◌&&◌, ◌∷◌, str_equal, ◌^◌, if◌then◌else◌, none, List, ℤ, Option,
  String, Bool, ℕ,
}

abbrev pub max_uint64 : ℕ
max_uint64 = 2 ^ 64 - 1

pub record PollResults : Type 0 where
  pub last_changed_usecs : ℕ
  pub update_refspec : String
  pub update_id : String

abbrev or_empty : Option String → String
or_empty none = ""
or_empty (some s) = s

unfoldable pub poll_results_new : ℕ → Option String → Option String → PollResults
poll_results_new usecs refspec id = record {
  last_changed_usecs = usecs;
  update_refspec = or_empty refspec;
  update_id = or_empty id;
}

-- A value of the file's `a{sv}` dictionary: of type `t`, of type `s`, or of another type.
pub data Variant : Type 0 where
  uint64 : ℕ → Variant
  text : String → Variant
  other_type : Variant

abbrev pub Dict : Type 0
Dict = List (String × Variant)

-- The file, as g_file_load_bytes and GVariant read it. What GVariant makes of a dictionary is not
-- modelled: the file stands for the dictionary that it is the serialisation of.
pub data PollFile : Type 0 where
  missing : PollFile
  unreadable : PollFile
  contents : Dict → PollFile

-- g_variant_lookup: the first entry with the key, if its value has the type asked for.
unfoldable pub lookup : Dict → String → Option Variant
lookup [] key = none
lookup ((k, v) ∷ rest) key =
    let later = lookup rest key in if str_equal k key then some v else later

abbrev as_uint64 : Option Variant → Option ℕ
as_uint64 (some (uint64 n)) = some n
as_uint64 _ = none

abbrev as_text : Option Variant → Option String
as_text (some (text s)) = some s
as_text _ = none

abbrev read_dict : Option ℕ → Option String → Option String → Option PollResults
read_dict (some usecs) (some refspec) (some id) =
    some (poll_results_new usecs (some refspec) (some id))
read_dict _ _ _ = none

unfoldable pub read_poll_results_file : PollFile → Option PollResults
unfolding lookup poll_results_new
read_poll_results_file missing = none
read_poll_results_file unreadable = none
read_poll_results_file (contents d) =
    read_dict (as_uint64 (lookup d "LastChangedUsecs")) (as_text (lookup d "UpdateRefspec"))
      (as_text (lookup d "UpdateID"))

-- `writable` tells whether the directory can be made and the file replaced.
unfoldable pub write_poll_results_file : Bool → PollResults → PollFile → PollFile
write_poll_results_file writable r file =
    if writable
    then contents (
        ("LastChangedUsecs", uint64 r.last_changed_usecs)
        ∷ ("UpdateRefspec", text r.update_refspec)
        ∷ ("UpdateID", text r.update_id)
        ∷ [])
    else file

-- The proxy's cached properties.
pub record Proxy : Type 0 where
  pub state : UpdaterState
  pub update_refspec : Option String
  pub update_id : Option String
  pub update_is_user_visible : Bool

-- `MAX (0, g_get_real_time ())`.
abbrev pub from_epoch : ℤ → ℕ
from_epoch (pos n) = n
from_epoch (negsuc n) = 0

-- What is read when something happens: the clock, and whether the file can be written.
pub record Moment : Type 0 where
  pub real_time : ℤ
  pub writable : Bool

abbrev pub new_results : Moment → Proxy → PollResults
new_results m p = poll_results_new (from_epoch m.real_time) p.update_refspec p.update_id

abbrev pub same_update : PollResults → PollResults → Bool
same_update a b = str_equal a.update_refspec b.update_refspec && str_equal a.update_id b.update_id

abbrev pub store_new : Moment → Proxy → PollFile → PollResults × PollFile
store_new m p file = (new_results m p, write_poll_results_file m.writable (new_results m p) file)

-- The results to use, and the file.
unfoldable pub update_poll_results : Moment → Proxy → PollFile → PollResults × PollFile
unfolding read_poll_results_file write_poll_results_file
update_poll_results m p file = elim (read_poll_results_file file) [
  | none ↦ store_new m p file
  | some old ↦ if same_update old (new_results m p) then (old, file) else store_new m p file
]
