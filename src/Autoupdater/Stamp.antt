-- ===== src/Autoupdater/Stamp.antt =====
-- eos-autoupdater/main.c: the stamp file, whose time says when to look for an update again
-- (update_stamp_file, is_time_to_update).
pub mod Due
use eos_updater.Prelude.{
  negsuc, pos, ◌^◌, ◌%◌, ◌+◌, ◌||◌, ◌-◌, false, ltb, not, leb, ◌/◌, true, ◌*◌, if◌then◌else◌, ℕ, ℤ,
  Bool,
}
use eos_updater.Autoupdater.Results.{max_uint64}

abbrev pub sec_per_day : ℕ
sec_per_day = 3600 * 24

abbrev pub usec_per_sec : ℕ
usec_per_sec = 1000000

-- What g_file_query_info says of the stamp file: nothing is there, another error, or its time of
-- modification in seconds.
pub data Stamp : Type 0 where
  absent : Stamp
  unknown : Stamp
  modified : ℕ → Stamp

-- Which of the calls succeed, the time that a file written now gets, and what
-- g_random_int_range (0, days + 1) gives.
pub record StampIo : Type 0 where
  pub can_make_dir : Bool
  pub can_replace : Bool
  pub can_query : Bool
  pub can_set : Bool
  pub written_at : ℕ
  pub draw : ℕ → ℕ

abbrev pub delay_days : StampIo → ℕ → ℕ
delay_days io randomized = if ltb 0 randomized then io.draw randomized else 0

unfoldable pub update_stamp_file : StampIo → ℕ → ℕ → Stamp → Stamp
update_stamp_file io last randomized stamp =
    if not io.can_make_dir || not io.can_replace
    then stamp
    else if not io.can_query || not io.can_set
    then modified io.written_at
    else modified ((last + delay_days io randomized * sec_per_day) % 2 ^ 64)

-- `(guint64) g_get_real_time ()`.
abbrev pub to_uint64 : ℤ → ℕ
to_uint64 (pos n) = n % 2 ^ 64
to_uint64 (negsuc n) = 2 ^ 64 - 1 - n % 2 ^ 64

abbrev pub now_secs : ℤ → ℕ
now_secs real_time = to_uint64 real_time / usec_per_sec

-- The stamp's time with the interval; the sum stops at the largest guint64.
unfoldable pub next_update_secs : ℕ → ℕ → ℕ
next_update_secs last interval =
    if ltb max_uint64 (last + interval * sec_per_day)
    then max_uint64
    else last + interval * sec_per_day

-- The stamp of a first run counts the interval as over. The code multiplies in unsigned long, which
-- has 64 bits here; the product of a guint and the day's seconds then does not wrap.
abbrev pub first_update_secs : ℕ → ℕ → ℕ
first_update_secs now interval =
    if leb (interval * sec_per_day) now then now - interval * sec_per_day else now

-- Whether it is time, and the stamp file.
unfoldable pub is_time_to_update : StampIo → ℤ → ℕ → ℕ → Stamp → Bool × Stamp
unfolding update_stamp_file next_update_secs
is_time_to_update io real_time interval randomized unknown = (true, unknown)
is_time_to_update io real_time interval randomized absent =
    if ltb 0 randomized
    then (
      false,
      update_stamp_file io (first_update_secs (now_secs real_time) interval) randomized absent,
    )
    else (true, absent)
is_time_to_update io real_time interval randomized (modified last) =
    (leb (next_update_secs last interval) (now_secs real_time), modified last)
