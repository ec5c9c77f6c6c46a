-- ===== src/Autoupdater/Main/Exit.antt =====
-- eos-autoupdater/main.c: what the configuration guarantees, and what a failure leaves alone.
use eos_updater.Autoupdater.Steps.{Auto}
use eos_updater.Errors.{unset, unset, unset, unset, unset, unset, unset}
use eos_updater.Config.Laws.{get_uint-bounds}
use eos_updater.Autoupdater.Results.{max_uint64}
use eos_updater.Config.{KeyFile, ConfigFile}
use eos_updater.Autoupdater.Main.{
  settings, main_loop, to_step, max_delay_days, max_uint32, due, err, ok, Result, group,
  usec_per_day, max_visible_days, get_uint, reading, exit_ok, Ending, Launch, finish, drive,
  Configuration, read_config_file, main,
}
use eos_updater.Autoupdater.Stamp.{
  sec_per_day, absent, unknown, modified, Stamp, StampIo, is_time_to_update,
}
use eos_updater.Prelude.{
  inr, inl, ◌%◌, ◌/◌, leb, Bool-cases, none, Option-cases, ◌+◌, ◌^◌, ◌≢◌, ◌<◌, ◌≤◌, Option, ◌*◌,
  some, List, String, arith, ◌≡◌, ℕ, ℤ, refl, true,
}

due-same :
    (io : StampIo) (t : ℤ) (interval randomized : ℕ) (stamp : Stamp)
    → (is_time_to_update io t interval randomized stamp).0 ≡ true
    → (is_time_to_update io t interval randomized stamp).1 ≡ stamp
unfolding is_time_to_update
due-same io t interval randomized unknown h = refl
due-same io t interval randomized (modified last) h = refl
due-same io t interval randomized absent h = ground arith

-- A value that was read, or the 0 that stands for an error that is not set.
reading-inverse :
    (c : ConfigFile) (key : String) (hi : ℕ) (key_files : List KeyFile)
    (k : ℕ → Option (Option Configuration)) (conf : Configuration)
    → hi < 2 ^ 32
    → reading (get_uint c group key 0 hi key_files).1 k ≡ some (some conf)
    → (v : ℕ) × (v ≤ hi) × (k v ≡ some (some conf))
reading-inverse c key hi key_files k conf small h =
    go (get_uint c group key 0 hi key_files).1 refl h
  where
    go :
        (r : Option (Result ℕ))
        → (get_uint c group key 0 hi key_files).1 ≡ r
        → reading r k ≡ some (some conf)
        → (v : ℕ) × (v ≤ hi) × (k v ≡ some (some conf))
    go none e h = absurd (ground arith)
    go (some (ok v)) e h = (v, (get_uint-bounds c group key 0 hi v key_files small e).1, h)
    go (some (err x)) e h = absurd (ground arith)
    go (some unset) e h = (0, omega arith, h)

configured :
    (last interval randomized visible : ℕ) (conf : Configuration)
    → interval ≤ max_uint32
    → randomized ≤ max_delay_days
    → visible ≤ max_visible_days
    → some (
        some (record {
          last_automatic_step = to_step last;
          update_interval_days = interval;
          randomized_delay_days = randomized;
          user_visible_delay_usecs = visible * usec_per_day % 2 ^ 64;
        }))
      ≡ some (some conf)
    → (conf.update_interval_days * sec_per_day ≤ max_uint64)
      × ((conf.randomized_delay_days + 1) * sec_per_day < 2 ^ 31)
      × ((days : ℕ) × (days ≤ max_visible_days)
          × (conf.user_visible_delay_usecs ≡ days * usec_per_day)
          × (conf.user_visible_delay_usecs ≤ max_uint64))
configured last interval randomized visible conf a b d e =
    (ground arith, ground arith, (visible, d, ground arith, ground arith))

-- In a configuration that was read: the interval in seconds is at most the largest guint64, the
-- random delay in seconds and one day more are below 2^31, and the delay of user-visible updates is
-- a whole number of days, at most max_visible_days, whose microseconds are at most the largest
-- guint64 and are stored without a wrap-around.
pub read_config_file-bounds :
    (c : ConfigFile) (conf : Configuration)
    → read_config_file c ≡ some (some conf)
    → (conf.update_interval_days * sec_per_day ≤ max_uint64)
      × ((conf.randomized_delay_days + 1) * sec_per_day < 2 ^ 31)
      × ((days : ℕ) × (days ≤ max_visible_days)
          × (conf.user_visible_delay_usecs ≡ days * usec_per_day)
          × (conf.user_visible_delay_usecs ≤ max_uint64))
unfolding read_config_file
read_config_file-bounds c conf h =
    let (last, last_fits, h1) = reading-inverse c "LastAutomaticStep" 3 _ _ conf (omega arith) h in
    let (interval, interval_fits, h2) =
      reading-inverse c "IntervalDays" max_uint32 _ _ conf (omega arith) h1 in
    elim (Bool-cases (leb interval (max_uint64 / sec_per_day))) [
      | inl small ↦
          let (randomized, randomized_fits, h3) =
            reading-inverse c "RandomizedDelayDays" max_delay_days _ _ conf (omega arith)
              (rw small at h2) in
          let (visible, visible_fits, h4) =
            reading-inverse c "UserVisibleUpdateDelayDays" max_visible_days _ _ conf (omega arith)
              h3 in
          configured last interval randomized visible conf interval_fits randomized_fits
            visible_fits h4
      | inr large ↦ absurd (ground arith)
    ]

finish-stamp :
    (l : Launch) (conf : Configuration) (stamp : Stamp) (a : Auto) (e : Ending)
    → finish l conf stamp a ≡ some e
    → e.code ≢ exit_ok
    → e.stamp ≡ stamp
unfolding finish
finish-stamp l conf stamp a e h failed = ground (arith, failed)

drive-stamp :
    (l : Launch) (conf : Configuration) (stamp : Stamp) (e : Ending)
    → drive l conf stamp ≡ some e
    → e.code ≢ exit_ok
    → e.stamp ≡ stamp
unfolding drive
drive-stamp l conf stamp e h failed = elim (Option-cases l.proxy) [
  | inl missing_proxy ↦ ground arith
  | inr (p, found) ↦
      elim (Option-cases (main_loop l.first_moment (settings l conf) p l.events l.poll_file)) [
        | inl stopped ↦ absurd (ground arith)
        | inr (a, ran) ↦ finish-stamp l conf stamp a e (ground arith) failed
      ]
]

due-stamp : (l : Launch) (conf : Configuration) → (due l conf).0 ≡ true → (due l conf).1 ≡ l.stamp
due-stamp l conf h = ground (
  arith,
  due-same l.first_io l.start_time conf.update_interval_days conf.randomized_delay_days l.stamp,
)

-- A process that ends, and not with success, leaves the stamp file as it was.
pub main-stamp : (l : Launch) (e : Ending) → main l ≡ some e → e.code ≢ exit_ok → e.stamp ≡ l.stamp
unfolding main
main-stamp l e h failed = elim (Option-cases (read_config_file l.config)) [
  | inl stopped ↦ ground arith
  | inr (none, bad) ↦ ground arith
  | inr (some conf, good) ↦ ground (arith, due-stamp l conf, drive-stamp l conf (due l conf).1 e)
]
