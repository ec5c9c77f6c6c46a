-- ===== src/Autoupdater/Stamp/Due.antt =====
-- eos-autoupdater/main.c: when an update is due after the stamp file has been written.
use eos_updater.Autoupdater.Results.{max_uint64}
use eos_updater.Autoupdater.Stamp.{
  now_secs, sec_per_day, modified, delay_days, next_update_secs, Stamp, is_time_to_update, StampIo,
  update_stamp_file,
}
use eos_updater.Prelude.{◌^◌, ◌%◌, ◌*◌, ◌+◌, false, arith, true, leb, ℤ, ◌≤◌, ◌<◌, ◌≡◌, ℕ}

abbrev AllSucceed : StampIo → Type 0
AllSucceed io =
    (io.can_make_dir ≡ true) × (io.can_replace ≡ true) × (io.can_query ≡ true) × (io.can_set ≡ true)

written :
    (io : StampIo) (last randomized : ℕ) (stamp : Stamp)
    → AllSucceed io
    → update_stamp_file io last randomized stamp
      ≡ modified ((last + delay_days io randomized * sec_per_day) % 2 ^ 64)
unfolding update_stamp_file
written io last randomized stamp h = ground arith

delay_days-le :
    (io : StampIo) (randomized : ℕ)
    → ((n : ℕ) → io.draw n ≤ n)
    → delay_days io randomized ≤ randomized
delay_days-le io randomized h = ground (arith, h randomized)

leb-true : (m n : ℕ) → m ≤ n → leb m n ≡ true
leb-true m n h = ground arith

leb-false : (m n : ℕ) → n < m → leb m n ≡ false
leb-false m n h = ground arith

delayed_update :
    (last interval randomized d : ℕ)
    → d ≤ randomized
    → last + (interval + randomized) * sec_per_day ≤ max_uint64
    → next_update_secs ((last + d * sec_per_day) % 2 ^ 64) interval
      ≡ last + (d + interval) * sec_per_day
unfolding next_update_secs
delayed_update last interval randomized d small fits = ground arith

-- After an update at `last` seconds whose stamp file could be written, with a random delay of
-- at most `randomized` days, and as long as no sum passes the largest guint64: no update is due
-- until `interval` days have passed, and one is due once `interval + randomized` days have.
pub is_time_to_update-update_stamp_file :
    (io io' : StampIo) (last interval randomized : ℕ) (stamp : Stamp) (real_time : ℤ)
    → AllSucceed io
    → ((n : ℕ) → io.draw n ≤ n)
    → last + (interval + randomized) * sec_per_day ≤ max_uint64
    → (now_secs real_time < last + interval * sec_per_day
        → (is_time_to_update io' real_time interval randomized
            (update_stamp_file io last randomized stamp)).0
          ≡ false)
      × (last + (interval + randomized) * sec_per_day ≤ now_secs real_time
          → (is_time_to_update io' real_time interval randomized
              (update_stamp_file io last randomized stamp)).0
            ≡ true)
unfolding is_time_to_update
is_time_to_update-update_stamp_file io io' last interval randomized stamp real_time ok draws fits =
    let small = delay_days-le io randomized draws in
    rw
      (
        written io last randomized stamp ok,
        delayed_update last interval randomized (delay_days io randomized) small fits,
      )
      (
        λ early.
            leb-false (last + (delay_days io randomized + interval) * sec_per_day)
              (now_secs real_time) (omega arith),
        λ late.
            leb-true (last + (delay_days io randomized + interval) * sec_per_day)
              (now_secs real_time) (omega arith),
      )
