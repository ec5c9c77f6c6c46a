-- ===== src/Config/Laws.antt =====
-- libeos-updater-util/config-util.c: the range of what is read, and what loading leaves behind.
use eos_updater.Errors.{unset, >>=-eq-ok, ok, Result}
use eos_updater.Config.{err, get_file_for_key, read_uint, KeyFile, in_range, ConfigFile, get_uint}
use eos_updater.Prelude.{arith, ◌≤◌, ◌≡◌, List, Option, ◌^◌, ◌<◌, String, ℕ, none, some}

in_range-bounds :
    (lo hi v w : ℕ) → hi < 2 ^ 32 → in_range lo hi v ≡ ok w → (lo ≤ w) × (w ≤ hi) × (v ≡ w)
in_range-bounds lo hi v w small h = ground arith

read_uint-bounds :
    (group key : String) (lo hi v : ℕ) (r : Result (Option KeyFile))
    → hi < 2 ^ 32
    → read_uint group key lo hi r ≡ some (ok v)
    → (lo ≤ v) × (v ≤ hi)
read_uint-bounds group key lo hi v (ok (some k)) small h =
    let (w, found, fits) = >>=-eq-ok (k.get_uint64 group key) (in_range lo hi) (ground arith) in
    let b = in_range-bounds lo hi w v small fits in (b.0, b.1)
read_uint-bounds group key lo hi v (ok none) small h = absurd (ground arith)
read_uint-bounds group key lo hi v (err e) small h = absurd (ground arith)
read_uint-bounds group key lo hi v unset small h = absurd (ground arith)

-- What has been read lies in the range asked for.
pub get_uint-bounds :
    (c : ConfigFile) (group key : String) (lo hi v : ℕ) (key_files : List KeyFile)
    → hi < 2 ^ 32
    → (get_uint c group key lo hi key_files).1 ≡ some (ok v)
    → (lo ≤ v) × (v ≤ hi)
unfolding get_uint
get_uint-bounds c group key lo hi v key_files small h =
    read_uint-bounds group key lo hi v (get_file_for_key c group key c.paths 0 key_files).1 small h
