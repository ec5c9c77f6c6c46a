-- ===== src/Daemon/Sizes/Bounds.antt =====
-- eos-updater/poll-common.c: the sums of get_commit_sizes against sums without a bound.
use eos_updater.Daemon.Sizes.{
  zero_sizes, max_int64, total, clamp_to_gint64, Fits, missing_size, add_sizes, get_commit_sizes,
  Sizes, sizes_loop, saturated_increment, max_uint64, SizesEntry,
}
use eos_updater.Prelude.{inr, inl, ℕ, ◌+◌, ◌≤◌, Bool, true, false, List, [], ◌∷◌, ◌≡◌, arith, All}
use Prim.Native.Nat.{min}
use eos_updater.Errors.{Result-cases, ok}

-- A saturated sum is the sum, or the largest guint64.
saturated_increment-min :
    (a b : ℕ) → a ≤ max_uint64 → b ≤ max_uint64 → saturated_increment a b ≡ min (a + b) max_uint64
unfolding saturated_increment
saturated_increment-min a b h k = ground arith

abbrev capped : ℕ → ℕ → ℕ
capped a b = min (a + b) max_uint64

capped-step :
    (a b t : ℕ)
    → a ≤ max_uint64
    → b ≤ max_uint64
    → (saturated_increment a b ≤ max_uint64)
      × (capped (saturated_increment a b) t ≡ capped a (b + t))
capped-step a b t h k = omega (arith, saturated_increment-min a b h k)

record Below (s : Sizes) : Type 0 where
  archived : s.archived ≤ max_uint64
  unpacked : s.unpacked ≤ max_uint64
  new_archived : s.new_archived ≤ max_uint64
  new_unpacked : s.new_unpacked ≤ max_uint64

record AddsUp (s : Sizes) (entries : List SizesEntry) (res : Sizes) : Type 0 where
  archived : res.archived ≡ capped s.archived (total (λ e. e.archived) entries)
  unpacked : res.unpacked ≡ capped s.unpacked (total (λ e. e.unpacked) entries)
  new_archived :
      res.new_archived ≡ capped s.new_archived (total (missing_size (λ e. e.archived)) entries)
  new_unpacked :
      res.new_unpacked ≡ capped s.new_unpacked (total (missing_size (λ e. e.unpacked)) entries)

AddsUp-nil : (s : Sizes) → Below s → AddsUp s [] s
AddsUp-nil s b = omega arith

add_sizes-Below :
    (x : SizesEntry) (exists : Bool) (s : Sizes) → Fits x → Below s → Below (add_sizes x exists s)
unfolding add_sizes
add_sizes-Below x true s f b = ground arith
add_sizes-Below x false s f b = ground arith

AddsUp-cons :
    (x : SizesEntry) (exists : Bool) (s : Sizes) (rest : List SizesEntry) (res : Sizes)
    → x.exists ≡ ok exists
    → Fits x
    → Below s
    → AddsUp (add_sizes x exists s) rest res
    → AddsUp s (x ∷ rest) res
unfolding add_sizes
AddsUp-cons x true s rest res e f b h = ground (arith, h)
AddsUp-cons x false s rest res e f b h = ground (arith, h)

exists_of_ok :
    (s : Sizes) (x : SizesEntry) (rest : List SizesEntry) (res : Sizes)
    → sizes_loop s (x ∷ rest) ≡ ok res
    → (exists : Bool) × (x.exists ≡ ok exists) × (sizes_loop (add_sizes x exists s) rest ≡ ok res)
unfolding sizes_loop
exists_of_ok s x rest res e = elim (Result-cases x.exists) [
  | inl (exists, known) ↦ (exists, known, rw (known, sizes_loop) at e)
  | inr (inl (y, failed)) ↦ absurd (ground arith)
  | inr (inr failed) ↦ absurd (ground arith)
]

sizes_loop-AddsUp :
    (s : Sizes) (entries : List SizesEntry) (res : Sizes)
    → Below s
    → All Fits entries
    → sizes_loop s entries ≡ ok res
    → AddsUp s entries res
unfolding sizes_loop
sizes_loop-AddsUp s [] res b h e = ground (arith, AddsUp-nil s b)
sizes_loop-AddsUp s (x ∷ rest) res b h e =
    let (exists, known, later) = exists_of_ok s x rest res e in
    AddsUp-cons x exists s rest res known h.0 b (
      sizes_loop-AddsUp (add_sizes x exists s) rest res (add_sizes-Below x exists s h.0 b) h.1
        later)

missing_size-le : (size : SizesEntry → ℕ) (x : SizesEntry) → missing_size size x ≤ size x
missing_size-le size x = elim (Result-cases x.exists) [
  | inl (true, known) ↦ ground arith
  | inl (false, known) ↦ ground arith
  | inr (inl (y, failed)) ↦ ground arith
  | inr (inr failed) ↦ ground arith
]

total-missing-le :
    (size : SizesEntry → ℕ) (entries : List SizesEntry)
    → total (missing_size size) entries ≤ total size entries
total-missing-le size [] = omega arith
total-missing-le size (x ∷ rest) = omega (arith, total-missing-le size rest, missing_size-le size x)

-- The sizes of a commit whose entries are guint64, when they can be worked out: each is its sum,
-- over all entries or over those whose object is missing, cut off at the largest guint64; so
-- after the clamp they fit a gint64, and what is to be downloaded is not more than the whole.
pub get_commit_sizes-total :
    (entries : List SizesEntry) (res : Sizes)
    → All Fits entries
    → get_commit_sizes (ok entries) ≡ ok res
    → (res.archived ≡ min (total (λ e. e.archived) entries) max_uint64)
      × (res.unpacked ≡ min (total (λ e. e.unpacked) entries) max_uint64)
      × (res.new_archived ≡ min (total (missing_size (λ e. e.archived)) entries) max_uint64)
      × (res.new_unpacked ≡ min (total (missing_size (λ e. e.unpacked)) entries) max_uint64)
      × (clamp_to_gint64 res.archived ≤ max_int64)
      × (clamp_to_gint64 res.unpacked ≤ max_int64)
      × (clamp_to_gint64 res.new_archived ≤ clamp_to_gint64 res.archived)
      × (clamp_to_gint64 res.new_unpacked ≤ clamp_to_gint64 res.unpacked)
unfolding get_commit_sizes clamp_to_gint64
get_commit_sizes-total entries res fits e =
    let sums = sizes_loop-AddsUp zero_sizes entries res (omega arith) fits e in
    let a = total-missing-le (λ x. x.archived) entries in
    let b = total-missing-le (λ x. x.unpacked) entries in ground arith
