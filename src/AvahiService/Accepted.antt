-- ===== src/AvahiService/Accepted.antt =====
-- libeos-updater-util/avahi-service-file.c: what check_options accepts.
use eos_updater.Run.{aborted, ◌>>ᵣ◌, finished, Run}
use eos_updater.AvahiService.{
  get_and_check_txt_records_size_level, SizeLevel, get_and_check_avahi_service_port,
  get_and_check_bloom_k, check_v1_options, get_and_check_bloom_hash_func_id,
  get_and_check_bloom_size, get_and_check_version, Options, check_options,
}
use eos_updater.Prelude.{ap, ◌∙◌, ◌==◌, ◌≤◌, true, false, ℕ, ◌≡◌, inl, inr, refl, arith, Bool-cases}
use eos_updater.Errors.{>>=-eq-ok}
use eos_updater.Errors.{Result, ok, err, unset}

-- What check_options has accepted, as the getters return it.
pub record Accepted (avahi_port : ℕ) (d : Options) : Type 0 where
  pub version : get_and_check_version d ≡ ok 1
  pub size : ℕ
  pub size-eq : get_and_check_bloom_size d ≡ ok size
  pub size-le : size ≤ 250
  pub k : ℕ
  pub k-eq : get_and_check_bloom_k d ≡ ok k
  pub hash : get_and_check_bloom_hash_func_id d ≡ ok 1
  pub port : ℕ
  pub port-eq : get_and_check_avahi_service_port avahi_port d ≡ ok port
  pub level : SizeLevel
  pub level-eq : get_and_check_txt_records_size_level d ≡ ok level

get_and_check_version-ok : (d : Options) {v : ℕ} → get_and_check_version d ≡ ok v → v ≡ 1
unfolding get_and_check_version
get_and_check_version-ok d h = ground arith

get_and_check_bloom_hash_func_id-ok :
    (d : Options) {v : ℕ} → get_and_check_bloom_hash_func_id d ≡ ok v → v ≡ 1
unfolding get_and_check_bloom_hash_func_id
get_and_check_bloom_hash_func_id-ok d h = ground arith

get_and_check_bloom_size-ok : (d : Options) {v : ℕ} → get_and_check_bloom_size d ≡ ok v → v ≤ 250
unfolding get_and_check_bloom_size
get_and_check_bloom_size-ok d h = ground arith

finished->>ᵣ-ok :
    {W A B : Type 0} (r : Result A) (k : A → W → Run W B) {w v : W} {b : B}
    → (finished r w >>ᵣ k) ≡ finished (ok b) v
    → (a : A) × (r ≡ ok a) × (k a w ≡ finished (ok b) v)
finished->>ᵣ-ok (ok a) k h = (a, refl, h)
finished->>ᵣ-ok (err e) k h = cc
finished->>ᵣ-ok unset k h = cc

check_v1_options-Accepted :
    (avahi_port : ℕ) (d : Options)
    → get_and_check_version d ≡ ok 1
    → check_v1_options avahi_port d ≡ ok tt
    → Accepted avahi_port d
unfolding check_v1_options
check_v1_options-Accepted avahi_port d version h =
    let s = >>=-eq-ok (get_and_check_bloom_size d) _ h in
    let k = >>=-eq-ok (get_and_check_bloom_k d) _ s.2 in
    let i = >>=-eq-ok (get_and_check_bloom_hash_func_id d) _ k.2 in
    let p = >>=-eq-ok (get_and_check_avahi_service_port avahi_port d) _ i.2 in
    let l = >>=-eq-ok (get_and_check_txt_records_size_level d) _ p.2 in
    record {
      version = version;
      size = s.0;
      size-eq = s.1;
      size-le = get_and_check_bloom_size-ok d s.1;
      k = k.0;
      k-eq = k.1;
      hash = i.1 ∙ ap ok (get_and_check_bloom_hash_func_id-ok d i.1);
      port = p.0;
      port-eq = p.1;
      level = l.0;
      level-eq = l.1;
    }

version_one :
    {W : Type 0} (avahi_port : ℕ) (d : Options) (w : W) (v : ℕ)
    → elim (v == 1) [ true ↦ finished (check_v1_options avahi_port d) w | false ↦ aborted ]
      ≡ finished (ok tt) w
    → check_v1_options avahi_port d ≡ ok tt
version_one avahi_port d w v h = elim (Bool-cases (v == 1)) [
  | inl t ↦ ground arith
  | inr f ↦ ground arith
]

pub check_options-Accepted :
    {W : Type 0} (avahi_port : ℕ) (d : Options) (w : W)
    → check_options avahi_port d w ≡ finished (ok tt) w
    → Accepted avahi_port d
unfolding check_options
check_options-Accepted avahi_port d w h =
    let v = finished->>ᵣ-ok (get_and_check_version d) _ h in
    check_v1_options-Accepted avahi_port d (v.1 ∙ ap ok (get_and_check_version-ok d v.1))
      (version_one avahi_port d w v.0 v.2)
