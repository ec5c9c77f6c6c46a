-- ===== src/Sysroot/Search.antt =====
-- libeos-updater-util/ostree-util.c: what the loop over the deployments finds.
use eos_updater.Sysroot.{weigh, newest_loop, Deployment, Newest, Sysroot}
use eos_updater.Prelude.{
  str_equal_iff, ltb, sym, ◌||◌, ap, ◌∙◌, ◌==◌, Any, All, is_some, ◌≤◌, str_equal, List, [], ◌∷◌,
  true, false, some, String, ℕ, ◌≡◌, ◌≢◌, ◌⊎◌, inl, inr, refl, arith, if◌then◌else◌, Bool-cases,
  Option-cases,
}
use eos_updater.Errors.{ErrorCode, Result-cases}
use eos_updater.Errors.{ok, err, unset}

-- libostree sets an error when a commit cannot be loaded.
abbrev pub ReportsErrors : Sysroot → Type 0
ReportsErrors s = (checksum : String) → s.load_commit checksum ≢ unset

module _ (s : Sysroot) (osname : String) where
  -- If it is of the OS and its commit can be loaded, it is not newer than `t`.
  abbrev pub NotNewer : ℕ → Deployment → Type 0
  NotNewer t d = (u : ℕ) → d.osname ≡ osname → s.load_commit d.csum ≡ ok u → u ≤ t

  -- It is of the OS, and `checksum` is its commit with the time `t`.
  abbrev pub IsOf : String → ℕ → Deployment → Type 0
  IsOf checksum t d = (d.osname ≡ osname) × (d.csum ≡ checksum) × (s.load_commit checksum ≡ ok t)

  -- If it is of the OS, its commit can be loaded and has the time 0.
  abbrev pub AtZero : Deployment → Type 0
  AtZero d = d.osname ≡ osname → s.load_commit d.csum ≡ ok 0

  abbrev pub Silent : Newest → Deployment → Type 0
  Silent n d = n.timestamp ≡ 0 → is_some n.load_commit_error ≡ false → AtZero d

  -- From `n` to `m` by way of the deployments.
  abbrev pub Seen : List Deployment → Newest → Newest → Type 0
  Seen l n m =
      (n.timestamp ≤ m.timestamp)
      × All (NotNewer m.timestamp) l
      × (((m.checksum ≡ n.checksum) × (m.timestamp ≡ n.timestamp))
          ⊎ ((c : String) × (m.checksum ≡ some c) × Any (IsOf c m.timestamp) l))
      × (is_some n.load_commit_error ≡ true → is_some m.load_commit_error ≡ true)
      × All (Silent m) l

  abbrev pub visit : Deployment → Newest → Newest
  visit d n = if str_equal d.osname osname then weigh d.csum (s.load_commit d.csum) n else n

  Seen-visit : ReportsErrors s → (d : Deployment) (n : Newest) → Seen (d ∷ []) n (visit d n)
  Seen-visit reports d n = elim (Bool-cases (str_equal d.osname osname)) [
    | inr o ↦ (
      ground arith,
      ((λ u i e. absurd (ground (arith, str_equal_iff d.osname osname))), tt),
      inl (ground arith, ground arith),
      ground arith,
      ((λ z f i. absurd (ground (arith, str_equal_iff d.osname osname))), tt),
    )
    | inl o ↦ elim (Result-cases (s.load_commit d.csum)) [
      | inl (t, e) ↦
          later t ((str_equal_iff d.osname osname).0 o) e
            (Bool-cases (n.timestamp == 0 || ltb n.timestamp t))
      | inr (inl (c, e)) ↦ (
        ground arith,
        ((λ u i f. absurd (ground arith)), tt),
        inl (ground arith, ground arith),
        ground arith,
        ((λ z f i. absurd (failed c o e f)), tt),
      )
      | inr (inr e) ↦ absurd (reports d.csum e)
    ]
  ]
    where
      failed :
          (c : ErrorCode)
          → str_equal d.osname osname ≡ true
          → s.load_commit d.csum ≡ err c
          → is_some (visit d n).load_commit_error ≡ false
          → ⊥
      failed c o e f = elim (Option-cases n.load_commit_error) [
        | inl first ↦ ground arith
        | inr (b, before) ↦ ground arith
      ]

      later :
          (t : ℕ)
          → d.osname ≡ osname
          → s.load_commit d.csum ≡ ok t
          → ((n.timestamp == 0 || ltb n.timestamp t) ≡ true)
            ⊎ ((n.timestamp == 0 || ltb n.timestamp t) ≡ false)
          → Seen (d ∷ []) n (visit d n)
      later t o e (inl b) =
          let v : visit d n ≡ record n { timestamp = t; checksum = some d.csum } =
            ground (arith, str_equal_iff d.osname osname) in
          rw v (
            ground arith,
            ((λ u i f. ground arith), tt),
            inr (d.csum, refl, inl (o, refl, e)),
            (λ h. h),
            ((λ z f i. e ∙ ap ok z), tt),
          )
      later t o e (inr b) =
          let v : visit d n ≡ n = ground (arith, str_equal_iff d.osname osname) in
          rw v (
            omega arith,
            ((λ u i f. ground arith), tt),
            inl (refl, refl),
            (λ h. h),
            ((λ z f i. absurd (ground arith)), tt),
          )

  Seen-cons :
      (d : Deployment) (l : List Deployment) (n m k : Newest)
      → Seen (d ∷ []) n m
      → Seen l m k
      → Seen (d ∷ l) n k
  Seen-cons d l n m k h g = (
    omega (arith, h.0, g.0),
    ((λ u o e. omega (arith, h.1.0 u o e, g.0)), g.1),
    found g.2 h.2,
    (λ e. g.3 (h.3 e)),
    (failed, g.4),
  )
    where
      found :
          ((k.checksum ≡ m.checksum) × (k.timestamp ≡ m.timestamp))
            ⊎ ((c : String) × (k.checksum ≡ some c) × Any (IsOf c k.timestamp) l)
          → ((m.checksum ≡ n.checksum) × (m.timestamp ≡ n.timestamp))
            ⊎ ((c : String) × (m.checksum ≡ some c) × Any (IsOf c m.timestamp) (d ∷ []))
          → ((k.checksum ≡ n.checksum) × (k.timestamp ≡ n.timestamp))
            ⊎ ((c : String) × (k.checksum ≡ some c) × Any (IsOf c k.timestamp) (d ∷ l))
      found (inr (c, e, a)) _ = inr (c, e, inr a)
      found (inl (e, f)) (inl (e', f')) = inl (e ∙ e', f ∙ f')
      found (inl (e, f)) (inr (c, e', inl a)) = inr (c, e ∙ e', inl (a.0, a.1, a.2 ∙ ap ok (sym f)))
      found (inl (e, f)) (inr (c, e', inr a)) = absurd a

      failed : k.timestamp ≡ 0 → is_some k.load_commit_error ≡ false → AtZero d
      failed z f =
          h.4.0 (omega (arith, g.0, z)) (none_before (Bool-cases (is_some m.load_commit_error)))
        where
          none_before :
              (is_some m.load_commit_error ≡ true) ⊎ (is_some m.load_commit_error ≡ false)
              → is_some m.load_commit_error ≡ false
          none_before (inl b) = absurd (ground (arith, g.3 b))
          none_before (inr b) = b

  pub Seen-newest_loop :
      ReportsErrors s → (l : List Deployment) (n : Newest) → Seen l n (newest_loop s osname l n)
  unfolding newest_loop
  Seen-newest_loop reports [] n = (omega arith, tt, inl (refl, refl), (λ h. h), tt)
  Seen-newest_loop reports (d ∷ l) n =
      Seen-cons d l n (visit d n) (newest_loop s osname l (visit d n)) (Seen-visit reports d n)
        (Seen-newest_loop reports l (visit d n))

  pub silent :
      (l : List Deployment) (m : Newest)
      → All (Silent m) l
      → m.timestamp ≡ 0
      → is_some m.load_commit_error ≡ false
      → All AtZero l
  silent [] m a z f = tt
  silent (d ∷ l) m a z f = (a.0 z f, silent l m a.1 z f)
