-- ===== src/Poll/Tests/World.antt =====
-- A repository whose ref os/4, which is booted, is redirected to os/5.
use eos_updater.Poll.Check.Laws.{Descends}
use eos_updater.Poll.Refspec.{System}
use eos_updater.Sysroot.{Deployment, Sysroot}
use eos_updater.Poll.Latest.Ends.{Parses, Falls}
use eos_updater.Poll.Update.{Commit}
use eos_updater.Poll.Latest.{rebase_of, redirection, Ostree, refspec_of}
use mathlib.Core.Path.{subst, sym, ap, ◌∙◌}
use text.Mathlib.TextLemmas.{append_cancel_left}
use eos_updater.Prelude.{
  ◌<◌, str_equal_iff, strconcat, str_equal, [], ◌∷◌, true, false, none, some, Option, String, ℕ,
  ◌≡◌, inl, inr, refl, arith, if◌then◌else◌, Bool-cases,
}
use eos_updater.Errors.{other, io_not_found}
use eos_updater.Errors.{Result, ok, err}

abbrev pub refspec4 : String
refspec4 = "eos:os/4"

abbrev pub refspec5 : String
refspec5 = "eos:os/5"

abbrev pub commit4 : Commit
commit4 = record {
  checksum = "beef";
  version = some "4.0";
  endoflife_rebase = some "os/5";
  checkpoint_target = some "eos:os/5";
  release_notes_uri = none;
  label = none;
  message = none;
  timestamp = 10;
}

abbrev pub commit5 : Commit
commit5 = record {
  checksum = "f00d";
  version = some "5.0";
  endoflife_rebase = none;
  checkpoint_target = none;
  release_notes_uri = none;
  label = none;
  message = none;
  timestamp = 20;
}

abbrev pub parse : String → Result (Option String × String)
parse s =
    if str_equal s refspec4
    then ok (some "eos", "os/4")
    else if str_equal s refspec5
    then ok (some "eos", "os/5")
    else err (other 1)

abbrev pub resolve : String → Unit {0} → Result String
resolve s w =
    if str_equal s refspec4
    then ok "beef"
    else if str_equal s refspec5
    then ok "f00d"
    else err io_not_found

abbrev pub commits : String → Result Commit
commits c = if str_equal c "beef" then ok commit4 else ok commit5

abbrev pub two_refs : Ostree (Unit {0})
two_refs = record {
  parse_refspec = parse;
  pull_with_options = λ remote url ref w. (ok tt, w);
  find_remotes = λ finders c w. (ok (1 ∷ []), w);
  pull_from_remotes = λ results w. (ok tt, w);
  resolve_rev = resolve;
  remote_collection_id = λ remote w. ok (some "com.endlessm.Os");
  repo = λ w. record { booted_checksum = ok "beef"; load_commit = commits; strtoull = λ s. 4 };
}

abbrev pub rank : String → ℕ
rank ref = if str_equal ref "os/4" then 1 else 0

after_remote : (a b : String) → refspec_of "eos" a ≡ refspec_of "eos" b → a ≡ b
after_remote a b h =
    append_cancel_left ":" a b (append_cancel_left "eos" (strconcat ":" a) (strconcat ":" b) h)

is_ref : (ref x : String) → str_equal (refspec_of "eos" ref) (refspec_of "eos" x) ≡ true → ref ≡ x
is_ref ref x h =
    after_remote ref x ((str_equal_iff (refspec_of "eos" ref) (refspec_of "eos" x)).0 h)

pub parses : Parses two_refs "eos"
parses ref = elim (Bool-cases (str_equal (refspec_of "eos" ref) refspec4)) [
  | inl a ↦ inl (let e = is_ref ref "os/4" a in rw e refl)
  | inr a ↦ elim (Bool-cases (str_equal (refspec_of "eos" ref) refspec5)) [
    | inl b ↦ inl (let e = is_ref ref "os/5" b in rw e refl)
    | inr b ↦ inr (other 1, ground arith)
  ]
]

abbrev Lower : Unit {0} → String → Type 0
Lower w ref =
    (checksum target : String)
    → resolve (refspec_of "eos" ref) w ≡ ok checksum
    → redirection ref (rebase_of (commits checksum)) ≡ some target
    → rank target < rank ref

lower4 : (w : Unit {0}) → Lower w "os/4"
lower4 w checksum target r t = fixed checksum (ground arith) t
  where
    fixed :
        (c : String)
        → "beef" ≡ c
        → redirection "os/4" (rebase_of (commits c)) ≡ some target
        → rank target < 1
    fixed c e =
        subst (λ x. redirection "os/4" (rebase_of (commits x)) ≡ some target → rank target < 1) e
          (λ t. let k : "os/5" ≡ target = ground arith in subst (λ x. rank x < 1) k (omega arith))

lower5 : (w : Unit {0}) → Lower w "os/5"
lower5 w checksum target r t = fixed checksum (ground arith) t
  where
    fixed :
        (c : String)
        → "f00d" ≡ c
        → redirection "os/5" (rebase_of (commits c)) ≡ some target
        → rank target < 0
    fixed c e =
        subst (λ x. redirection "os/5" (rebase_of (commits x)) ≡ some target → rank target < 0) e
          (λ t. cc)

pub falls : Falls two_refs "eos" rank
falls ref checksum target w r t = elim (Bool-cases (str_equal (refspec_of "eos" ref) refspec4)) [
  | inl a ↦ subst (Lower w) (sym (is_ref ref "os/4" a)) (lower4 w) checksum target r t
  | inr a ↦ elim (Bool-cases (str_equal (refspec_of "eos" ref) refspec5)) [
    | inl b ↦ subst (Lower w) (sym (is_ref ref "os/5" b)) (lower5 w) checksum target r t
    | inr b ↦ absurd (ground arith)
  ]
]

-- What the parameter parses is remote:ref of the one remote.
abbrev Apart : String → Type 0
Apart refspec =
    (remote ref : String)
    → parse refspec ≡ ok (some remote, ref)
    → (refspec ≡ refspec_of remote ref) × Parses two_refs remote × Falls two_refs remote rank

Apart-refspec_of :
    (x : String) → parse (refspec_of "eos" x) ≡ ok (some "eos", x) → Apart (refspec_of "eos" x)
Apart-refspec_of x p remote ref h =
    let e : "eos" ≡ remote = ground arith in
    let f : x ≡ ref = ground arith in
    (
      ap (λ y. refspec_of "eos" y) f ∙ ap (λ y. refspec_of y ref) e,
      subst (λ y. Parses two_refs y) e parses,
      subst (λ y. Falls two_refs y rank) e falls,
    )

rank_small : (ref : String) → rank ref < 2
rank_small ref = ground arith

pub descends : Descends two_refs rank 2
descends = (apart, rank_small)
  where
    apart : (refspec : String) → Apart refspec
    apart refspec remote ref h = elim (Bool-cases (str_equal refspec refspec4)) [
      | inl a ↦
          subst Apart (sym ((str_equal_iff refspec refspec4).0 a)) (Apart-refspec_of "os/4" refl)
            remote ref h
      | inr a ↦ elim (Bool-cases (str_equal refspec refspec5)) [
        | inl b ↦
            subst Apart (sym ((str_equal_iff refspec refspec5).0 b)) (Apart-refspec_of "os/5" refl)
              remote ref h
        | inr b ↦ absurd (ground arith)
      ]
    ]

abbrev pub booted_deployment : Deployment
booted_deployment = record { osname = "eos"; csum = "beef"; origin = some (ok refspec4) }

abbrev pub booted_sysroot : Sysroot
booted_sysroot = record {
  deployments = booted_deployment ∷ [];
  booted = some booted_deployment;
  fallback = false;
  repo = ok tt;
  load_commit = λ c. ok 10;
  ostree_path = λ o. ok "ostree/eos";
}

abbrev pub eos_system : System (Unit {0})
eos_system = record {
  sysroot = λ w. ok booted_sysroot;
  local_repo = λ w. ok tt;
  env = none;
  driver = err io_not_found;
}
