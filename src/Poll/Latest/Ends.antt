-- ===== src/Poll/Latest/Ends.antt =====
-- eos-updater/poll-common.c: the loop of fetch_latest_commit ends where redirections descend, and
-- with a commit that is not redirected; it does not end on refs that are redirected in a circle.
use eos_updater.Daemon.{Opaque}
use eos_updater.Poll.Finders.{Finder}
use eos_updater.Run.{
  ◌>>ᵣ◌, Run, look_up-Ensures, call_then-Ensures, call-Ensures, finished, >>ᵣ-Ensures, Ensures,
}
use eos_updater.Poll.Latest.{
  fetch_latest_commit, suc, or_else, fetch_loop, or_ref, pull_found, CollectionRef, rebase_of,
  redirection, Latest, pull_metadata, Parsed, refspec_of, parse_latest_commit, Ostree,
}
use eos_updater.Prelude.{
  zero, suc, refl, arith, inr, inl, [], ◌⊎◌, ◌<◌, ◌∷◌, none, some, is_some, Bool, ◌≡◌, Option, List,
  ℕ, String, true, false,
}
use eos_updater.Errors.{ErrorCode, ok, err}

module _ {W : Type 0} (ostree : Ostree W) (remote : String) where
  -- ostree_parse_refspec takes remote:ref apart, or refuses the ref.
  abbrev pub Parses : Type 0
  Parses =
      (ref : String)
      → (ostree.parse_refspec (refspec_of remote ref) ≡ ok (some remote, ref))
        ⊎ ((e : ErrorCode) × (ostree.parse_refspec (refspec_of remote ref) ≡ err e))

  -- The ref that the commit redirects `ref` to, if any.
  abbrev pub target_at : String → String → W → Option String
  target_at ref checksum w = redirection ref (rebase_of ((ostree.repo w).load_commit checksum))

  -- A measure on refs that falls along every redirection.
  abbrev pub Falls : (String → ℕ) → Type 0
  Falls rank =
      (ref checksum target : String) (w : W)
      → ostree.resolve_rev (refspec_of remote ref) w ≡ ok checksum
      → target_at ref checksum w ≡ some target
      → rank target < rank ref

  -- The commit is the latest of a ref of the remote, and is not redirected.
  abbrev pub Settled : Latest → W → Type 0
  Settled l w =
      (ref : String) × (l.new_refspec ≡ refspec_of remote ref)
      × (ostree.resolve_rev (refspec_of remote ref) w ≡ ok l.checksum)
      × (target_at ref l.checksum w ≡ none)

  abbrev pub Asked : Option (List Finder) → Option CollectionRef → Type 0
  Asked none _ = Unit
  Asked (some finders) c = is_some c ≡ true

  parse_Ensures :
      {B : Type 0} (Q : B → W → Type 0)
      → Parses
      → (ref : String) (w : W) (k : Option String × String → W → Run W B)
      → Ensures Q (k (some remote, ref) w)
      → Ensures Q (finished (ostree.parse_refspec (refspec_of remote ref)) w >>ᵣ k)
  parse_Ensures Q parses ref w k h = elim (parses ref) [ inl e ↦ rw e h | inr (code, e) ↦ rw e tt ]

  pulled : (results : List Opaque) (w : W) → Ensures (λ _ _. Unit) (pull_found ostree results w)
  pulled [] w = tt
  pulled (r ∷ rs) w = call-Ensures (ostree.pull_from_remotes (r ∷ rs) w)

  found :
      (url : Option String) (finders : List Finder) (refspec : String) (c : Option CollectionRef)
      (w : W)
      → is_some c ≡ true
      → Ensures
          (λ _ _. Unit)
          (pull_metadata ostree url
            (some finders)
            (record { refspec = refspec; collection_ref = c })
            w)
  unfolding pull_metadata
  found url finders refspec none w h = cc
  found url finders refspec (some c) w h =
      call_then-Ensures (λ _ _. Unit) (ostree.find_remotes finders c w) _
        (λ results w.
          >>ᵣ-Ensures (λ _ _. Unit) (λ _ _. Unit) (pull_found ostree results w) _ (pulled results w)
            (λ _ _ _. tt))

  pull_metadata-Ensures :
      Parses
      → (url : Option String) (finders : Option (List Finder)) (ref : String)
        (c : Option CollectionRef) (w : W)
      → Asked finders c
      → Ensures
          (λ _ _. Unit)
          (pull_metadata ostree url finders
            (record { refspec = refspec_of remote ref; collection_ref = c })
            w)
  unfolding pull_metadata
  pull_metadata-Ensures parses url none ref c w h =
      parse_Ensures (λ _ _. Unit) parses ref w _
        (call_then-Ensures (λ _ _. Unit) (ostree.pull_with_options remote url ref w) _ (λ _ _. tt))
  pull_metadata-Ensures parses url (some finders) ref c w h =
      found url finders (refspec_of remote ref) c w h

  -- What parse_latest_commit has read of the ref's commit.
  abbrev ReadOf : String → Parsed → W → Type 0
  ReadOf ref p w =
      (ostree.resolve_rev (refspec_of remote ref) w ≡ ok p.checksum)
      × (p.redirect_followed ≡ is_some (target_at ref p.checksum w))
      × (p.new_refspec ≡ refspec_of remote (or_ref ref (target_at ref p.checksum w)))

  parse_latest_commit-Ensures :
      Parses
      → (wanted : Bool) (ref : String) (w : W)
      → Ensures (ReadOf ref) (parse_latest_commit ostree wanted (refspec_of remote ref) w)
  unfolding parse_latest_commit
  parse_latest_commit-Ensures parses wanted ref w = parse_Ensures (ReadOf ref) parses ref w _ (
      look_up-Ensures (ReadOf ref) (ostree.resolve_rev (refspec_of remote ref) w) w _ (λ checksum e.
        look_up-Ensures (ReadOf ref) (ostree.remote_collection_id remote w) w _
          (λ id _. (e, refl, refl))))

  Asked-later :
      (finders : Option (List Finder)) (c d : Option CollectionRef)
      → Asked finders d
      → Asked finders (or_else c d)
  Asked-later none c d h = tt
  Asked-later (some f) (some x) d h = refl
  Asked-later (some f) none d h = h

  -- The end of a round, with what is known of the rounds that may follow.
  round-Ensures :
      (rank : String → ℕ) (fuel : ℕ) (url : Option String) (finders : Option (List Finder))
      (results : Option (List Opaque)) (ref : String) (c : Option CollectionRef) (w : W)
      → ((target : String) (d : Option CollectionRef)
          → rank target < fuel
          → Asked finders d
          → Ensures Settled (
              fetch_loop ostree fuel url finders
                (record { refspec = refspec_of remote target; collection_ref = d })
                w))
      → Asked finders c
      → (followed : Bool) (checksum refspec : String) (d : Option CollectionRef)
        (version template target : Option String)
      → ((t : String) → target ≡ some t → rank t < fuel)
      → target_at ref checksum w ≡ target
      → ostree.resolve_rev (refspec_of remote ref) w ≡ ok checksum
      → followed ≡ is_some target
      → refspec ≡ refspec_of remote (or_ref ref target)
      → Ensures Settled (elim followed [
        | true ↦
            fetch_loop ostree fuel url finders
              (record { refspec = refspec; collection_ref = or_else d c })
              w
        | false ↦
            finished
              (ok (record {
                results = results;
                checksum = checksum;
                new_refspec = refspec;
                version = version;
                release_notes_uri_template = template;
              }))
              w
      ])
  round-Ensures rank fuel url finders results ref c w later h followed checksum refspec d version
        template none lt t e f g =
      rw f (ref, g, e, t)
  round-Ensures rank fuel url finders results ref c w later h followed checksum refspec d version
        template (some target) lt t e f g =
      rw (f, g) (later target (or_else d c) (lt target refl) (Asked-later finders d c h))

  fetch_loop-Ensures :
      Parses
      → (rank : String → ℕ) → Falls rank
      → (fuel : ℕ) (url : Option String) (finders : Option (List Finder)) (ref : String)
        (c : Option CollectionRef) (w : W)
      → rank ref < fuel
      → Asked finders c
      → Ensures Settled (
          fetch_loop ostree fuel url finders
            (record { refspec = refspec_of remote ref; collection_ref = c })
            w)
  unfolding fetch_loop
  fetch_loop-Ensures parses rank falls zero url finders ref c w lt h = absurd (omega arith)
  fetch_loop-Ensures parses rank falls (suc fuel) url finders ref c w lt h =
      >>ᵣ-Ensures (λ _ _. Unit) Settled _ _ (pull_metadata-Ensures parses url finders ref c w h)
        (λ results w _.
          >>ᵣ-Ensures (ReadOf ref) Settled _ _
            (parse_latest_commit-Ensures parses (is_some finders) ref w)
            (λ p w read.
              round-Ensures rank fuel url finders results ref c w
                (λ target d lt' h'.
                  fetch_loop-Ensures parses rank falls fuel url finders target d w lt' h')
                h p.redirect_followed p.checksum p.new_refspec p.new_collection_ref p.version
                p.release_notes_uri_template (target_at ref p.checksum w)
                (λ t e. let d = falls ref p.checksum t w read.0 e in omega arith) refl read.0 read.1
                read.2))

  -- Where every redirection lowers the rank of the ref, a fuel above the rank of the first ref is
  -- enough: no assertion fails, and it returns an error, or the checksum that a ref of the same
  -- remote has at the end, whose commit is not redirected to another ref.
  pub fetch_latest_commit-Ensures :
      Parses
      → (rank : String → ℕ) → Falls rank
      → (fuel : ℕ) (url : Option String) (finders : Option (List Finder)) (ref : String)
        (c : Option CollectionRef) (w : W)
      → rank ref < fuel
      → Ensures Settled (fetch_latest_commit ostree fuel url finders (refspec_of remote ref) c w)
  unfolding fetch_latest_commit
  fetch_latest_commit-Ensures parses rank falls fuel url none ref c w lt =
      fetch_loop-Ensures parses rank falls fuel url none ref c w lt tt
  fetch_latest_commit-Ensures parses rank falls fuel url (some f) ref none w lt = tt
  fetch_latest_commit-Ensures parses rank falls fuel url (some f) ref (some c) w lt =
      fetch_loop-Ensures parses rank falls fuel url (some f) ref (some c) w lt refl
