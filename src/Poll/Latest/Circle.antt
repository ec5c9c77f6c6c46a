-- ===== src/Poll/Latest/Circle.antt =====
-- eos-updater/poll-common.c: the loop of fetch_latest_commit does not end on a circle of
-- redirections.
use eos_updater.Run.{unfinished}
use eos_updater.Poll.Latest.Ends.{target_at}
use eos_updater.Poll.Latest.{
  parse_latest_commit, CollectionRef, pull_metadata, fetch_loop, refspec_of, fetch_latest_commit,
  Ostree,
}
use eos_updater.Prelude.{none, some, Option, String, ℕ, zero, suc, ◌≡◌, refl}
use eos_updater.Errors.{ok}

module _ {W : Type 0} (ostree : Ostree W) (remote : String) where
  -- The ref is at hand at any time, and its commit is redirected to `target`.
  abbrev pub Redirects : String → String → Type 0
  Redirects ref target =
      (ostree.parse_refspec (refspec_of remote ref) ≡ ok (some remote, ref))
      × ((url : Option String) (w : W)
          → (v : W) × (ostree.pull_with_options remote url ref w ≡ (ok tt, v)))
      × ((w : W)
          → (checksum : String) × (id : Option String) × (ostree.resolve_rev (refspec_of remote ref)
                w
              ≡ ok checksum)
            × (ostree.remote_collection_id remote w ≡ ok id)
            × (target_at ostree remote ref checksum w ≡ some target))

  circle-step :
      (fuel : ℕ) (url : Option String) (a b : String) (c : Option CollectionRef) (w : W)
      → Redirects a b
      → ((d : Option CollectionRef) (v : W)
          → fetch_loop ostree fuel url none
              (record { refspec = refspec_of remote b; collection_ref = d })
              v
            ≡ unfinished)
      → fetch_loop ostree
          (suc fuel)
          url
          none
          (record { refspec = refspec_of remote a; collection_ref = c })
          w
        ≡ unfinished
  unfolding fetch_loop pull_metadata parse_latest_commit
  circle-step fuel url a b c w r later =
      let (v, pulled) = r.1 url w in
      let (checksum, id, resolved, collection, redirected) = r.2 v in
      rw (r.0, pulled, resolved, collection, redirected) (later _ _)

  circle-loop :
      (fuel : ℕ) (url : Option String) (a b : String)
      → Redirects a b
      → Redirects b a
      → (c : Option CollectionRef) (w : W)
      → fetch_loop ostree fuel url none
          (record { refspec = refspec_of remote a; collection_ref = c })
          w
        ≡ unfinished
  unfolding fetch_loop
  circle-loop zero url a b r q c w = refl
  circle-loop (suc fuel) url a b r q c w =
      circle-step fuel url a b c w r (λ d v. circle-loop fuel url b a q r d v)

  -- Two refs at the remote that are redirected to each other: however many rounds are allowed, the
  -- loop has not ended. Only a redirection of a ref to itself is noticed.
  pub fetch_latest_commit_circle :
      (a b : String)
      → Redirects a b
      → Redirects b a
      → (fuel : ℕ) (url : Option String) (c : Option CollectionRef) (w : W)
      → fetch_latest_commit ostree fuel url none (refspec_of remote a) c w ≡ unfinished
  unfolding fetch_latest_commit
  fetch_latest_commit_circle a b r q fuel url c w = circle-loop fuel url a b r q c w
