-- ===== src/Autoupdater/Results/Laws.antt =====
-- eos-autoupdater/main.c: what is read back of the poll results, and when their time changes.
use eos_updater.Prelude.{
  none, Bool-cases, inr, inl, str_equal_iff, if◌then◌else◌, refl, arith, Option-cases, true, some,
  ◌≡◌,
}
use eos_updater.Autoupdater.Results.{
  store_new, poll_results_new, new_results, lookup, PollFile, same_update, Proxy,
  write_poll_results_file, read_poll_results_file, update_poll_results, Moment, PollResults,
}

-- Results that could be written are read back as they were, whatever the file held.
read-write :
    (r : PollResults) (file : PollFile)
    → read_poll_results_file (write_poll_results_file true r file) ≡ some r
unfolding read_poll_results_file write_poll_results_file lookup poll_results_new
read-write r file = refl

same_update_refl : (r : PollResults) → same_update r r ≡ true
same_update_refl r =
    ground (
      arith,
      str_equal_iff r.update_refspec r.update_refspec,
      str_equal_iff r.update_id r.update_id,
    )

same_update_of_same :
    (a b c : PollResults) → same_update a b ≡ true → same_update a c ≡ same_update b c
same_update_of_same a b c h =
    ground (
      arith,
      str_equal_iff a.update_refspec b.update_refspec,
      str_equal_iff a.update_id b.update_id,
    )

again_of_read :
    (m : Moment) (p : Proxy) (file : PollFile) (old : PollResults)
    → read_poll_results_file file ≡ some old
    → update_poll_results m p file
      ≡ (if same_update old (new_results m p) then (old, file) else store_new m p file)
unfolding update_poll_results
again_of_read m p file old found = rw (found, update_poll_results) refl

new_of_unread :
    (m : Moment) (p : Proxy) (file : PollFile)
    → read_poll_results_file file ≡ none
    → update_poll_results m p file ≡ store_new m p file
unfolding update_poll_results
new_of_unread m p file unread = rw (unread, update_poll_results) refl

-- In use are results with the daemon's refspec and id.
update_poll_results-same :
    (m : Moment) (p : Proxy) (file : PollFile)
    → same_update (update_poll_results m p file).0 (new_results m p) ≡ true
update_poll_results-same m p file = elim (Option-cases (read_poll_results_file file)) [
  | inl unread ↦ rw (new_of_unread m p file unread) (same_update_refl (new_results m p))
  | inr (old, found) ↦ elim (Bool-cases (same_update old (new_results m p))) [
    | inl same ↦ rw (again_of_read m p file old found, same) same
    | inr changed ↦
        rw (again_of_read m p file old found, changed) (same_update_refl (new_results m p))
  ]
]

stored_or_kept :
    (m : Moment) (p : Proxy) (file : PollFile)
    → m.writable ≡ true
    → read_poll_results_file (update_poll_results m p file).1
      ≡ some (update_poll_results m p file).0
stored_or_kept m p file writable = elim (Option-cases (read_poll_results_file file)) [
  | inl unread ↦ rw (new_of_unread m p file unread, writable) (read-write (new_results m p) file)
  | inr (old, found) ↦ elim (Bool-cases (same_update old (new_results m p))) [
    | inl same ↦ rw (again_of_read m p file old found, same) found
    | inr changed ↦
        rw (again_of_read m p file old found, changed, writable) (read-write (new_results m p) file)
  ]
]

-- After a poll whose results could be written if they had to be, a later poll keeps those
-- results, with their time, and the file, if it finds the same refspec and id; otherwise its own
-- results are stored, with the time of the later poll.
pub update_poll_results-again :
    (m m' : Moment) (p p' : Proxy) (file : PollFile)
    → m.writable ≡ true
    → update_poll_results m' p' (update_poll_results m p file).1 ≡ (
        if same_update (new_results m p) (new_results m' p')
        then update_poll_results m p file
        else (
          new_results m' p',
          write_poll_results_file m'.writable (new_results m' p') (update_poll_results m p file).1,
        ))
update_poll_results-again m m' p p' file writable =
    rw
      (
        again_of_read m' p' (update_poll_results m p file).1 (update_poll_results m p file).0
            (stored_or_kept m p file writable),
        same_update_of_same (update_poll_results m p file).0 (new_results m p) (new_results m' p')
            (update_poll_results-same m p file),
      )
      refl
