-- ===== src/Fetch/Permitted.antt =====
-- eos-updater/fetch.c: the loop of check_scheduler waits for a permission.
use eos_updater.Fetch.{
  idle, invalidated, timeout, cancel, notify_download_now, cancel, invalidated, timeout, react,
  is_waiting, notify_download_now, Waiting, wait_loop, Event,
}
use eos_updater.Prelude.{
  ltb, Any, List, [], ◌∷◌, true, false, some, Bool, ℕ, ◌≡◌, ◌⊎◌, inl, inr, refl, arith, Bool-cases,
}

-- The entry permits the download at once, or comes to permit it while check_scheduler waits.
abbrev pub IsPermitted : Bool → List Event → Type 0
IsPermitted download_now events =
    (download_now ≡ true) ⊎ Any (λ e. e ≡ notify_download_now true) events

pub wait_loop-IsPermitted :
    (seconds : ℕ) (events : List Event) (v w : Waiting)
    → wait_loop seconds events v ≡ some w
    → w.download_now ≡ true
    → IsPermitted v.download_now events
unfolding wait_loop
wait_loop-IsPermitted seconds [] v w h p = elim (Bool-cases (is_waiting v)) [
  | inl t ↦ absurd (ground arith)
  | inr t ↦ inl (ground arith)
]
wait_loop-IsPermitted seconds (e ∷ l) v w h p = elim (Bool-cases (is_waiting v)) [
  | inl t ↦ now e (wait_loop-IsPermitted seconds l (react seconds e v) w (ground arith) p)
  | inr t ↦ inl (ground arith)
]
  where
    now :
        (e : Event)
        → IsPermitted (react seconds e v).download_now l
        → IsPermitted v.download_now (e ∷ l)
    now e (inr a) = inr (inr a)
    now (notify_download_now true) (inl b) = inr (inl refl)
    now (notify_download_now false) (inl b) = cc
    now timeout (inl b) =
        inl (elim (Bool-cases (ltb 0 seconds)) [ inl t ↦ ground arith | inr t ↦ ground arith ])
    now invalidated (inl b) = inl b
    now cancel (inl b) = inl b
    now idle (inl b) = inl b
