-- ===== src/Files/Upload/Laws.antt =====
-- FileUpload.tsx: a call of `upload` ends, and everything that was pending is posted and settled.
use mathlib.Core.Path.{subst}
use xp_panel.Shared.{
  ℕ, ◌*◌, ◌≤◌, ◌<◌, ◌==◌, ◌≡◌, refl, sym, inl, inr, Bool, true, false, ◌||◌, ◌&&◌, List, [], ◌∷◌,
  ◌++◌, keep, all, length, All, length-map, length-keep-le, Bool-cases, arith, All-map,
}
use xp_panel.Files.Upload.{
  FileStatus, pending, sending, done, error, FileState, Upload, is_pending, is_settled,
  pending_files, next_batch, upload, upload_of, all_done, pending_count, clicks_upload, upload_step,
  upload_run,
}
use xp_panel.Files.Upload.Batches.{flat, answers, IsResting, Covered, IsFinished, finish}

cons-Covered : (g : ℕ) (l : List ℕ) (f : FileState) → Covered l f → Covered (g ∷ l) f
unfolding Covered
cons-Covered g l f h = ground arith

pending_first :
    (f : FileState) (fs : List FileState)
    → is_pending f.status ≡ true
    → pending_files (f ∷ fs) ≡ f.file ∷ pending_files fs
unfolding pending_files
pending_first f fs e = rw e refl

pending_later :
    (f : FileState) (fs : List FileState)
    → is_pending f.status ≡ false
    → pending_files (f ∷ fs) ≡ pending_files fs
unfolding pending_files
pending_later f fs e = rw e refl

self-Covered : (f : FileState) (l : List ℕ) → Covered (f.file ∷ l) f
unfolding Covered
self-Covered f l = ground arith

settled-Covered : (f : FileState) (l : List ℕ) → is_settled f.status ≡ true → Covered l f
unfolding Covered
settled-Covered f l h = rw h refl

pending_files-Covered :
    (fs : List FileState)
    → All (λ f. (is_pending f.status || is_settled f.status) ≡ true) fs
    → All (Covered (pending_files fs)) fs
pending_files-Covered [] h = tt
pending_files-Covered (f ∷ fs) h = elim (Bool-cases (is_pending f.status)) [
  | inl e ↦
      subst (λ l. All (Covered l) (f ∷ fs)) (sym (pending_first f fs e))
        (
          self-Covered f (pending_files fs),
          All-map (cons-Covered f.file (pending_files fs)) fs (pending_files-Covered fs h.1),
        )
  | inr e ↦
      subst (λ l. All (Covered l) (f ∷ fs)) (sym (pending_later f fs e))
        (settled-Covered f (pending_files fs) (ground arith), pending_files-Covered fs h.1)
]

unsettled : (s : FileStatus) → is_pending s ≡ true → is_settled s ≡ false
unfolding is_pending is_settled
unsettled pending e = refl
unsettled sending e = refl
unsettled done e = absurd cc
unsettled error e = absurd cc

and_false : (b : Bool) → (b && false) ≡ false
and_false b = ground arith

all_done-pending :
    (fs : List FileState)
    → 0 < length (keep (λ f. is_pending f.status) fs)
    → all (λ f. is_settled f.status) fs ≡ false
all_done-pending [] h = absurd (omega arith)
all_done-pending (f ∷ fs) h = elim (Bool-cases (is_pending f.status)) [
  | inl e ↦ rw (unsettled f.status e) refl
  | inr e ↦ rw (all_done-pending fs (rw e at h)) (and_false (is_settled f.status))
]

uploads :
    (fs : List FileState) (u : Upload)
    → 0 < length (keep (λ f. is_pending f.status) fs)
    → upload_of fs u ≡ next_batch (pending_files fs) (record u { uploading = true })
unfolding upload_of
uploads [] u h = absurd (omega arith)
uploads (f ∷ fs) u h = refl

click_uploads :
    (u : Upload)
    → u.uploading ≡ false
    → 0 < pending_count u
    → upload_step clicks_upload u
      ≡ next_batch (pending_files u.files) (record u { uploading = true })
unfolding upload_step upload pending_count all_done
click_uploads u idle some_pending =
    let busy : (all_done u || u.uploading || pending_count u == 0) ≡ false =
      ground (arith, all_done-pending u.files some_pending) in
    rw busy (uploads u.files u some_pending)

length-pending_files :
    (fs : List FileState) → length (pending_files fs) ≡ length (keep (λ f. is_pending f.status) fs)
unfolding pending_files
length-pending_files fs = length-map (λ f. f.file) (keep (λ f. is_pending f.status) fs)

all_settled :
    (fs : List FileState)
    → All (λ f. is_settled f.status ≡ true) fs
    → all (λ f. is_settled f.status) fs ≡ true
all_settled [] h = refl
all_settled (f ∷ fs) h = rw h.0 (all_settled fs h.1)

-- When a click starts the upload of a dialog without a running call, and as many answers come as there
-- are batches of five, whichever of them are failures, the call has ended, every file is settled as
-- done or as error, the dialog shows that all is done, and the pending files were posted, each once and
-- in order.
pub upload_completes :
    (bs : List Bool) (u : Upload)
    → IsResting u
    → 0 < pending_count u
    → pending_count u ≤ 5 * length bs
    → let v = upload_run (clicks_upload ∷ answers bs) u in
      (v.uploading ≡ false)
      × (all_done v ≡ true)
      × (flat v.posted ≡ flat u.posted ++ pending_files u.files)
unfolding upload_run pending_count all_done
upload_completes bs u resting some_pending enough =
    let started = click_uploads u resting.0 some_pending in
    let f =
      subst (λ w. IsFinished (flat u.posted ++ pending_files u.files) (upload_run (answers bs) w))
        (sym started)
        (finish (flat u.posted ++ pending_files u.files) bs (pending_files u.files)
          (record u { uploading = true }) refl (pending_files-Covered u.files resting.1) refl
          (omega (
            arith,
            length-pending_files u.files,
            length-keep-le (λ x. is_pending x.status) u.files,
          ))
          (omega (arith, length-keep-le (λ x. is_pending x.status) u.files))) in
    (f.ended, ground (arith, f.some_files, all_settled _ f.settled), f.complete)
