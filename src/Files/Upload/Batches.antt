-- ===== src/Files/Upload/Batches.antt =====
-- FileUpload.tsx: the loop over the batches ends, and settles everything that it posts.
use mathlib.Core.Path.{subst}
use mathlib.Core.List.{append_assoc, append-nil}
use xp_panel.Shared.{
  ℕ, zero, suc, ◌*◌, ◌≤◌, ◌<◌, ◌≡◌, refl, sym, ap, ◌∙◌, Bool, true, false, ◌||◌, List, [], ◌∷◌,
  ◌++◌, map, take, drop, length, All, length-drop, length-map, arith, All-map, if◌then◌else◌,
}
use xp_panel.Files.Upload.{
  FileStatus, sending, done, error, FileState, Upload, is_pending, is_settled, has_file, marked,
  mark, next_batch, answer, UploadEvent, succeeds, fails, upload_step, upload_run,
}

abbrev pub flat : List (List ℕ) → List ℕ
flat [] = []
flat (b ∷ bs) = b ++ flat bs

-- The answers of the endpoint, as events.
abbrev pub answers : List Bool → List UploadEvent
answers bs = map (λ b. if b then succeeds else fails) bs

-- No file is on its way.
abbrev pub IsResting : Upload → Type 0
IsResting u =
    (u.uploading ≡ false) × All (λ f. (is_pending f.status || is_settled f.status) ≡ true) u.files

flat-append : (l : List (List ℕ)) (b : List ℕ) → flat (l ++ b ∷ []) ≡ flat l ++ b
flat-append [] b = append-nil b
flat-append (c ∷ l) b = ap (λ m. c ++ m) (flat-append l b) ∙ sym (append_assoc c (flat l) b)

take-drop : (n : ℕ) (l : List ℕ) → take n l ++ drop n l ≡ l
take-drop zero l = refl
take-drop (suc n) [] = refl
take-drop (suc n) (x ∷ l) = ap (λ m. x ∷ m) (take-drop n l)

has_file-append : (a b : List ℕ) (f : ℕ) → has_file (a ++ b) f ≡ (has_file a f || has_file b f)
has_file-append [] b f = refl
has_file-append (g ∷ a) b f = ground (arith, has_file-append a b f)

-- The file is settled, or still to be answered: it is in the list.
unfoldable pub Covered : List ℕ → FileState → Type 0
Covered l f = (is_settled f.status || has_file l f.file) ≡ true

settled_covers :
    (batch rest : List ℕ) (status : FileStatus) (f : FileState)
    → is_settled status ≡ true
    → Covered (batch ++ rest) f
    → Covered rest (marked batch status f)
unfolding Covered is_settled
settled_covers batch rest status f s h = ground (arith, has_file-append batch rest f.file)

sent_covers :
    (batch rest : List ℕ) (f : FileState)
    → Covered (batch ++ rest) f
    → Covered (batch ++ rest) (marked batch sending f)
unfolding Covered is_settled
sent_covers batch rest f h = ground (arith, has_file-append batch rest f.file)

All-mark :
    (P Q : FileState → Type 0) (batch : List ℕ) (status : FileStatus)
    → ((f : FileState) → P f → Q (marked batch status f))
    → (fs : List FileState) → All P fs
    → All Q (mark batch status fs)
unfolding mark
All-mark P Q batch status k [] h = tt
All-mark P Q batch status k (f ∷ fs) h = (k f h.0, All-mark P Q batch status k fs h.1)

-- The call has ended, and all that it had to post is posted and settled.
pub record IsFinished (total : List ℕ) (u : Upload) : Type 0 where
  pub ended : u.uploading ≡ false
  pub settled : All (λ f. is_settled f.status ≡ true) u.files
  pub complete : flat u.posted ≡ total
  pub some_files : 0 < length u.files

idle_step :
    (b : Bool) (u : Upload)
    → u.uploading ≡ false
    → upload_step (if b then succeeds else fails) u ≡ u
unfolding upload_step
idle_step true u h = ground arith
idle_step false u h = ground arith

idle_run : (bs : List Bool) (u : Upload) → u.uploading ≡ false → upload_run (answers bs) u ≡ u
unfolding upload_run
idle_run [] u h = refl
idle_run (b ∷ bs) u h = ap (upload_run (answers bs)) (idle_step b u h) ∙ idle_run bs u h

status_of : Bool → FileStatus
status_of b = if b then done else error

step-answer :
    (a : Bool) (u : Upload)
    → u.uploading ≡ true
    → upload_step (if a then succeeds else fails) u ≡ answer (status_of a) u
unfolding upload_step status_of
step-answer true u h = rw h refl
step-answer false u h = rw h refl

status_settled : (a : Bool) → is_settled (status_of a) ≡ true
unfolding is_settled status_of
status_settled true = refl
status_settled false = refl

none_left : (f : FileState) → Covered [] f → is_settled f.status ≡ true
unfolding Covered
none_left f h = ground arith

length-mark :
    (batch : List ℕ) (status : FileStatus) (fs : List FileState)
    → length (mark batch status fs) ≡ length fs
unfolding mark
length-mark batch status fs = length-map (marked batch status) fs

pub finish :
    (total : List ℕ) (bs : List Bool) (l : List ℕ) (u : Upload)
    → u.uploading ≡ true
    → All (Covered l) u.files
    → flat u.posted ++ l ≡ total
    → length l ≤ 5 * length bs
    → 0 < length u.files
    → IsFinished total (upload_run (answers bs) (next_batch l u))
unfolding next_batch answer upload_run
finish total bs [] u on c s n k = rw (idle_run bs (next_batch [] u) refl) (record {
  ended = refl;
  settled = All-map none_left u.files c;
  complete = sym (append-nil (flat u.posted)) ∙ s;
  some_files = k;
})
finish total [] (x ∷ xs) u on c s n k = absurd (omega arith)
finish total (a ∷ bs) (x ∷ xs) u on c s n k =
    let l = x ∷ xs in
    let sent = mark (take 5 l) sending u.files in
    let v = next_batch l u in
    subst (λ w. IsFinished total (upload_run (answers bs) w)) (sym (step-answer a v on))
      (finish total bs (drop 5 l) (record v { files = mark (take 5 l) (status_of a) sent }) on
        (All-mark (Covered (take 5 l ++ drop 5 l)) (Covered (drop 5 l)) (take 5 l) (status_of a)
          (λ f. settled_covers (take 5 l) (drop 5 l) (status_of a) f (status_settled a)) sent
          (All-mark (Covered (take 5 l ++ drop 5 l)) (Covered (take 5 l ++ drop 5 l)) (take 5 l)
            sending (sent_covers (take 5 l) (drop 5 l)) u.files
            (subst (λ m. All (Covered m) u.files) (sym (take-drop 5 l)) c)))
        (ap (λ m. m ++ drop 5 l) (flat-append u.posted (take 5 l))
          ∙ append_assoc (flat u.posted) (take 5 l) (drop 5 l)
          ∙ ap (λ m. flat u.posted ++ m) (take-drop 5 l)
          ∙ s)
        (omega (arith, length-drop 5 l))
        (omega (
          arith,
          length-mark (take 5 l) (status_of a) sent,
          length-mark (take 5 l) sending u.files,
        )))
