-- ===== src/Files/Upload.antt =====
-- apps/web/src/components/files/FileUpload.tsx: the upload dialog. A File object is its identity; the
-- answers of the upload endpoint and the clicks are events, which arrive in any order. What the
-- running call of `upload` still has to do is part of the state.
pub mod Laws
pub mod Batches
use xp_panel.Shared.{
  ℕ, ◌==◌, Bool, true, false, not, ◌||◌, ◌&&◌, List, [], ◌∷◌, ◌++◌, map, take, drop, keep, any, all,
  length, ltb, if◌then◌else◌,
}

pub data FileStatus : Type 0 where
  pending sending done error : FileStatus

pub record FileState : Type 0 where
  pub file : ℕ
  pub status : FileStatus

-- The last three fields are the loop of `upload`: the batch that is on its way, the files after it,
-- and the batches that were posted.
pub record Upload : Type 0 where
  pub files : List FileState
  pub dragging : Bool
  pub uploading : Bool
  pub batch : List ℕ
  pub rest : List ℕ
  pub posted : List (List ℕ)

abbrev pub no_files : Upload
no_files = record {
  files = [];
  dragging = false;
  uploading = false;
  batch = [];
  rest = [];
  posted = [];
}

unfoldable pub is_pending : FileStatus → Bool
is_pending pending = true
is_pending sending = false
is_pending done = false
is_pending error = false

unfoldable pub is_settled : FileStatus → Bool
is_settled pending = false
is_settled sending = false
is_settled done = true
is_settled error = true

-- `list.includes(file)`.
abbrev pub has_file : List ℕ → ℕ → Bool
has_file l f = any (λ g. g == f) l

unfoldable pub add_files : List ℕ → Upload → Upload
add_files new u = record u {
  files = u.files ++ map (λ f. record { file = f; status = pending }) new;
}

abbrev pub marked : List ℕ → FileStatus → FileState → FileState
marked batch status f = if has_file batch f.file then record f { status = status } else f

-- The `setFiles` calls of the loop.
unfoldable pub mark : List ℕ → FileStatus → List FileState → List FileState
mark batch status fs = map (marked batch status) fs

unfoldable pub pending_files : List FileState → List ℕ
unfolding is_pending
pending_files fs = map (λ f. f.file) (keep (λ f. is_pending f.status) fs)

-- The head of the loop: the next batch is posted, or the call ends.
unfoldable pub next_batch : List ℕ → Upload → Upload
unfolding mark
next_batch [] u = record u { uploading = false; batch = []; rest = [] }
next_batch (f ∷ fs) u = record u {
  files = mark (take 5 (f ∷ fs)) sending u.files;
  batch = take 5 (f ∷ fs);
  rest = drop 5 (f ∷ fs);
  posted = u.posted ++ take 5 (f ∷ fs) ∷ [];
}

unfoldable pub upload_of : List FileState → Upload → Upload
unfolding next_batch pending_files
upload_of [] u = u
upload_of (f ∷ fs) u = next_batch (pending_files (f ∷ fs)) (record u { uploading = true })

unfoldable pub upload : Upload → Upload
unfolding upload_of
upload u = upload_of u.files u

-- The answer to the batch on its way.
unfoldable pub answer : FileStatus → Upload → Upload
unfolding next_batch mark
answer status u = next_batch u.rest (record u { files = mark u.batch status u.files })

unfoldable pub all_done : Upload → Bool
unfolding is_settled
all_done u = ltb 0 (length u.files) && all (λ f. is_settled f.status) u.files

unfoldable pub pending_count : Upload → ℕ
unfolding is_pending
pending_count u = length (keep (λ f. is_pending f.status) u.files)

pub data UploadEvent : Type 0 where
  drags_over drags_out : UploadEvent
  drops chooses : List ℕ → UploadEvent
  clicks_upload clicks_clear : UploadEvent
  succeeds fails : UploadEvent

-- The buttons act where they are shown and enabled; an answer comes while a call runs.
unfoldable pub upload_step : UploadEvent → Upload → Upload
unfolding add_files upload answer
upload_step drags_over u = record u { dragging = true }
upload_step drags_out u = record u { dragging = false }
upload_step (drops new) u = add_files new (record u { dragging = false })
upload_step (chooses new) u = add_files new u
upload_step clicks_upload u =
    if all_done u || u.uploading || pending_count u == 0 then u else upload u
upload_step clicks_clear u = if all_done u then u else record u { files = [] }
upload_step succeeds u = if u.uploading then answer done u else u
upload_step fails u = if u.uploading then answer error u else u

unfoldable pub upload_run : List UploadEvent → Upload → Upload
upload_run [] u = u
upload_run (e ∷ es) u = upload_run es (upload_step e u)
