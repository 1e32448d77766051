-- ===== src/Panel/MailQueue.antt =====
-- apps/web/src/app/(panel)/email/queue/page.tsx: the waiting messages, and the buttons that send or drop them.
pub mod Laws
use xp_panel.Shared.{
  ℕ, zero, suc, ltb, Text, codes, Bool, true, false, not, ◌&&◌, ◌||◌, Option, none, some, List, [],
  ◌∷◌, if◌then◌else◌,
}
use xp_panel.Api.Hosting.{MailCall, list_queue, flush_queue, delete_queue, delete_entry}
use xp_panel.Panel.Runs.{PageEffect, calls, invalidates, tells_success, tells_error}
use xp_panel.Panel.Inline.{RowsView, rows_view}

-- `data?.total ?? 0` of the last answer, and whether the two buttons above the list wait for theirs.
pub record QueuePage : Type 0 where
  pub total : ℕ
  pub flushing : Bool
  pub clearing : Bool

abbrev pub queue_page : QueuePage
queue_page = record { total = 0; flushing = false; clearing = false }

pub data QueueEvent : Type 0 where
  loads : ℕ → QueueEvent
  refreshes flushes clears : QueueEvent
  deletes : Text → QueueEvent
  flushed cleared deleted : Bool → QueueEvent

-- The button that clears the queue is there while it is not empty; a failed deletion is not reported.
unfoldable pub queue_step : QueueEvent → QueuePage → QueuePage × List (PageEffect MailCall)
queue_step (loads n) p = (record p { total = n }, [])
queue_step refreshes p = (p, calls list_queue ∷ [])
queue_step flushes p =
    if p.flushing then (p, []) else (record p { flushing = true }, calls flush_queue ∷ [])
queue_step clears p =
    if ltb 0 p.total && not p.clearing
    then (record p { clearing = true }, calls delete_queue ∷ [])
    else (p, [])
queue_step (deletes i) p = (p, calls (delete_entry i) ∷ [])
queue_step (flushed true) p = (
  record p { flushing = false },
  invalidates (codes "mail-queue") ∷ tells_success (codes "Mail queue flushed") ∷ [],
)
queue_step (flushed false) p =
    (record p { flushing = false }, tells_error (codes "Flush failed") ∷ [])
queue_step (cleared true) p = (
  record p { clearing = false },
  invalidates (codes "mail-queue") ∷ tells_success (codes "Mail queue cleared") ∷ [],
)
queue_step (cleared false) p =
    (record p { clearing = false }, tells_error (codes "Failed to clear queue") ∷ [])
queue_step (deleted true) p =
    (p, invalidates (codes "mail-queue") ∷ tells_success (codes "Message removed") ∷ [])
queue_step (deleted false) p = (p, [])

pub record MailQueueEntry : Type 0 where
  pub id : Text
  pub size : Text
  pub date : Text
  pub sender : Text
  pub rcpt : Text
  pub status : Text

pub record QueueRow : Type 0 where
  pub row_id : Text
  pub row_sender : Text
  pub row_rcpt : Text
  pub row_size : Text

abbrev queue_row : MailQueueEntry → QueueRow
queue_row e = record { row_id = e.id; row_sender = e.sender; row_rcpt = e.rcpt; row_size = e.size }

abbrev pub queue_rows : Bool → Option (List MailQueueEntry) → RowsView QueueRow
queue_rows = rows_view queue_row

-- The warning beside the heading.
abbrev pub pending_count : ℕ → Option ℕ
pending_count zero = none
pending_count (suc n) = some (suc n)
