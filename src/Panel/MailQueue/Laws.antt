-- ===== src/Panel/MailQueue/Laws.antt =====
-- email/queue/page.tsx: when the queue is cleared.
use xp_panel.Shared.{◌≡◌, ◌<◌, ltb, true, false, not, ◌&&◌, List, All, arith, if_split}
use xp_panel.Api.Hosting.{MailCall, delete_queue}
use xp_panel.Panel.Runs.{PageEffect, OfCalls}
use xp_panel.Panel.MailQueue.{
  QueuePage, QueueEvent, loads, refreshes, flushes, clears, deletes, flushed, cleared, deleted,
  queue_step,
}

-- What is asked where the page shows so many messages: everything is dropped only where there are some, and while no such request runs.
abbrev pub IsQueueCall : QueuePage → MailCall → Type 0
IsQueueCall p delete_queue = (0 < p.total) × (p.clearing ≡ false)
IsQueueCall p c = Unit

-- Each event on the page of the mail queue asks to drop all messages only where some are shown and no such request runs already.
pub queue_step-IsQueueCall :
    (e : QueueEvent) (p : QueuePage) → All (OfCalls (IsQueueCall p)) (queue_step e p).1
unfolding queue_step
queue_step-IsQueueCall (loads n) p = tt
queue_step-IsQueueCall refreshes p = (tt, tt)
queue_step-IsQueueCall flushes p =
    if_split {A = QueuePage × List (PageEffect MailCall)} (λ r. All (OfCalls (IsQueueCall p)) r.1)
      p.flushing _ _ (λ e. tt) (λ e. (tt, tt))
queue_step-IsQueueCall clears p =
    if_split {A = QueuePage × List (PageEffect MailCall)} (λ r. All (OfCalls (IsQueueCall p)) r.1)
      (ltb 0 p.total && not p.clearing) _ _ (λ e. ((ground arith, ground arith), tt)) (λ e. tt)
queue_step-IsQueueCall (deletes i) p = (tt, tt)
queue_step-IsQueueCall (flushed true) p = (tt, (tt, tt))
queue_step-IsQueueCall (flushed false) p = (tt, tt)
queue_step-IsQueueCall (cleared true) p = (tt, (tt, tt))
queue_step-IsQueueCall (cleared false) p = (tt, tt)
queue_step-IsQueueCall (deleted true) p = (tt, (tt, tt))
queue_step-IsQueueCall (deleted false) p = tt
