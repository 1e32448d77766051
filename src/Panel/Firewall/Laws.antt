-- ===== src/Panel/Firewall/Laws.antt =====
-- security/firewall/page.tsx: what the page asks of the server.
use xp_panel.Shared.{◌≡◌, refl, ◌≢◌, Text, true, false, none, List, [], ◌∷◌, All}
use xp_panel.Api.Security.{
  SecurityCall, create_firewall_rule, delete_firewall_rule, block_ip, unblock_ip,
}
use xp_panel.Panel.Runs.{OfCalls, All-OfCalls, page_run, page_run-keeps}
use xp_panel.Panel.Dialog.Laws.{IsOrderly, IsAccepted, dialog_step-Keeps, first-IsOrderly}
use xp_panel.Panel.Firewall.{
  rule_of, add_rule, is_given, block_dialog, FirewallPage, firewall_page, FirewallEvent,
  firewall_step, picks_tab, in_add, in_block, deletes, unblocks, rule_deleted, ip_unblocked,
}

-- A rule has the priority 100 and no destination, and an address that is blocked is not empty.
abbrev pub IsFirewallCall : SecurityCall → Type 0
IsFirewallCall (create_firewall_rule d) = (d.priority ≡ 100) × (d.dest_ip ≡ none)
IsFirewallCall (block_ip d) = d.ip ≢ []
IsFirewallCall (delete_firewall_rule i) = Unit
IsFirewallCall (unblock_ip i) = Unit
IsFirewallCall c = ⊥

given : (s : Text) → is_given s ≡ true → s ≢ []
given [] h = absurd cc
given (c ∷ s) h = λ k. absurd cc

accepted_rule : (c : SecurityCall) → IsAccepted add_rule c → IsFirewallCall c
unfolding add_rule rule_of
accepted_rule c (f, e, h) = rw e (refl, refl)

accepted_block : (c : SecurityCall) → IsAccepted block_dialog c → IsFirewallCall c
unfolding block_dialog
accepted_block c (d, e, h) = rw e (given d.ip h)

pub record AreOrderly (p : FirewallPage) : Type 0 where
  pub first : IsOrderly p.add_dialog
  pub second : IsOrderly p.ip_dialog

firewall_step-Keeps :
    (e : FirewallEvent) (p : FirewallPage)
    → AreOrderly p
    → AreOrderly (firewall_step e p).0 × All (OfCalls IsFirewallCall) (firewall_step e p).1
unfolding firewall_step
firewall_step-Keeps (picks_tab t) p h = (record { first = h.first; second = h.second }, tt)
firewall_step-Keeps (in_add e) p h =
    let r = dialog_step-Keeps add_rule e p.add_dialog h.first in
    (record { first = r.0; second = h.second }, All-OfCalls accepted_rule _ r.1)
firewall_step-Keeps (in_block e) p h =
    let r = dialog_step-Keeps block_dialog e p.ip_dialog h.second in
    (record { first = h.first; second = r.0 }, All-OfCalls accepted_block _ r.1)
firewall_step-Keeps (deletes q false) p h = (h, tt)
firewall_step-Keeps (deletes q true) p h = (h, (tt, tt))
firewall_step-Keeps (unblocks q) p h = (h, (tt, tt))
firewall_step-Keeps (rule_deleted true) p h = (h, (tt, (tt, tt)))
firewall_step-Keeps (rule_deleted false) p h = (h, tt)
firewall_step-Keeps (ip_unblocked true) p h = (h, (tt, (tt, tt)))
firewall_step-Keeps (ip_unblocked false) p h = (h, tt)

-- Whatever is done on the firewall page from its first state on, each rule it makes has the priority 100 and no destination, each address it blocks is not empty, and all else that is asked is to delete a rule or to unblock an address.
pub firewall_run-IsFirewallCall :
    (es : List FirewallEvent)
    → All (OfCalls IsFirewallCall) (page_run firewall_step es firewall_page).1
firewall_run-IsFirewallCall es =
    (page_run-keeps firewall_step AreOrderly (OfCalls IsFirewallCall) firewall_step-Keeps es
      firewall_page (record { first = first-IsOrderly; second = first-IsOrderly })).1
