-- ===== src/Panel/Firewall.antt =====
-- apps/web/src/app/(panel)/security/firewall/page.tsx: the rules, the blocked addresses and the two dialogs.
pub mod Laws
use xp_panel.Shared.{
  ℕ, Text, codes, Bool, true, false, ◌&&◌, Option, none, some, List, [], ◌∷◌, ◌++◌, map, length,
  if◌then◌else◌, get_or,
}
use xp_panel.Api.Security.{
  Chain, RuleAction, input, drop, chain_name, rule_action_name, FirewallRule, BlockedIp, RuleInput,
  BlockInput, SecurityCall, create_firewall_rule, delete_firewall_rule, block_ip, unblock_ip,
}
use xp_panel.Panel.Runs.{PageEffect, calls, invalidates, tells_success}
use xp_panel.Panel.Dialog.{Dialog, DialogState, no_dialog, DialogEvent, dialog_step}

-- The inputs of the dialog of a rule: each text input holds a text, which may be empty.
pub record RuleForm : Type 0 where
  pub chain : Chain
  pub action : RuleAction
  pub protocol : Text
  pub source_ip : Text
  pub port_range : Text
  pub comment : Text

abbrev pub first_rule : RuleForm
first_rule = record {
  chain = input;
  action = drop;
  protocol = [];
  source_ip = [];
  port_range = [];
  comment = [];
}

-- What the form gives: the default priority has no input of its own.
unfoldable pub rule_of : RuleForm → RuleInput
rule_of f = record {
  chain = f.chain;
  action = f.action;
  protocol = some f.protocol;
  source_ip = some f.source_ip;
  dest_ip = none;
  port_range = some f.port_range;
  priority = 100;
  comment = some f.comment;
}

unfoldable pub add_rule : Dialog RuleForm SecurityCall
unfolding rule_of
add_rule = record {
  accepts = λ f. true;
  request = λ f. create_firewall_rule (rule_of f);
  key = codes "firewall-rules";
  success = codes "Rule created";
  failure = codes "Failed to create rule";
}

abbrev pub is_given : Text → Bool
is_given [] = false
is_given (c ∷ s) = true

unfoldable pub block_dialog : Dialog BlockInput SecurityCall
block_dialog = record {
  accepts = λ d. is_given d.ip;
  request = block_ip;
  key = codes "ip-blocklist";
  success = codes "IP blocked";
  failure = codes "Failed to block IP";
}

pub data FirewallTab : Type 0 where
  rules_tab blocklist_tab : FirewallTab

pub record FirewallPage : Type 0 where
  pub tab : FirewallTab
  pub add_dialog : DialogState
  pub ip_dialog : DialogState

abbrev pub firewall_page : FirewallPage
firewall_page = record { tab = rules_tab; add_dialog = no_dialog; ip_dialog = no_dialog }

pub data FirewallEvent : Type 0 where
  picks_tab : FirewallTab → FirewallEvent
  in_add : DialogEvent RuleForm → FirewallEvent
  in_block : DialogEvent BlockInput → FirewallEvent
  deletes : FirewallRule → Bool → FirewallEvent
  unblocks : BlockedIp → FirewallEvent
  rule_deleted ip_unblocked : Bool → FirewallEvent

unfoldable pub firewall_step :
    FirewallEvent → FirewallPage → FirewallPage × List (PageEffect SecurityCall)
unfolding add_rule block_dialog dialog_step
firewall_step (picks_tab t) p = (record p { tab = t }, [])
firewall_step (in_add e) p =
    let r = dialog_step add_rule e p.add_dialog in (record p { add_dialog = r.0 }, r.1)
firewall_step (in_block e) p =
    let r = dialog_step block_dialog e p.ip_dialog in (record p { ip_dialog = r.0 }, r.1)
firewall_step (deletes q false) p = (p, [])
firewall_step (deletes q true) p = (p, calls (delete_firewall_rule q.id) ∷ [])
firewall_step (unblocks q) p = (p, calls (unblock_ip q.id) ∷ [])
firewall_step (rule_deleted true) p =
    (p, invalidates (codes "firewall-rules") ∷ tells_success (codes "Rule deleted") ∷ [])
firewall_step (rule_deleted false) p = (p, [])
firewall_step (ip_unblocked true) p =
    (p, invalidates (codes "ip-blocklist") ∷ tells_success (codes "IP unblocked") ∷ [])
firewall_step (ip_unblocked false) p = (p, [])

-- The rows of the two tables.
pub record RuleRow : Type 0 where
  pub row_chain : Text
  pub row_action : Text
  pub row_protocol : Text
  pub row_source : Text
  pub row_port : Text
  pub row_priority : ℕ

abbrev pub rule_row : FirewallRule → RuleRow
rule_row r = record {
  row_chain = chain_name r.chain;
  row_action = rule_action_name r.action;
  row_protocol = get_or r.protocol (codes "all");
  row_source = get_or r.source_ip (codes "any");
  row_port = get_or r.port_range (codes "—");
  row_priority = r.priority;
}

pub record BlockRow : Type 0 where
  pub row_ip : Text
  pub row_reason : Text
  pub row_expires : Text

abbrev expires_text : (Text → Text) → Option Text → Text
expires_text date_text none = codes "Never"
expires_text date_text (some []) = codes "Never"
expires_text date_text (some (c ∷ s)) = date_text (c ∷ s)

abbrev pub block_row : (Text → Text) → BlockedIp → BlockRow
block_row date_text e = record {
  row_ip = e.ip;
  row_reason = get_or e.reason (codes "—");
  row_expires = expires_text date_text e.expires_at;
}

pub data FirewallTable : Type 0 where
  loading no_rules no_blocks : FirewallTable
  rule_rows : List RuleRow → FirewallTable
  block_rows : List BlockRow → FirewallTable

abbrev rules_table : List FirewallRule → FirewallTable
rules_table [] = no_rules
rules_table (r ∷ rs) = rule_rows (map rule_row (r ∷ rs))

abbrev blocks_table : (Text → Text) → List BlockedIp → FirewallTable
blocks_table date_text [] = no_blocks
blocks_table date_text (e ∷ es) = block_rows (map (block_row date_text) (e ∷ es))

-- The numbers on the tabs, and the table of the tab that is shown.
pub record FirewallView : Type 0 where
  pub rule_count : ℕ
  pub block_count : ℕ
  pub table : FirewallTable

abbrev shown_table :
    (Text → Text)
    → FirewallTab
    → Option (List FirewallRule)
    → Option (List BlockedIp)
    → Bool
    → Bool
    → FirewallTable
shown_table date_text rules_tab rules blocks true loading_blocks = loading
shown_table date_text rules_tab rules blocks false loading_blocks = rules_table (get_or rules [])
shown_table date_text blocklist_tab rules blocks loading_rules true = loading
shown_table date_text blocklist_tab rules blocks loading_rules false =
    blocks_table date_text (get_or blocks [])

unfoldable pub firewall_view :
    (Text → Text)
    → FirewallTab
    → Option (List FirewallRule)
    → Option (List BlockedIp)
    → Bool
    → Bool
    → FirewallView
firewall_view date_text t rules blocks loading_rules loading_blocks = record {
  rule_count = length (get_or rules []);
  block_count = length (get_or blocks []);
  table = shown_table date_text t rules blocks loading_rules loading_blocks;
}
