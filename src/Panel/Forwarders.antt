-- ===== src/Panel/Forwarders.antt =====
-- apps/web/src/app/(panel)/email/forwarders/page.tsx: the forwarders and the dialog of a new one.
pub mod Laws
use xp_panel.Shared.{
  ℕ, ◌==◌, Text, codes, Bool, true, false, not, ◌&&◌, ◌||◌, Option, none, some, List, [], ◌∷◌, map,
  keep, if◌then◌else◌, trim, is_empty, get_or,
}
use xp_panel.Api.Mail.{ForwarderInput, MailApiCall, create_forwarder, delete_forwarder}
use xp_panel.Panel.Runs.{PageEffect, calls, invalidates, tells_success, tells_error}
use xp_panel.Panel.Dialog.{Dialog, DialogState, no_dialog, DialogEvent, dialog_step}
use xp_panel.Panel.Inline.{RowsView, rows_view}

-- The pattern `[\n,]`.
abbrev pub is_separator : ℕ → Bool
is_separator c = c == 10 || c == 44

abbrev starts_separated : Text → Bool
starts_separated [] = false
starts_separated (c ∷ s) = is_separator c

-- `split(/[\n,]+/)`: the first part and the others; a run of separators counts once.
unfoldable pub split_parts : Text → Text × List Text
split_parts [] = ([], [])
split_parts (c ∷ s) =
    let rest = split_parts s in
    if is_separator c
    then (if starts_separated s then rest else ([], rest.0 ∷ rest.1))
    else (c ∷ rest.0, rest.1)

unfoldable pub destinations_of : Text → List Text
unfolding split_parts
destinations_of s =
    let parts = split_parts s in keep (λ t. not (is_empty t)) (map trim (parts.0 ∷ parts.1))

pub record ForwarderForm : Type 0 where
  pub source_local : Text
  pub source_domain : Text
  pub destinations : Text

-- The local part and the domain are required; the destinations are not.
unfoldable pub new_forwarder : Dialog ForwarderForm MailApiCall
unfolding destinations_of
new_forwarder = record {
  accepts = λ d. not (is_empty d.source_local) && not (is_empty d.source_domain);
  request = λ d. create_forwarder (record {
    source_local = d.source_local;
    source_domain = d.source_domain;
    destinations = destinations_of d.destinations;
  });
  key = codes "forwarders";
  success = codes "Forwarder created";
  failure = codes "Failed to create forwarder";
}

pub data ForwarderEvent : Type 0 where
  in_dialog : DialogEvent ForwarderForm → ForwarderEvent
  deletes : Text → Bool → ForwarderEvent
  deleted : Bool → ForwarderEvent

-- A deletion has the answer to its question.
unfoldable pub forwarder_step :
    ForwarderEvent → DialogState → DialogState × List (PageEffect MailApiCall)
unfolding new_forwarder dialog_step
forwarder_step (in_dialog e) s = dialog_step new_forwarder e s
forwarder_step (deletes i ok) s = (s, if ok then calls (delete_forwarder i) ∷ [] else [])
forwarder_step (deleted true) s =
    (s, invalidates (codes "forwarders") ∷ tells_success (codes "Forwarder deleted") ∷ [])
forwarder_step (deleted false) s = (s, tells_error (codes "Failed to delete forwarder") ∷ [])

pub record Forwarder : Type 0 where
  pub id : Text
  pub organization_id : Text
  pub source_local : Text
  pub source_domain : Text
  pub source : Text
  pub destinations : List Text
  pub active : Bool
  pub created_at : Text
  pub updated_at : Text

pub record ForwarderRow : Type 0 where
  pub row_source : Text
  pub row_destinations : List Text

abbrev forwarder_row : Forwarder → ForwarderRow
forwarder_row f = record { row_source = f.source; row_destinations = f.destinations }

abbrev pub forwarder_rows : Bool → Option (List Forwarder) → RowsView ForwarderRow
forwarder_rows = rows_view forwarder_row
