-- ===== src/Panel/SshKeys.antt =====
-- apps/web/src/app/(panel)/ssh-keys/page.tsx: the authorized keys, the form of a new one, and the button
-- that copies a fingerprint.
pub mod Laws
use xp_panel.Shared.{
  ℕ, zero, suc, Text, codes, Bool, false, ◌||◌, Option, none, some, List, [], ◌∷◌, ◌++◌, take,
  text_eq, is_empty,
}
use xp_panel.Api.Hosting.{WebCall, add_key, delete_key}
use xp_panel.Panel.Inline.{InlineForm, FormCall, creates, removes, RowsView, rows_view}

pub record KeyForm : Type 0 where
  pub label : Text
  pub public_key : Text

pub data KeyField : Type 0 where
  label_field key_field : Text → KeyField

abbrev edit_key : KeyField → KeyForm → KeyForm
edit_key (label_field s) d = record d { label = s }
edit_key (key_field s) d = record d { public_key = s }

abbrev pub key_form : InlineForm KeyForm KeyField
key_form = record {
  blank = record { label = []; public_key = [] };
  edit = edit_key;
  incomplete = λ d. is_empty d.label || is_empty d.public_key;
  key = codes "ssh-keys";
  success = codes "SSH key added";
  failure = codes "Failed to add SSH key";
  removal = codes "SSH key removed";
}

abbrev pub key_call : FormCall KeyForm → WebCall
key_call (creates d) = add_key d.label d.public_key
key_call (removes i) = delete_key i

-- `copied` with the timers that will reset it; none of them is ever cleared.
pub record CopyState : Type 0 where
  pub copied : Option Text
  pub timers : ℕ

abbrev pub not_copied : CopyState
not_copied = record { copied = none; timers = 0 }

pub data CopyEvent : Type 0 where
  copies : Text → CopyEvent
  timer_ends : CopyEvent

abbrev end_timer : ℕ → CopyState → CopyState
end_timer zero s = s
end_timer (suc n) s = record { copied = none; timers = n }

-- The new state and what is written to the clipboard.
unfoldable pub copy_step : CopyEvent → CopyState → CopyState × List Text
copy_step (copies fp) s = (record { copied = some fp; timers = suc s.timers }, fp ∷ [])
copy_step timer_ends s = (end_timer s.timers s, [])

pub record SshKey : Type 0 where
  pub id : Text
  pub label : Text
  pub public_key : Text
  pub fingerprint : Text
  pub created_at : Text

pub record KeyRow : Type 0 where
  pub row_label : Text
  pub short_fingerprint : Text
  pub checked : Bool
  pub added : Text

abbrev is_copied : Option Text → Text → Bool
is_copied none fp = false
is_copied (some c) fp = text_eq c fp

-- How a date is printed is a parameter.
module _ (to_date : Text → Text) where
  abbrev pub key_row : Option Text → SshKey → KeyRow
  key_row copied k = record {
    row_label = k.label;
    short_fingerprint = take 32 k.fingerprint ++ codes "...";
    checked = is_copied copied k.fingerprint;
    added = codes "Added " ++ to_date k.created_at;
  }

  abbrev pub key_rows : Option Text → Bool → Option (List SshKey) → RowsView KeyRow
  key_rows copied = rows_view (key_row copied)
