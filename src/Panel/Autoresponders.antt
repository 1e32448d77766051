-- ===== src/Panel/Autoresponders.antt =====
-- apps/web/src/app/(panel)/email/autoresponders/page.tsx: the autoresponders, their switches, and the
-- form of a new one.
pub mod Laws
use xp_panel.Shared.{
  Text, codes, Bool, true, false, not, ◌||◌, Option, none, some, List, [], ◌∷◌, ◌++◌, map, is_empty,
}
use xp_panel.Api.Fields.{Fields, string, boolean, optional}
use xp_panel.Api.Hosting.{
  MailCall, create_autoresponder, update_autoresponder, delete_autoresponder,
}
use xp_panel.Panel.Runs.{PageEffect, calls, invalidates, map_calls}
use xp_panel.Panel.Inline.{
  InlineForm, FormCall, creates, removes, FormState, FormEvent, inline_step, or_undefined, RowsView,
  rows_view,
}

pub record ResponderForm : Type 0 where
  pub email : Text
  pub subject : Text
  pub body : Text
  pub from_name : Text
  pub start_at : Text
  pub end_at : Text

pub data ResponderField : Type 0 where
  email_field subject_field body_field from_field start_field end_field : Text → ResponderField

abbrev edit_responder : ResponderField → ResponderForm → ResponderForm
edit_responder (email_field s) d = record d { email = s }
edit_responder (subject_field s) d = record d { subject = s }
edit_responder (body_field s) d = record d { body = s }
edit_responder (from_field s) d = record d { from_name = s }
edit_responder (start_field s) d = record d { start_at = s }
edit_responder (end_field s) d = record d { end_at = s }

abbrev pub responder_form : InlineForm ResponderForm ResponderField
responder_form = record {
  blank = record {
    email = [];
    subject = [];
    body = [];
    from_name = [];
    start_at = [];
    end_at = [];
  };
  edit = edit_responder;
  incomplete = λ d. is_empty d.email || is_empty d.subject || is_empty d.body;
  key = codes "autoresponders";
  success = codes "Autoresponder created";
  failure = codes "Failed to create autoresponder";
  removal = codes "Autoresponder deleted";
}

abbrev pub responder_fields : ResponderForm → Fields
responder_fields d =
    (codes "email", string d.email)
      ∷ (codes "subject", string d.subject)
      ∷ (codes "body", string d.body)
      ∷ optional (codes "from_name") (or_undefined d.from_name)
    ++ optional (codes "start_at") (or_undefined d.start_at)
    ++ optional (codes "end_at") (or_undefined d.end_at)

abbrev pub responder_call : FormCall ResponderForm → MailCall
responder_call (creates d) = create_autoresponder (responder_fields d)
responder_call (removes i) = delete_autoresponder i

pub record Autoresponder : Type 0 where
  pub id : Text
  pub email : Text
  pub subject : Text
  pub body : Text
  pub from_name : Option Text
  pub start_at : Option Text
  pub end_at : Option Text
  pub enabled : Bool
  pub created_at : Text

pub data ResponderEvent : Type 0 where
  in_form : FormEvent ResponderField → ResponderEvent
  toggles : Autoresponder → ResponderEvent
  toggled : Bool → ResponderEvent

-- A switch sends the other value of the row it stands in; a failure is not reported.
unfoldable pub responder_step :
    ResponderEvent → FormState ResponderForm → FormState ResponderForm × List (PageEffect MailCall)
unfolding inline_step
responder_step (in_form e) p = inline_step responder_form responder_call e p
responder_step (toggles a) p =
    (p, calls (update_autoresponder a.id ((codes "enabled", boolean (not a.enabled)) ∷ [])) ∷ [])
responder_step (toggled true) p = (p, invalidates (codes "autoresponders") ∷ [])
responder_step (toggled false) p = (p, [])

pub record ResponderRow : Type 0 where
  pub row_email : Text
  pub row_subject : Text
  pub period : Option Text
  pub switched_on : Bool

-- How a date is printed is a parameter; an empty date counts as none.
module _ (to_date : Text → Text) where
  abbrev dated : Text → Option Text → Text
  dated before none = []
  dated before (some []) = []
  dated before (some (c ∷ s)) = before ++ to_date (c ∷ s)

  abbrev has_date : Option Text → Bool
  has_date none = false
  has_date (some []) = false
  has_date (some (c ∷ s)) = true

  abbrev period_if : Bool → Text → Option Text
  period_if true s = some s
  period_if false s = none

  abbrev pub responder_row : Autoresponder → ResponderRow
  responder_row a = record {
    row_email = a.email;
    row_subject = a.subject;
    period =
        period_if (has_date a.start_at || has_date a.end_at)
          (dated (codes "From ") a.start_at ++ dated (codes " until ") a.end_at);
    switched_on = a.enabled;
  }

  abbrev pub responder_rows : Bool → Option (List Autoresponder) → RowsView ResponderRow
  responder_rows = rows_view responder_row
