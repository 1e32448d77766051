-- ===== src/Panel/Inline.antt =====
-- The forms that the hosting pages show in the page itself, above the list of what was created with
-- them: redirects/page.tsx, subdomains/page.tsx and ssh-keys/page.tsx. Each page gives the record
-- `InlineForm` of its own one.
pub mod Laws
use xp_panel.Shared.{
  Text, Bool, true, false, not, ◌||◌, Option, none, some, List, [], ◌∷◌, map, get_or, if◌then◌else◌,
}
use xp_panel.Panel.Runs.{PageEffect, map_calls, calls, invalidates, tells_success, tells_error}

-- Data `D`, changed by the fields `F` of the form.
pub record InlineForm (D F : Type 0) : Type 0 where
  pub blank : D
  pub edit : F → D → D
  pub incomplete : D → Bool
  pub key : Text
  pub success : Text
  pub failure : Text
  pub removal : Text

pub data FormCall (D : Type 0) : Type 0 where
  creates : D → FormCall D
  removes : Text → FormCall D

pub record FormState (D : Type 0) : Type 0 where
  pub show_form : Bool
  pub form : D
  pub creating : Bool

pub data FormEvent (F : Type 0) : Type 0 where
  toggles_form cancels submits : FormEvent F
  types : F → FormEvent F
  created : Bool → FormEvent F
  deletes : Text → FormEvent F
  deleted : Bool → FormEvent F

module _ {D F : Type 0} (i : InlineForm D F) where
  abbrev pub first_form : FormState D
  first_form = record { show_form = false; form = i.blank; creating = false }

  -- The button of the form is there while the form is shown.
  unfoldable pub create_disabled : FormState D → Bool
  create_disabled p = i.incomplete p.form || p.creating || not p.show_form

  -- Whether a deletion failed is not reported.
  unfoldable pub form_step :
      FormEvent F → FormState D → FormState D × List (PageEffect (FormCall D))
  unfolding create_disabled
  form_step toggles_form p = (record p { show_form = not p.show_form }, [])
  form_step cancels p = (record p { show_form = false }, [])
  form_step (types f) p = (record p { form = i.edit f p.form }, [])
  form_step submits p =
      if create_disabled p
      then (p, [])
      else (record p { creating = true }, calls (creates p.form) ∷ [])
  form_step (created true) p = (
    record { show_form = false; form = i.blank; creating = false },
    invalidates i.key ∷ tells_success i.success ∷ [],
  )
  form_step (created false) p = (record p { creating = false }, tells_error i.failure ∷ [])
  form_step (deletes n) p = (p, calls (removes n) ∷ [])
  form_step (deleted true) p = (p, invalidates i.key ∷ tells_success i.removal ∷ [])
  form_step (deleted false) p = (p, [])

-- The page of the form, with the calls of its wrapper.
module _ {D F C : Type 0} (i : InlineForm D F) (request : FormCall D → C) where
  unfoldable pub inline_step : FormEvent F → FormState D → FormState D × List (PageEffect C)
  inline_step e p = let r = form_step i e p in (r.0, map (map_calls request) r.1)

-- The list below the form.
pub data RowsView (R : Type 0) : Type 0 where
  loading nothing : RowsView R
  rows : List R → RowsView R

module _ {A R : Type 0} (row : A → R) where
  abbrev rows_of : List A → RowsView R
  rows_of [] = nothing
  rows_of (x ∷ xs) = rows (map row (x ∷ xs))

  unfoldable pub rows_view : Bool → Option (List A) → RowsView R
  rows_view true o = loading
  rows_view false o = rows_of (get_or o [])

-- `a || undefined` of a text.
abbrev pub or_undefined : Text → Option Text
or_undefined [] = none
or_undefined (c ∷ s) = some (c ∷ s)
