-- ===== src/Panel/Inline/Laws.antt =====
-- The form of a hosting page: what it creates, how often, and when the typed text is lost.
use xp_panel.Shared.{
  ◌≡◌, refl, ◌∙◌, ap, ℕ, suc, ◌+◌, ◌≤◌, true, false, List, [], ◌∷◌, ◌++◌, All, arith, if_split,
  if◌then◌else◌,
}
use xp_panel.Panel.Runs.{
  PageEffect, calls, invalidates, tells_success, tells_error, OfCalls, page_run, page_run-keeps,
  All-map_calls,
}
use xp_panel.Panel.Inline.{
  InlineForm, FormCall, creates, removes, FormState, FormEvent, toggles_form, cancels, submits,
  types, created, deletes, deleted, create_disabled, form_step, inline_step,
}

module _ {D F : Type 0} (i : InlineForm D F) where
  abbrev pub IsComplete : FormCall D → Type 0
  IsComplete (creates d) = i.incomplete d ≡ false
  IsComplete (removes n) = Unit

  form_step-IsComplete :
      (e : FormEvent F) (p : FormState D)
      → Unit {0}
      → Unit {0} × All (OfCalls IsComplete) (form_step i e p).1
  unfolding form_step create_disabled
  form_step-IsComplete toggles_form p h = (tt, tt)
  form_step-IsComplete cancels p h = (tt, tt)
  form_step-IsComplete submits p h = (
    tt,
    if_split {A = FormState D × List (PageEffect (FormCall D))} (λ r. All (OfCalls IsComplete) r.1)
        (create_disabled i p) _ _ (λ e. tt) (λ e. (ground arith, tt)),
  )
  form_step-IsComplete (types f) p h = (tt, tt)
  form_step-IsComplete (created true) p h = (tt, (tt, (tt, tt)))
  form_step-IsComplete (created false) p h = (tt, (tt, tt))
  form_step-IsComplete (deletes n) p h = (tt, (tt, tt))
  form_step-IsComplete (deleted true) p h = (tt, (tt, (tt, tt)))
  form_step-IsComplete (deleted false) p h = (tt, tt)

-- How many creations are asked, and how many are answered.
module _ {D : Type 0} where
  abbrev pub creations : List (PageEffect (FormCall D)) → ℕ
  creations [] = 0
  creations (calls (creates d) ∷ es) = suc (creations es)
  creations (calls (removes n) ∷ es) = creations es
  creations (invalidates key ∷ es) = creations es
  creations (tells_success s ∷ es) = creations es
  creations (tells_error s ∷ es) = creations es

  creations-++ :
      (es fs : List (PageEffect (FormCall D))) → creations (es ++ fs) ≡ creations es + creations fs
  creations-++ [] fs = omega arith
  creations-++ (calls (creates d) ∷ es) fs = let h = creations-++ es fs in omega arith
  creations-++ (calls (removes n) ∷ es) fs = let h = creations-++ es fs in omega arith
  creations-++ (invalidates key ∷ es) fs = let h = creations-++ es fs in omega arith
  creations-++ (tells_success s ∷ es) fs = let h = creations-++ es fs in omega arith
  creations-++ (tells_error s ∷ es) fs = let h = creations-++ es fs in omega arith

  abbrev pub outstanding : FormState D → ℕ
  outstanding p = if p.creating then 1 else 0

module _ {F : Type 0} where
  abbrev pub answered : FormEvent F → ℕ
  answered (created ok) = 1
  answered e = 0

  abbrev pub answers : List (FormEvent F) → ℕ
  answers [] = 0
  answers (e ∷ es) = answered e + answers es

module _ {D F : Type 0} (i : InlineForm D F) where
  submit_counts :
      (p : FormState D)
      → creations (form_step i submits p).1 + outstanding p ≤ outstanding (form_step i submits p).0
  unfolding form_step create_disabled
  submit_counts p =
      if_split {A = FormState D × List (PageEffect (FormCall D))}
        (λ r. creations r.1 + outstanding p ≤ outstanding r.0) (create_disabled i p) _ _
        (λ e. omega arith) (λ e. ground arith)

  step_counts :
      (e : FormEvent F) (p : FormState D)
      → creations (form_step i e p).1 + outstanding p ≤ answered e + outstanding (form_step i e p).0
  unfolding form_step
  step_counts toggles_form p = omega arith
  step_counts cancels p = omega arith
  step_counts submits p = let h = submit_counts p in omega arith
  step_counts (types f) p = omega arith
  step_counts (created true) p = ground arith
  step_counts (created false) p = ground arith
  step_counts (deletes n) p = omega arith
  step_counts (deleted true) p = omega arith
  step_counts (deleted false) p = omega arith

  -- In a run of the form from any state, no more creations are asked than were answered in it, but for one that may still be under way at its end: pressing the button again while a creation runs does nothing.
  pub creations_answered :
      (es : List (FormEvent F)) (p : FormState D)
      → creations (page_run (form_step i) es p).1 + outstanding p
        ≤ answers es + outstanding (page_run (form_step i) es p).0
  unfolding page_run
  creations_answered [] p = omega arith
  creations_answered (e ∷ es) p =
      let s = form_step i e p in
      let h = step_counts e p in
      let k = creations_answered es s.0 in
      rw (creations-++ s.1 (page_run (form_step i) es s.0).1) (omega arith)

  -- The text of a form after events, as the text alone: every field that is typed changes it, shown or not, and only a creation that succeeded makes it blank.
  abbrev pub text_after : List (FormEvent F) → D → D
  text_after [] d = d
  text_after (types f ∷ es) d = text_after es (i.edit f d)
  text_after (created true ∷ es) d = text_after es i.blank
  text_after (created false ∷ es) d = text_after es d
  text_after (toggles_form ∷ es) d = text_after es d
  text_after (cancels ∷ es) d = text_after es d
  text_after (submits ∷ es) d = text_after es d
  text_after (deletes n ∷ es) d = text_after es d
  text_after (deleted ok ∷ es) d = text_after es d

  submit_form : (p : FormState D) → (form_step i submits p).0.form ≡ p.form
  unfolding form_step
  submit_form p =
      if_split {A = FormState D × List (PageEffect (FormCall D))} (λ r. r.0.form ≡ p.form)
        (create_disabled i p) _ _ (λ e. refl) (λ e. refl)

  pub form_run-text_after :
      (es : List (FormEvent F)) (p : FormState D)
      → (page_run (form_step i) es p).0.form ≡ text_after es p.form
  unfolding page_run form_step
  form_run-text_after [] p = refl
  form_run-text_after (toggles_form ∷ es) p = form_run-text_after es _
  form_run-text_after (cancels ∷ es) p = form_run-text_after es _
  form_run-text_after (submits ∷ es) p =
      form_run-text_after es (form_step i submits p).0 ∙ ap (text_after es) (submit_form p)
  form_run-text_after (types f ∷ es) p = form_run-text_after es _
  form_run-text_after (created true ∷ es) p = form_run-text_after es _
  form_run-text_after (created false ∷ es) p = form_run-text_after es _
  form_run-text_after (deletes n ∷ es) p = form_run-text_after es _
  form_run-text_after (deleted true ∷ es) p = form_run-text_after es _
  form_run-text_after (deleted false ∷ es) p = form_run-text_after es _

-- What holds of the calls of a page, from what holds of a complete form and of a deletion.
module _ {D F C : Type 0} (i : InlineForm D F) (request : FormCall D → C) (P : C → Type 0)
    (of_form : (c : FormCall D) → IsComplete i c → P (request c)) where
  pub inline_step-keeps :
      (e : FormEvent F) (p : FormState D)
      → Unit {0}
      → Unit {0} × All (OfCalls P) (inline_step i request e p).1
  unfolding inline_step
  inline_step-keeps e p h =
      (tt, All-map_calls (IsComplete i) P request of_form _ (form_step-IsComplete i e p tt).1)

  pub inline_run-keeps :
      (es : List (FormEvent F)) (p : FormState D)
      → All (OfCalls P) (page_run (inline_step i request) es p).1
  inline_run-keeps es p =
      (page_run-keeps (inline_step i request) (λ s. Unit {0}) (OfCalls P) inline_step-keeps es p
        tt).1
