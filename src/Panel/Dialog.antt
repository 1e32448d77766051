-- ===== src/Panel/Dialog.antt =====
-- The dialogs of the panel pages: `{show && <Modal onClose={() => setShow(false)} />}` with a form and
-- a mutation whose success closes it. Each page gives the record `Dialog` of its own ones.
pub mod Laws
use xp_panel.Shared.{
  ℕ, zero, suc, ◌==◌, Text, Bool, true, false, not, ◌&&◌, any, Option, none, some, List, [], ◌∷◌,
  ◌++◌, if◌then◌else◌, ◌>>=◌,
}
use xp_panel.Panel.Runs.{PageEffect, calls, invalidates, tells_success, tells_error}

-- A form of data `D` whose button makes a call of `C`.
pub record Dialog (D C : Type 0) : Type 0 where
  pub accepts : D → Bool
  pub request : D → C
  pub key : Text
  pub success : Text
  pub failure : Text

-- Whether it is shown, the number of the form that is shown, leaving or to come, and the forms of the requests under way.
pub record DialogState : Type 0 where
  pub shown : Bool
  pub number : ℕ
  pub in_flight : List ℕ

abbrev pub no_dialog : DialogState
no_dialog = record { shown = false; number = 0; in_flight = [] }

pub data DialogEvent (D : Type 0) : Type 0 where
  opens closes leaves : DialogEvent D
  submits : D → DialogEvent D
  answers : ℕ → Bool → DialogEvent D

unfoldable pub close_dialog : DialogState → DialogState
close_dialog s = record s { shown = false }

-- The end of the animation of `AnimatePresence`: until then a dialog that is opened again is the same
-- form with its request; from then on it is another one.
unfoldable pub leave_dialog : DialogState → DialogState
leave_dialog s = record s { number = if s.shown then s.number else suc s.number }

abbrev pub waits : DialogState → Bool
waits s = any (λ n. n == s.number) s.in_flight

unfoldable pub remove_at : ℕ → List ℕ → Option (List ℕ)
remove_at i [] = none
remove_at zero (n ∷ ns) = some ns
remove_at (suc i) (n ∷ ns) = do rest ← remove_at i ns; some (n ∷ rest)

module _ {D C : Type 0} (d : Dialog D C) where
  unfoldable pub settle : Option (List ℕ) → Bool → DialogState → DialogState × List (PageEffect C)
  unfolding close_dialog
  settle none ok s = (s, [])
  settle (some rest) true s = (
    close_dialog (record s { in_flight = rest }),
    invalidates d.key ∷ tells_success d.success ∷ [],
  )
  settle (some rest) false s = (record s { in_flight = rest }, tells_error d.failure ∷ [])

  -- The button of the form is disabled while its request runs.
  unfoldable pub dialog_step : DialogEvent D → DialogState → DialogState × List (PageEffect C)
  unfolding close_dialog leave_dialog settle remove_at
  dialog_step opens s = (record s { shown = true }, [])
  dialog_step closes s = (close_dialog s, [])
  dialog_step leaves s = (leave_dialog s, [])
  dialog_step (submits x) s =
      if s.shown && not (waits s) && d.accepts x
      then (record s { in_flight = s.number ∷ s.in_flight }, calls (d.request x) ∷ [])
      else (s, [])
  dialog_step (answers i ok) s = settle (remove_at i s.in_flight) ok s
