-- ===== src/SignIn/Reset.antt =====
-- apps/web/src/app/(auth)/reset-password/page.tsx: the strength of a password and the page that sets a new one.
pub mod Laws
use xp_panel.Shared.{
  ℕ, zero, suc, ltb, leb, Text, codes, Bool, true, false, not, ◌&&◌, ◌||◌, any, length, keep, map,
  Option, none, some, List, [], ◌∷◌, ◌++◌, if◌then◌else◌, text_eq, get_or,
}
use xp_panel.Api.Auth.{reset_password}
use xp_panel.SignIn.{Effect, calls, tells_error, goes_to}
use xp_panel.SignIn.Characters.{is_upper, is_lower, is_digit, is_symbol}

unfoldable pub checks : Text → List (Text × Bool)
unfolding is_upper is_lower is_digit is_symbol
checks password =
    (codes "8+ characters", leb 8 (length password))
    ∷ (codes "Uppercase", any is_upper password)
    ∷ (codes "Lowercase", any is_lower password)
    ∷ (codes "Number", any is_digit password)
    ∷ (codes "Symbol", any is_symbol password)
    ∷ []

unfoldable pub score : Text → ℕ
unfolding checks
score password = length (keep (λ c. c.1) (checks password))

-- The five bars, each with its colour where it is lit.
abbrev pub colors : List Text
colors =
    codes "bg-red-500"
    ∷ codes "bg-red-400"
    ∷ codes "bg-amber-400"
    ∷ codes "bg-yellow-400"
    ∷ codes "bg-green-500"
    ∷ []

unfoldable pub bars_from : ℕ → ℕ → List Text → List Text
bars_from i n [] = []
bars_from i n (c ∷ cs) = (if ltb i n then c else codes "bg-muted") ∷ bars_from (suc i) n cs

abbrev pub bars : Text → List Text
bars password = bars_from 0 (score password) colors

pub record ResetPage : Type 0 where
  pub password : Text
  pub confirm : Text
  pub show_password : Bool
  pub loading : Bool
  pub done : Bool

abbrev pub empty_reset : ResetPage
empty_reset = record {
  password = [];
  confirm = [];
  show_password = false;
  loading = false;
  done = false;
}

unfoldable pub is_valid : Text → Text → Bool
is_valid password confirm = leb 8 (length password) && text_eq password confirm

pub data ResetEvent : Type 0 where
  types_password types_confirm : Text → ResetEvent
  toggles_password submits timer_fires : ResetEvent
  answers : Bool → ResetEvent

-- `params.get('token') ?? ''`.
module _ (token_parameter : Option Text) where
  abbrev pub token : Text
  token = get_or token_parameter []

  abbrev pub has_token : Text → Bool
  has_token [] = false
  has_token (c ∷ s) = true

  -- The button is disabled while a request runs, and the form is gone once it is done or without a token.
  unfoldable pub handle_submit : ResetPage → ResetPage × List Effect
  unfolding is_valid
  handle_submit p =
      if is_valid p.password p.confirm && has_token token && not p.loading && not p.done
      then (record p { loading = true }, calls (reset_password token p.password) ∷ [])
      else (p, [])

  unfoldable pub reset_step : ResetEvent → ResetPage → ResetPage × List Effect
  unfolding handle_submit
  reset_step (types_password s) p = (record p { password = s }, [])
  reset_step (types_confirm s) p = (record p { confirm = s }, [])
  reset_step toggles_password p = (record p { show_password = not p.show_password }, [])
  reset_step submits p = handle_submit p
  reset_step (answers true) p = (record p { loading = false; done = true }, [])
  reset_step (answers false) p = (
    record p { loading = false },
    tells_error (codes "Reset link is invalid or expired. Request a new one.") ∷ [],
  )
  reset_step timer_fires p = (p, if p.done then goes_to (codes "/login") ∷ [] else [])

  unfoldable pub reset_run : List ResetEvent → ResetPage → ResetPage × List Effect
  unfolding reset_step
  reset_run [] p = (p, [])
  reset_run (e ∷ es) p =
      let first = reset_step e p in let rest = reset_run es first.0 in (rest.0, first.1 ++ rest.1)

-- What the page shows.
pub data ResetView : Type 0 where
  invalid_link updated : ResetView
  form : Option (List Text × List (Text × Bool)) → Bool → Bool → ResetView

abbrev pub strength : Text → Option (List Text × List (Text × Bool))
strength [] = none
strength (c ∷ s) = some (bars (c ∷ s), checks (c ∷ s))

abbrev mismatch : Text → Text → Bool
mismatch password [] = false
mismatch password (c ∷ s) = not (text_eq (c ∷ s) password)

unfoldable pub reset_view : Option Text → ResetPage → ResetView
reset_view token_parameter p =
    if has_token token_parameter (token token_parameter)
    then (if p.done
        then updated
        else form (strength p.password) (mismatch p.password p.confirm)
            (p.loading || not (is_valid p.password p.confirm)))
    else invalid_link
