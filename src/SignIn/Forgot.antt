-- ===== src/SignIn/Forgot.antt =====
-- apps/web/src/app/(auth)/forgot-password/page.tsx: the address that gets a link.
use xp_panel.Shared.{is_empty, Text, codes, Bool, true, false, ◌||◌, List, [], ◌∷◌, if◌then◌else◌}
use xp_panel.Api.Auth.{forgot_password}
use xp_panel.SignIn.{Effect, calls, tells_error}

pub record ForgotPage : Type 0 where
  pub email : Text
  pub loading : Bool
  pub sent : Bool

pub data ForgotEvent : Type 0 where
  types_email : Text → ForgotEvent
  submits sends_another : ForgotEvent
  answers : Bool → ForgotEvent

unfoldable pub handle_submit : ForgotPage → ForgotPage × List Effect
handle_submit p =
    if is_empty p.email || p.loading || p.sent
    then (p, [])
    else (record p { loading = true }, calls (forgot_password p.email) ∷ [])

unfoldable pub forgot_step : ForgotEvent → ForgotPage → ForgotPage × List Effect
unfolding handle_submit
forgot_step (types_email s) p = (record p { email = s }, [])
forgot_step submits p = handle_submit p
forgot_step sends_another p = (record p { sent = false; email = [] }, [])
forgot_step (answers true) p = (record p { loading = false; sent = true }, [])
forgot_step (answers false) p = (
  record p { loading = false },
  tells_error (codes "Failed to send reset email. Please try again.") ∷ [],
)
