-- ===== src/SignIn/Login.antt =====
-- apps/web/src/app/(auth)/login/page.tsx: the password, then the code of a second factor.
pub mod Laws
use xp_panel.Shared.{
  is_empty, ℕ, ◌==◌, Text, codes, Bool, true, false, not, ◌&&◌, length, keep, Option, none, some,
  List, [], ◌∷◌, ◌++◌, if◌then◌else◌, get_or,
}
use xp_panel.Api.Auth.{login, verify_mfa, Provider, oauth_url}
use xp_panel.SignIn.{
  Effect, calls, tells_error, opens, Answer, succeeded, failed, Tokens, signed_in, told,
}
use xp_panel.SignIn.Characters.{is_digit}

-- What the server answers to a password.
pub record LoginResult : Type 0 where
  pub tokens : Option Tokens
  pub mfa_required : Option Bool
  pub temp_token : Option Text

pub record LoginPage : Type 0 where
  pub email : Text
  pub password : Text
  pub show_password : Bool
  pub mfa_required : Bool
  pub temp_token : Text
  pub mfa_code : Text
  pub submitting : Bool

abbrev pub empty_login : LoginPage
empty_login = record {
  email = [];
  password = [];
  show_password = false;
  mfa_required = false;
  temp_token = [];
  mfa_code = [];
  submitting = false;
}

pub data LoginEvent : Type 0 where
  types_email types_password types_code : Text → LoginEvent
  toggles_password submits submits_code goes_back : LoginEvent
  answers : Answer LoginResult → LoginEvent
  answers_code : Answer (Option Tokens) → LoginEvent
  picks_provider : Provider → LoginEvent

-- `result.mfaRequired && result.tempToken`.
unfoldable pub challenge : Option Bool → Option Text → Option Text
challenge (some true) (some (c ∷ s)) = some (c ∷ s)
challenge required token = none

abbrev pub challenged : Option Text → LoginResult → LoginPage → LoginPage × List Effect
challenged (some token) r p = (record p { mfa_required = true; temp_token = token }, [])
challenged none r p = (p, signed_in (codes "Welcome back!") r.tokens)

module _ (is_email : Text → Bool) (api_url : Option Text) where
  unfoldable pub login_schema : LoginPage → Bool
  login_schema p = is_email p.email && not (is_empty p.password)

  unfoldable pub on_submit : LoginPage → LoginPage × List Effect
  unfolding login_schema
  on_submit p =
      if login_schema p && not p.submitting
      then (record p { submitting = true }, calls (login p.email p.password) ∷ [])
      else (p, [])

  unfoldable pub on_answer : Answer LoginResult → LoginPage → LoginPage × List Effect
  unfolding challenge
  on_answer (succeeded r) p =
      challenged (challenge r.mfa_required r.temp_token) r (record p { submitting = false })
  on_answer (failed message) p =
      (record p { submitting = false }, told (codes "Login failed") message)

  -- The button of the code is disabled but for six digits.
  unfoldable pub on_mfa_submit : LoginPage → LoginPage × List Effect
  on_mfa_submit p = (
    p,
    if length p.mfa_code == 6 then calls (verify_mfa p.temp_token p.mfa_code none) ∷ [] else [],
  )

  -- The fields of the code are there while a second factor is asked for, the others while it is not.
  unfoldable pub login_step : LoginEvent → LoginPage → LoginPage × List Effect
  unfolding on_submit on_answer on_mfa_submit
  login_step (types_email s) p = (record p { email = s }, [])
  login_step (types_password s) p = (record p { password = s }, [])
  login_step (types_code s) p = (record p { mfa_code = keep is_digit s }, [])
  login_step toggles_password p = (record p { show_password = not p.show_password }, [])
  login_step submits p = if p.mfa_required then (p, []) else on_submit p
  login_step submits_code p = if p.mfa_required then on_mfa_submit p else (p, [])
  login_step goes_back p = (record p { mfa_required = false }, [])
  login_step (answers a) p = on_answer a p
  login_step (answers_code (succeeded tokens)) p = (p, signed_in (codes "Welcome back!") tokens)
  login_step (answers_code (failed message)) p = (p, tells_error (codes "Invalid MFA code") ∷ [])
  login_step (picks_provider provider) p = (p, opens (oauth_url api_url provider) ∷ [])

  unfoldable pub login_run : List LoginEvent → LoginPage → LoginPage × List Effect
  unfolding login_step
  login_run [] p = (p, [])
  login_run (e ∷ es) p =
      let first = login_step e p in let rest = login_run es first.0 in (rest.0, first.1 ++ rest.1)
