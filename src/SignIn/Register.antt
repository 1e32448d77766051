-- ===== src/SignIn/Register.antt =====
-- apps/web/src/app/(auth)/register/page.tsx: the schema, the fields and the request. The test of an
-- e-mail address and the message for a text that is too long are those of the validation library.
pub mod Laws
use xp_panel.Shared.{
  ℕ, Text, codes, Bool, true, false, not, ◌&&◌, leb, ltb, any, all, length, Option, none, some,
  List, [], ◌∷◌, ◌++◌, if◌then◌else◌,
}
use xp_panel.Api.Auth.{Registration, register}
use xp_panel.SignIn.{Effect, calls, Answer, succeeded, failed, Tokens, signed_in, told}
use xp_panel.SignIn.Characters.{is_upper, is_digit, is_slug_code, is_username_code}
use xp_panel.SignIn.Slugs.{auto_slug}

-- The checks of a field in their order: the first that fails gives the message.
abbrev pub first_error : List (Bool × Text) → Option Text
first_error [] = none
first_error ((ok, message) ∷ checks) = if ok then first_error checks else some message

-- `/^[…]+$/`, for a class of code units.
abbrev pub nonempty_of : (ℕ → Bool) → Text → Bool
nonempty_of p [] = false
nonempty_of p (c ∷ s) = all p (c ∷ s)

unfoldable pub password_error : Text → Option Text
unfolding is_upper is_digit
password_error s = first_error (
    (leb 8 (length s), codes "Password must be at least 8 characters")
    ∷ (any is_upper s, codes "Must contain an uppercase letter")
    ∷ (any is_digit s, codes "Must contain a number")
    ∷ [])

module _ (is_email : Text → Bool) (too_long : ℕ → Text) where
  unfoldable pub org_name_error : Text → Option Text
  org_name_error s = first_error (
      (leb 2 (length s), codes "Organization name must be at least 2 characters")
      ∷ (leb (length s) 100, too_long 100)
      ∷ [])

  unfoldable pub org_slug_error : Text → Option Text
  unfolding is_slug_code
  org_slug_error s = first_error (
      (leb 2 (length s), codes "Slug must be at least 2 characters")
      ∷ (leb (length s) 50, too_long 50)
      ∷ (
        nonempty_of is_slug_code s,
        codes "Slug can only contain lowercase letters, numbers, and hyphens",
      )
      ∷ [])

  unfoldable pub email_error : Text → Option Text
  email_error s = first_error ((is_email s, codes "Invalid email address") ∷ [])

  unfoldable pub username_error : Text → Option Text
  unfolding is_username_code
  username_error s = first_error (
      (leb 3 (length s), codes "Username must be at least 3 characters")
      ∷ (leb (length s) 50, too_long 50)
      ∷ (
        nonempty_of is_username_code s,
        codes "Username can only contain letters, numbers, underscores, and hyphens",
      )
      ∷ [])

  -- The messages under the five fields.
  abbrev pub messages : Registration → List (Option Text)
  messages r =
      org_name_error r.org_name
      ∷ org_slug_error r.org_slug
      ∷ email_error r.email
      ∷ username_error r.username
      ∷ password_error r.password
      ∷ []

abbrev pub no_message : List (Option Text) → Bool
no_message [] = true
no_message (none ∷ ms) = no_message ms
no_message (some m ∷ ms) = false

pub record RegisterPage : Type 0 where
  pub fields : Registration
  pub show_password : Bool
  pub submitting : Bool

abbrev pub empty_page : RegisterPage
empty_page = record {
  fields = record { org_name = []; org_slug = []; email = []; username = []; password = [] };
  show_password = false;
  submitting = false;
}

pub data RegisterEvent : Type 0 where
  types_org_name types_org_slug types_email types_username types_password : Text → RegisterEvent
  toggles_password submits : RegisterEvent
  answers : Answer (Option Tokens) → RegisterEvent

module _ (lower : Text → Text) (is_email : Text → Bool) (too_long : ℕ → Text) where
  -- `handleSubmit(onSubmit)`, up to the answer; the button is disabled while a request runs.
  unfoldable pub submit_register : RegisterPage → RegisterPage × List Effect
  submit_register p =
      if p.submitting
      then (p, [])
      else (if no_message (messages is_email too_long p.fields)
          then (record p { submitting = true }, calls (register p.fields) ∷ [])
          else (p, []))

  unfoldable pub register_step : RegisterEvent → RegisterPage → RegisterPage × List Effect
  unfolding submit_register
  register_step (types_org_name s) p =
      (record p { fields = record p.fields { org_name = s; org_slug = auto_slug lower s } }, [])
  register_step (types_org_slug s) p = (record p { fields = record p.fields { org_slug = s } }, [])
  register_step (types_email s) p = (record p { fields = record p.fields { email = s } }, [])
  register_step (types_username s) p = (record p { fields = record p.fields { username = s } }, [])
  register_step (types_password s) p = (record p { fields = record p.fields { password = s } }, [])
  register_step toggles_password p = (record p { show_password = not p.show_password }, [])
  register_step submits p = submit_register p
  register_step (answers (succeeded tokens)) p = (
    record p { submitting = false },
    signed_in (codes "Account created! Welcome to XP-Panel.") tokens,
  )
  register_step (answers (failed message)) p =
      (record p { submitting = false }, told (codes "Registration failed") message)

  unfoldable pub register_run : List RegisterEvent → RegisterPage → RegisterPage × List Effect
  unfolding register_step
  register_run [] p = (p, [])
  register_run (e ∷ es) p =
      let first = register_step e p in
      let rest = register_run es first.0 in (rest.0, first.1 ++ rest.1)
