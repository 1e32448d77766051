-- ===== src/SignIn/Register/Laws.antt =====
-- register/page.tsx: what reaches the server.
use xp_panel.Shared.{
  ◌≡◌, ℕ, ◌≤◌, Text, Bool, true, any, all, All, All-append, length, Option, none, some, List, [],
  ◌∷◌, arith, Bool-cases, if_both, inl, inr,
}
use xp_panel.Api.Auth.{Registration, register}
use xp_panel.SignIn.{Effect, calls, succeeded, failed, Tokens, signed_in}
use xp_panel.SignIn.Characters.{is_upper, is_digit, is_slug_code, is_username_code}
use xp_panel.SignIn.Register.{
  password_error, org_name_error, org_slug_error, email_error, username_error, messages, no_message,
  RegisterPage, RegisterEvent, submit_register, register_step, register_run, types_org_name,
  types_org_slug, types_email, types_username, types_password, toggles_password, submits, answers,
}

-- What the rules of the page ask of a registration.
pub record IsRegistrable (is_email : Text → Bool) (r : Registration) : Type 0 where
  pub name_size : (2 ≤ length r.org_name) × (length r.org_name ≤ 100)
  pub slug_size : (2 ≤ length r.org_slug) × (length r.org_slug ≤ 50)
  pub slug_codes : all is_slug_code r.org_slug ≡ true
  pub address : is_email r.email ≡ true
  pub username_size : (3 ≤ length r.username) × (length r.username ≤ 50)
  pub username_codes : all is_username_code r.username ≡ true
  pub password_size : 8 ≤ length r.password
  pub password_codes : (any is_upper r.password ≡ true) × (any is_digit r.password ≡ true)

abbrev pub Registers : (Text → Bool) → Effect → Type 0
Registers is_email (calls (register r)) = IsRegistrable is_email r
Registers is_email (calls c) = ⊥
Registers is_email e = Unit

module _ (is_email : Text → Bool) (too_long : ℕ → Text) where
  no_message-IsRegistrable :
      (r : Registration)
      → no_message (messages is_email too_long r) ≡ true
      → IsRegistrable is_email r
  unfolding org_name_error org_slug_error email_error username_error password_error
  no_message-IsRegistrable r h = ground arith

module _ (lower : Text → Text) (is_email : Text → Bool) (too_long : ℕ → Text) where
  told-Registers :
      (tokens : Option Tokens) (greeting : Text)
      → All (Registers is_email) (signed_in greeting tokens)
  told-Registers none greeting = tt
  told-Registers (some t) greeting = (tt, (tt, (tt, tt)))

  submit-Registers :
      (p : RegisterPage) → All (Registers is_email) (submit_register lower is_email too_long p).1
  unfolding submit_register
  submit-Registers p =
      if_both {A = RegisterPage × List Effect} (λ r. All (Registers is_email) r.1) p.submitting _ _
        tt
        (elim (Bool-cases (no_message (messages is_email too_long p.fields))) [
          | inl e ↦ rw e (no_message-IsRegistrable is_email too_long p.fields e, tt)
          | inr e ↦ rw e tt
        ])

  step-Registers :
      (e : RegisterEvent) (p : RegisterPage)
      → All (Registers is_email) (register_step lower is_email too_long e p).1
  unfolding register_step
  step-Registers (types_org_name s) p = tt
  step-Registers (types_org_slug s) p = tt
  step-Registers (types_email s) p = tt
  step-Registers (types_username s) p = tt
  step-Registers (types_password s) p = tt
  step-Registers toggles_password p = tt
  step-Registers submits p = submit-Registers p
  step-Registers (answers (succeeded tokens)) p = told-Registers tokens _
  step-Registers (answers (failed message)) p = (tt, tt)

  -- Whatever is typed and answered, the only requests of the page are registrations, and each meets all the rules of its fields.
  pub register_run-Registers :
      (es : List RegisterEvent) (p : RegisterPage)
      → All (Registers is_email) (register_run lower is_email too_long es p).1
  unfolding register_run
  register_run-Registers [] p = tt
  register_run-Registers (e ∷ es) p =
      All-append (Registers is_email) _ _ (step-Registers e p) (register_run-Registers es _)
