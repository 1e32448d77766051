-- ===== src/Tests/SignIn.antt =====
-- The pages before the panel at concrete inputs.
use xp_panel.Shared.{
  ◌≡◌, refl, inl, inr, ◌⊎◌, ◌≤◌, ℕ, Text, codes, Bool, true, Option, none, some, List, [], ◌∷◌, All,
  length, has_substring, text_eq,
}
use xp_panel.Auth.Browser.{Payload, Page, signed_out, plain_browser}
use xp_panel.Api.Auth.{verify_mfa}
use xp_panel.SignIn.{calls, succeeded}
use xp_panel.SignIn.Characters.{is_word, is_lower, is_digit}
use xp_panel.SignIn.Slugs.{auto_slug, plain_slug}
use xp_panel.SignIn.Slugs.Laws.{IsSlug, auto_slug-IsSlug, auto_slug_fixed}
use xp_panel.SignIn.Register.{
  password_error, empty_page, RegisterEvent, types_org_name, types_email, types_username,
  types_password, submits, answers, register_run,
}
use xp_panel.SignIn.Register.Laws.{Registers, register_run-Registers}
use xp_panel.SignIn.Login.{LoginEvent, LoginResult, empty_login, login_run, login_step}
use xp_panel.SignIn.Login.Laws.{IsCredential, login_run-IsCredential}
use xp_panel.SignIn.Dashboard.{IsGuarded, perform, login_run-IsGuarded}
use xp_panel.SignIn.Reset.{is_valid, bars, ResetEvent}
use xp_panel.SignIn.Reset.Laws.{lit, registered-is_valid}
use xp_panel.SignIn.Setup.{
  SetupEvent, first_setup, creates_account, account_answered, continues, saves_notif, notif_saved,
  setup_run,
}
use xp_panel.SignIn.Setup.Laws.{IsFirstAccount, setup_run-IsFirstAccount}

abbrev as_is : Text → Text
as_is s = s

auto_slug-IsSlug_example :
    (auto_slug as_is (codes " acme  hosting ") ≡ [])
    ⊎ IsSlug true (auto_slug as_is (codes " acme  hosting "))
auto_slug-IsSlug_example = auto_slug-IsSlug as_is (codes " acme  hosting ")

-- The two slugs of one name.
two_slugs :
    (auto_slug as_is (codes " acme  hosting ") ≡ codes "acme-hosting")
    × (plain_slug as_is (codes " acme  hosting ") ≡ codes "-acme--hosting-")
unfolding auto_slug plain_slug is_word is_lower is_digit
two_slugs = (refl, refl)

is_slug : IsSlug true (codes "ab-1")
unfolding is_word is_lower is_digit
is_slug = inl (refl, inl (refl, inr (refl, refl, inl (refl, refl))))

auto_slug_fixed_example : auto_slug as_is (codes "ab-1") ≡ codes "ab-1"
auto_slug_fixed_example = auto_slug_fixed as_is (codes "ab-1") is_slug refl

abbrev has_at : Text → Bool
has_at s = has_substring s (codes "@")

abbrev too_long : ℕ → Text
too_long n = codes "Too long"

abbrev registering : List RegisterEvent
registering =
    types_org_name (codes "acme hosting")
    ∷ types_email (codes "a@b")
    ∷ types_username (codes "admin")
    ∷ types_password (codes "Secret123")
    ∷ submits
    ∷ answers (succeeded (some (codes "a", codes "r")))
    ∷ []

register_run-Registers_example :
    All (Registers has_at) (register_run as_is has_at too_long registering empty_page).1
register_run-Registers_example = register_run-Registers as_is has_at too_long registering empty_page

abbrev challenge_result : LoginResult
challenge_result = record { tokens = none; mfa_required = some true; temp_token = some (codes "t") }

abbrev logging_in : List LoginEvent
logging_in =
    LoginEvent.types_email (codes "a@b")
    ∷ LoginEvent.types_password (codes "pw")
    ∷ LoginEvent.submits
    ∷ LoginEvent.answers (succeeded challenge_result)
    ∷ LoginEvent.types_code (codes "12 34 56")
    ∷ LoginEvent.submits_code
    ∷ LoginEvent.answers_code (succeeded (some (codes "a", codes "r")))
    ∷ []

abbrev challenged_events : List LoginEvent
challenged_events =
    LoginEvent.types_email (codes "a@b")
    ∷ LoginEvent.types_password (codes "pw")
    ∷ LoginEvent.submits
    ∷ LoginEvent.answers (succeeded challenge_result)
    ∷ LoginEvent.types_code (codes "12 34 56")
    ∷ []

login_run-IsCredential_example :
    All
      (IsCredential has_at (some (codes "t")))
      (login_step has_at none LoginEvent.submits_code
        (login_run has_at none challenged_events empty_login).0).1
login_run-IsCredential_example =
    login_run-IsCredential has_at none challenged_events LoginEvent.submits_code

-- The code is sent, with the token of the answer.
code_sent :
    (login_step has_at none LoginEvent.submits_code
      (login_run has_at none challenged_events empty_login).0).1
    ≡ calls (verify_mfa (codes "t") (codes "123456") none) ∷ []
unfolding login_step login_run has_substring is_digit
code_sent = refl

abbrev no_claims : Option Text → Option Payload
no_claims o = none

abbrev login_page : Page
login_page = record { memory = signed_out; stored = none; location = codes "/login" }

login_run-IsGuarded_example :
    IsGuarded (plain_browser no_claims) (
      perform (plain_browser no_claims) (login_run has_at none logging_in empty_login).1 login_page)
login_run-IsGuarded_example =
    login_run-IsGuarded (plain_browser no_claims) has_at none logging_in empty_login login_page
      (λ h. absurd cc)

accepted_password : password_error (codes "Secret123") ≡ none
unfolding password_error
accepted_password = refl

registered-is_valid_example :
    (is_valid (codes "Secret123") (codes "Secret123") ≡ true)
    × (length (bars (codes "Secret123")) ≡ 5)
    × (3 ≤ lit (bars (codes "Secret123")))
    × (lit (bars (codes "Secret123")) ≤ 5)
registered-is_valid_example = registered-is_valid (codes "Secret123") accepted_password

abbrev resetting : List ResetEvent
resetting =
    ResetEvent.types_password (codes "password")
    ∷ ResetEvent.types_confirm (codes "password")
    ∷ ResetEvent.submits
    ∷ ResetEvent.answers true
    ∷ []

-- A password that the reset page accepts and registration does not.
accepted_here_only :
    (is_valid (codes "password") (codes "password") ≡ true)
    × (password_error (codes "password") ≡ some (codes "Must contain an uppercase letter"))
unfolding is_valid password_error text_eq
accepted_here_only = (refl, refl)

abbrev setting_up : List SetupEvent
setting_up =
    SetupEvent.types_org_name (codes "acme")
    ∷ SetupEvent.types_email (codes "a@b")
    ∷ SetupEvent.types_password (codes "x")
    ∷ SetupEvent.types_confirm (codes "x")
    ∷ creates_account
    ∷ account_answered (succeeded (some (codes "a", codes "r")))
    ∷ continues
    ∷ saves_notif
    ∷ notif_saved
    ∷ []

setup_run-IsFirstAccount_example :
    ((setup_run as_is setting_up first_setup).0.step ≤ 3)
    × All (IsFirstAccount as_is) (setup_run as_is setting_up first_setup).1
setup_run-IsFirstAccount_example = setup_run-IsFirstAccount as_is setting_up
