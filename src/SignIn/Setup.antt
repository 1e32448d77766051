-- ===== src/SignIn/Setup.antt =====
-- apps/web/src/app/setup/page.tsx: the wizard of the first account, with its four steps.
pub mod Laws
use xp_panel.Shared.{
  is_empty, ℕ, ◌*◌, ltb, ◌==◌, Text, codes, Bool, true, false, not, ◌&&◌, ◌||◌, Option, none, some,
  List, [], ◌∷◌, ◌++◌, if◌then◌else◌, text_eq, split_on, get_or,
}
use xp_panel.Api.Calls.{api_put}
use xp_panel.Api.Fields.{FieldCall, string, boolean}
use xp_panel.Api.Auth.{Registration, register}
use xp_panel.SignIn.{
  Effect, calls, stores_tokens, tells_error, goes_to, Answer, succeeded, failed, Tokens, told,
}
use xp_panel.SignIn.Slugs.{plain_slug}

pub record Account : Type 0 where
  pub org_name : Text
  pub org_slug : Text
  pub email : Text
  pub username : Text
  pub password : Text
  pub confirm_password : Text

pub record ServerInput : Type 0 where
  pub hostname : Text
  pub ip : Text
  pub skip : Bool

pub record Notifications : Type 0 where
  pub by_email : Bool
  pub by_slack : Bool
  pub slack_url : Text
  pub by_telegram : Bool
  pub telegram_id : Text

pub record Setup : Type 0 where
  pub step : ℕ
  pub loading : Bool
  pub account : Account
  pub server : ServerInput
  pub notif : Notifications

abbrev pub first_setup : Setup
first_setup = record {
  step = 0;
  loading = false;
  account = record {
    org_name = [];
    org_slug = [];
    email = [];
    username = [];
    password = [];
    confirm_password = [];
  };
  server = record { hostname = []; ip = []; skip = false };
  notif = record {
    by_email = true;
    by_slack = false;
    slack_url = [];
    by_telegram = false;
    telegram_id = [];
  };
}

pub data Channel : Type 0 where
  email_channel slack_channel telegram_channel : Channel

pub data SetupEvent : Type 0 where
  types_org_name types_email types_username types_password types_confirm : Text → SetupEvent
  types_hostname types_ip types_slack_url types_telegram_id : Text → SetupEvent
  toggles : Channel → SetupEvent
  creates_account backs continues skips saves_notif opens_dashboard notif_saved : SetupEvent
  account_answered : Answer (Option Tokens) → SetupEvent

-- `a || b` of two strings.
abbrev pub or_else : Text → Text → Text
or_else [] d = d
or_else (c ∷ s) d = c ∷ s

unfoldable pub toggle_channel : Channel → Notifications → Notifications
toggle_channel email_channel n = record n { by_email = not n.by_email }
toggle_channel slack_channel n = record n { by_slack = not n.by_slack }
toggle_channel telegram_channel n = record n { by_telegram = not n.by_telegram }

-- What the notification step sends.
unfoldable pub preferences_request : Notifications → FieldCall
preferences_request n = api_put (codes "/notifications/preferences") (
    (codes "email_enabled", boolean n.by_email)
    ∷ (codes "slack_enabled", boolean n.by_slack)
    ∷ (codes "slack_webhook", string n.slack_url)
    ∷ (codes "telegram_chat_id", string n.telegram_id)
    ∷ (codes "alerts_enabled", boolean true)
    ∷ (codes "backups_enabled", boolean true)
    ∷ (codes "security_enabled", boolean true)
    ∷ (codes "billing_enabled", boolean true)
    ∷ [])

-- What a step of the wizard causes: an effect of the sign-in pages, or the preferences.
pub data SetupEffect : Type 0 where
  does : Effect → SetupEffect
  saves : FieldCall → SetupEffect

abbrev pub stored : Option Tokens → List SetupEffect
stored none = []
stored (some (access, refresh)) = does (stores_tokens access refresh) ∷ []

-- `step / (STEPS.length - 1) * 100`, as a fraction.
unfoldable pub progress : ℕ → ℕ × ℕ
progress step = (step * 100, 3)

-- A step in the header: before the current one, the current one, or after it.
pub data StepMark : Type 0 where
  completed current upcoming : StepMark

unfoldable pub mark : ℕ → ℕ → StepMark
mark i step = if ltb i step then completed else if i == step then current else upcoming

module _ (lower : Text → Text) where
  unfoldable pub registration : Account → Registration
  registration a = record {
    org_name = a.org_name;
    org_slug = or_else a.org_slug (plain_slug lower a.org_name);
    email = a.email;
    username = or_else a.username (split_on b'@' a.email).0;
    password = a.password;
  }

  unfoldable pub handle_account_submit : Setup → Setup × List SetupEffect
  unfolding registration
  handle_account_submit w =
      let a = w.account in
      if is_empty a.org_name || is_empty a.email || is_empty a.password
      then (w, does (tells_error (codes "Please fill in all required fields")) ∷ [])
      else (if text_eq a.password a.confirm_password
          then (record w { loading = true }, does (calls (register (registration a))) ∷ [])
          else (w, does (tells_error (codes "Passwords do not match")) ∷ []))

  -- Each button is there on its own step; that of the account is disabled while the request runs.
  unfoldable pub setup_step : SetupEvent → Setup → Setup × List SetupEffect
  unfolding handle_account_submit toggle_channel preferences_request
  setup_step (types_org_name s) w = (record w { account = record w.account { org_name = s } }, [])
  setup_step (types_email s) w = (record w { account = record w.account { email = s } }, [])
  setup_step (types_username s) w = (record w { account = record w.account { username = s } }, [])
  setup_step (types_password s) w = (record w { account = record w.account { password = s } }, [])
  setup_step (types_confirm s) w =
      (record w { account = record w.account { confirm_password = s } }, [])
  setup_step (types_hostname s) w = (record w { server = record w.server { hostname = s } }, [])
  setup_step (types_ip s) w = (record w { server = record w.server { ip = s } }, [])
  setup_step (types_slack_url s) w = (record w { notif = record w.notif { slack_url = s } }, [])
  setup_step (types_telegram_id s) w = (record w { notif = record w.notif { telegram_id = s } }, [])
  setup_step (toggles c) w = (record w { notif = toggle_channel c w.notif }, [])
  setup_step creates_account w =
      if w.step == 0 && not w.loading then handle_account_submit w else (w, [])
  setup_step (account_answered (succeeded tokens)) w =
      (record w { step = 1; loading = false }, stored tokens)
  setup_step (account_answered (failed message)) w = (
    record w { loading = false },
    does (tells_error (get_or message (codes "Registration failed"))) ∷ [],
  )
  setup_step backs w =
      if w.step == 1
      then (record w { step = 0 }, [])
      else (if w.step == 2 then (record w { step = 1 }, []) else (w, []))
  setup_step continues w = if w.step == 1 then (record w { step = 2 }, []) else (w, [])
  setup_step skips w = if w.step == 1 then (record w { step = 2 }, []) else (w, [])
  setup_step saves_notif w =
      (w, if w.step == 2 then saves (preferences_request w.notif) ∷ [] else [])
  setup_step notif_saved w = (record w { step = 3 }, [])
  setup_step opens_dashboard w =
      (w, if w.step == 3 then does (goes_to (codes "/dashboard")) ∷ [] else [])

  unfoldable pub setup_run : List SetupEvent → Setup → Setup × List SetupEffect
  unfolding setup_step
  setup_run [] w = (w, [])
  setup_run (e ∷ es) w =
      let first = setup_step e w in let rest = setup_run es first.0 in (rest.0, first.1 ++ rest.1)
