-- ===== src/Panel/Ftp.antt =====
-- apps/web/src/app/(panel)/ftp/page.tsx: the accounts, the form of a new one and the change of a password.
pub mod Laws
use xp_panel.Shared.{
  is_empty, ℤ, pos, negsuc, ℕ, zero, suc, ◌||◌, Text, codes, Bool, true, false, not, Option, none,
  some, List, [], ◌∷◌, ◌++◌, map, if◌then◌else◌, get_or, text_eq,
}
use xp_panel.Api.Hosting.{FtpCall, create, update_password, delete, toggle}
use xp_panel.Panel.Runs.{PageEffect, calls, invalidates, tells_success, tells_error}

pub record FtpAccount : Type 0 where
  pub id : Text
  pub username : Text
  pub home_dir : Text
  pub quota_mb : ℕ
  pub enabled : Bool
  pub created_at : Text

pub record FtpForm : Type 0 where
  pub username : Text
  pub password : Text
  pub home_dir : Text
  pub quota_mb : ℤ

abbrev pub blank_account : FtpForm
blank_account = record {
  username = [];
  password = [];
  home_dir = codes "/var/www";
  quota_mb = pos 0;
}

pub record FtpPage : Type 0 where
  pub show_form : Bool
  pub change_id : Option Text
  pub new_password : Text
  pub form : FtpForm
  pub creating : Bool

abbrev pub ftp_page : FtpPage
ftp_page = record {
  show_form = false;
  change_id = none;
  new_password = [];
  form = blank_account;
  creating = false;
}

-- The number input of the quota gives `parseInt(…) || 0`: `none` where there is no number.
pub data FtpEvent : Type 0 where
  toggles_form cancels submits cancels_change saves : FtpEvent
  types_username types_password types_home_dir types_new_password : Text → FtpEvent
  types_quota : Option ℤ → FtpEvent
  changes deletes toggles : Text → FtpEvent
  created deleted toggled changed : Bool → FtpEvent

unfoldable pub create_disabled : FtpPage → Bool
create_disabled p = is_empty p.form.username || is_empty p.form.password || p.creating

-- The button that saves a password is there for the account that is being changed, and disabled without one.
abbrev pub save_call : Option Text → Text → List (PageEffect FtpCall)
save_call none password = []
save_call (some i) [] = []
save_call (some i) (c ∷ s) = calls (update_password i (c ∷ s)) ∷ []

unfoldable pub ftp_step : FtpEvent → FtpPage → FtpPage × List (PageEffect FtpCall)
unfolding create_disabled
ftp_step toggles_form p = (record p { show_form = not p.show_form }, [])
ftp_step cancels p = (record p { show_form = false }, [])
ftp_step (types_username s) p = (record p { form = record p.form { username = s } }, [])
ftp_step (types_password s) p = (record p { form = record p.form { password = s } }, [])
ftp_step (types_home_dir s) p = (record p { form = record p.form { home_dir = s } }, [])
ftp_step (types_quota n) p = (record p { form = record p.form { quota_mb = get_or n (pos 0) } }, [])
ftp_step submits p = if create_disabled p || not p.show_form then (p, []) else (
  record p { creating = true },
  calls (create p.form.username p.form.password p.form.home_dir (some p.form.quota_mb)) ∷ [],
)
ftp_step (created true) p = (
  record p { show_form = false; form = blank_account; creating = false },
  invalidates (codes "ftp-accounts") ∷ tells_success (codes "FTP account created") ∷ [],
)
ftp_step (created false) p =
    (record p { creating = false }, tells_error (codes "Failed to create FTP account") ∷ [])
ftp_step (changes i) p = (record p { change_id = some i }, [])
ftp_step cancels_change p = (record p { change_id = none }, [])
ftp_step (types_new_password s) p = (record p { new_password = s }, [])
ftp_step saves p = (p, save_call p.change_id p.new_password)
ftp_step (changed true) p = (
  record p { change_id = none; new_password = [] },
  tells_success (codes "Password updated") ∷ [],
)
ftp_step (changed false) p = (p, tells_error (codes "Failed to update password") ∷ [])
ftp_step (toggles i) p = (p, calls (toggle i) ∷ [])
ftp_step (toggled true) p = (p, invalidates (codes "ftp-accounts") ∷ [])
ftp_step (toggled false) p = (p, [])
ftp_step (deletes i) p = (p, calls (delete i) ∷ [])
ftp_step (deleted true) p =
    (p, invalidates (codes "ftp-accounts") ∷ tells_success (codes "FTP account deleted") ∷ [])
ftp_step (deleted false) p = (p, [])

-- The rows of the accounts; how a number is printed is a parameter.
pub record FtpRow : Type 0 where
  pub row_username : Text
  pub row_details : Text
  pub changing : Bool
  pub switched_on : Bool

pub data FtpList : Type 0 where
  loading no_accounts : FtpList
  accounts : List FtpRow → FtpList

module _ (decimal : ℕ → Text) where
  abbrev quota_text : ℕ → Text
  quota_text zero = codes "Unlimited"
  quota_text (suc n) = decimal (suc n) ++ codes " MB"

  abbrev is_changing : Option Text → Text → Bool
  is_changing none i = false
  is_changing (some j) i = text_eq j i

  abbrev pub ftp_row : Option Text → FtpAccount → FtpRow
  ftp_row change_id a = record {
    row_username = a.username;
    row_details = a.home_dir ++ codes " · " ++ quota_text a.quota_mb;
    changing = is_changing change_id a.id;
    switched_on = a.enabled;
  }

  abbrev ftp_rows : Option Text → List FtpAccount → FtpList
  ftp_rows change_id [] = no_accounts
  ftp_rows change_id (a ∷ as') = accounts (map (ftp_row change_id) (a ∷ as'))

  unfoldable pub ftp_list : Bool → Option (List FtpAccount) → Option Text → FtpList
  ftp_list true o change_id = loading
  ftp_list false o change_id = ftp_rows change_id (get_or o [])
