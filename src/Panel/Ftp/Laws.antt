-- ===== src/Panel/Ftp/Laws.antt =====
-- ftp/page.tsx: what the page asks of the server, and the password that outlives its account.
use xp_panel.Shared.{
  filled, ◌≡◌, refl, ◌≢◌, Text, true, false, not, ◌||◌, Option, none, some, List, [], ◌∷◌, ◌++◌,
  All, arith, if_split,
}
use xp_panel.Api.Hosting.{FtpCall, create, update_password, delete, toggle, list}
use xp_panel.Panel.Runs.{PageEffect, calls, OfCalls, page_run, page_run-keeps}
use xp_panel.Panel.Ftp.{
  FtpPage, FtpEvent, create_disabled, save_call, ftp_step, toggles_form, cancels, submits,
  cancels_change, saves, types_username, types_password, types_home_dir, types_new_password,
  types_quota, changes, deletes, toggles, created, deleted, toggled, changed,
}

-- An account has a name and a password, and a new password is not empty.
abbrev pub IsFtpCall : FtpCall → Type 0
IsFtpCall (create username password home_dir quota) = (username ≢ []) × (password ≢ [])
IsFtpCall (update_password i password) = password ≢ []
IsFtpCall (delete i) = Unit
IsFtpCall (toggle i) = Unit
IsFtpCall list = ⊥

save-IsFtpCall : (o : Option Text) (s : Text) → All (OfCalls IsFtpCall) (save_call o s)
save-IsFtpCall none s = tt
save-IsFtpCall (some i) [] = tt
save-IsFtpCall (some i) (c ∷ s) = (λ k. absurd cc, tt)

ftp_step-IsFtpCall :
    (e : FtpEvent) (p : FtpPage) → Unit {0} → Unit {0} × All (OfCalls IsFtpCall) (ftp_step e p).1
unfolding ftp_step create_disabled
ftp_step-IsFtpCall toggles_form p h = (tt, tt)
ftp_step-IsFtpCall cancels p h = (tt, tt)
ftp_step-IsFtpCall submits p h = (
  tt,
  if_split {A = FtpPage × List (PageEffect FtpCall)} (λ r. All (OfCalls IsFtpCall) r.1)
      (create_disabled p || not p.show_form) _ _ (λ e. tt)
      (λ e. ((filled p.form.username (ground arith), filled p.form.password (ground arith)), tt)),
)
ftp_step-IsFtpCall cancels_change p h = (tt, tt)
ftp_step-IsFtpCall saves p h = (tt, save-IsFtpCall p.change_id p.new_password)
ftp_step-IsFtpCall (types_username s) p h = (tt, tt)
ftp_step-IsFtpCall (types_password s) p h = (tt, tt)
ftp_step-IsFtpCall (types_home_dir s) p h = (tt, tt)
ftp_step-IsFtpCall (types_new_password s) p h = (tt, tt)
ftp_step-IsFtpCall (types_quota n) p h = (tt, tt)
ftp_step-IsFtpCall (changes i) p h = (tt, tt)
ftp_step-IsFtpCall (deletes i) p h = (tt, (tt, tt))
ftp_step-IsFtpCall (toggles i) p h = (tt, (tt, tt))
ftp_step-IsFtpCall (created true) p h = (tt, (tt, (tt, tt)))
ftp_step-IsFtpCall (created false) p h = (tt, (tt, tt))
ftp_step-IsFtpCall (deleted true) p h = (tt, (tt, (tt, tt)))
ftp_step-IsFtpCall (deleted false) p h = (tt, tt)
ftp_step-IsFtpCall (toggled true) p h = (tt, (tt, tt))
ftp_step-IsFtpCall (toggled false) p h = (tt, tt)
ftp_step-IsFtpCall (changed true) p h = (tt, (tt, tt))
ftp_step-IsFtpCall (changed false) p h = (tt, (tt, tt))

-- Whatever is done on the FTP page, an account is only created with a name and a password, and a password is only changed to one that is not empty.
pub ftp_run-IsFtpCall :
    (es : List FtpEvent) (p : FtpPage) → All (OfCalls IsFtpCall) (page_run ftp_step es p).1
ftp_run-IsFtpCall es p =
    (page_run-keeps ftp_step (λ s. Unit {0}) (OfCalls IsFtpCall) ftp_step-IsFtpCall es p tt).1

-- A password that was typed for one account and cancelled is sent for the account that is changed next, if it is saved there.
pub cancelled_password_saved :
    (p : FtpPage) (j : Text)
    → p.new_password ≢ []
    → (page_run ftp_step (cancels_change ∷ changes j ∷ saves ∷ []) p).1
      ≡ calls (update_password j p.new_password) ∷ []
unfolding ftp_step page_run
cancelled_password_saved p j h = kept p.new_password h
  where
    kept : (s : Text) → s ≢ [] → save_call (some j) s ++ [] ≡ calls (update_password j s) ∷ []
    kept [] h = absurd (h refl)
    kept (c ∷ s) h = refl
