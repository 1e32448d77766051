-- ===== src/SignIn/Setup/Laws.antt =====
-- setup/page.tsx: what the wizard registers.
use xp_panel.Shared.{
  filled, is_empty, ◌≡◌, refl, ◌∙◌, ◌≢◌, ℕ, ◌==◌, ◌≤◌, ◌&&◌, ◌||◌, not, Text, true, false, All,
  All-append, Option, none, some, List, [], ◌∷◌, arith, if_both, if_split, text_eq,
}
use xp_panel.Api.Auth.{register}
use xp_panel.SignIn.{calls, succeeded, failed, Tokens}
use xp_panel.SignIn.Slugs.Laws.{IsPlainSlug, plain_slug-IsPlainSlug}
use xp_panel.SignIn.Setup.{
  Account, Setup, first_setup, SetupEvent, SetupEffect, does, stored, registration,
  handle_account_submit, setup_step, setup_run, types_org_name, types_email, types_username,
  types_password, types_confirm, types_hostname, types_ip, types_slack_url, types_telegram_id,
  toggles, creates_account, backs, continues, skips, saves_notif, opens_dashboard, notif_saved,
  account_answered,
}

-- What is registered: the required fields are filled, and the slug is that of the name in lower case.
abbrev pub IsFirstAccount : (Text → Text) → SetupEffect → Type 0
IsFirstAccount lower (does (calls (register r))) =
    (r.org_name ≢ [])
    × (r.email ≢ [])
    × (r.password ≢ [])
    × IsPlainSlug (lower r.org_name) r.org_slug
IsFirstAccount lower (does (calls c)) = ⊥
IsFirstAccount lower e = Unit

-- The steps are four, and no field of the page writes the slug.
record IsWizard (w : Setup) : Type 0 where
  bounded : w.step ≤ 3
  no_slug : w.account.org_slug ≡ []

rebuilt :
    (w v : Setup)
    → IsWizard w
    → v.step ≡ w.step
    → v.account.org_slug ≡ w.account.org_slug
    → IsWizard v
rebuilt w v h e k = record { bounded = rw e h.bounded; no_slug = k ∙ h.no_slug }

module _ (lower : Text → Text) where
  abbrev Keeps : Setup × List SetupEffect → Type 0
  Keeps r = IsWizard r.0 × All (IsFirstAccount lower) r.1

  stays : {w : Setup} → IsWizard w → Keeps (w, [])
  stays h = (h, tt)

  registration-IsFirstAccount :
      (a : Account)
      → a.org_slug ≡ []
      → is_empty a.org_name || is_empty a.email || is_empty a.password ≡ false
      → IsFirstAccount lower (does (calls (register (registration lower a))))
  unfolding registration
  registration-IsFirstAccount a e h = (
    filled a.org_name (ground arith),
    filled a.email (ground arith),
    filled a.password (ground arith),
    rw e (plain_slug-IsPlainSlug lower a.org_name),
  )

  submit-Keeps : (w : Setup) → IsWizard w → Keeps (handle_account_submit lower w)
  unfolding handle_account_submit
  submit-Keeps w h =
      if_split {A = Setup × List SetupEffect} Keeps
        (is_empty w.account.org_name || is_empty w.account.email || is_empty w.account.password) _ _
        (λ e. (h, (tt, tt)))
        (λ e.
          if_both {A = Setup × List SetupEffect} Keeps
            (text_eq w.account.password w.account.confirm_password) _ _
            (
              rebuilt w (record w { loading = true }) h refl refl,
              (registration-IsFirstAccount w.account h.no_slug e, tt),
            )
            (h, (tt, tt)))

  moves : (w : Setup) (n : ℕ) → n ≤ 3 → IsWizard w → Keeps (record w { step = n }, [])
  moves w n k h = (record { bounded = k; no_slug = h.no_slug }, tt)

  stored-IsFirstAccount : (tokens : Option Tokens) → All (IsFirstAccount lower) (stored tokens)
  stored-IsFirstAccount none = tt
  stored-IsFirstAccount (some t) = (tt, tt)

  step-Keeps : (e : SetupEvent) (w : Setup) → IsWizard w → Keeps (setup_step lower e w)
  unfolding setup_step
  step-Keeps (types_org_name s) w h = (rebuilt w _ h refl refl, tt)
  step-Keeps (types_email s) w h = (rebuilt w _ h refl refl, tt)
  step-Keeps (types_username s) w h = (rebuilt w _ h refl refl, tt)
  step-Keeps (types_password s) w h = (rebuilt w _ h refl refl, tt)
  step-Keeps (types_confirm s) w h = (rebuilt w _ h refl refl, tt)
  step-Keeps (types_hostname s) w h = (rebuilt w _ h refl refl, tt)
  step-Keeps (types_ip s) w h = (rebuilt w _ h refl refl, tt)
  step-Keeps (types_slack_url s) w h = (rebuilt w _ h refl refl, tt)
  step-Keeps (types_telegram_id s) w h = (rebuilt w _ h refl refl, tt)
  step-Keeps (toggles c) w h = (rebuilt w _ h refl refl, tt)
  step-Keeps creates_account w h =
      if_both {A = Setup × List SetupEffect} Keeps (w.step == 0 && not w.loading) _ _
        (submit-Keeps w h) (stays h)
  step-Keeps (account_answered (succeeded tokens)) w h =
      (record { bounded = omega arith; no_slug = h.no_slug }, stored-IsFirstAccount tokens)
  step-Keeps (account_answered (failed message)) w h = (rebuilt w _ h refl refl, (tt, tt))
  step-Keeps backs w h =
      if_both {A = Setup × List SetupEffect} Keeps (w.step == 1) _ _ (moves w 0 (omega arith) h) (
        if_both {A = Setup × List SetupEffect} Keeps (w.step == 2) _ _ (moves w 1 (omega arith) h)
          (stays h))
  step-Keeps continues w h =
      if_both {A = Setup × List SetupEffect} Keeps (w.step == 1) _ _ (moves w 2 (omega arith) h)
        (stays h)
  step-Keeps skips w h =
      if_both {A = Setup × List SetupEffect} Keeps (w.step == 1) _ _ (moves w 2 (omega arith) h)
        (stays h)
  step-Keeps saves_notif w h =
      (h, if_both (All (IsFirstAccount lower)) (w.step == 2) _ _ (tt, tt) tt)
  step-Keeps notif_saved w h = moves w 3 (omega arith) h
  step-Keeps opens_dashboard w h =
      (h, if_both (All (IsFirstAccount lower)) (w.step == 3) _ _ (tt, tt) tt)

  run-Keeps : (es : List SetupEvent) (w : Setup) → IsWizard w → Keeps (setup_run lower es w)
  unfolding setup_run
  run-Keeps [] w h = stays h
  run-Keeps (e ∷ es) w h =
      let first = step-Keeps e w h in
      let rest = run-Keeps es _ first.0 in
      (rest.0, All-append (IsFirstAccount lower) _ _ first.1 rest.1)

  -- Whatever is done from the first state of the wizard on, its step is one of the four, and an account is only registered with a name, an address and a password, and with the slug made of the name: its small letters and digits in lower case, and a hyphen for each other character.
  pub setup_run-IsFirstAccount :
      (es : List SetupEvent)
      → ((setup_run lower es first_setup).0.step ≤ 3)
        × All (IsFirstAccount lower) (setup_run lower es first_setup).1
  setup_run-IsFirstAccount es =
      let r = run-Keeps es first_setup (record { bounded = omega arith; no_slug = refl }) in
      (r.0.bounded, r.1)
