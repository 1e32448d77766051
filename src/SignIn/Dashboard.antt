-- ===== src/SignIn/Dashboard.antt =====
-- The pages before the panel and the auth store together: the effects of a page on the browser, in their order.
use xp_panel.Shared.{
  ◌≡◌, refl, ◌≢◌, sym, ◌∙◌, ap, Text, codes, Bool, true, Option, none, some, List, [], ◌∷◌, ◌++◌,
  length, ◌==◌, ◌&&◌, not, ℕ, ◌≤◌, length-append, if_both, Option-cases, inl, inr, arith,
}
use xp_panel.Auth.Browser.{Browser, AuthState, Payload}
use xp_panel.Auth.Store.{set_tokens, state_of_tokens, claims_part}
use xp_panel.SignIn.{
  Effect, calls, stores_tokens, tells_success, tells_error, goes_to, opens, Tokens, signed_in,
  Answer, succeeded, failed,
}
use xp_panel.SignIn.Login.{
  LoginPage, LoginEvent, LoginResult, challenge, login_step, login_run, login_schema, on_submit,
  on_mfa_submit, on_answer, types_email, types_password, types_code, toggles_password, submits,
  submits_code, goes_back, answers, answers_code, picks_provider,
}
use xp_panel.Api.Auth.{Provider, oauth_url, provider_name}

state_authenticated :
    (o : Option Payload) (access refresh : Text) (s : AuthState)
    → (state_of_tokens o access refresh s).is_authenticated ≡ true
unfolding state_of_tokens
state_authenticated none access refresh s = refl
state_authenticated (some p) access refresh s = refl

longer : (c : ℕ) (s t u : Text) → 19 ≤ length t → 20 ≤ length ((c ∷ s) ++ t ++ u)
longer c s t u h = omega (arith, length-append (s ++ t) u, length-append s t)

-- The address of a provider is longer than that of the dashboard.
oauth_long : (api_url : Option Text) (p : Provider) → 20 ≤ length (oauth_url api_url p)
unfolding oauth_url
oauth_long none p = omega arith
oauth_long (some []) p = omega arith
oauth_long (some (c ∷ s)) p =
    longer c s (codes "/api/v1/auth/oauth/") (provider_name p) (omega arith)

oauth_elsewhere : (api_url : Option Text) (p : Provider) → oauth_url api_url p ≢ codes "/dashboard"
oauth_elsewhere api_url p h =
    let e : length (oauth_url api_url p) ≡ 10 = ap length h in
    absurd (omega (arith, oauth_long api_url p))

module _ (b : Browser) where
  open b use {World, memory, location, go_to, decode, memory-set, memory-go_to, location-go_to}

  unfoldable pub perform : List Effect → World → World
  perform [] w = w
  perform (stores_tokens access refresh ∷ es) w = perform es (set_tokens b access refresh w)
  perform (goes_to path ∷ es) w = perform es (go_to path w)
  perform (opens url ∷ es) w = perform es (go_to url w)
  perform (calls c ∷ es) w = perform es w
  perform (tells_success s ∷ es) w = perform es w
  perform (tells_error s ∷ es) w = perform es w

  -- Whoever is on the dashboard is signed in.
  abbrev pub IsGuarded : World → Type 0
  IsGuarded w = location w ≡ codes "/dashboard" → (memory w).is_authenticated ≡ true

  abbrev Keeps : List Effect → Type 0
  Keeps es = (w : World) → IsGuarded w → IsGuarded (perform es w)

  perform-append :
      (xs ys : List Effect) (w : World) → perform (xs ++ ys) w ≡ perform ys (perform xs w)
  unfolding perform
  perform-append [] ys w = refl
  perform-append (stores_tokens access refresh ∷ es) ys w = perform-append es ys _
  perform-append (goes_to path ∷ es) ys w = perform-append es ys _
  perform-append (opens url ∷ es) ys w = perform-append es ys _
  perform-append (calls c ∷ es) ys w = perform-append es ys w
  perform-append (tells_success s ∷ es) ys w = perform-append es ys w
  perform-append (tells_error s ∷ es) ys w = perform-append es ys w

  append-Keeps : (xs ys : List Effect) → Keeps xs → Keeps ys → Keeps (xs ++ ys)
  append-Keeps xs ys h k w g = rw (perform-append xs ys w) (k _ (h w g))

  stored_authenticated :
      (access refresh : Text) (w : World)
      → (memory (set_tokens b access refresh w)).is_authenticated ≡ true
  unfolding set_tokens
  stored_authenticated access refresh w =
      rw (memory-set) (state_authenticated (decode (claims_part access)) access refresh (memory w))

  signed_in-Keeps : (greeting : Text) (tokens : Option Tokens) → Keeps (signed_in greeting tokens)
  unfolding perform
  signed_in-Keeps greeting none w g = g
  signed_in-Keeps greeting (some (access, refresh)) w g =
      λ e. rw (memory-go_to) (stored_authenticated access refresh w)

  leaves-Keeps : (path : Text) (w : World) → path ≢ codes "/dashboard" → IsGuarded (go_to path w)
  leaves-Keeps path w h e = absurd (h (sym (location-go_to path w) ∙ e))

  oauth-Keeps : (api_url : Option Text) (p : Provider) → Keeps (opens (oauth_url api_url p) ∷ [])
  unfolding perform
  oauth-Keeps api_url p w g = leaves-Keeps _ w (oauth_elsewhere api_url p)

  module _ (is_email : Text → Bool) (api_url : Option Text) where
    on_submit-Keeps : (p : LoginPage) → Keeps (on_submit is_email api_url p).1
    unfolding on_submit perform
    on_submit-Keeps p =
        if_both {A = LoginPage × List Effect} (λ r. Keeps r.1)
          (login_schema is_email api_url p && not p.submitting) _ _ (λ w g. g) (λ w g. g)

    mfa_submit-Keeps : (p : LoginPage) → Keeps (on_mfa_submit is_email api_url p).1
    unfolding on_mfa_submit perform
    mfa_submit-Keeps p = if_both Keeps (length p.mfa_code == 6) _ _ (λ w g. g) (λ w g. g)

    on_answer-Keeps :
        (a : Answer LoginResult) (p : LoginPage) → Keeps (on_answer is_email api_url a p).1
    unfolding on_answer perform
    on_answer-Keeps (succeeded r) p = elim (Option-cases (challenge r.mfa_required r.temp_token)) [
      | inl e ↦ rw e (signed_in-Keeps _ r.tokens)
      | inr (t, e) ↦ rw e (λ w g. g)
    ]
    on_answer-Keeps (failed message) p = λ w g. g

    login_step-Keeps : (e : LoginEvent) (p : LoginPage) → Keeps (login_step is_email api_url e p).1
    unfolding login_step perform
    login_step-Keeps (types_email s) p = λ w g. g
    login_step-Keeps (types_password s) p = λ w g. g
    login_step-Keeps (types_code s) p = λ w g. g
    login_step-Keeps toggles_password p = λ w g. g
    login_step-Keeps submits p =
        if_both {A = LoginPage × List Effect} (λ r. Keeps r.1) p.mfa_required _ _ (λ w g. g)
          (on_submit-Keeps p)
    login_step-Keeps submits_code p =
        if_both {A = LoginPage × List Effect} (λ r. Keeps r.1) p.mfa_required _ _
          (mfa_submit-Keeps p) (λ w g. g)
    login_step-Keeps goes_back p = λ w g. g
    login_step-Keeps (answers a) p = on_answer-Keeps a p
    login_step-Keeps (answers_code (succeeded tokens)) p = signed_in-Keeps _ tokens
    login_step-Keeps (answers_code (failed message)) p = λ w g. g
    login_step-Keeps (picks_provider provider) p = oauth-Keeps api_url provider

    -- Whatever is done on the login page, its effects on the browser leave the dashboard to those who are signed in.
    pub login_run-IsGuarded :
        (es : List LoginEvent) (p : LoginPage) (w : World)
        → IsGuarded w
        → IsGuarded (perform (login_run is_email api_url es p).1 w)
    unfolding login_run perform
    login_run-IsGuarded [] p w g = g
    login_run-IsGuarded (e ∷ es) p w g =
        append-Keeps (login_step is_email api_url e p).1 _ (login_step-Keeps e p)
          (login_run-IsGuarded es _) w g
