-- ===== src/SignIn/Login/Laws.antt =====
-- login/page.tsx: what is sent to verify a second factor.
use xp_panel.Shared.{
  ◌≡◌, refl, ◌≢◌, ==_iff, ◌==◌, ◌&&◌, not, Text, Bool, true, false, all, All, length, keep, Option,
  none, some, List, [], ◌∷◌, arith, Bool-cases, Option-cases, inl, inr, if_both, if_split,
  if◌then◌else◌,
}
use xp_panel.Api.Auth.{login, verify_mfa}
use xp_panel.SignIn.{Effect, calls, succeeded, failed, Tokens, signed_in}
use xp_panel.SignIn.Characters.{is_digit}
use xp_panel.SignIn.Login.{
  LoginResult, LoginPage, empty_login, LoginEvent, challenge, login_schema, on_submit, on_answer,
  on_mfa_submit, login_step, login_run, types_email, types_password, types_code, toggles_password,
  submits, submits_code, goes_back, answers, answers_code, picks_provider,
}

-- The token that an answer of the server offers for a second factor.
abbrev pub offered : Option Bool → Option Text → Option Text
offered (some true) (some (c ∷ s)) = some (c ∷ s)
offered (some true) (some []) = none
offered (some true) none = none
offered (some false) o = none
offered none o = none

abbrev pub or_before : Option Text → Option Text → Option Text
or_before none before = before
or_before (some t) before = some t

-- The token of the last answer that asks for a second factor, from the one before an event.
abbrev pub challenge_after : LoginEvent → Option Text → Option Text
challenge_after (answers (succeeded r)) o = or_before (offered r.mfa_required r.temp_token) o
challenge_after e o = o

abbrev pub last_challenge : List LoginEvent → Option Text → Option Text
last_challenge [] o = o
last_challenge (e ∷ es) o = last_challenge es (challenge_after e o)

-- A password is sent with an address, a second factor with the token `o` of a challenge and six digits.
abbrev pub IsCredential : (Text → Bool) → Option Text → Effect → Type 0
IsCredential is_email o (calls (login email password)) = (is_email email ≡ true) × (password ≢ [])
IsCredential is_email o (calls (verify_mfa session code backup)) =
    (o ≡ some session)
    × (session ≢ [])
    × (length code ≡ 6)
    × (all is_digit code ≡ true)
    × (backup ≡ none)
IsCredential is_email o (calls c) = ⊥
IsCredential is_email o e = Unit

record HasChallenge (o : Option Text) (p : LoginPage) : Type 0 where
  digits : all is_digit p.mfa_code ≡ true
  session : p.mfa_required ≡ true → (o ≡ some p.temp_token) × (p.temp_token ≢ [])

kept_digits : (s : Text) → all is_digit (keep is_digit s) ≡ true
kept_digits [] = refl
kept_digits (c ∷ s) = ground (arith, kept_digits s)

challenge_token :
    (b : Option Bool) (o : Option Text) (token : Text) → challenge b o ≡ some token → token ≢ []
unfolding challenge
challenge_token (some true) (some (c ∷ s)) token h = λ k. absurd cc
challenge_token (some true) (some []) token h = absurd cc
challenge_token (some true) none token h = absurd cc
challenge_token (some false) o token h = absurd cc
challenge_token none o token h = absurd cc

offered-challenge : (b : Option Bool) (o : Option Text) → offered b o ≡ challenge b o
unfolding challenge
offered-challenge (some true) (some (c ∷ s)) = refl
offered-challenge (some true) (some []) = refl
offered-challenge (some true) none = refl
offered-challenge (some false) o = refl
offered-challenge none o = refl

module _ (is_email : Text → Bool) (api_url : Option Text) where
  greeted :
      (o : Option Text) (greeting : Text) (tokens : Option Tokens)
      → All (IsCredential is_email o) (signed_in greeting tokens)
  greeted o greeting none = tt
  greeted o greeting (some t) = (tt, (tt, (tt, tt)))

  -- The challenge `o` before an event is that of what the event sends, and `q` the one after it.
  abbrev Keeps : Option Text → Option Text → LoginPage × List Effect → Type 0
  Keeps o q r = HasChallenge q r.0 × All (IsCredential is_email o) r.1

  on_submit-Keeps :
      (o : Option Text) (p : LoginPage)
      → HasChallenge o p
      → Keeps o o (on_submit is_email api_url p)
  unfolding on_submit login_schema
  on_submit-Keeps o p h = elim (Bool-cases (login_schema is_email api_url p && not p.submitting)) [
    | inl e ↦
        rw e (
          record { digits = h.digits; session = h.session },
          ((ground arith, λ k. ground arith), tt),
        )
    | inr e ↦ rw e (h, tt)
  ]

  answer-Keeps :
      (r : LoginResult) (o : Option Text) (p : LoginPage)
      → HasChallenge o p
      → Keeps o
          (challenge_after (answers (succeeded r)) o)
          (on_answer is_email api_url (succeeded r) p)
  unfolding on_answer
  answer-Keeps r o p h = elim (Option-cases (challenge r.mfa_required r.temp_token)) [
    | inl e ↦
        rw (offered-challenge r.mfa_required r.temp_token, e)
          (record { digits = h.digits; session = h.session }, greeted o _ r.tokens)
    | inr (t, e) ↦
        rw (offered-challenge r.mfa_required r.temp_token, e)
          (
            record {
              digits = h.digits;
              session = λ k. (refl, challenge_token r.mfa_required r.temp_token t e);
            },
            tt,
          )
  ]

  code-IsCredential :
      (o : Option Text) (p : LoginPage)
      → HasChallenge o p
      → p.mfa_required ≡ true
      → All (IsCredential is_email o) (on_mfa_submit is_email api_url p).1
  unfolding on_mfa_submit
  code-IsCredential o p h e = elim (Bool-cases (length p.mfa_code == 6)) [
    | inl k ↦
        let (same, given) = h.session e in
        rw k ((same, given, (==_iff (length p.mfa_code) 6).0 k, h.digits, refl), tt)
    | inr k ↦ rw k tt
  ]

  mfa_submit-Keeps :
      (o : Option Text) (p : LoginPage)
      → HasChallenge o p
      → Keeps o o (if p.mfa_required then on_mfa_submit is_email api_url p else (p, []))
  unfolding on_mfa_submit
  mfa_submit-Keeps o p h =
      if_split {A = LoginPage × List Effect} (Keeps o o) p.mfa_required _ _
        (λ e. (h, code-IsCredential o p h e)) (λ e. (h, tt))

  login_step-Keeps :
      (e : LoginEvent) (o : Option Text) (p : LoginPage)
      → HasChallenge o p
      → Keeps o (challenge_after e o) (login_step is_email api_url e p)
  unfolding login_step on_mfa_submit on_answer
  login_step-Keeps (types_email s) o p h = (record { digits = h.digits; session = h.session }, tt)
  login_step-Keeps (types_password s) o p h =
      (record { digits = h.digits; session = h.session }, tt)
  login_step-Keeps (types_code s) o p h =
      (record { digits = kept_digits s; session = h.session }, tt)
  login_step-Keeps toggles_password o p h = (record { digits = h.digits; session = h.session }, tt)
  login_step-Keeps submits o p h =
      if_both {A = LoginPage × List Effect} (Keeps o o) p.mfa_required _ _ (h, tt)
        (on_submit-Keeps o p h)
  login_step-Keeps submits_code o p h = mfa_submit-Keeps o p h
  login_step-Keeps goes_back o p h = (record { digits = h.digits; session = λ k. absurd cc }, tt)
  login_step-Keeps (answers (succeeded r)) o p h = answer-Keeps r o p h
  login_step-Keeps (answers (failed m)) o p h =
      (record { digits = h.digits; session = h.session }, (tt, tt))
  login_step-Keeps (answers_code (succeeded tokens)) o p h = (h, greeted o _ tokens)
  login_step-Keeps (answers_code (failed m)) o p h = (h, (tt, tt))
  login_step-Keeps (picks_provider q) o p h = (h, (tt, tt))

  run-HasChallenge :
      (es : List LoginEvent) (o : Option Text) (p : LoginPage)
      → HasChallenge o p
      → HasChallenge (last_challenge es o) (login_run is_email api_url es p).0
  unfolding login_run
  run-HasChallenge [] o p h = h
  run-HasChallenge (e ∷ es) o p h =
      run-HasChallenge es (challenge_after e o) _ (login_step-Keeps e o p h).0

  -- Whatever was done from the empty page on, an event then sends a password only with an address and not empty, and a second factor only with the token of the last answer that asked for one and a code of six digits; nothing else is asked of the server.
  pub login_run-IsCredential :
      (es : List LoginEvent) (e : LoginEvent)
      → All
          (IsCredential is_email (last_challenge es none))
          (login_step is_email api_url e (login_run is_email api_url es empty_login).0).1
  login_run-IsCredential es e =
      (login_step-Keeps e (last_challenge es none) _ (
        run-HasChallenge es none empty_login
          (record { digits = refl; session = λ k. absurd cc }))).1
