-- ===== src/SignIn/Reset/Laws.antt =====
-- reset-password/page.tsx: the strength shown, and what reaches the server.
use xp_panel.Shared.{
  ◌≡◌, refl, ◌≢◌, ℕ, zero, suc, ◌≤◌, leb, ◌&&◌, not, Text, codes, Bool, true, false, any, All,
  All-append, length, keep, length-keep-le, if_both, Option, none, List, [], ◌∷◌, arith, Bool-cases,
  inl, inr, text_eq, text_eq_refl,
}
use xp_panel.Api.Auth.{reset_password}
use xp_panel.SignIn.{Effect, calls}
use xp_panel.SignIn.Characters.{is_upper, is_lower, is_digit, is_symbol}
use xp_panel.SignIn.Register.{password_error}
use xp_panel.SignIn.Reset.{
  checks, score, bars_from, bars, colors, ResetPage, is_valid, ResetEvent, handle_submit,
  reset_step, reset_run, token, has_token, types_password, types_confirm, toggles_password, submits,
  timer_fires, answers,
}

-- The bars that are lit.
abbrev pub lit : List Text → ℕ
lit cs = length (keep (λ c. not (text_eq c (codes "bg-muted"))) cs)

passed : Bool → Bool → Bool → Bool → Bool → ℕ
passed a b c d e = length (keep (λ b. b) (a ∷ b ∷ c ∷ d ∷ e ∷ []))

score-passed :
    (s : Text)
    → score s
      ≡ passed
          (leb 8 (length s))
          (any is_upper s)
          (any is_lower s)
          (any is_digit s)
          (any is_symbol s)
unfolding score checks passed
score-passed s = ground arith

passed_most : (a b c d e : Bool) → passed a b c d e ≤ 5
unfolding passed
passed_most a b c d e = length-keep-le (λ x. x) (a ∷ b ∷ c ∷ d ∷ e ∷ [])

passed_three : (c e : Bool) → 3 ≤ passed true true c true e
unfolding passed
passed_three true true = omega arith
passed_three true false = omega arith
passed_three false true = omega arith
passed_three false false = omega arith

accepted :
    (s : Text)
    → password_error s ≡ none
    → (leb 8 (length s) ≡ true) × (any is_upper s ≡ true) × (any is_digit s ≡ true)
unfolding password_error
accepted s h = ground arith

lit_up : (n : ℕ) → n ≤ 5 → lit (bars_from 0 n colors) ≡ n
unfolding bars_from text_eq
lit_up zero h = refl
lit_up (suc zero) h = refl
lit_up (suc (suc zero)) h = refl
lit_up (suc (suc (suc zero))) h = refl
lit_up (suc (suc (suc (suc zero)))) h = refl
lit_up (suc (suc (suc (suc (suc zero))))) h = refl
lit_up (suc (suc (suc (suc (suc (suc n)))))) h = absurd (omega arith)

-- As many bars are lit as checks hold.
pub lit-bars : (password : Text) → lit (bars password) ≡ score password
lit-bars s = lit_up (score s) (rw (score-passed s) (passed_most _ _ _ _ _))

-- A password that registration accepts is accepted here once it is repeated, and three, four or five of the five bars are lit for it.
pub registered-is_valid :
    (password : Text)
    → password_error password ≡ none
    → (is_valid password password ≡ true)
      × (length (bars password) ≡ 5)
      × (3 ≤ lit (bars password))
      × (lit (bars password) ≤ 5)
unfolding is_valid bars_from
registered-is_valid s h =
    let (long, upper, digit) = accepted s h in
    (
      rw (long, text_eq_refl s) refl,
      refl,
      rw (lit-bars s, score-passed s, long, upper, digit)
          (passed_three (any is_lower s) (any is_symbol s)),
      rw (lit-bars s, score-passed s) (passed_most _ _ _ _ _),
    )

-- The new password that a request carries.
abbrev pub IsNewPassword : Text → Effect → Type 0
IsNewPassword link (calls (reset_password t password)) =
    (t ≡ link) × (link ≢ []) × (8 ≤ length password)
IsNewPassword link (calls c) = ⊥
IsNewPassword link e = Unit

module _ (token_parameter : Option Text) where
  abbrev Sends : Effect → Type 0
  Sends = IsNewPassword (token token_parameter)

  has_token_nonempty : (s : Text) → has_token token_parameter s ≡ true → s ≢ []
  has_token_nonempty [] h = absurd cc
  has_token_nonempty (c ∷ s) h = λ k. absurd cc

  submit-Sends : (p : ResetPage) → All Sends (handle_submit token_parameter p).1
  unfolding handle_submit is_valid
  submit-Sends p =
      elim (Bool-cases (
        is_valid p.password p.confirm
        && has_token token_parameter (token token_parameter)
        && not p.loading
        && not p.done)) [
          | inl e ↦
              rw e (
                (refl, has_token_nonempty (token token_parameter) (ground arith), ground arith),
                tt,
              )
          | inr e ↦ rw e tt
        ]

  step-Sends : (e : ResetEvent) (p : ResetPage) → All Sends (reset_step token_parameter e p).1
  unfolding reset_step
  step-Sends (types_password s) p = tt
  step-Sends (types_confirm s) p = tt
  step-Sends toggles_password p = tt
  step-Sends submits p = submit-Sends p
  step-Sends timer_fires p = if_both (All Sends) p.done _ _ (tt, tt) tt
  step-Sends (answers true) p = tt
  step-Sends (answers false) p = (tt, tt)

  -- Whatever is done on the page, a request carries the token of the link, which is not empty, and a password of eight characters or more.
  pub reset_run-Sends :
      (es : List ResetEvent) (p : ResetPage) → All Sends (reset_run token_parameter es p).1
  unfolding reset_run
  reset_run-Sends [] p = tt
  reset_run-Sends (e ∷ es) p = All-append Sends _ _ (step-Sends e p) (reset_run-Sends es _)
