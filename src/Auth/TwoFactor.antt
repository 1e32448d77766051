-- ===== src/Auth/TwoFactor.antt =====
-- apps/web/src/app/(auth)/two-factor/page.tsx: the six boxes of the code, the backup code and the request
-- that verifies them. The answer of the endpoint is a further call, with the tokens if it has some.
pub mod Laws
use xp_panel.Shared.{
  ℕ, zero, suc, ◌+◌, ◌-◌, ◌==◌, leb, ltb, Text, codes, Bool, true, false, not, ◌||◌, ◌&&◌, Option,
  none, some, List, [], ◌∷◌, ◌++◌, take, keep, all, length, get_elem?, get_or, if◌then◌else◌,
  text_eq,
}

pub record TwoFactor : Type 0 where
  pub digits : List Text
  pub loading : Bool
  pub use_backup : Bool
  pub backup_code : Text

abbrev pub no_digits : List Text
no_digits = [] ∷ [] ∷ [] ∷ [] ∷ [] ∷ [] ∷ []

abbrev pub fresh_page : TwoFactor
fresh_page = record { digits = no_digits; loading = false; use_backup = false; backup_code = [] }

-- What the page does: a box gets the focus, a code of the session is verified (as a backup code or
-- not), a message is shown, tokens are stored, the router goes to the dashboard.
pub data Step : Type 0 where
  focuses : ℕ → Step
  verifies : Text → Text → Bool → Step
  tells_error : Text → Step
  stores_tokens : Text → Text → Step
  goes_to_dashboard : Step

-- The code units of the digits, and the test /^\d?$/.
abbrev pub is_digit_code : ℕ → Bool
is_digit_code c = leb 48 c && leb c 57

unfoldable pub is_box_text : Text → Bool
is_box_text [] = true
is_box_text (c ∷ []) = is_digit_code c
is_box_text (c ∷ d ∷ s) = false

abbrev pub is_filled : Text → Bool
is_filled [] = false
is_filled (c ∷ s) = true

-- `next[index] = value`, for an index of a box.
unfoldable pub set_box : ℕ → Text → List Text → List Text
set_box i value [] = []
set_box zero value (b ∷ bs) = value ∷ bs
set_box (suc i) value (b ∷ bs) = b ∷ set_box i value bs

-- `join('')`.
unfoldable pub join_boxes : List Text → Text
join_boxes [] = []
join_boxes (b ∷ bs) = b ++ join_boxes bs

-- `submit`, up to the answer.
unfoldable pub submit : Option Text → Text → TwoFactor → TwoFactor × List Step
submit none otp p = (p, tells_error (codes "Session expired — please log in again") ∷ [])
submit (some session) otp p = (record p { loading = true }, verifies session otp false ∷ [])

-- The tokens of an answer, and the dashboard.
abbrev pub signed_in : Option (Text × Text) → List Step
signed_in none = goes_to_dashboard ∷ []
signed_in (some (access, refresh)) = stores_tokens access refresh ∷ goes_to_dashboard ∷ []

-- The answer to `submit`: none where it failed.
unfoldable pub submit_answer : Option (Option (Text × Text)) → TwoFactor → TwoFactor × List Step
submit_answer none p = (
  record p { digits = no_digits; loading = false },
  tells_error (codes "Invalid code. Try again.") ∷ focuses 0 ∷ [],
)
submit_answer (some tokens) p = (record p { loading = false }, signed_in tokens)

unfoldable pub submit_backup : Option Text → TwoFactor → TwoFactor × List Step
submit_backup none p = (p, tells_error (codes "Session expired") ∷ [])
submit_backup (some session) p =
    (record p { loading = true }, verifies session p.backup_code true ∷ [])

unfoldable pub backup_answer : Option (Option (Text × Text)) → TwoFactor → TwoFactor × List Step
backup_answer none p =
    (record p { loading = false }, tells_error (codes "Invalid backup code.") ∷ [])
backup_answer (some tokens) p = (record p { loading = false }, signed_in tokens)

module _ (session : Option Text) where
  unfoldable pub handle_digit : ℕ → Text → TwoFactor → TwoFactor × List Step
  unfolding submit set_box join_boxes
  handle_digit index value p =
      let next = set_box index value p.digits in
      let p' = record p { digits = next } in
      let focus = if is_filled value && ltb index 5 then focuses (index + 1) ∷ [] else [] in
      let sent = submit session (join_boxes next) p' in
      if is_box_text value
      then (if all is_filled next then (sent.0, focus ++ sent.1) else (p', focus))
      else (p, [])

  unfoldable pub handle_backspace : ℕ → TwoFactor → List Step
  handle_backspace zero p = []
  handle_backspace (suc i) p =
      if is_filled (get_or (get_elem? p.digits (suc i)) []) then [] else focuses i ∷ []

  -- The digits of what is pasted, at most six.
  unfoldable pub pasted_digits : Text → Text
  pasted_digits t = take 6 (keep is_digit_code t)

  abbrev pub boxes_of : Text → List Text
  boxes_of [] = []
  boxes_of (c ∷ s) = (c ∷ []) ∷ boxes_of s

  unfoldable pub handle_paste : Text → TwoFactor → TwoFactor × List Step
  unfolding submit pasted_digits
  handle_paste t p =
      let code = pasted_digits t in
      if length code == 6
      then submit session code (record p { digits = boxes_of code })
      else (p, [])
