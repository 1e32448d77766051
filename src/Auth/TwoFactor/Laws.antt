-- ===== src/Auth/TwoFactor/Laws.antt =====
-- two-factor/page.tsx: only codes of six digits are sent.
use xp_panel.Shared.{
  All-append, ℕ, zero, suc, ◌+◌, ◌≡◌, refl, ap, ◌∙◌, Text, Bool, true, false, ◌&&◌, Option, none,
  some, List, [], ◌∷◌, all, All, length, Bool-cases, inl, inr, if◌then◌else◌, ltb, arith,
}
use xp_panel.Auth.TwoFactor.{
  TwoFactor, Step, verifies, focuses, is_digit_code, is_box_text, is_filled, set_box, join_boxes,
  submit, handle_digit,
}

-- The boxes are empty or hold one digit.
abbrev pub HasBoxes : TwoFactor → Type 0
HasBoxes p = (length p.digits ≡ 6) × All (λ b. is_box_text b ≡ true) p.digits

-- A request sends six digits.
abbrev pub SendsDigits : Step → Type 0
SendsDigits (verifies session code backup) = (length code ≡ 6) × (all is_digit_code code ≡ true)
SendsDigits _ = Unit {0}

set_box-All :
    (i : ℕ) (v : Text) (bs : List Text)
    → is_box_text v ≡ true
    → All (λ b. is_box_text b ≡ true) bs
    → All (λ b. is_box_text b ≡ true) (set_box i v bs)
unfolding set_box
set_box-All i v [] h k = tt
set_box-All zero v (b ∷ bs) h k = (h, k.1)
set_box-All (suc i) v (b ∷ bs) h k = (k.0, set_box-All i v bs h k.1)

length-set_box : (i : ℕ) (v : Text) (bs : List Text) → length (set_box i v bs) ≡ length bs
unfolding set_box
length-set_box i v [] = refl
length-set_box zero v (b ∷ bs) = refl
length-set_box (suc i) v (b ∷ bs) = ap suc (length-set_box i v bs)

join_boxes-digits :
    (bs : List Text)
    → All (λ b. is_box_text b ≡ true) bs
    → all is_filled bs ≡ true
    → (length (join_boxes bs) ≡ length bs) × (all is_digit_code (join_boxes bs) ≡ true)
unfolding join_boxes is_box_text
join_boxes-digits [] h k = (refl, refl)
join_boxes-digits ([] ∷ bs) h k = absurd cc
join_boxes-digits ((c ∷ []) ∷ bs) h k =
    let ih = join_boxes-digits bs h.1 k in (ap suc ih.0, ground (arith, ih.1, h.0))
join_boxes-digits ((c ∷ d ∷ s) ∷ bs) h k = absurd (ground arith)

submit-HasBoxes :
    (session : Option Text) (code : Text) (p : TwoFactor)
    → HasBoxes p
    → length code ≡ 6
    → all is_digit_code code ≡ true
    → HasBoxes (submit session code p).0 × All SendsDigits (submit session code p).1
unfolding submit
submit-HasBoxes none code p h six digits = (h, (tt, tt))
submit-HasBoxes (some session) code p h six digits = (h, ((six, digits), tt))

focus_sends : (b : Bool) (n : ℕ) → All SendsDigits (if b then focuses n ∷ [] else [])
focus_sends true n = (tt, tt)
focus_sends false n = tt

-- Typing into a box keeps the boxes well-formed, and what it sends is a code of six digits.
pub handle_digit-HasBoxes :
    (session : Option Text) (i : ℕ) (v : Text) (p : TwoFactor)
    → HasBoxes p
    → HasBoxes (handle_digit session i v p).0 × All SendsDigits (handle_digit session i v p).1
unfolding handle_digit
handle_digit-HasBoxes session i v p h = elim (Bool-cases (is_box_text v)) [
  | inr refused ↦ rw refused (h, tt)
  | inl fits ↦
      let boxes = set_box-All i v p.digits fits h.1 in
      let six : length (set_box i v p.digits) ≡ 6 = length-set_box i v p.digits ∙ h.0 in
      let moves = focus_sends (is_filled v && ltb i 5) (i + 1) in
      elim (Bool-cases (all is_filled (set_box i v p.digits))) [
        | inr partial ↦ rw (fits, partial) ((six, boxes), moves)
        | inl full ↦
            let code = join_boxes-digits (set_box i v p.digits) boxes full in
            let sent =
              submit-HasBoxes session (join_boxes (set_box i v p.digits))
                (record p { digits = set_box i v p.digits }) (six, boxes) (code.0 ∙ six) code.1 in
            rw (fits, full) (sent.0, All-append SendsDigits _ _ moves sent.1)
      ]
]
