-- ===== src/Format/Laws.antt =====
-- format.ts: the length of a truncated text, and the digits of numbers.
use xp_panel.Shared.{
  ℤ, pos, negsuc, ℕ, zero, suc, ◌≡◌, ap, ◌∙◌, ◌≤◌, ◌<◌, ◌+◌, ◌-◌, ◌*◌, ◌/◌, ◌%◌, ltb, leb, Text,
  codes, [], ◌∷◌, ◌++◌, length, length-append, length-take, length-drop, drop, slice, place, arith,
  if_split,
}
use xp_panel.Format.{digits_from, decimal, minus_three, truncate}

place_within : (n : ℕ) (z : ℤ) → place n z ≤ n
unfolding place
place_within n (pos a) = omega arith
place_within n (negsuc a) = omega arith

length-slice : (s : Text) (z : ℤ) → length (slice s (pos 0) z) ≡ place (length s) z
unfolding slice place
length-slice s z =
    let start = place (length s) (pos 0) in
    omega (
      arith,
      length-take (place (length s) z - start) (drop start s),
      length-drop start s,
      place_within (length s) z,
    )

length-cut : (s : Text) (z : ℤ) → length (slice s (pos 0) z ++ codes "...") ≡ place (length s) z + 3
length-cut s z = omega (arith, length-append (slice s (pos 0) z) (codes "..."), length-slice s z)

-- A text that is cut to three characters or more is no longer than that; one that is cut to fewer gets longer than that.
pub length-truncate :
    (s : Text) (n : ℕ)
    → (3 ≤ n → length (truncate s n) ≤ n) × (n < 3 → n < length s → n < length (truncate s n))
unfolding truncate place
length-truncate s n = (λ h. at_least n h, λ h k. below n h k)
  where
    at_least : (n : ℕ) → 3 ≤ n → length (truncate s n) ≤ n
    at_least zero h = absurd (omega arith)
    at_least (suc zero) h = absurd (omega arith)
    at_least (suc (suc zero)) h = absurd (omega arith)
    at_least (suc (suc (suc n))) h =
        if_split (λ t. length t ≤ suc (suc (suc n))) (leb (length s) (suc (suc (suc n)))) s
          (slice s (pos 0) (pos n) ++ codes "...") (λ e. ground arith)
          (λ e. omega (arith, length-cut s (pos n)))

    below : (n : ℕ) → n < 3 → n < length s → n < length (truncate s n)
    below n h k =
        if_split (λ t. n < length t) (leb (length s) n) s
          (slice s (pos 0) (minus_three n) ++ codes "...") (λ e. absurd (ground arith))
          (λ e. omega (arith, length-cut s (minus_three n)))

-- The number that digits stand for.
abbrev pub read_from : ℕ → Text → ℕ
read_from n [] = n
read_from n (c ∷ s) = read_from (10 * n + (c - 48)) s

read-digits_from :
    (fuel n : ℕ) (acc : Text) → n < fuel → read_from 0 (digits_from fuel n acc) ≡ read_from n acc
unfolding digits_from
read-digits_from zero n acc h = absurd (omega arith)
read-digits_from (suc fuel) n acc h =
    let low : 10 * 0 + (48 + n - 48) ≡ n = omega arith in
    let whole : 10 * (n / 10) + (48 + n % 10 - 48) ≡ n = omega arith in
    if_split (λ t. read_from 0 t ≡ read_from n acc) (ltb n 10) _ _
      (λ e. ap (λ m. read_from m acc) low)
      (λ e.
        read-digits_from fuel (n / 10) ((48 + n % 10) ∷ acc) (ground arith)
        ∙ ap (λ m. read_from m acc) whole)

-- The digits of a number stand for it.
pub read-decimal : (n : ℕ) → read_from 0 (decimal n) ≡ n
unfolding decimal
read-decimal n = read-digits_from (suc n) n [] (omega arith)
