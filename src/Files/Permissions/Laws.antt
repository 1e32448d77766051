-- ===== src/Files/Permissions/Laws.antt =====
-- ChmodDialog.tsx: the digits, the mode string and the check boxes describe the same permissions.
use xp_panel.Shared.{
  ℕ, ◌+◌, ◌-◌, ◌%◌, ◌≤◌, ◌≡◌, refl, codes, Bool, true, false, [], ◌∷◌, ◌++◌, ◌==◌, arith,
}
use xp_panel.Files.Permissions.{
  Perm, Perms, letter_r, parse_mode, parse_perm, without_type, is_type_letter, octal, perm_to_octal,
  mode_str, to_perm, set_from_octal, char_is, is_digit,
}

to_perm-bits :
    (a b c : Bool)
    → to_perm (48 + perm_to_octal (record { read = a; write = b; execute = c }) - 48)
      ≡ record { read = a; write = b; execute = c }
unfolding to_perm perm_to_octal
to_perm-bits true true true = refl
to_perm-bits true true false = refl
to_perm-bits true false true = refl
to_perm-bits true false false = refl
to_perm-bits false true true = refl
to_perm-bits false true false = refl
to_perm-bits false false true = refl
to_perm-bits false false false = refl

perm_to_octal-le : (p : Perm) → perm_to_octal p ≤ 7
unfolding perm_to_octal
perm_to_octal-le p = ground arith

to_perm-perm_to_octal : (p : Perm) → to_perm (48 + perm_to_octal p - 48) ≡ p
to_perm-perm_to_octal p = to_perm-bits p.read p.write p.execute

digit : (n : ℕ) → n ≤ 9 → is_digit (48 + n) ≡ true
digit n h = ground arith

octal_digit : (p : Perm) → is_digit (48 + perm_to_octal p) ≡ true
octal_digit p = digit (perm_to_octal p) (omega (arith, perm_to_octal-le p))

-- The permissions that the dialog shows as digits are read back from these digits.
pub set_from_octal-octal : (p q : Perms) → set_from_octal (octal p) q ≡ p
unfolding set_from_octal octal
set_from_octal-octal p q =
    rw (octal_digit p.owner, octal_digit p.group, octal_digit p.other)
      (rw
        (
          to_perm-perm_to_octal p.owner,
          to_perm-perm_to_octal p.group,
          to_perm-perm_to_octal p.other,
        )
        refl)

perm_to_octal-to_perm : (n : ℕ) → n ≤ 9 → perm_to_octal (to_perm (48 + n - 48)) ≡ n % 8
unfolding perm_to_octal to_perm
perm_to_octal-to_perm n h = ground arith

-- A string of three digits is shown again, with the bits of 8 dropped: 8 and 9 become 0 and 1.
pub octal-set_from_octal :
    (a b c : ℕ) (p : Perms)
    → a ≤ 9
    → b ≤ 9
    → c ≤ 9
    → octal (set_from_octal ((48 + a) ∷ (48 + b) ∷ (48 + c) ∷ []) p)
      ≡ (48 + a % 8) ∷ (48 + b % 8) ∷ (48 + c % 8) ∷ []
unfolding octal set_from_octal
octal-set_from_octal a b c p ha hb hc =
    rw (digit a ha, digit b hb, digit c hc)
      (rw (perm_to_octal-to_perm a ha, perm_to_octal-to_perm b hb, perm_to_octal-to_perm c hc) refl)

parse_perm-mode_str : (p : Perm) → parse_perm (mode_str p) ≡ p
unfolding parse_perm char_is mode_str
parse_perm-mode_str p = ground arith

-- The mode string that is shown, after a letter for the type, is read back as the same permissions.
pub parse_mode-mode_str :
    (k : ℕ) (p : Perms)
    → is_type_letter k ≡ true
    → parse_mode (k ∷ (mode_str p.owner ++ mode_str p.group ++ mode_str p.other)) ≡ p
unfolding parse_mode mode_str without_type
parse_mode-mode_str k p h = rw h (
    ground (
      arith,
      parse_perm-mode_str p.owner,
      parse_perm-mode_str p.group,
      parse_perm-mode_str p.other,
    ))

-- One letter more in front, as Go writes it for the sticky, setuid and setgid bits, shifts every letter
-- by one: whatever the permissions are, none is read, and the digits are 000.
pub octal-parse_mode_shifted :
    (k l : ℕ) (p : Perms)
    → is_type_letter k ≡ true
    → (l == letter_r) ≡ false
    → octal (parse_mode (k ∷ l ∷ (mode_str p.owner ++ mode_str p.group ++ mode_str p.other)))
      ≡ codes "000"
unfolding octal parse_mode mode_str perm_to_octal without_type parse_perm char_is
octal-parse_mode_shifted k l p h other = rw h (ground arith)
