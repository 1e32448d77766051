-- ===== src/Files/Permissions.antt =====
-- apps/web/src/components/files/ChmodDialog.tsx: the permissions of a file, read from its mode string,
-- shown and edited as three octal digits or by check boxes.
pub mod Laws
use xp_panel.Shared.{
  ℕ, ◌+◌, ◌-◌, ◌/◌, ◌%◌, ◌==◌, leb, Text, codes, Bool, true, false, ◌||◌, ◌&&◌, Option, none, some,
  List, [], ◌∷◌, ◌++◌, take, drop, get_elem?, any, if◌then◌else◌,
}

pub record Perm : Type 0 where
  pub read : Bool
  pub write : Bool
  pub execute : Bool

-- The state of the dialog.
pub record Perms : Type 0 where
  pub owner : Perm
  pub group : Perm
  pub other : Perm

-- `chunk[i] === c`.
unfoldable pub char_is : Text → ℕ → ℕ → Bool
char_is chunk i c = elim (get_elem? chunk i) [ none ↦ false | some d ↦ d == c ]

-- The code units of the letters r, w, x, s, t and of the dash.
abbrev pub letter_r : ℕ
letter_r = 114

abbrev pub letter_w : ℕ
letter_w = 119

abbrev pub letter_x : ℕ
letter_x = 120

abbrev pub letter_s : ℕ
letter_s = 115

abbrev pub letter_t : ℕ
letter_t = 116

abbrev pub dash : ℕ
dash = 45

-- The letters of the class [d\-lscbp].
unfoldable pub is_type_letter : ℕ → Bool
is_type_letter c = any (λ d. c == d) (codes "d-lscbp")

unfoldable pub without_type : Text → Text
unfolding is_type_letter
without_type [] = []
without_type (c ∷ rest) = if is_type_letter c then rest else c ∷ rest

unfoldable pub parse_perm : Text → Perm
unfolding char_is
parse_perm chunk = record {
  read = char_is chunk 0 letter_r;
  write = char_is chunk 1 letter_w;
  execute = char_is chunk 2 letter_x || char_is chunk 2 letter_s || char_is chunk 2 letter_t;
}

unfoldable pub parse_mode : Text → Perms
unfolding without_type parse_perm
parse_mode mode =
    let rest = without_type mode in
    record {
      owner = parse_perm (take 3 rest);
      group = parse_perm (take 3 (drop 3 rest));
      other = parse_perm (take 3 (drop 6 rest));
    }

unfoldable pub perm_to_octal : Perm → ℕ
perm_to_octal p =
    (if p.read then 4 else 0) + (if p.write then 2 else 0) + (if p.execute then 1 else 0)

-- The three digits, as code units.
unfoldable pub octal : Perms → Text
unfolding perm_to_octal
octal p =
    (48 + perm_to_octal p.owner) ∷ (48 + perm_to_octal p.group) ∷ (48 + perm_to_octal p.other) ∷ []

unfoldable pub mode_str : Perm → Text
mode_str p =
    (if p.read then letter_r else dash)
    ∷ (if p.write then letter_w else dash)
    ∷ (if p.execute then letter_x else dash)
    ∷ []

-- `n & 2 ** k` as a test.
abbrev bit_set : ℕ → ℕ → Bool
bit_set n power = n / power % 2 == 1

unfoldable pub to_perm : ℕ → Perm
to_perm n = record { read = bit_set n 4; write = bit_set n 2; execute = bit_set n 1 }

abbrev pub is_digit : ℕ → Bool
is_digit c = leb 48 c && leb c 57

unfoldable pub set_from_octal : Text → Perms → Perms
unfolding to_perm
set_from_octal (a ∷ b ∷ c ∷ []) p =
    if is_digit a && is_digit b && is_digit c
    then record { owner = to_perm (a - 48); group = to_perm (b - 48); other = to_perm (c - 48) }
    else p
set_from_octal _ p = p

-- The modes that the buttons set.
abbrev pub presets : List Text
presets = codes "644" ∷ codes "755" ∷ codes "600" ∷ codes "777" ∷ codes "400" ∷ codes "664" ∷ []

pub data Bit : Type 0 where
  reads writes executes : Bit

-- A check box of a row.
unfoldable pub set_bit : Bit → Bool → Perm → Perm
set_bit reads on p = record p { read = on }
set_bit writes on p = record p { write = on }
set_bit executes on p = record p { execute = on }
