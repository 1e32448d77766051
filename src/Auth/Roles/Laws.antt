-- ===== src/Auth/Roles/Laws.antt =====
-- permissions.ts: looking a name up in an object literal, and lists of permissions with no wildcard.
use mathlib.Core.Path.{subst₂}
use xp_panel.Shared.{
  Text, codes, Bool, true, false, ◌≡◌, refl, inl, inr, not, List, [], ◌∷◌, ◌++◌, text_eq,
  text_eq_iff, includes, split_on, all, All, arith, ◌==◌, Bool-cases, if◌then◌else◌,
}
use xp_panel.Auth.Roles.{own, inherited, absent, property, perms_allow, is_inherited}

-- A test that all entries of a list pass is passed by what the list includes.
pub includes-all :
    (p : Text → Bool) (ts : List Text) (s : Text)
    → all p ts ≡ true
    → includes ts s ≡ true
    → p s ≡ true
unfolding includes
includes-all p [] s h k = cc
includes-all p (t ∷ ts) s h k = elim (Bool-cases (text_eq t s)) [
  | inl same ↦
      let e : t ≡ s = (text_eq_iff t s).0 same in
      let passed : p t ≡ true = ground arith in rw (← e) passed
  | inr other ↦ includes-all p ts s (ground arith) (ground arith)
]

-- What is found in an object literal was written there.
pub property-own {ℓ κ} :
    {V : Type ℓ} (P : Text → V → Type κ) (o : List (Text × V)) (k : Text) (v : V)
    → All (λ e. P e.0 e.1) o
    → property o k ≡ own v
    → P k v
unfolding property
property-own P [] k v h e = elim (Bool-cases (is_inherited k)) [
  | inl a ↦ let miss : inherited ≡ own v = rw a at e in cc
  | inr a ↦ let miss : absent ≡ own v = rw a at e in cc
]
property-own P ((j, w) ∷ o) k v h e = elim (Bool-cases (text_eq j k)) [
  | inl same ↦
      let hit : own w ≡ own v = rw same at e in
      let value : w ≡ v = cc in subst₂ P ((text_eq_iff j k).0 same) value h.0
  | inr other ↦ property-own P o k v h.1 (rw other at e)
]

unfoldable pub ends_in_star : Text → Bool
ends_in_star [] = false
ends_in_star (c ∷ []) = c == b'*'
ends_in_star (c ∷ d ∷ s) = ends_in_star (d ∷ s)

ends_in_star-append : (s : Text) → ends_in_star (s ++ codes ":*") ≡ true
unfolding ends_in_star
ends_in_star-append [] = refl
ends_in_star-append (c ∷ []) = refl
ends_in_star-append (c ∷ d ∷ s) = ends_in_star-append (d ∷ s)

-- A list with no wildcard allows what it includes.
pub perms_allow_plain :
    (perms : List Text) (action : Text)
    → all (λ t. not (ends_in_star t)) perms ≡ true
    → perms_allow perms action ≡ includes perms action
unfolding perms_allow ends_in_star
perms_allow_plain perms action h =
    let super : includes perms (codes "super:*") ≡ false = unstarred (codes "super:*") refl in
    let space : includes perms ((split_on b':' action).0 ++ codes ":*") ≡ false =
      unstarred _ (ends_in_star-append (split_on b':' action).0) in
    rw (super, space) (if_true_false (includes perms action))
  where
    unstarred : (s : Text) → ends_in_star s ≡ true → includes perms s ≡ false
    unstarred s star = elim (Bool-cases (includes perms s)) [
      | inl found ↦
          let plain : not (ends_in_star s) ≡ true =
            includes-all (λ t. not (ends_in_star t)) perms s h found in
          ground arith
      | inr missing ↦ missing
    ]

    if_true_false : (b : Bool) → (if b then true else false) ≡ b
    if_true_false true = refl
    if_true_false false = refl
