-- ===== src/Auth/Access/Laws.antt =====
-- usePermissions.ts: what the checks of the hook decide.
use xp_panel.Shared.{
  Text, codes, Bool, true, false, ◌≡◌, refl, ◌⊎◌, inl, inr, Option, none, some, List, [], ◌∷◌,
  includes, text_eq, text_eq_iff, text_eq_refl, any, all, All, All-of, All-map, ap, sym, arith,
  Bool-cases, get_or,
}
use xp_panel.Auth.Roles.{property, own, inherited, absent, is_inherited, can_do, some_of}
use xp_panel.Auth.Roles.Table.{role_permissions}
use xp_panel.Auth.Roles.Grants.{can_do-super_admin, Property-cases}
use xp_panel.Auth.Access.{
  every_of, is_super_admin, is_admin, is_reseller, can, can_any, can_all, role,
}

some_of-any {ℓ} :
    {A : Type ℓ} (f : A → Option Bool) (p : A → Bool) (xs : List A)
    → All (λ x. f x ≡ some (p x)) xs
    → some_of f xs ≡ some (any p xs)
unfolding some_of
some_of-any f p [] h = refl
some_of-any f p (x ∷ xs) h = rw (h.0, some_of) (ground (arith, some_of-any f p xs h.1))

every_of-all {ℓ} :
    {A : Type ℓ} (f : A → Option Bool) (p : A → Bool) (xs : List A)
    → All (λ x. f x ≡ some (p x)) xs
    → every_of f xs ≡ some (all p xs)
unfolding every_of
every_of-all f p [] h = refl
every_of-all f p (x ∷ xs) h = rw (h.0, every_of) (ground (arith, every_of-all f p xs h.1))

property-inherited {ℓ} :
    {V : Type ℓ} (o : List (Text × V)) (k : Text) → property o k ≡ inherited → is_inherited k ≡ true
unfolding property
property-inherited [] k e = elim (Bool-cases (is_inherited k)) [
  | inl a ↦ a
  | inr a ↦ let miss : absent ≡ inherited = rw a at e in absurd (cc)
]
property-inherited ((j, v) ∷ o) k e = elim (Bool-cases (text_eq j k)) [
  | inl same ↦ let hit : own v ≡ inherited = rw same at e in absurd (cc)
  | inr other ↦ property-inherited o k (rw other at e)
]

-- What one role allows.
abbrev pub role_allows : Text → Text → Bool
role_allows role action = get_or (can_do role action) false

-- The role's name is not one that every object inherits.
abbrev pub IsPlainName : Text → Type 0
IsPlainName role = is_inherited role ≡ false

can_do-role_allows :
    (role action : Text) → IsPlainName role → can_do role action ≡ some (role_allows role action)
unfolding can_do
can_do-role_allows role action h = elim (Property-cases (property role_permissions role)) [
  | inl (perms, e) ↦ rw (e, can_do) refl
  | inr (inl e) ↦
      let threw : is_inherited role ≡ true = property-inherited role_permissions role e in
      absurd (cc)
  | inr (inr e) ↦ rw (e, can_do) refl
]

any-includes :
    (p : Text → Bool) (xs : List Text) (x : Text)
    → p x ≡ true
    → includes xs x ≡ true
    → any p xs ≡ true
unfolding includes
any-includes p [] x h k = cc
any-includes p (y ∷ xs) x h k = elim (Bool-cases (text_eq y x)) [
  | inl same ↦ let e : p y ≡ true = rw ((text_eq_iff y x).0 same) h in rw e refl
  | inr other ↦ let ih = any-includes p xs x h (ground arith) in ground arith
]

-- With the shortcut for "super_admin" `can` still decides whether some role of the user allows the
-- action, and it does not throw, if no role has a name that every object inherits.
pub can_lem :
    (roles : List Text) (action : Text)
    → All IsPlainName roles
    → can roles action ≡ some (any (λ r. role_allows r action) roles)
unfolding can is_super_admin
can_lem roles action plain = elim (Bool-cases (includes roles (codes "super_admin"))) [
  | inl super ↦ rw super (
      ap some (
        sym (
          any-includes (λ r. role_allows r action) roles (codes "super_admin")
            (ap (λ o. get_or o false) (can_do-super_admin action)) super)))
  | inr other ↦ rw other (
      some_of-any (λ r. can_do r action) (λ r. role_allows r action) roles
        (All-map (λ r. can_do-role_allows r action) roles plain))
]

-- `canAny` and `canAll` decide whether some, and whether every, action of a list is allowed by some
-- role of the user, under the same condition on the names.
pub can_any-can_all :
    (roles actions : List Text)
    → All IsPlainName roles
    → (can_any roles actions ≡ some (any (λ a. any (λ r. role_allows r a) roles) actions))
      × (can_all roles actions ≡ some (all (λ a. any (λ r. role_allows r a) roles) actions))
unfolding can_any can_all
can_any-can_all roles actions plain =
    let each = All-of (λ a. can_lem roles a plain) actions in
    (some_of-any (can roles) _ actions each, every_of-all (can roles) _ actions each)

-- If a user who is no "super_admin" has a first role whose name the table inherits, such as
-- "constructor", `can` throws for every action.
pub can_throws :
    (r action : Text) (roles : List Text)
    → property role_permissions r ≡ inherited
    → includes (r ∷ roles) (codes "super_admin") ≡ false
    → can (r ∷ roles) action ≡ none
unfolding can some_of can_do role_permissions
can_throws r action roles e other = rw (other, e) refl

includes_first : (r : Text) (roles : List Text) → includes (r ∷ roles) r ≡ true
unfolding includes
includes_first r roles = rw (text_eq_refl r) refl

-- The reported role is one that the user holds, or "user" where there are no roles, and the flags are
-- nested: a "super_admin" is an admin, and an admin is a reseller.
pub role_held :
    (roles : List Text)
    → ((includes roles (role roles) ≡ true) ⊎ ((roles ≡ []) × (role roles ≡ codes "user")))
      × (is_super_admin roles ≡ true → is_admin roles ≡ true)
      × (is_admin roles ≡ true → is_reseller roles ≡ true)
unfolding role is_reseller
role_held roles = (held roles, ground arith, ground arith)
  where
    held :
        (rs : List Text) → (includes rs (role rs) ≡ true) ⊎ ((rs ≡ []) × (role rs ≡ codes "user"))
    held [] = unfold includes in inr (refl, refl)
    held (r ∷ rs) = inl (ground (arith, includes_first r rs))
