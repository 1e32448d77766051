-- ===== src/Auth/Roles/Grants.antt =====
-- permissions.ts: what `canDo` grants to the roles of the table.
use xp_panel.Shared.{
  Text, codes, Bool, true, false, ◌≡◌, refl, ◌≢◌, ◌⊎◌, inl, inr, not, none, some, List, [], ◌∷◌,
  text_eq, text_eq_iff, includes, split_on, all, ap, sym, ◌∙◌,
}
use xp_panel.Auth.Roles.Table.{
  super_admin_permissions, admin_permissions, reseller_permissions, user_permissions,
  developer_permissions, auditor_permissions, role_permissions,
}
use xp_panel.Auth.Roles.{Property, own, inherited, absent, property, perms_allow, can_do}
use xp_panel.Auth.Roles.Laws.{includes-all, property-own, ends_in_star, perms_allow_plain}

-- Opens the whole table.
unfoldable pub table : Unit {0}
unfolding role_permissions super_admin_permissions admin_permissions reseller_permissions
    user_permissions developer_permissions auditor_permissions property includes text_eq
table = tt

abbrev IsPlain : List Text → Type 0
IsPlain perms = all (λ t. not (ends_in_star t)) perms ≡ true

row-IsPlain :
    (role : Text) (perms : List Text)
    → property role_permissions role ≡ own perms
    → (role ≡ codes "super_admin") ⊎ IsPlain perms
unfolding table ends_in_star
row-IsPlain role perms =
    property-own (λ k v. (k ≡ codes "super_admin") ⊎ IsPlain v) role_permissions role perms
      (inl refl, (inr refl, (inr refl, (inr refl, (inr refl, (inr refl, tt))))))

within_admin :
    (role : Text) (perms : List Text)
    → property role_permissions role ≡ own perms
    → (role ≡ codes "super_admin") ⊎ (all (includes admin_permissions) perms ≡ true)
unfolding table
within_admin role perms =
    property-own (λ k v. (k ≡ codes "super_admin") ⊎ (all (includes admin_permissions) v ≡ true))
      role_permissions role perms
      (inl refl, (inr refl, (inr refl, (inr refl, (inr refl, (inr refl, tt))))))

pub Property-cases {ℓ} :
    {V : Type ℓ} (x : Property V) → ((v : V) × (x ≡ own v)) ⊎ ((x ≡ inherited) ⊎ (x ≡ absent))
Property-cases (own v) = inl (v, refl)
Property-cases inherited = inr (inl refl)
Property-cases absent = inr (inr refl)

pub text_ne : (s t : Text) → text_eq s t ≡ false → s ≢ t
text_ne s t h e = let same : text_eq s t ≡ true = (text_eq_iff s t).1 e in cc

read_only : List Text → Bool
read_only (op ∷ []) = text_eq op (codes "read")
read_only ops = false

read_only-eq : (ops : List Text) → read_only ops ≡ true → ops ≡ codes "read" ∷ []
unfolding read_only
read_only-eq (op ∷ []) h = ap (λ o. o ∷ []) ((text_eq_iff op _).0 h)
read_only-eq _ h = cc

-- For a role of the table other than "super_admin" the two wildcards of `canDo` never matter: an
-- action is allowed exactly when the role's list names it.
pub can_do_listed :
    (role action : Text) (perms : List Text)
    → property role_permissions role ≡ own perms
    → role ≢ codes "super_admin"
    → can_do role action ≡ some (includes perms action)
unfolding can_do
can_do_listed role action perms e other = elim (row-IsPlain role perms e) [
  | inl super ↦ absurd (other super)
  | inr plain ↦ rw (e, can_do) (ap some (perms_allow_plain perms action plain))
]

-- An action that is granted to a role other than "super_admin" stands in the list of that role.
pub granted_row :
    (role action : Text)
    → role ≢ codes "super_admin"
    → can_do role action ≡ some true
    → (perms : List Text) × (property role_permissions role ≡ own perms)
      × (includes perms action ≡ true)
unfolding can_do perms_allow includes
granted_row role action other h = elim (Property-cases (property role_permissions role)) [
  | inl (perms, e) ↦
      let same : some (includes perms action) ≡ some true =
        sym (can_do_listed role action perms e other) ∙ h in
      (perms, e, cc)
  | inr (inl e) ↦ let threw : none ≡ some true = rw (e, can_do) at h in absurd (cc)
  | inr (inr e) ↦
      let denied : some (perms_allow [] action) ≡ some true = rw (e, can_do) at h in absurd (cc)
]

-- "super_admin" may do everything.
pub can_do-super_admin : (action : Text) → can_do (codes "super_admin") action ≡ some true
unfolding can_do table
can_do-super_admin action = refl

-- Whatever a role other than "super_admin" may do, "admin" may do.
pub admin_dominates :
    (role action : Text)
    → role ≢ codes "super_admin"
    → can_do role action ≡ some true
    → can_do (codes "admin") action ≡ some true
unfolding table
admin_dominates role action other h =
    let (perms, e, found) = granted_row role action other h in
    let listed : includes admin_permissions action ≡ true = elim (within_admin role perms e) [
      | inl super ↦ absurd (other super)
      | inr within ↦ includes-all (includes admin_permissions) perms action within found
    ] in
    can_do_listed (codes "admin") action admin_permissions refl (text_ne _ _ refl) ∙ ap some listed

-- The operation of an action "area:operation" is "read".
abbrev pub IsRead : Text → Type 0
IsRead action = (split_on b':' action).1 ≡ codes "read" ∷ []

-- Whatever "auditor" may do, it is to read.
pub auditor_reads : (action : Text) → can_do (codes "auditor") action ≡ some true → IsRead action
unfolding table split_on read_only
auditor_reads action h =
    read_only-eq (split_on b':' action).1
      (includes-all (λ a. read_only (split_on b':' a).1) auditor_permissions action refl listed)
  where
    listed : includes auditor_permissions action ≡ true
    listed =
        let same : some (includes auditor_permissions action) ≡ some true =
          sym (can_do_listed (codes "auditor") action auditor_permissions refl (text_ne _ _ refl))
          ∙ h in
        cc
