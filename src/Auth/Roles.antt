-- ===== src/Auth/Roles.antt =====
-- apps/web/src/lib/utils/permissions.ts: the table of role permissions, and the checks over it.
-- A property of an object literal is looked up as JavaScript does: `o[k]` also finds what an object
-- inherits, such as `o["constructor"]`, which is no list and no label. `none` is a thrown TypeError.
pub mod Table
pub mod Laws
pub mod Grants
use xp_panel.Shared.{
  Text, codes, Bool, true, false, ◌||◌, Option, none, some, List, [], ◌∷◌, ◌++◌, if◌then◌else◌,
  text_eq, includes, split_on,
}
use Table.{role_permissions, role_labels}

-- What `o[k]` is, for an object literal `o`.
pub data Property {ℓ} (V : Type ℓ) : Type ℓ where
  own : V → Property V
  inherited : Property V
  absent : Property V

-- The names that every object inherits from Object.prototype.
abbrev pub prototype_names : List Text
prototype_names =
    codes "constructor"
    ∷ codes "__defineGetter__"
    ∷ codes "__defineSetter__"
    ∷ codes "hasOwnProperty"
    ∷ codes "__lookupGetter__"
    ∷ codes "__lookupSetter__"
    ∷ codes "isPrototypeOf"
    ∷ codes "propertyIsEnumerable"
    ∷ codes "toString"
    ∷ codes "valueOf"
    ∷ codes "__proto__"
    ∷ codes "toLocaleString"
    ∷ []

unfoldable pub is_inherited : Text → Bool
unfolding includes text_eq
is_inherited k = includes prototype_names k

unfoldable pub property {ℓ} : {V : Type ℓ} → List (Text × V) → Text → Property V
unfolding is_inherited
property [] k = if is_inherited k then inherited else absent
property ((j, v) ∷ o) k = if text_eq j k then own v else property o k

-- The tests of `canDo` on the role's list.
unfoldable pub perms_allow : List Text → Text → Bool
perms_allow perms action =
    if includes perms (codes "super:*")
    then true
    else if includes perms action
    then true
    else includes perms ((split_on b':' action).0 ++ codes ":*")

unfoldable pub can_do : Text → Text → Option Bool
unfolding property perms_allow
can_do role action = elim (property role_permissions role) [
  | own perms ↦ some (perms_allow perms action)
  | inherited ↦ none
  | absent ↦ some (perms_allow [] action)
]

-- `list.some(f)`, for an `f` that may throw.
unfoldable pub some_of {ℓ} : {A : Type ℓ} → (A → Option Bool) → List A → Option Bool
some_of f [] = some false
some_of f (x ∷ xs) =
    let rest = some_of f xs in
    elim (f x) [ none ↦ none | some found ↦ if found then some true else rest ]

unfoldable pub roles_can_do : List Text → Text → Option Bool
roles_can_do roles action = some_of (λ r. can_do r action) roles

-- `none` where the label is not a string.
unfoldable pub role_label : Text → Option Text
unfolding property
role_label role = elim (property role_labels role) [
  | own label ↦ some label
  | inherited ↦ none
  | absent ↦ some role
]
