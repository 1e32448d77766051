-- ===== src/Auth/Access.antt =====
-- apps/web/src/lib/hooks/usePermissions.ts: the checks bound to the current user's roles.
-- A check returns `none` where `canDo` throws.
pub mod Laws
use xp_panel.Shared.{
  Text, codes, Bool, true, false, ◌||◌, Option, none, some, List, [], ◌∷◌, if◌then◌else◌, includes,
  get_or,
}
use xp_panel.Auth.Browser.{User}
use xp_panel.Auth.Roles.{can_do, some_of}

-- `user?.roles ?? []`.
unfoldable pub roles_of : Option User → List Text
roles_of none = []
roles_of (some u) = get_or u.roles []

-- `list.every(f)`, for an `f` that may throw.
unfoldable pub every_of {ℓ} : {A : Type ℓ} → (A → Option Bool) → List A → Option Bool
every_of f [] = some true
every_of f (x ∷ xs) =
    let rest = every_of f xs in
    elim (f x) [ none ↦ none | some passed ↦ if passed then rest else some false ]

unfoldable pub is_super_admin : List Text → Bool
is_super_admin roles = includes roles (codes "super_admin")

unfoldable pub is_admin : List Text → Bool
unfolding is_super_admin
is_admin roles = is_super_admin roles || includes roles (codes "admin")

unfoldable pub is_reseller : List Text → Bool
unfolding is_admin
is_reseller roles = is_admin roles || includes roles (codes "reseller")

unfoldable pub can : List Text → Text → Option Bool
unfolding is_super_admin
can roles action =
    if is_super_admin roles then some true else some_of (λ role. can_do role action) roles

unfoldable pub can_any : List Text → List Text → Option Bool
can_any roles actions = some_of (can roles) actions

unfoldable pub can_all : List Text → List Text → Option Bool
can_all roles actions = every_of (can roles) actions

-- `roles[0] ?? 'user'`.
abbrev pub first_role : List Text → Text
first_role [] = codes "user"
first_role (r ∷ rs) = r

unfoldable pub role : List Text → Text
unfolding is_reseller
role roles =
    if is_super_admin roles
    then codes "super_admin"
    else if is_admin roles
    then codes "admin"
    else if is_reseller roles
    then codes "reseller"
    else first_role roles
