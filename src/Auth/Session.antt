-- ===== src/Auth/Session.antt =====
-- apps/web/src/lib/auth/session.ts: the session helpers over the store's state.
pub mod Laws
use xp_panel.Shared.{Text, codes, Bool, false, ◌||◌, Option, none, some, includes}
use xp_panel.Auth.Browser.{User, Browser}
use xp_panel.Auth.Store

-- `user?.roles?.includes(role) ?? false`.
unfoldable pub listed_role : Option User → Text → Bool
listed_role none role = false
listed_role (some u) role = elim u.roles [ none ↦ false | some rs ↦ includes rs role ]

-- The body of `hasPermission`: it looks the permission up among the roles.
unfoldable pub listed_permission : Option User → Text → Bool
listed_permission none permission = false
listed_permission (some u) permission = elim u.roles [
  | none ↦ false
  | some rs ↦ includes rs (codes "super_admin") || includes rs permission
]

module _ (b : Browser) where
  open b use {World, memory}

  unfoldable pub get_access_token : World → Option Text
  get_access_token w = (memory w).access_token

  unfoldable pub is_authenticated : World → Bool
  is_authenticated w = (memory w).is_authenticated

  unfoldable pub get_current_user : World → Option User
  get_current_user w = (memory w).user

  unfoldable pub clear_session : World → World
  clear_session w = Store.logout b w

  unfoldable pub has_role : Text → World → Bool
  unfolding listed_role
  has_role role w = listed_role (memory w).user role

  unfoldable pub has_permission : Text → World → Bool
  unfolding listed_permission
  has_permission permission w = listed_permission (memory w).user permission
