-- ===== src/Auth/Store.antt =====
-- apps/web/src/lib/stores/auth.store.ts: the methods of the store `useAuthStore`.
pub mod Laws
pub mod History
use xp_panel.Shared.{
  Text, codes, Bool, true, false, ◌||◌, Option, none, some, List, includes, split, get_elem?,
}
use xp_panel.Auth.Browser.{User, AuthState, signed_out, partialize, Payload, user_of, Browser}

-- `accessToken.split(".")[1]`.
abbrev pub claims_part : Text → Option Text
claims_part token = get_elem? (split b'.' token) 1

-- The state that `setTokens` sets, from the claims if they were read.
unfoldable pub state_of_tokens : Option Payload → Text → Text → AuthState → AuthState
unfolding user_of
state_of_tokens (some p) access refresh s = record {
  access_token = some access;
  refresh_token = some refresh;
  is_authenticated = true;
  user = some (user_of p);
}
state_of_tokens none access refresh s = record s {
  access_token = some access;
  refresh_token = some refresh;
  is_authenticated = true;
}

-- The test that `hasPermission` and `hasRole` share: the list is there, and holds `all` or `one`.
abbrev pub grants : Text → Text → Option (List Text) → Bool
grants all one none = false
grants all one (some given) = includes given all || includes given one

unfoldable pub user_permits : Option User → Text → Bool
user_permits none perm = false
user_permits (some u) perm = grants (codes "super:*") perm u.permissions

unfoldable pub user_has_role : Option User → Text → Bool
user_has_role none role = false
user_has_role (some u) role = grants (codes "super_admin") role u.roles

module _ (b : Browser) where
  open b use {World, memory, set, go_to, decode}

  unfoldable pub set_tokens : Text → Text → World → World
  unfolding state_of_tokens
  set_tokens access refresh w =
      set partialize (state_of_tokens (decode (claims_part access)) access refresh (memory w)) w

  unfoldable pub set_user : User → World → World
  set_user u w = set partialize (record (memory w) { user = some u }) w

  unfoldable pub logout : World → World
  logout w = go_to (codes "/login") (set partialize signed_out w)

  unfoldable pub has_permission : Text → World → Bool
  unfolding user_permits
  has_permission perm w = user_permits (memory w).user perm

  unfoldable pub has_role : Text → World → Bool
  unfolding user_has_role
  has_role role w = user_has_role (memory w).user role
