-- ===== src/Auth/Session/Laws.antt =====
-- session.ts against the store: where the two answer alike, and where they do not.
use xp_panel.Shared.{Text, codes, true, false, ◌≡◌, some, List, includes, arith, Option}
use xp_panel.Auth.Browser.{User, Browser}
use xp_panel.Auth.Store
use xp_panel.Auth.Store.{user_has_role, user_permits}
use xp_panel.Auth.Session.{listed_role, listed_permission, has_role, has_permission}

roles_agree :
    (o : Option User) (role : Text)
    → listed_role o (codes "super_admin") ≡ false
    → listed_role o role ≡ user_has_role o role
unfolding listed_role user_has_role
roles_agree o role h = ground arith

misread :
    (u : User) (permission : Text) (roles permissions : List Text)
    → u.roles ≡ some roles
    → u.permissions ≡ some permissions
    → includes permissions permission ≡ true
    → includes roles permission ≡ false
    → includes roles (codes "super_admin") ≡ false
    → (user_permits (some u) permission ≡ true) × (listed_permission (some u) permission ≡ false)
unfolding listed_permission user_permits
misread u permission roles permissions e e' given other plain = ground arith

module _ (b : Browser) where
  open b use {World, memory}

  -- For a user who does not hold "super_admin", the two `hasRole` functions agree.
  pub has_role-agree :
      (w : World) (role : Text)
      → has_role b (codes "super_admin") w ≡ false
      → has_role b role w ≡ Store.has_role b role w
  unfolding has_role Store.has_role
  has_role-agree w role h = roles_agree (memory w).user role h

  -- A permission that the user holds, and that is not the name of one of the roles, is granted by the
  -- store and refused by session.ts, unless the user is a "super_admin".
  pub has_permission-differ :
      (w : World) (u : User) (permission : Text) (roles permissions : List Text)
      → (memory w).user ≡ some u
      → u.roles ≡ some roles
      → u.permissions ≡ some permissions
      → includes permissions permission ≡ true
      → includes roles permission ≡ false
      → includes roles (codes "super_admin") ≡ false
      → (Store.has_permission b permission w ≡ true) × (has_permission b permission w ≡ false)
  unfolding has_permission Store.has_permission
  has_permission-differ w u permission roles permissions user e e' given other plain =
      rw user (misread u permission roles permissions e e' given other plain)
