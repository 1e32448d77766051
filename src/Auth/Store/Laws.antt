-- ===== src/Auth/Store/Laws.antt =====
-- What the store's methods guarantee: signing in grants exactly what the token claims, and signing out
-- takes everything away.
use xp_panel.Shared.{
  Text, codes, true, false, ◌≡◌, refl, ◌||◌, ◌∙◌, none, some, [], includes, get_or,
}
use xp_panel.Auth.Browser.{partialize, signed_out, Payload, Browser}
use xp_panel.Auth.Store.{claims_part, state_of_tokens, set_tokens, logout, has_permission, has_role}

module _ (b : Browser) where
  open b use {
    World, memory, stored, location, set, go_to, decode, memory-set, stored-set, location-set,
    memory-go_to, stored-go_to, location-go_to,
  }

  -- After `setTokens` with a token whose claims can be read, a permission is granted exactly when
  -- the claims list it or list "super:*", whoever was signed in before.
  pub has_permission-set_tokens :
      (w : World) (access refresh perm : Text) (p : Payload)
      → decode (claims_part access) ≡ some p
      → has_permission b perm (set_tokens b access refresh w)
        ≡ (includes (get_or p.perms []) (codes "super:*") || includes (get_or p.perms []) perm)
  unfolding has_permission set_tokens
  has_permission-set_tokens w access refresh perm p e = rw (memory-set, e, state_of_tokens) refl

  -- Where the claims cannot be read, the tokens are replaced and the user stays the earlier one.
  pub set_tokens-unreadable :
      (w : World) (access refresh perm : Text)
      → decode (claims_part access) ≡ none
      → ((memory (set_tokens b access refresh w)).access_token ≡ some access)
        × ((memory (set_tokens b access refresh w)).refresh_token ≡ some refresh)
        × ((memory (set_tokens b access refresh w)).is_authenticated ≡ true)
        × ((memory (set_tokens b access refresh w)).user ≡ (memory w).user)
        × (has_permission b perm (set_tokens b access refresh w) ≡ has_permission b perm w)
  unfolding has_permission set_tokens
  set_tokens-unreadable w access refresh perm e =
      rw (memory-set, e, state_of_tokens) (refl, refl, refl, refl, refl)

  -- After `logout` nobody is signed in, in memory and in localStorage, no permission or role is
  -- granted, and the browser stands at the login page.
  pub logout_complete :
      (w : World) (perm role : Text)
      → (memory (logout b w) ≡ signed_out)
        × (stored (logout b w) ≡ some signed_out)
        × (has_permission b perm (logout b w) ≡ false)
        × (has_role b role (logout b w) ≡ false)
        × (location (logout b w) ≡ codes "/login")
  unfolding has_permission has_role logout partialize
  logout_complete w perm role = (
    memory-go_to _ _ ∙ memory-set _ _ _,
    stored-go_to _ _ ∙ stored-set _ _ _,
    rw (memory-go_to, memory-set) refl,
    rw (memory-go_to, memory-set) refl,
    location-go_to _ _,
  )
