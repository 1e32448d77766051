-- ===== src/Auth/Browser.antt =====
-- apps/web/src/lib/stores/auth.store.ts: the data that the store keeps, and the browser around it.
-- The browser (localStorage, the location, atob and JSON.parse) and zustand's `set` with its
-- `persist` middleware are not code of the repository: they are the record `Browser`, with the laws
-- that their documentation gives.
use xp_panel.Shared.{Text, Bool, false, Option, none, some, List, [], ◌≡◌, refl, get_or}

pub record User : Type 0 where
  pub id : Option Text
  pub email : Option Text
  pub username : Option Text
  pub org_id : Option Text
  pub roles : Option (List Text)
  pub permissions : Option (List Text)

-- The fields of the store; its methods are the functions of Store.antt.
pub record AuthState : Type 0 where
  pub access_token : Option Text
  pub refresh_token : Option Text
  pub user : Option User
  pub is_authenticated : Bool

abbrev pub signed_out : AuthState
signed_out = record {
  access_token = none;
  refresh_token = none;
  user = none;
  is_authenticated = false;
}

-- What is written to localStorage: all four fields.
unfoldable pub partialize : AuthState → AuthState
partialize s = record {
  access_token = s.access_token;
  refresh_token = s.refresh_token;
  user = s.user;
  is_authenticated = s.is_authenticated;
}

-- The claims of a decoded access token.
pub record Payload : Type 0 where
  pub sub : Option Text
  pub email : Option Text
  pub username : Option Text
  pub org : Option Text
  pub roles : Option (List Text)
  pub perms : Option (List Text)

unfoldable pub user_of : Payload → User
user_of p = record {
  id = p.sub;
  email = p.email;
  username = p.username;
  org_id = p.org;
  roles = some (get_or p.roles []);
  permissions = some (get_or p.perms []);
}

-- `memory` is the store's state, `stored` the `state` of the item "xp-auth" of localStorage (`none`
-- where the item is absent or unreadable), `set f s` the store's `set` to `s` under `partialize: f`.
pub record Browser : Type 1 where
  pub World : Type 0
  pub memory : World → AuthState
  pub stored : World → Option AuthState
  pub location : World → Text
  pub set : (AuthState → AuthState) → AuthState → World → World
  pub set_item : AuthState → World → World
  pub remove_item : World → World
  pub go_to : Text → World → World
  -- `JSON.parse(atob(e))`; `none` where it throws.
  pub decode : Option Text → Option Payload
  pub memory-set : (f : AuthState → AuthState) (s : AuthState) (w : World) → memory (set f s w) ≡ s
  pub stored-set :
      (f : AuthState → AuthState) (s : AuthState) (w : World) → stored (set f s w) ≡ some (f s)
  pub location-set :
      (f : AuthState → AuthState) (s : AuthState) (w : World) → location (set f s w) ≡ location w
  pub memory-set_item : (s : AuthState) (w : World) → memory (set_item s w) ≡ memory w
  pub stored-set_item : (s : AuthState) (w : World) → stored (set_item s w) ≡ some s
  pub location-set_item : (s : AuthState) (w : World) → location (set_item s w) ≡ location w
  pub memory-remove_item : (w : World) → memory (remove_item w) ≡ memory w
  pub stored-remove_item : (w : World) → stored (remove_item w) ≡ none
  pub location-remove_item : (w : World) → location (remove_item w) ≡ location w
  pub memory-go_to : (l : Text) (w : World) → memory (go_to l w) ≡ memory w
  pub stored-go_to : (l : Text) (w : World) → stored (go_to l w) ≡ stored w
  pub location-go_to : (l : Text) (w : World) → location (go_to l w) ≡ l

pub record Page : Type 0 where
  pub memory : AuthState
  pub stored : Option AuthState
  pub location : Text

-- A browser that meets the laws, for any decoder.
abbrev pub plain_browser : (Option Text → Option Payload) → Browser
plain_browser decode = record {
  World = Page;
  memory = λ w. w.memory;
  stored = λ w. w.stored;
  location = λ w. w.location;
  set = λ f s w. record w { memory = s; stored = some (f s) };
  set_item = λ s w. record w { stored = some s };
  remove_item = λ w. record w { stored = none };
  go_to = λ l w. record w { location = l };
  decode = decode;
  memory-set = λ f s w. refl;
  stored-set = λ f s w. refl;
  location-set = λ f s w. refl;
  memory-set_item = λ s w. refl;
  stored-set_item = λ s w. refl;
  location-set_item = λ s w. refl;
  memory-remove_item = λ w. refl;
  stored-remove_item = λ w. refl;
  location-remove_item = λ w. refl;
  memory-go_to = λ l w. refl;
  stored-go_to = λ l w. refl;
  location-go_to = λ l w. refl;
}
