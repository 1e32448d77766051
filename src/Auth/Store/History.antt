-- ===== src/Auth/Store/History.antt =====
-- auth.store.ts over any calls of its methods: the session is what the calls say last.
use xp_panel.Shared.{
  Text, Bool, true, false, ◌≡◌, refl, ◌∙◌, Option, none, some, List, [], ◌∷◌, get_or,
}
use xp_panel.Auth.Browser.{User, AuthState, partialize, Payload, user_of, Browser}
use xp_panel.Auth.Store.{claims_part, state_of_tokens, set_tokens, set_user, logout}

pub data Method : Type 0 where
  sets_tokens : Text → Text → Method
  sets_user : User → Method
  logs_out : Method

-- What the last of the calls says that says anything.
abbrev pub or_before {ℓ} : {A : Type ℓ} → Option A → Option A → Option A
or_before none before = before
or_before (some a) before = some a

abbrev pub latest {ℓ} : {A : Type ℓ} → (Method → Option A) → List Method → Option A
latest says [] = none
latest says (m ∷ ms) = or_before (latest says ms) (says m)

abbrev pub access_said : Method → Option (Option Text)
access_said (sets_tokens access refresh) = some (some access)
access_said (sets_user u) = none
access_said logs_out = some none

abbrev pub refresh_said : Method → Option (Option Text)
refresh_said (sets_tokens access refresh) = some (some refresh)
refresh_said (sets_user u) = none
refresh_said logs_out = some none

abbrev pub signed_in_said : Method → Option Bool
signed_in_said (sets_tokens access refresh) = some true
signed_in_said (sets_user u) = none
signed_in_said logs_out = some false

-- The claims of a token that can be read name a user; a token that cannot be read says nothing of one.
abbrev pub claimed_user : Option Payload → Option (Option User)
claimed_user none = none
claimed_user (some p) = some (
    some (record {
      id = p.sub;
      email = p.email;
      username = p.username;
      org_id = p.org;
      roles = some (get_or p.roles []);
      permissions = some (get_or p.perms []);
    }))

module _ (b : Browser) where
  open b use {
    World, memory, stored, set, go_to, decode, memory-set, stored-set, memory-go_to, stored-go_to,
  }

  abbrev pub user_said : Method → Option (Option User)
  user_said (sets_tokens access refresh) = claimed_user (decode (claims_part access))
  user_said (sets_user u) = some (some u)
  user_said logs_out = some none

  unfoldable pub call_method : Method → World → World
  call_method (sets_tokens access refresh) w = set_tokens b access refresh w
  call_method (sets_user u) w = set_user b u w
  call_method logs_out w = logout b w

  unfoldable pub call_methods : List Method → World → World
  unfolding call_method
  call_methods [] w = w
  call_methods (m ∷ ms) w = call_methods ms (call_method m w)

  -- A session after the calls, from the one before them.
  abbrev pub session_after : List Method → AuthState → AuthState
  session_after ms s = record {
    access_token = get_or (latest access_said ms) s.access_token;
    refresh_token = get_or (latest refresh_said ms) s.refresh_token;
    user = get_or (latest user_said ms) s.user;
    is_authenticated = get_or (latest signed_in_said ms) s.is_authenticated;
  }

  token_state :
      (o : Option Payload) (access refresh : Text) (s : AuthState)
      → state_of_tokens o access refresh s ≡ record {
        access_token = some access;
        refresh_token = some refresh;
        user = get_or (claimed_user o) s.user;
        is_authenticated = true;
      }
  unfolding state_of_tokens user_of
  token_state none access refresh s = refl
  token_state (some p) access refresh s = refl

  call-memory :
      (m : Method) (w : World) → memory (call_method m w) ≡ session_after (m ∷ []) (memory w)
  unfolding call_method set_tokens set_user logout
  call-memory (sets_tokens access refresh) w =
      rw memory-set (token_state (decode (claims_part access)) access refresh (memory w))
  call-memory (sets_user u) w = rw memory-set refl
  call-memory logs_out w = rw (memory-go_to, memory-set) refl

  call-stored :
      (m : Method) (w : World) → stored (call_method m w) ≡ some (memory (call_method m w))
  unfolding call_method set_tokens set_user logout partialize
  call-stored (sets_tokens access refresh) w = rw (stored-set, memory-set) refl
  call-stored (sets_user u) w = rw (stored-set, memory-set) refl
  call-stored logs_out w = rw (stored-go_to, memory-go_to, stored-set, memory-set) refl

  get_or_before :
      {A : Type 0} (o p : Option A) (a : A) → get_or o (get_or p a) ≡ get_or (or_before o p) a
  get_or_before none p a = refl
  get_or_before (some x) p a = refl

  after_first :
      (m : Method) (ms : List Method) (s : AuthState)
      → session_after ms (session_after (m ∷ []) s) ≡ session_after (m ∷ ms) s
  after_first m ms s =
      rw
        (
          get_or_before (latest access_said ms) (access_said m) s.access_token,
          get_or_before (latest refresh_said ms) (refresh_said m) s.refresh_token,
          get_or_before (latest user_said ms) (user_said m) s.user,
          get_or_before (latest signed_in_said ms) (signed_in_said m) s.is_authenticated,
        )
        refl

  call_methods-memory :
      (ms : List Method) (w : World) → memory (call_methods ms w) ≡ session_after ms (memory w)
  unfolding call_methods
  call_methods-memory [] w = refl
  call_methods-memory (m ∷ ms) w =
      call_methods-memory ms (call_method m w) ∙ rw (call-memory m w) (after_first m ms (memory w))

  call_methods-stored :
      (ms : List Method) (w : World)
      → stored w ≡ some (memory w)
      → stored (call_methods ms w) ≡ some (memory (call_methods ms w))
  unfolding call_methods
  call_methods-stored [] w h = h
  call_methods-stored (m ∷ ms) w h = call_methods-stored ms (call_method m w) (call-stored m w)

  -- After any calls of the store's methods the session, in memory and in localStorage, is what the calls say last: each token and the flag are those of the last `setTokens` or `logout`, and the user is the one of the last `setUser`, `logout` or `setTokens` with a token that can be read; what no call says stays. Before the calls localStorage holds the session.
  pub call_methods-latest :
      (ms : List Method) (w : World)
      → stored w ≡ some (memory w)
      → (memory (call_methods ms w) ≡ session_after ms (memory w))
        × (stored (call_methods ms w) ≡ some (session_after ms (memory w)))
  call_methods-latest ms w h =
      let e = call_methods-memory ms w in (e, call_methods-stored ms w h ∙ rw e refl)
