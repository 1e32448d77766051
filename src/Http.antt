-- ===== src/Http.antt =====
-- apps/web/src/lib/api/client.ts: the axios client with its two interceptors. The handler of a failed
-- response suspends at the call of the refresh endpoint, so it is three events: a response fails, the
-- refresh answers, the refresh fails. What the promises of the callers get is a list of effects.
pub mod Account
pub mod Runs
pub mod Dropped
pub mod Stale
use xp_panel.Shared.{
  ℕ, Text, codes, Bool, true, false, ◌&&◌, ◌||◌, not, Option, none, some, List, [], ◌∷◌, ◌++◌, map,
  ◌==◌, if◌then◌else◌, has_substring,
}
use xp_panel.Auth.Browser.{User, AuthState, Browser, user_of}
use xp_panel.Auth.Store.{claims_part}

-- The part of a request's configuration that the interceptors read and write.
pub record Request : Type 0 where
  pub id : ℕ
  pub retry : Bool
  pub authorization : Option Text

-- The part of a failed response that the handler reads.
pub record Failure : Type 0 where
  pub status : Option ℕ
  pub message : Option Text

-- `data.data` of the refresh endpoint's answer.
pub record Refreshed : Type 0 where
  pub access_token : Option Text
  pub refresh_token : Option Text

-- `posted t`: the refresh endpoint is called with `t`. `resent r`: the promise of `r` takes the result
-- of sending it again. `rejected r`: it is rejected.
pub data Effect : Type 0 where
  posted : Text → Effect
  resent rejected : Request → Effect

-- What the suspended handler remembers: its request, and the state that it read before the call.
pub record Pending : Type 0 where
  pub leader : Request
  pub state : AuthState

abbrev pub status_is : ℕ → Option ℕ → Bool
status_is n none = false
status_is n (some m) = m == n

abbrev pub message_has : Text → Option Text → Bool
message_has t none = false
message_has t (some s) = has_substring s t

-- A string that is there and not empty, as `if (s)` tests.
abbrev pub truthy : Option Text → Option Text
truthy none = none
truthy (some []) = none
truthy (some (c ∷ s)) = some (c ∷ s)

-- `Bearer ${token}`.
abbrev pub bearer : Option Text → Text
bearer none = codes "Bearer undefined"
bearer (some t) = codes "Bearer " ++ t

unfoldable pub needs_refresh : Failure → Bool
unfolding has_substring
needs_refresh f =
    status_is 401 f.status
    || (status_is 403 f.status && message_has (codes "insufficient permissions") f.message)

abbrev pub with_token : Option Text → Request → Request
with_token t r = record r { authorization = some (bearer t) }

abbrev pub or_else : Option Text → Option Text → Option Text
or_else none d = d
or_else (some t) d = some t

-- The stored state and its refresh token, or `none` where the handler throws.
unfoldable pub refresh_token_of : Option AuthState → Option (AuthState × Text)
refresh_token_of none = none
refresh_token_of (some s) = elim (truthy s.refresh_token) [ none ↦ none | some t ↦ some (s, t) ]

pub record Client (W : Type 0) : Type 0 where
  pub is_refreshing : Bool
  pub refresh_queue : List Request
  pub pending : Option Pending
  pub world : W
  pub effects : List Effect

abbrev pub fresh_client : {W : Type 0} → W → Client W
fresh_client w = record {
  is_refreshing = false;
  refresh_queue = [];
  pending = none;
  world = w;
  effects = [];
}

pub data Event : Type 0 where
  fails : Request → Failure → Event
  refreshes : Refreshed → Event
  refresh_fails : Event

module _ (b : Browser) where
  open b use {World, stored, set_item, remove_item, go_to, decode}

  -- The request interceptor.
  unfoldable pub attach : World → Request → Request
  attach w r = elim (stored w) [
    | none ↦ r
    | some s ↦ elim (truthy s.access_token) [ none ↦ r | some t ↦ with_token (some t) r ]
  ]

  -- The `catch` and `finally` blocks, and the rejection after them.
  unfoldable pub give_up : Request → Client World → Client World
  give_up r c = record c {
    refresh_queue = [];
    is_refreshing = false;
    pending = none;
    world = go_to (codes "/login") (remove_item c.world);
    effects = c.effects ++ rejected r ∷ [];
  }

  unfoldable pub start_refresh : Request → Client World → Client World
  unfolding refresh_token_of give_up
  start_refresh r c =
      let r' = record r { retry = true } in
      elim (refresh_token_of (stored c.world)) [
        | none ↦ give_up r' c
        | some (s, t) ↦ record c {
          is_refreshing = true;
          pending = some (record { leader = r'; state = s });
          effects = c.effects ++ posted t ∷ [];
        }
      ]

  -- The response interceptor, up to the call of the refresh endpoint.
  unfoldable pub on_error : Request → Failure → Client World → Client World
  unfolding start_refresh
  on_error r f c =
      if needs_refresh f && not r.retry
      then if c.is_refreshing
        then record c { refresh_queue = c.refresh_queue ++ r ∷ [] }
        else start_refresh r c
      else record c { effects = c.effects ++ rejected r ∷ [] }

  -- The user of the new token, or the stored one where its claims cannot be read.
  unfoldable pub new_user : Option Text → Option User → Option User
  new_user none user = user
  new_user (some t) user = elim (decode (claims_part t)) [ none ↦ user | some p ↦ some (user_of p) ]

  unfoldable pub new_state : Refreshed → AuthState → AuthState
  unfolding new_user
  new_state a s = record {
    access_token = a.access_token;
    refresh_token = or_else a.refresh_token s.refresh_token;
    user = new_user a.access_token s.user;
    is_authenticated = true;
  }

  -- The response interceptor, from the answer of the refresh endpoint on.
  unfoldable pub on_refreshed : Refreshed → Client World → Client World
  unfolding new_state
  on_refreshed a c = elim c.pending [
    | none ↦ c
    | some p ↦ record c {
      world = set_item (new_state a p.state) c.world;
      effects =
          c.effects
          ++ (map (λ r. resent (with_token a.access_token r)) c.refresh_queue
              ++ resent (with_token a.access_token p.leader) ∷ []);
      refresh_queue = [];
      pending = none;
      is_refreshing = false;
    }
  ]

  unfoldable pub on_refresh_failed : Client World → Client World
  unfolding give_up
  on_refresh_failed c = elim c.pending [ none ↦ c | some p ↦ give_up p.leader c ]

  unfoldable pub step : Event → Client World → Client World
  step (fails r f) c = on_error r f c
  step (refreshes a) c = on_refreshed a c
  step refresh_fails c = on_refresh_failed c

  unfoldable pub run : List Event → Client World → Client World
  run [] c = c
  run (e ∷ es) c = run es (step e c)
