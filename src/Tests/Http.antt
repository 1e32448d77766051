-- ===== src/Tests/Http.antt =====
-- The HTTP client at concrete inputs.
use xp_panel.Shared.{
  ℕ, ◌+◌, codes, true, false, ◌≡◌, refl, none, some, List, [], ◌∷◌, All, has_substring, arith,
}
use xp_panel.Auth.Browser.{AuthState, Page, Browser, plain_browser, User}
use xp_panel.Http.{
  Request, Failure, Refreshed, Client, fresh_client, Event, fails, refreshes, refresh_fails, step,
  run, on_error, on_refreshed, attach, with_token, posted, resent, needs_refresh,
}
use xp_panel.Http.Account.{IsConsistent, settled, held, forgotten, arrived, step-account, one}
use xp_panel.Http.Runs.{run-IsConsistent, run-settles}
use xp_panel.Http.Dropped.{Leaves, waiting_never_settles}

abbrev deaf : Browser
deaf = plain_browser (λ o. none)

abbrev kept_state : AuthState
kept_state = record {
  access_token = some (codes "old");
  refresh_token = some (codes "r1");
  user = none;
  is_authenticated = true;
}

abbrev page : Page
page = record { memory = kept_state; stored = some kept_state; location = codes "/files" }

abbrev ask : ℕ → Request
ask n = record { id = n; retry = false; authorization = none }

abbrev unauthorized : Failure
unauthorized = record { status = some 401; message = none }

abbrev answer : Refreshed
answer = record { access_token = some (codes "new"); refresh_token = none }

abbrev two_failures : List Event
two_failures = fails (ask 1) unauthorized ∷ fails (ask 2) unauthorized ∷ []

http : Unit {0}
unfolding run step on_error on_refreshed needs_refresh attach has_substring
http = tt

-- The second request waits, and both are sent again with the new token.
both_resent :
    (run deaf
      (fails (ask 1) unauthorized ∷ fails (ask 2) unauthorized ∷ refreshes answer ∷ [])
      (fresh_client page)).effects
    ≡ posted (codes "r1")
      ∷ resent (with_token (some (codes "new")) (ask 2))
      ∷ resent (with_token (some (codes "new")) (record (ask 1) { retry = true }))
      ∷ []
unfolding http
both_resent = refl

abbrev waiting : Client Page
waiting = record {
  is_refreshing = true;
  refresh_queue = ask 2 ∷ [];
  pending = some (record { leader = record (ask 1) { retry = true }; state = kept_state });
  world = page;
  effects = posted (codes "r1") ∷ [];
}

after_two_failures : run deaf two_failures (fresh_client page) ≡ waiting
unfolding http
after_two_failures = refl

waiting-IsConsistent : IsConsistent waiting
waiting-IsConsistent = record { flag = refl; idle = λ e. cc }

step-account_example :
    settled 2 (step deaf refresh_fails waiting).effects
      + held 2 (step deaf refresh_fails waiting)
      + forgotten 2 refresh_fails waiting
    ≡ settled 2 waiting.effects + held 2 waiting + arrived 2 refresh_fails
step-account_example = step-account deaf 2 refresh_fails waiting waiting-IsConsistent

run-IsConsistent_example : IsConsistent (run deaf two_failures (fresh_client page))
run-IsConsistent_example = run-IsConsistent deaf page two_failures

run-settles_example :
    settled 2 (run deaf two_failures (fresh_client page)).effects
      + held 2 (run deaf two_failures (fresh_client page))
    ≡ 1
unfolding one
run-settles_example = (run-settles deaf page two_failures ((λ e. cc), ((λ e. cc), tt)) 2).0

waiting_never_settles_example :
    All (Leaves 2) (run deaf (refresh_fails ∷ fails (ask 3) unauthorized ∷ []) waiting).effects
waiting_never_settles_example =
    waiting_never_settles deaf 2 waiting
      (record { leader = record (ask 1) { retry = true }; state = kept_state })
      (fails (ask 3) unauthorized ∷ []) refl (omega arith) (tt, tt) (omega arith, tt)

abbrev nobody : User
nobody = record {
  id = none;
  email = none;
  username = none;
  org_id = none;
  roles = none;
  permissions = none;
}
