-- ===== src/Http/Runs.antt =====
-- client.ts over whole histories of events, from a fresh client on.
use xp_panel.Shared.{ℕ, ◌+◌, ◌≡◌, refl, ap, ◌≢◌, All, none, List, [], ◌∷◌, arith}
use xp_panel.Auth.Browser.{Browser}
use xp_panel.Http.{Client, fresh_client, Event, refresh_fails, step, run}
use xp_panel.Http.Account.{
  IsConsistent, settled, held, queued, led, arrived, step-IsConsistent, step-account,
}

abbrev pub NoFailure : List Event → Type 0
NoFailure es = All (λ e. e ≢ refresh_fails) es

-- How often the request `n` fails in the events.
abbrev pub arrivals : ℕ → List Event → ℕ
arrivals n [] = 0
arrivals n (e ∷ es) = arrived n e + arrivals n es

module _ (b : Browser) where
  open b use {World}

  run_from-IsConsistent :
      (es : List Event) (c : Client World) → IsConsistent c → IsConsistent (run b es c)
  unfolding run
  run_from-IsConsistent [] c v = v
  run_from-IsConsistent (e ∷ es) c v =
      run_from-IsConsistent es (step b e c) (step-IsConsistent b e c v)

  -- From a fresh client, whatever happens: the flag is up exactly while a call of the refresh endpoint
  -- is open, and requests wait only then.
  pub run-IsConsistent : (w : World) (es : List Event) → IsConsistent (run b es (fresh_client w))
  run-IsConsistent w es =
      run_from-IsConsistent es (fresh_client w) (record { flag = refl; idle = λ e. refl })

  run-account :
      (n : ℕ) (es : List Event) (c : Client World)
      → IsConsistent c
      → NoFailure es
      → settled n (run b es c).effects + held n (run b es c)
        ≡ settled n c.effects + held n c + arrivals n es
  unfolding run
  run-account n [] c v h = omega arith
  run-account n (refresh_fails ∷ es) c v h = absurd (h.0 refl)
  run-account n (e ∷ es) c v h =
      omega (
        arith,
        step-account b n e c v,
        run-account n es (step b e c) (step-IsConsistent b e c v) h.1,
      )

  -- As long as no call of the refresh endpoint fails, each request has been answered or is held as
  -- often as it failed, and if no call is open at the end it has been answered as often as it failed.
  pub run-settles :
      (w : World) (es : List Event)
      → NoFailure es
      → (n : ℕ)
      → (settled n (run b es (fresh_client w)).effects + held n (run b es (fresh_client w))
          ≡ arrivals n es)
        × ((run b es (fresh_client w)).pending ≡ none
            → settled n (run b es (fresh_client w)).effects ≡ arrivals n es)
  run-settles w es h n =
      let total = run-account n es (fresh_client w) (record { flag = refl; idle = λ e. refl }) h in
      (
        omega (arith, total),
        λ e. omega (arith, total, ap (queued n) ((run-IsConsistent w es).idle e), ap (led n) e),
      )
