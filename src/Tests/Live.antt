-- ===== src/Tests/Live.antt =====
-- The WebSocket hook and the metrics hook at concrete inputs.
use xp_panel.Shared.{ℕ, ◌≤◌, ◌≡◌, refl, true, codes, List, [], ◌∷◌}
use xp_panel.Live.Socket.{
  closed, Options, Hook, Event, fresh_hook, opens, errors, closes_down, messages, reruns, fires,
  mount, step, run, on_open, on_close, on_message, on_error, connect, fire, cleanup, disconnect,
  send,
}
use xp_panel.Live.Socket.Laws.{run_silent}
use xp_panel.Live.Socket.Budget.{vain_attempts}
use xp_panel.Live.Socket.Rounds.{rounds, closes-sockets}
use xp_panel.Live.Metrics.{metrics_run, metrics_step, fresh_metrics, options_of}

socket : Unit {0}
unfolding run step mount connect on_open on_close on_message on_error fire cleanup disconnect send
socket = tt

metrics : Unit {0}
unfolding socket metrics_run metrics_step fresh_metrics
metrics = tt

abbrev twice : Options
twice = record { max_reconnects = 2; enabled = true }

abbrev endless : Options
endless = options_of true (codes "srv-1")

abbrev plain_hook : Hook ℕ
plain_hook = fresh_hook

abbrev gone : Hook ℕ
gone = record plain_hook { unmounted = true; status = closed }

-- The third close of a limit of two starts no timer.
exhausted :
    run {D = ℕ} twice
      (closes_down ∷ fires 0 ∷ closes_down ∷ fires 1 ∷ closes_down ∷ fires 2 ∷ [])
      (mount twice fresh_hook)
    ≡ record (run twice
        (closes_down ∷ fires 0 ∷ closes_down ∷ fires 1 ∷ closes_down ∷ [])
        (mount twice fresh_hook)) { reconnects = 2 }
unfolding socket
exhausted = refl

run_silent_example :
    record (run endless (opens ∷ closes_down ∷ messages 4 ∷ []) gone) { waiting = [] }
    ≡ record gone { waiting = [] }
run_silent_example =
    run_silent endless (opens ∷ closes_down ∷ messages 4 ∷ []) gone (tt, (tt, (tt, tt))) refl

-- The limit is two, and the effect runs again once.
abbrev vain_events : List (Event ℕ)
vain_events = closes_down ∷ fires 0 ∷ reruns ∷ errors ∷ closes_down ∷ fires 1 ∷ closes_down ∷ []

vain_attempts_example :
    ((run twice vain_events (mount twice fresh_hook)).sockets ≤ 4)
    × ((run twice vain_events (mount twice fresh_hook)).reconnects ≤ 2)
vain_attempts_example =
    vain_attempts twice 1 vain_events refl (tt, (tt, (tt, (tt, (tt, (tt, (tt, tt)))))))

closes-sockets_example :
    ((run {D = ℕ} twice (rounds 0 5) (mount twice fresh_hook)).sockets ≡ 3)
    × ((run {D = ℕ} twice (rounds 0 5) (mount twice fresh_hook)).reconnects ≡ 2)
closes-sockets_example = closes-sockets ℕ twice 1 5 refl refl

abbrev two_events : List (Event ℕ)
two_events = opens ∷ messages 7 ∷ []

abbrev samples : List (Event ℕ)
samples = opens ∷ messages 7 ∷ messages 8 ∷ messages 9 ∷ []

shown_connected : (metrics_run endless 60 two_events (fresh_metrics endless 60)).connected ≡ true
unfolding metrics
shown_connected = refl
