-- ===== src/Live/Metrics/Laws.antt =====
-- useServerMetrics.ts: the `connected` flag follows the socket.
use xp_panel.Shared.{ℕ, ◌≡◌, true, List, [], ◌∷◌, arith}
use xp_panel.Live.Socket.{
  opened, Options, Event, opens, errors, closes_down, messages, throws, fires, reruns, unmounts,
  disconnects, asks, connect, on_open, on_message, on_thrown, on_error, on_close, fire, cleanup,
  mount, disconnect, send, step,
}
use xp_panel.Live.Metrics.{Metrics, metrics_step, metrics_run, fresh_metrics}

module _ {D : Type 0} (o : Options) (size : ℕ) where
  -- What the hook shows as connected is an open socket.
  abbrev pub ShowsOpen : Metrics D → Type 0
  ShowsOpen m = m.connected ≡ true → m.hook.status ≡ opened

  metrics_step-ShowsOpen :
      (e : Event D) (m : Metrics D) → ShowsOpen m → ShowsOpen (metrics_step o size e m)
  unfolding metrics_step step connect on_open on_message on_thrown on_error on_close fire cleanup
      mount disconnect send
  metrics_step-ShowsOpen opens m h = ground arith
  metrics_step-ShowsOpen errors m h = ground arith
  metrics_step-ShowsOpen closes_down m h = ground arith
  metrics_step-ShowsOpen (messages d) m h = ground arith
  metrics_step-ShowsOpen (throws d raw) m h = ground arith
  metrics_step-ShowsOpen (fires t) m h = ground arith
  metrics_step-ShowsOpen reruns m h = ground arith
  metrics_step-ShowsOpen unmounts m h = ground arith
  metrics_step-ShowsOpen disconnects m h = ground arith
  metrics_step-ShowsOpen (asks b d) m h = ground arith

  metrics_run-ShowsOpen :
      (es : List (Event D)) (m : Metrics D) → ShowsOpen m → ShowsOpen (metrics_run o size es m)
  unfolding metrics_run
  metrics_run-ShowsOpen [] m h = h
  metrics_run-ShowsOpen (e ∷ es) m h =
      metrics_run-ShowsOpen es (metrics_step o size e m) (metrics_step-ShowsOpen e m h)

  -- Whatever happens to the socket, the component and the effect, `connected` is shown only while the
  -- status of the socket is "open".
  pub connected-open :
      (es : List (Event D))
      → (metrics_run o size es (fresh_metrics o size)).connected ≡ true
      → (metrics_run o size es (fresh_metrics o size)).hook.status ≡ opened
  unfolding fresh_metrics
  connected-open es = metrics_run-ShowsOpen es (fresh_metrics o size) (λ h. cc)
