-- ===== src/Live/Socket/Laws.antt =====
-- useWebSocket.ts: silence after the end.
use xp_panel.Shared.{◌≡◌, refl, true, List, [], ◌∷◌, ◌∙◌, ap, All, arith}
use xp_panel.Live.Socket.{
  Options, Hook, Event, opens, errors, closes_down, messages, throws, fires, reruns, unmounts,
  disconnects, asks, connect, on_open, on_message, on_thrown, on_error, on_close, fire, step, run,
}

-- What the browser brings about: socket events and timers.
abbrev pub IsBrowser : {D : Type 0} → Event D → Type 0
IsBrowser opens = Unit {0}
IsBrowser errors = Unit {0}
IsBrowser closes_down = Unit {0}
IsBrowser (messages d) = Unit {0}
IsBrowser (throws d raw) = Unit {0}
IsBrowser (fires t) = Unit {0}
IsBrowser reruns = ⊥
IsBrowser unmounts = ⊥
IsBrowser disconnects = ⊥
IsBrowser (asks is_open d) = ⊥

module _ {D : Type 0} (o : Options) where
  abbrev but_waiting : Hook D → Hook D
  but_waiting h = record h { waiting = [] }

  step_silent :
      (e : Event D) (h : Hook D)
      → IsBrowser e
      → h.unmounted ≡ true
      → but_waiting (step o e h) ≡ but_waiting h
  unfolding step connect on_open on_message on_thrown on_error on_close fire
  step_silent opens h i u = ground arith
  step_silent errors h i u = ground arith
  step_silent closes_down h i u = ground arith
  step_silent (messages d) h i u = ground arith
  step_silent (throws d raw) h i u = ground arith
  step_silent (fires t) h i u = ground arith
  step_silent reruns h i u = absurd i
  step_silent unmounts h i u = absurd i
  step_silent disconnects h i u = absurd i
  step_silent (asks is_open d) h i u = absurd i

  -- Once the hook is disconnected or its component gone, no socket event and no timer has an effect:
  -- no status change, no new socket, no callback, no count; only the waiting timers run out.
  pub run_silent :
      (es : List (Event D)) (h : Hook D)
      → All IsBrowser es
      → h.unmounted ≡ true
      → record (run o es h) { waiting = [] } ≡ record h { waiting = [] }
  unfolding run
  run_silent [] h i u = refl
  run_silent (e ∷ es) h i u =
      run_silent es (step o e h) i.1 (ap (λ g. g.unmounted) (step_silent e h i.0 u) ∙ u)
      ∙ step_silent e h i.0 u
