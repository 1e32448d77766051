-- ===== src/Live/Socket.antt =====
-- apps/web/src/lib/hooks/useWebSocket.ts: one component's use of the hook. The refs and the state are
-- a record; what the browser and React do (socket events, timers, effects) are events. Sockets and
-- timers are numbered in the order in which they are made; the actions are listed oldest first.
pub mod Laws
pub mod Budget
pub mod Remount
pub mod Rounds
use xp_panel.Shared.{
  ℕ, suc, ◌+◌, Text, Bool, true, false, not, ◌||◌, ◌&&◌, Option, none, some, List, [], ◌∷◌, ◌++◌,
  keep, any, ◌==◌, ltb, if◌then◌else◌,
}

pub data Status : Type 0 where
  connecting opened closed error : Status

-- The options that stay fixed while the component is mounted.
pub record Options : Type 0 where
  pub max_reconnects : ℕ
  pub enabled : Bool

-- What the hook does to its surroundings.
pub data Action (D : Type 0) : Type 0 where
  created closes : ℕ → Action D
  calls_on_open calls_on_close calls_on_error : Action D
  calls_on_message : D → Action D
  sends : Text → Action D

pub record Hook (D : Type 0) : Type 0 where
  pub status : Status
  pub ws : Option ℕ
  pub sockets : ℕ
  pub reconnects : ℕ
  pub timer : Option ℕ
  pub timers : ℕ
  pub waiting : List ℕ
  pub unmounted : Bool
  pub actions : List (Action D)

abbrev pub fresh_hook : {D : Type 0} → Hook D
fresh_hook = record {
  status = connecting;
  ws = none;
  sockets = 0;
  reconnects = 0;
  timer = none;
  timers = 0;
  waiting = [];
  unmounted = false;
  actions = [];
}

abbrev pub without : ℕ → List ℕ → List ℕ
without t ts = keep (λ u. not (u == t)) ts

-- `if (timerRef.current) clearTimeout(timerRef.current)`.
abbrev pub clear : Option ℕ → List ℕ → List ℕ
clear none ts = ts
clear (some t) ts = without t ts

-- `wsRef.current?.close()`.
abbrev pub close_of : {D : Type 0} → Option ℕ → List (Action D)
close_of none = []
close_of (some n) = closes n ∷ []

-- `throws d raw`: a message parsed as `d`, for which the callback throws; it came as `raw`. The last
-- constructors are React's: the effect runs again, the component goes, its code calls.
pub data Event (D : Type 0) : Type 0 where
  opens errors closes_down : Event D
  messages : D → Event D
  throws : D → D → Event D
  fires : ℕ → Event D
  reruns unmounts disconnects : Event D
  asks : Bool → Text → Event D

module _ {D : Type 0} (o : Options) where
  unfoldable pub connect : Hook D → Hook D
  connect h = if not o.enabled || h.unmounted then h else record h {
    status = connecting;
    ws = some h.sockets;
    sockets = suc h.sockets;
    actions = h.actions ++ created h.sockets ∷ [];
  }

  unfoldable pub on_open : Hook D → Hook D
  on_open h =
      if h.unmounted
      then h
      else record h { reconnects = 0; status = opened; actions = h.actions ++ calls_on_open ∷ [] }

  -- The message, parsed or as it came where it is no JSON.
  unfoldable pub on_message : D → Hook D → Hook D
  on_message d h =
      if h.unmounted then h else record h { actions = h.actions ++ calls_on_message d ∷ [] }

  -- The callback is called inside the `try`, so the `catch` calls it again with the message as it came.
  unfoldable pub on_thrown : D → D → Hook D → Hook D
  on_thrown d raw h =
      if h.unmounted
      then h
      else record h { actions = h.actions ++ calls_on_message d ∷ calls_on_message raw ∷ [] }

  unfoldable pub on_error : Hook D → Hook D
  on_error h =
      if h.unmounted
      then h
      else record h { status = error; actions = h.actions ++ calls_on_error ∷ [] }

  unfoldable pub should_reconnect : Hook D → Bool
  should_reconnect h = (o.max_reconnects == 0) || ltb h.reconnects o.max_reconnects

  unfoldable pub schedule : Hook D → Hook D
  schedule h = record h {
    reconnects = suc h.reconnects;
    timer = some h.timers;
    timers = suc h.timers;
    waiting = h.timers ∷ h.waiting;
  }

  unfoldable pub on_close : Hook D → Hook D
  unfolding should_reconnect schedule
  on_close h =
      if h.unmounted
      then h
      else let h' = record h { status = closed; actions = h.actions ++ calls_on_close ∷ [] } in
        if should_reconnect h' then schedule h' else h'

  -- The cleanup of the effect, which `disconnect` repeats.
  unfoldable pub cleanup : Hook D → Hook D
  cleanup h = record h {
    unmounted = true;
    waiting = clear h.timer h.waiting;
    actions = h.actions ++ close_of h.ws;
  }

  unfoldable pub disconnect : Hook D → Hook D
  unfolding cleanup
  disconnect h = record (cleanup h) { status = closed }

  -- The effect.
  unfoldable pub mount : Hook D → Hook D
  unfolding connect
  mount h = let h' = record h { unmounted = false } in if o.enabled then connect h' else h'

  -- A timer that fires runs `connect`; one that was cleared or has fired does not.
  unfoldable pub fire : ℕ → Hook D → Hook D
  unfolding connect
  fire t h = connect (record h { waiting = without t h.waiting })

  -- `send`, where `is_open` says whether the current socket is open.
  unfoldable pub send : Bool → Text → Hook D → Hook D
  send is_open d h = elim h.ws [
    | none ↦ h
    | some n ↦ if is_open then record h { actions = h.actions ++ sends d ∷ [] } else h
  ]

  unfoldable pub step : Event D → Hook D → Hook D
  step opens h = on_open h
  step errors h = on_error h
  step closes_down h = on_close h
  step (messages d) h = on_message d h
  step (throws d raw) h = on_thrown d raw h
  step (fires t) h = if any (λ u. u == t) h.waiting then fire t h else h
  step reruns h = mount (cleanup h)
  step unmounts h = cleanup h
  step disconnects h = disconnect h
  step (asks is_open d) h = send is_open d h

  unfoldable pub run : List (Event D) → Hook D → Hook D
  run [] h = h
  run (e ∷ es) h = run es (step e h)
