-- ===== src/Live/Metrics.antt =====
-- apps/web/src/lib/hooks/useServerMetrics.ts: the latest sample and the history of one server. A
-- sample is any type of data; `connected` follows the callbacks and the effect on the status.
pub mod Laws
pub mod History
use xp_panel.Shared.{
  ℕ, zero, suc, ◌-◌, Text, Bool, true, false, not, ◌&&◌, Option, none, some, List, [], ◌∷◌, ◌++◌,
  drop, length, if◌then◌else◌,
}
use xp_panel.Live.Socket.{
  Status, connecting, opened, closed, error, Options, Hook, fresh_hook, Event, opens, errors,
  closes_down, messages, throws, fires, reruns, unmounts, disconnects, asks, step, mount,
}

pub record Metrics (D : Type 0) : Type 0 where
  pub hook : Hook D
  pub live : Option D
  pub history : List D
  pub connected : Bool

-- `list.slice(-(size - 1))`: for a size of 1 the index is -0, and for 0 it is 1.
unfoldable pub slice_back {ℓ} : {A : Type ℓ} → ℕ → List A → List A
slice_back zero l = drop 1 l
slice_back (suc zero) l = l
slice_back (suc (suc k)) l = drop (length l - suc k) l

unfoldable pub remember {ℓ} : {A : Type ℓ} → ℕ → List A → A → List A
unfolding slice_back
remember size l d = slice_back size l ++ d ∷ []

abbrev pub is_open : Status → Bool
is_open opened = true
is_open connecting = false
is_open closed = false
is_open error = false

abbrev pub same_status : Status → Status → Bool
same_status connecting connecting = true
same_status opened opened = true
same_status closed closed = true
same_status error error = true
same_status _ _ = false

-- `enabled && !!serverID`.
abbrev pub options_of : Bool → Text → Options
options_of enabled [] = record { max_reconnects = 0; enabled = false }
options_of enabled (c ∷ id) = record { max_reconnects = 0; enabled = enabled }

module _ {D : Type 0} (o : Options) (history_size : ℕ) where
  -- The callbacks, which the hook calls unless it is unmounted.
  unfoldable pub callback : Event D → Metrics D → Metrics D
  unfolding remember
  callback opens m = record m { connected = true }
  callback closes_down m = record m { connected = false }
  callback (messages d) m = record m { live = some d; history = remember history_size m.history d }
  callback (throws d raw) m = record m {
    live = some raw;
    history = remember history_size (remember history_size m.history d) raw;
  }
  callback errors m = m
  callback (fires t) m = m
  callback reruns m = m
  callback unmounts m = m
  callback disconnects m = m
  callback (asks open_now d) m = m

  -- The effect on the status, which runs when the status has changed.
  unfoldable pub follow : Status → Metrics D → Metrics D
  follow before m =
      if not (same_status before m.hook.status) && not (is_open m.hook.status)
      then record m { connected = false }
      else m

  unfoldable pub metrics_step : Event D → Metrics D → Metrics D
  unfolding callback follow
  metrics_step e m =
      let m' = if m.hook.unmounted then m else callback e m in
      follow m.hook.status (record m' { hook = step o e m.hook })

  unfoldable pub metrics_run : List (Event D) → Metrics D → Metrics D
  metrics_run [] m = m
  metrics_run (e ∷ es) m = metrics_run es (metrics_step e m)

  unfoldable pub fresh_metrics : Metrics D
  fresh_metrics = record { hook = mount o fresh_hook; live = none; history = []; connected = false }
