-- ===== src/Live/Metrics/History.antt =====
-- useServerMetrics.ts: the history is the latest samples.
use mathlib.Core.List.{append-nil, append_assoc}
use xp_panel.Shared.{
  ℕ, suc, ◌-◌, ◌≡◌, refl, ap, sym, ◌∙◌, List, [], ◌∷◌, ◌++◌, drop, length, last_of, drop-nil,
  drop-append, drop-drop, length-append, length-drop, if◌then◌else◌, arith,
}
use xp_panel.Live.Socket.{
  Options, Hook, Event, opens, errors, closes_down, messages, throws, fires, reruns, unmounts,
  disconnects, asks, mount, step, fresh_hook,
}
use xp_panel.Live.Metrics.{Metrics, remember, metrics_step, metrics_run, fresh_metrics}

-- The samples that arrive while the hook listens, oldest first.
abbrev pub arriving : {D : Type 0} → Event D → Hook D → List D
arriving (messages d) h = if h.unmounted then [] else d ∷ []
arriving (throws d raw) h = if h.unmounted then [] else d ∷ raw ∷ []
arriving opens h = []
arriving errors h = []
arriving closes_down h = []
arriving (fires t) h = []
arriving reruns h = []
arriving unmounts h = []
arriving disconnects h = []
arriving (asks b d) h = []

last_of-append :
    {D : Type 0} (k : ℕ) (l : List D) (d : D)
    → remember (suc (suc k)) (last_of (suc (suc k)) l) d ≡ last_of (suc (suc k)) (l ++ d ∷ [])
unfolding remember
last_of-append k l d =
    ap (λ p. p ++ d ∷ []) shorter
    ∙ sym (drop-append (length l - suc k) l (d ∷ []) (omega arith))
    ∙ ap (λ n. drop n (l ++ d ∷ [])) last_index
  where
    last_index : length l - suc k ≡ length (l ++ d ∷ []) - suc (suc k)
    last_index = omega (arith, length-append l (d ∷ []))

    shorter :
        drop (length (drop (length l - suc (suc k)) l) - suc k) (drop (length l - suc (suc k)) l)
        ≡ drop (length l - suc k) l
    shorter =
        drop-drop _ (length l - suc (suc k)) l
        ∙ ap (λ n. drop n l) (omega (arith, length-drop (length l - suc (suc k)) l))

module _ {D : Type 0} (o : Options) where
  abbrev pub delivered : List (Event D) → Hook D → List D
  delivered [] h = []
  delivered (e ∷ es) h = arriving e h ++ delivered es (step o e h)

  module _ (size : ℕ) where
    metrics_step-hook :
        (e : Event D) (m : Metrics D) → (metrics_step o size e m).hook ≡ step o e m.hook
    unfolding metrics_step
    metrics_step-hook e m = ground arith

    metrics_step-history :
        (e : Event D) (m : Metrics D) (kept : List D → List D)
        → ((l : List D) (d : D) → remember size (kept l) d ≡ kept (l ++ d ∷ []))
        → (seen : List D) → m.history ≡ kept seen
        → (metrics_step o size e m).history ≡ kept (seen ++ arriving e m.hook)
    unfolding metrics_step
    metrics_step-history (messages d) m kept k seen h = ground (arith, append-nil seen, k seen d)
    metrics_step-history (throws d raw) m kept k seen h = ground (
      arith,
      append-nil seen,
      k seen d,
      k (seen ++ d ∷ []) raw,
      append_assoc seen (d ∷ []) (raw ∷ []),
    )
    metrics_step-history opens m kept k seen h = rw (append-nil seen) (ground arith)
    metrics_step-history errors m kept k seen h = rw (append-nil seen) (ground arith)
    metrics_step-history _ m kept k seen h = rw (append-nil seen) (ground arith)

    metrics_run-history :
        (es : List (Event D)) (m : Metrics D) (kept : List D → List D)
        → ((l : List D) (d : D) → remember size (kept l) d ≡ kept (l ++ d ∷ []))
        → (seen : List D) → m.history ≡ kept seen
        → (metrics_run o size es m).history ≡ kept (seen ++ delivered es m.hook)
    unfolding metrics_run
    metrics_run-history [] m kept k seen h = rw (append-nil seen) h
    metrics_run-history (e ∷ es) m kept k seen h =
        metrics_run-history es (metrics_step o size e m) kept k (seen ++ arriving e m.hook)
          (metrics_step-history e m kept k seen h)
        ∙ rw (metrics_step-hook e m)
            (ap kept (append_assoc seen (arriving e m.hook) (delivered es (step o e m.hook))))

  -- With a history size of at least 2 the history is the latest samples that arrived, as many as the
  -- size says, in order.
  pub history_latest :
      (k : ℕ) (es : List (Event D))
      → (metrics_run o (suc (suc k)) es (fresh_metrics o (suc (suc k)))).history
        ≡ last_of (suc (suc k)) (delivered es (mount o fresh_hook))
  unfolding fresh_metrics
  history_latest k es =
      metrics_run-history (suc (suc k)) es (fresh_metrics o (suc (suc k))) (last_of (suc (suc k)))
        (last_of-append k) [] (sym (drop-nil (0 - suc (suc k))))

  -- With a history size of 1 nothing is ever dropped: the history is every sample that arrived.
  pub history_unbounded :
      (es : List (Event D))
      → (metrics_run o 1 es (fresh_metrics o 1)).history ≡ delivered es (mount o fresh_hook)
  unfolding fresh_metrics remember
  history_unbounded es = metrics_run-history 1 es (fresh_metrics o 1) (λ l. l) (λ l d. refl) [] refl
