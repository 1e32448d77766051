-- ===== src/Live/Socket/Budget.antt =====
-- useWebSocket.ts: the limit on reconnections.
use xp_panel.Shared.{
  ℕ, suc, ◌+◌, ◌≤◌, ◌<◌, ◌≡◌, true, not, Option, some, List, [], ◌∷◌, any, All, ◌==◌, arith,
  Bool-cases, inl, inr, none, length, length-keep-le,
}
use xp_panel.Live.Socket.{
  Options, Hook, fresh_hook, Event, opens, errors, closes_down, messages, throws, fires, reruns,
  unmounts, disconnects, asks, connect, on_open, on_message, on_thrown, on_error, on_close, fire,
  step, run, mount, cleanup, disconnect, send, without, clear,
}

length-without :
    (t : ℕ) (ts : List ℕ) → any (λ u. u == t) ts ≡ true → length (without t ts) < length ts
length-without t [] h = cc
length-without t (u ∷ ts) h = elim (Bool-cases (u == t)) [
  | inl same ↦ rw same (omega (arith, length-keep-le (λ v. not (v == t)) ts))
  | inr other ↦ let ih = length-without t ts in ground (arith, ih)
]

length-clear-le : (o : Option ℕ) (ts : List ℕ) → length (clear o ts) ≤ length ts
length-clear-le none ts = omega arith
length-clear-le (some t) ts = length-keep-le (λ v. not (v == t)) ts

-- The event is not the opening of a socket.
abbrev pub IsVain : {D : Type 0} → Event D → Type 0
IsVain opens = ⊥
IsVain errors = Unit {0}
IsVain closes_down = Unit {0}
IsVain (messages d) = Unit {0}
IsVain (throws d raw) = Unit {0}
IsVain (fires t) = Unit {0}
IsVain reruns = Unit {0}
IsVain unmounts = Unit {0}
IsVain disconnects = Unit {0}
IsVain (asks is_open d) = Unit {0}

-- How often the effect runs again.
abbrev pub again : {D : Type 0} → Event D → ℕ
again reruns = 1
again _ = 0

abbrev pub reruns_of : {D : Type 0} → List (Event D) → ℕ
reruns_of [] = 0
reruns_of (e ∷ es) = again e + reruns_of es

module _ {D : Type 0} (o : Options) where
  -- The reconnections are within the limit, and pay for the timers and for the sockets but the first
  -- and those of the new runs of the effect.
  record IsWithin (limit extra : ℕ) (h : Hook D) : Type 0 where
    counted : h.reconnects ≤ limit
    paid : h.sockets + length h.waiting ≤ suc h.reconnects + extra

  enough : (limit m n : ℕ) (h : Hook D) → m ≤ n → IsWithin limit m h → IsWithin limit n h
  enough limit m n h less v = record { counted = v.counted; paid = omega (arith, v.paid) }

  fire-IsWithin :
      (limit extra t : ℕ) (h : Hook D)
      → any (λ u. u == t) h.waiting ≡ true
      → IsWithin limit extra h
      → IsWithin limit extra (fire o t h)
  unfolding fire
  fire-IsWithin limit extra t h due v = ground (arith, length-without t h.waiting due)

  rerun-IsWithin :
      (limit extra : ℕ) (h : Hook D)
      → IsWithin limit extra h
      → IsWithin limit (suc extra) (mount o (cleanup o h))
  unfolding mount connect cleanup
  rerun-IsWithin limit extra h v = ground (arith, length-clear-le h.timer h.waiting)

  step-IsWithin :
      (limit extra : ℕ) (e : Event D) (h : Hook D)
      → o.max_reconnects ≡ suc limit
      → IsVain e
      → IsWithin (suc limit) extra h
      → IsWithin (suc limit) (extra + again e) (step o e h)
  unfolding step connect on_open on_message on_thrown on_error on_close cleanup disconnect send
  step-IsWithin limit extra opens h m i v = absurd i
  step-IsWithin limit extra errors h m i v = ground arith
  step-IsWithin limit extra closes_down h m i v = ground arith
  step-IsWithin limit extra (messages d) h m i v = ground arith
  step-IsWithin limit extra (throws d raw) h m i v = ground arith
  step-IsWithin limit extra (fires t) h m i v = elim (Bool-cases (any (λ u. u == t) h.waiting)) [
    | inl due ↦
        rw due
          (enough (suc limit) extra _ _ (omega arith) (fire-IsWithin (suc limit) extra t h due v))
    | inr gone ↦ rw gone (enough (suc limit) extra _ h (omega arith) v)
  ]
  step-IsWithin limit extra reruns h m i v =
      enough (suc limit) (suc extra) _ _ (omega arith) (rerun-IsWithin (suc limit) extra h v)
  step-IsWithin limit extra unmounts h m i v = ground (arith, length-clear-le h.timer h.waiting)
  step-IsWithin limit extra disconnects h m i v = ground (arith, length-clear-le h.timer h.waiting)
  step-IsWithin limit extra (asks is_open d) h m i v = ground arith

  run-IsWithin :
      (limit extra : ℕ) (es : List (Event D)) (h : Hook D)
      → o.max_reconnects ≡ suc limit
      → All IsVain es
      → IsWithin (suc limit) extra h
      → IsWithin (suc limit) (reruns_of es + extra) (run o es h)
  unfolding run
  run-IsWithin limit extra [] h m i v = enough (suc limit) extra _ h (omega arith) v
  run-IsWithin limit extra (e ∷ es) h m i v =
      let w =
        run-IsWithin limit (extra + again e) es (step o e h) m i.1
          (step-IsWithin limit extra e h m i.0 v) in
      record { counted = w.counted; paid = omega (arith, w.paid) }

  mounted-IsWithin : (limit : ℕ) → IsWithin (suc limit) 0 (mount o fresh_hook)
  unfolding mount
  mounted-IsWithin limit = ground arith

  -- With a limit, a component whose sockets never open reconnects within the limit, and makes at most one socket more than the limit and one more for each time that the effect runs again, whatever the order of its errors, closes, timers, messages and calls.
  pub vain_attempts :
      (limit : ℕ) (es : List (Event D))
      → o.max_reconnects ≡ suc limit
      → All IsVain es
      → ((run o es (mount o fresh_hook)).sockets ≤ o.max_reconnects + 1 + reruns_of es)
        × ((run o es (mount o fresh_hook)).reconnects ≤ o.max_reconnects)
  vain_attempts limit es m i =
      let v = run-IsWithin limit 0 es (mount o fresh_hook) m i (mounted-IsWithin limit) in
      (omega (arith, v.counted, v.paid, m), omega (arith, v.counted, m))
