-- ===== src/Live/Socket/Rounds.antt =====
-- useWebSocket.ts: how many sockets are made while every one of them is closed without opening.
use xp_panel.Shared.{
  ℕ, zero, suc, ◌+◌, ◌≡◌, min, true, false, List, [], ◌∷◌, ◌==◌, ltb, arith, Bool-cases, inl, inr,
}
use xp_panel.Live.Socket.{
  Options, Hook, fresh_hook, Event, closes_down, fires, connect, schedule, on_close, fire, step,
  run, mount, should_reconnect,
}

-- Rounds of a close and of the timer that it would start, the first timer having the number `t`.
abbrev pub rounds : {D : Type 0} → ℕ → ℕ → List (Event D)
rounds t zero = []
rounds t (suc k) = closes_down ∷ fires t ∷ rounds (suc t) k

module _ {D : Type 0} (o : Options) where
  -- After `k` attempts that failed: all were counted, and no timer is left.
  record IsRound (k : ℕ) (h : Hook D) : Type 0 where
    sockets : h.sockets ≡ suc k
    counted : h.reconnects ≡ k
    numbered : h.timers ≡ k
    idle : h.waiting ≡ []
    alive : h.unmounted ≡ false

  next-IsRound :
      (k : ℕ) (h : Hook D)
      → o.enabled ≡ true
      → ltb k o.max_reconnects ≡ true
      → IsRound k h
      → IsRound (suc k) (step o (fires k) (step o closes_down h))
  unfolding step on_close fire connect should_reconnect schedule
  next-IsRound k h on more v = record {
    sockets = ground arith;
    counted = ground arith;
    numbered = ground arith;
    idle = ground arith;
    alive = ground arith;
  }

  last-IsRound :
      (k t : ℕ) (h : Hook D)
      → o.max_reconnects == 0 ≡ false
      → ltb k o.max_reconnects ≡ false
      → IsRound k h
      → IsRound k (step o (fires t) (step o closes_down h))
  unfolding step on_close fire connect should_reconnect
  last-IsRound k t h some_limit less v = record {
    sockets = ground arith;
    counted = ground arith;
    numbered = ground arith;
    idle = ground arith;
    alive = ground arith;
  }

  another-IsRound :
      (limit t : ℕ) (h : Hook D)
      → o.enabled ≡ true
      → o.max_reconnects ≡ suc limit
      → IsRound (min t o.max_reconnects) h
      → IsRound (min (suc t) o.max_reconnects) (step o (fires t) (step o closes_down h))
  another-IsRound limit t h on m v = elim (Bool-cases (ltb t o.max_reconnects)) [
    | inl more ↦
        let now : min t o.max_reconnects ≡ t = ground arith in
        let then_ : min (suc t) o.max_reconnects ≡ suc t = ground arith in
        rw then_ (next-IsRound t h on more (rw now at v))
    | inr less ↦
        let same : min (suc t) o.max_reconnects ≡ min t o.max_reconnects = ground arith in
        rw same (last-IsRound (min t o.max_reconnects) t h (ground arith) (ground arith) v)
  ]

  run-IsRound :
      (limit t k : ℕ) (h : Hook D)
      → o.enabled ≡ true
      → o.max_reconnects ≡ suc limit
      → IsRound (min t o.max_reconnects) h
      → IsRound (min (t + k) o.max_reconnects) (run o (rounds t k) h)
  unfolding run
  run-IsRound limit t zero h on m v = let e : t + zero ≡ t = omega arith in rw e v
  run-IsRound limit t (suc k) h on m v =
      let e : t + suc k ≡ suc t + k = omega arith in
      rw e (run-IsRound limit (suc t) k _ on m (another-IsRound limit t h on m v))

  mounted-IsRound : o.enabled ≡ true → IsRound (min 0 o.max_reconnects) (mount o fresh_hook)
  unfolding mount connect
  mounted-IsRound on = record {
    sockets = ground arith;
    counted = ground arith;
    numbered = ground arith;
    idle = ground arith;
    alive = ground arith;
  }

module _ (D : Type 0) (o : Options) where
  -- With a limit and no opening, every close is answered by a new socket until the limit is reached, and none after it: after as many closes and timers as one likes, the sockets but the first are as many as the closes or as the limit, whichever is less.
  pub closes-sockets :
      (limit k : ℕ)
      → o.enabled ≡ true
      → o.max_reconnects ≡ suc limit
      → ((run {D = D} o (rounds 0 k) (mount o fresh_hook)).sockets ≡ suc (min k o.max_reconnects))
        × ((run {D = D} o (rounds 0 k) (mount o fresh_hook)).reconnects ≡ min k o.max_reconnects)
  closes-sockets limit k on m =
      let v = run-IsRound o limit 0 k (mount {D = D} o fresh_hook) on m (mounted-IsRound o on) in
      let e : 0 + k ≡ k = omega arith in (rw e at v.sockets, rw e at v.counted)
