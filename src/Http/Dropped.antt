-- ===== src/Http/Dropped.antt =====
-- client.ts: what becomes of the waiting requests when the refresh endpoint fails.
use xp_panel.Shared.{
  ℕ, Text, not, ◌&&◌, if_both, ◌≡◌, ◌≢◌, inl, inr, Option, none, some, List, [], ◌∷◌, map, All,
  All-append, Option-cases, true,
}
use xp_panel.Auth.Browser.{Browser}
use xp_panel.Http.{
  Request, Failure, Refreshed, Effect, posted, resent, rejected, Pending, Client, Event, fails,
  refreshes, refresh_fails, with_token, needs_refresh, refresh_token_of, start_refresh, on_error,
  on_refreshed, on_refresh_failed, step, run,
}

-- The effect does not answer the request `n`.
abbrev pub Leaves : ℕ → Effect → Type 0
Leaves n (posted t) = Unit {0}
Leaves n (resent r) = r.id ≢ n
Leaves n (rejected r) = r.id ≢ n

abbrev LeaderIsOther : ℕ → Option Pending → Type 0
LeaderIsOther n none = Unit {0}
LeaderIsOther n (some p) = p.leader.id ≢ n

-- The event is not a failure of the request `n`.
abbrev pub Spares : ℕ → Event → Type 0
Spares n (fails r f) = r.id ≢ n
Spares n (refreshes a) = Unit {0}
Spares n refresh_fails = Unit {0}

-- The client knows nothing of the request `n`.
record IsUnknown {W : Type 0} (n : ℕ) (c : Client W) : Type 0 where
  effects : All (Leaves n) c.effects
  queue : All (λ r. r.id ≢ n) c.refresh_queue
  leader : LeaderIsOther n c.pending

resent-Leaves :
    (n : ℕ) (t : Option Text) (q : List Request)
    → All (λ r. r.id ≢ n) q
    → All (Leaves n) (map (λ r. resent (with_token t r)) q)
resent-Leaves n t [] h = tt
resent-Leaves n t (r ∷ q) h = (h.0, resent-Leaves n t q h.1)

module _ (b : Browser) where
  open b use {World, stored}

  start_refresh-IsUnknown :
      (n : ℕ) (r : Request) (c : Client World)
      → IsUnknown n c
      → r.id ≢ n
      → IsUnknown n (start_refresh b r c)
  unfolding start_refresh
  start_refresh-IsUnknown n r c u h = elim (Option-cases (refresh_token_of (stored c.world))) [
    | inl e ↦
        rw (e, start_refresh)
          (record {
            effects =
                All-append (Leaves n) c.effects (rejected (record r { retry = true }) ∷ [])
                  u.effects (h, tt);
            queue = tt;
            leader = tt;
          })
    | inr ((s, t), e) ↦
        rw (e, start_refresh)
          (record {
            effects = All-append (Leaves n) c.effects (posted t ∷ []) u.effects (tt, tt);
            queue = u.queue;
            leader = h;
          })
  ]

  on_error-IsUnknown :
      (n : ℕ) (r : Request) (f : Failure) (c : Client World)
      → IsUnknown n c
      → r.id ≢ n
      → IsUnknown n (on_error b r f c)
  unfolding on_error
  on_error-IsUnknown n r f c u h =
      if_both (IsUnknown n) (needs_refresh f && not r.retry) _ _
        (if_both (IsUnknown n) c.is_refreshing _ _
          (record {
            effects = u.effects;
            queue = All-append (λ q. q.id ≢ n) c.refresh_queue (r ∷ []) u.queue (h, tt);
            leader = u.leader;
          })
          (start_refresh-IsUnknown n r c u h))
        (record {
          effects = All-append (Leaves n) c.effects (rejected r ∷ []) u.effects (h, tt);
          queue = u.queue;
          leader = u.leader;
        })

  on_refreshed-IsUnknown :
      (n : ℕ) (a : Refreshed) (c : Client World) → IsUnknown n c → IsUnknown n (on_refreshed b a c)
  unfolding on_refreshed
  on_refreshed-IsUnknown n a c u = elim (Option-cases c.pending) [
    | inl e ↦ rw (e, on_refreshed) u
    | inr (p, e) ↦
        let other : p.leader.id ≢ n = rw e at u.leader in
        rw (e, on_refreshed)
          (record {
            effects = All-append (Leaves n) c.effects _ u.effects (
                All-append (Leaves n)
                  (map (λ r. resent (with_token a.access_token r)) c.refresh_queue)
                  (resent (with_token a.access_token p.leader) ∷ [])
                  (resent-Leaves n a.access_token c.refresh_queue u.queue) (other, tt));
            queue = tt;
            leader = tt;
          })
  ]

  -- A failed refresh makes the client forget every request but the leader.
  on_refresh_failed-IsUnknown :
      (n : ℕ) (c : Client World) (p : Pending)
      → c.pending ≡ some p
      → p.leader.id ≢ n
      → All (Leaves n) c.effects
      → IsUnknown n (on_refresh_failed b c)
  unfolding on_refresh_failed
  on_refresh_failed-IsUnknown n c p e h l =
      rw (e, on_refresh_failed)
        (record {
          effects = All-append (Leaves n) c.effects (rejected p.leader ∷ []) l (h, tt);
          queue = tt;
          leader = tt;
        })

  step-IsUnknown :
      (n : ℕ) (e : Event) (c : Client World) → Spares n e → IsUnknown n c → IsUnknown n (step b e c)
  unfolding step on_refresh_failed
  step-IsUnknown n (fails r f) c h u = on_error-IsUnknown n r f c u h
  step-IsUnknown n (refreshes a) c h u = on_refreshed-IsUnknown n a c u
  step-IsUnknown n refresh_fails c h u = elim (Option-cases c.pending) [
    | inl e ↦ rw (e, on_refresh_failed) u
    | inr (p, e) ↦ on_refresh_failed-IsUnknown n c p e (rw e at u.leader) u.effects
  ]

  run-IsUnknown :
      (n : ℕ) (es : List Event) (c : Client World)
      → All (Spares n) es
      → IsUnknown n c
      → IsUnknown n (run b es c)
  unfolding run
  run-IsUnknown n [] c h u = u
  run-IsUnknown n (e ∷ es) c h u = run-IsUnknown n es (step b e c) h.1 (step-IsUnknown n e c h.0 u)

  -- When a call of the refresh endpoint fails, a request other than its leader that is not answered yet,
  -- such as each one that waits in the queue, is never answered: whatever happens afterwards, short of
  -- another failure of a request with that id, no effect resends or rejects it.
  pub waiting_never_settles :
      (n : ℕ) (c : Client World) (p : Pending) (es : List Event)
      → c.pending ≡ some p
      → p.leader.id ≢ n
      → All (Leaves n) c.effects
      → All (Spares n) es
      → All (Leaves n) (run b (refresh_fails ∷ es) c).effects
  unfolding run step
  waiting_never_settles n c p es e other open_yet spared =
      (run-IsUnknown n es (on_refresh_failed b c) spared
        (on_refresh_failed-IsUnknown n c p e other open_yet)).effects
