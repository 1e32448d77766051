-- ===== src/Http/Account.antt =====
-- client.ts: the flags and the queue stay consistent, and each request is accounted for.
use xp_panel.Shared.{
  ℕ, Text, suc, inl, inr, ◌+◌, ◌≡◌, refl, ap, ◌⊎◌, true, false, Option, none, some, List, [], ◌∷◌,
  ◌++◌, map, is_some, arith, ◌==◌, if◌then◌else◌, Option-cases,
}
use xp_panel.Auth.Browser.{Browser}
use xp_panel.Http.{
  Request, Effect, posted, resent, rejected, Pending, Client, Event, fails, refreshes,
  refresh_fails, start_refresh, on_error, on_refreshed, on_refresh_failed, step, with_token,
  refresh_token_of,
}

-- The flag says whether a call of the refresh endpoint is open, and requests wait only for such a call.
pub record IsConsistent {W : Type 0} (c : Client W) : Type 0 where
  pub flag : c.is_refreshing ≡ is_some c.pending
  pub idle : c.pending ≡ none → c.refresh_queue ≡ []

module _ (b : Browser) where
  open b use {World}

  start_refresh-IsConsistent :
      (r : Request) (c : Client World)
      → IsConsistent c
      → c.is_refreshing ≡ false
      → IsConsistent (start_refresh b r c)
  unfolding start_refresh
  start_refresh-IsConsistent r c v h = ground arith

  pub step-IsConsistent :
      (e : Event) (c : Client World) → IsConsistent c → IsConsistent (step b e c)
  unfolding step on_error
  step-IsConsistent (fails r f) c v = ground (arith, start_refresh-IsConsistent r c v)
  step-IsConsistent (refreshes a) c v = unfold on_refreshed in ground arith
  step-IsConsistent refresh_fails c v = unfold on_refresh_failed in ground arith

-- One for a request with the id `n`.
unfoldable pub one : ℕ → ℕ → ℕ
one n i = if i == n then 1 else 0

-- How often the request `n` has been answered by the effects.
abbrev pub settled : ℕ → List Effect → ℕ
settled n [] = 0
settled n (posted t ∷ es) = settled n es
settled n (resent r ∷ es) = one n r.id + settled n es
settled n (rejected r ∷ es) = one n r.id + settled n es

-- The calls of the refresh endpoint so far.
abbrev pub posts : List Effect → ℕ
posts [] = 0
posts (posted t ∷ es) = suc (posts es)
posts (resent r ∷ es) = posts es
posts (rejected r ∷ es) = posts es

abbrev pub queued : ℕ → List Request → ℕ
queued n [] = 0
queued n (r ∷ q) = one n r.id + queued n q

abbrev pub led : ℕ → Option Pending → ℕ
led n none = 0
led n (some p) = one n p.leader.id

-- How often the request `n` still waits: in the queue, and as the one whose handler is suspended.
abbrev pub held : {W : Type 0} → ℕ → Client W → ℕ
held n c = queued n c.refresh_queue + led n c.pending

abbrev pub arrived : ℕ → Event → ℕ
arrived n (fails r f) = one n r.id
arrived n (refreshes a) = 0
arrived n refresh_fails = 0

-- How often the client forgets the promise of the request `n`.
abbrev pub forgotten : {W : Type 0} → ℕ → Event → Client W → ℕ
forgotten n (fails r f) c = 0
forgotten n (refreshes a) c = 0
forgotten n refresh_fails c = queued n c.refresh_queue

settled-append : (n : ℕ) (es fs : List Effect) → settled n (es ++ fs) ≡ settled n es + settled n fs
settled-append n [] fs = omega arith
settled-append n (posted t ∷ es) fs = settled-append n es fs
settled-append n (resent r ∷ es) fs = omega (arith, settled-append n es fs)
settled-append n (rejected r ∷ es) fs = omega (arith, settled-append n es fs)

queued-append : (n : ℕ) (q p : List Request) → queued n (q ++ p) ≡ queued n q + queued n p
queued-append n [] p = omega arith
queued-append n (r ∷ q) p = omega (arith, queued-append n q p)

posts-append : (es fs : List Effect) → posts (es ++ fs) ≡ posts es + posts fs
posts-append [] fs = omega arith
posts-append (posted t ∷ es) fs = omega (arith, posts-append es fs)
posts-append (resent r ∷ es) fs = posts-append es fs
posts-append (rejected r ∷ es) fs = posts-append es fs

settled-resent :
    (n : ℕ) (t : Option Text) (q : List Request)
    → settled n (map (λ r. resent (with_token t r)) q) ≡ queued n q
settled-resent n t [] = refl
settled-resent n t (r ∷ q) = omega (arith, settled-resent n t q)

posts-resent :
    (t : Option Text) (q : List Request) → posts (map (λ r. resent (with_token t r)) q) ≡ 0
posts-resent t [] = refl
posts-resent t (r ∷ q) = posts-resent t q

module _ (b : Browser) where
  open b use {World, stored}

  start_refresh-account :
      (n : ℕ) (r : Request) (c : Client World)
      → c.refresh_queue ≡ []
      → c.pending ≡ none
      → settled n (start_refresh b r c).effects + held n (start_refresh b r c)
        ≡ settled n c.effects + one n r.id
  unfolding start_refresh
  start_refresh-account n r c q p = elim (Option-cases (refresh_token_of (stored c.world))) [
    | inl e ↦
        rw (e, start_refresh)
          (omega (arith, settled-append n c.effects (rejected (record r { retry = true }) ∷ [])))
    | inr ((s, t), e) ↦
        rw (e, start_refresh)
          (omega (arith, settled-append n c.effects (posted t ∷ []), ap (queued n) q))
  ]

  -- Every step accounts for each request: as often as a request is answered, held or forgotten after
  -- the step, it was answered or held before, or arrives in it. Only a failed refresh forgets requests.
  pub step-account :
      (n : ℕ) (e : Event) (c : Client World)
      → IsConsistent c
      → settled n (step b e c).effects + held n (step b e c) + forgotten n e c
        ≡ settled n c.effects + held n c + arrived n e
  unfolding step on_error on_refreshed on_refresh_failed
  step-account n (fails r f) c v = ground (
    arith,
    start_refresh-account n r c,
    v.idle,
    settled-append n c.effects (rejected r ∷ []),
    queued-append n c.refresh_queue (r ∷ []),
  )
  step-account n (refreshes a) c v = elim (Option-cases c.pending) [
    | inl e ↦ rw (e, on_refreshed) (omega (arith, ap (queued n) (v.idle e), ap (led n) e))
    | inr (p, e) ↦
        rw (e, on_refreshed)
          (omega (
            arith,
            settled-append n c.effects (
                map (λ r. resent (with_token a.access_token r)) c.refresh_queue
                ++ resent (with_token a.access_token p.leader) ∷ []),
            settled-append n (map (λ r. resent (with_token a.access_token r)) c.refresh_queue)
                (resent (with_token a.access_token p.leader) ∷ []),
            settled-resent n a.access_token c.refresh_queue,
          ))
  ]
  step-account n refresh_fails c v = elim (Option-cases c.pending) [
    | inl e ↦ rw (e, on_refresh_failed) (omega (arith, ap (queued n) (v.idle e), ap (led n) e))
    | inr (p, e) ↦
        rw (e, on_refresh_failed)
          (omega (arith, settled-append n c.effects (rejected p.leader ∷ [])))
  ]

  start_refresh-posts :
      (r : Request) (c : Client World)
      → (posts (start_refresh b r c).effects ≡ posts c.effects)
        ⊎ ((is_some (start_refresh b r c).pending ≡ true)
            × (posts (start_refresh b r c).effects ≡ posts c.effects + 1))
  unfolding start_refresh
  start_refresh-posts r c = elim (Option-cases (refresh_token_of (stored c.world))) [
    | inl e ↦
        rw (e, start_refresh)
          (inl (omega (arith, posts-append c.effects (rejected (record r { retry = true }) ∷ []))))
    | inr ((s, t), e) ↦
        rw (e, start_refresh) (inr (refl, omega (arith, posts-append c.effects (posted t ∷ []))))
  ]

  -- A step calls the refresh endpoint at most once, and only if no call is open.
  pub step-posts :
      (e : Event) (c : Client World)
      → IsConsistent c
      → (posts (step b e c).effects ≡ posts c.effects)
        ⊎ ((c.pending ≡ none)
            × (is_some (step b e c).pending ≡ true)
            × (posts (step b e c).effects ≡ posts c.effects + 1))
  unfolding step on_error on_refreshed on_refresh_failed
  step-posts (fails r f) c v =
      ground (arith, start_refresh-posts r c, posts-append c.effects (rejected r ∷ []))
  step-posts (refreshes a) c v = elim (Option-cases c.pending) [
    | inl e ↦ inl (rw (e, on_refreshed) refl)
    | inr (p, e) ↦ inl (
        rw (e, on_refreshed)
          (omega (
            arith,
            posts-append c.effects (
                map (λ r. resent (with_token a.access_token r)) c.refresh_queue
                ++ resent (with_token a.access_token p.leader) ∷ []),
            posts-append (map (λ r. resent (with_token a.access_token r)) c.refresh_queue)
                (resent (with_token a.access_token p.leader) ∷ []),
            posts-resent a.access_token c.refresh_queue,
          )))
  ]
  step-posts refresh_fails c v = elim (Option-cases c.pending) [
    | inl e ↦ inl (rw (e, on_refresh_failed) refl)
    | inr (p, e) ↦
        inl (
          rw (e, on_refresh_failed)
            (omega (arith, posts-append c.effects (rejected p.leader ∷ []))))
  ]
