-- ===== src/Http/Stale.antt =====
-- client.ts against the store: the refresh writes localStorage behind the store's back.
use xp_panel.Shared.{ℕ, Text, ◌≡◌, ◌∙◌, ap, some, ◌∷◌}
use xp_panel.Auth.Browser.{User, AuthState, partialize, Browser}
use xp_panel.Auth.Store.{set_user}
use xp_panel.Http.{Request, Refreshed, Pending, Client, with_token, attach, new_state, on_refreshed}

module _ (b : Browser) where
  open b use {
    World, memory, stored, memory-set, stored-set, set_item, memory-set_item, stored-set_item,
  }

  world-on_refreshed :
      (c : Client World) (p : Pending) (a : Refreshed)
      → c.pending ≡ some p
      → (on_refreshed b a c).world ≡ set_item (new_state b a p.state) c.world
  unfolding on_refreshed
  world-on_refreshed c p a e = rw (e, on_refreshed)

  -- After a refresh that brings a token, localStorage holds it and every later request carries it,
  -- whatever its header was.
  pub attach-on_refreshed :
      (c : Client World) (p : Pending) (a : Refreshed) (r : Request) (x : ℕ) (t : Text)
      → c.pending ≡ some p
      → a.access_token ≡ some (x ∷ t)
      → attach b (on_refreshed b a c).world r ≡ with_token (some (x ∷ t)) r
  unfolding attach new_state
  attach-on_refreshed c p a r x t e token =
      rw (world-on_refreshed c p a e, stored-set_item, token, attach)

  -- But the store in memory keeps the tokens from before the refresh, and the next `setUser` writes
  -- them over the new ones in localStorage.
  pub set_user-on_refreshed :
      (c : Client World) (p : Pending) (a : Refreshed) (u : User)
      → c.pending ≡ some p
      → (memory (on_refreshed b a c).world ≡ memory c.world)
        × (stored (on_refreshed b a c).world ≡ some (new_state b a p.state))
        × (stored (set_user b u (on_refreshed b a c).world)
            ≡ some (record (memory c.world) { user = some u }))
  unfolding set_user partialize
  set_user-on_refreshed c p a u e =
      let kept : memory (on_refreshed b a c).world ≡ memory c.world =
        ap memory (world-on_refreshed c p a e) ∙ memory-set_item _ _ in
      (
        kept,
        ap stored (world-on_refreshed c p a e) ∙ stored-set_item _ _,
        stored-set partialize _ _
            ∙ ap {A = AuthState} (λ s. some (record s { user = some u })) kept,
      )
