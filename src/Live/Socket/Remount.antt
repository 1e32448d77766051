-- ===== src/Live/Socket/Remount.antt =====
-- useWebSocket.ts: the handlers do not know which socket they belong to.
use xp_panel.Shared.{suc, ◌≡◌, true, some, [], ◌∷◌, ◌++◌, arith}
use xp_panel.Live.Socket.{
  closed, Options, Hook, created, calls_on_open, calls_on_close, opens, closes_down, fires, reruns,
  on_open, on_close, fire, step, run, mount, cleanup, close_of,
}

-- When the effect runs again, as it does for every render with new callbacks, the cleanup closes the
-- old socket and a new one opens; the close event of the old one then marks the hook as closed though
-- its current socket is open, and the timer that it starts makes a third socket, while nothing ever
-- closes the second.
pub stale_close :
    {D : Type 0} (o : Options) (h : Hook D)
    → o.enabled ≡ true
    → let g = run o (reruns ∷ opens ∷ closes_down ∷ []) h in
      let f = run o (reruns ∷ opens ∷ closes_down ∷ fires h.timers ∷ []) h in
      (g.status ≡ closed)
      × (g.ws ≡ some h.sockets)
      × (f.ws ≡ some (suc h.sockets))
      × (f.actions
          ≡ ((((h.actions ++ close_of h.ws) ++ created h.sockets ∷ []) ++ calls_on_open ∷ [])
              ++ calls_on_close ∷ [])
            ++ created (suc h.sockets) ∷ [])
unfolding run step mount cleanup on_open on_close fire
stale_close o h on = (ground arith, ground arith, ground arith, ground arith)
