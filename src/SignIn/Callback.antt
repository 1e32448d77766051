-- ===== src/SignIn/Callback.antt =====
-- apps/web/src/app/(auth)/auth/callback/page.tsx: the return from a provider, with the parameters of its address.
use xp_panel.Shared.{Text, codes, Option, some, List, [], ◌∷◌}
use xp_panel.SignIn.{Effect, tells_error, stores_tokens, tells_success, goes_to}

-- `if (error)` and `if (accessToken && refreshToken)`: a parameter counts that is there and not empty.
unfoldable pub callback : Option Text → Option Text → Option Text → List Effect
callback access refresh (some (c ∷ s)) =
    tells_error (codes "OAuth login failed") ∷ goes_to (codes "/login") ∷ []
callback (some (a ∷ s)) (some (r ∷ t)) error =
    stores_tokens (a ∷ s) (r ∷ t)
    ∷ tells_success (codes "Signed in successfully")
    ∷ goes_to (codes "/dashboard")
    ∷ []
callback access refresh error = goes_to (codes "/login") ∷ []
