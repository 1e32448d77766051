-- ===== src/SignIn.antt =====
-- The pages before the panel (apps/web/src/app/(auth), app/setup): what they do outside themselves.
-- A page is a state with a step for each event, an answer of the server being an event of its own.
pub mod Characters
pub mod Slugs
pub mod Register
pub mod Login
pub mod Callback
pub mod Reset
pub mod Forgot
pub mod Setup
pub mod Dashboard
use xp_panel.Shared.{Text, codes, Option, none, some, List, [], ◌∷◌, get_or}
use xp_panel.Api.Auth.{AuthCall}

-- `goes_to` is the router's push or replace, `opens` a new address of the window.
pub data Effect : Type 0 where
  calls : AuthCall → Effect
  stores_tokens : Text → Text → Effect
  tells_success tells_error goes_to opens : Text → Effect

-- An answer to a request: what the server sent, or the message of the error if it has one.
pub data Answer {ℓ} (A : Type ℓ) : Type ℓ where
  succeeded : A → Answer A
  failed : Option Text → Answer A

abbrev pub Tokens : Type 0
Tokens = Text × Text

-- The end of a sign-in with tokens.
abbrev pub signed_in : Text → Option Tokens → List Effect
signed_in greeting none = []
signed_in greeting (some (access, refresh)) =
    stores_tokens access refresh ∷ tells_success greeting ∷ goes_to (codes "/dashboard") ∷ []

-- `err?.response?.data?.error?.message ?? fallback`.
abbrev pub told : Text → Option Text → List Effect
told fallback message = tells_error (get_or message fallback) ∷ []
