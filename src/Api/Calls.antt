-- ===== src/Api/Calls.antt =====
-- The request that a method of the HTTP client makes (axios; the client itself is in Http.antt).
use xp_panel.Shared.{Text, Option, none, some}

pub data Method : Type 0 where
  get post put patch delete : Method

-- A call, with a body of the type that the wrapper sends.
pub record ApiCall (B : Type 0) : Type 0 where
  pub method : Method
  pub url : Text
  pub body : Option B

module _ {B : Type 0} where
  abbrev pub api_get : Text → ApiCall B
  api_get url = record { method = get; url = url; body = none }

  abbrev pub api_post : Text → B → ApiCall B
  api_post url b = record { method = post; url = url; body = some b }

  abbrev pub api_put : Text → B → ApiCall B
  api_put url b = record { method = put; url = url; body = some b }

  abbrev pub api_patch : Text → B → ApiCall B
  api_patch url b = record { method = patch; url = url; body = some b }

  abbrev pub api_delete : Text → ApiCall B
  api_delete url = record { method = delete; url = url; body = none }
