-- ===== src/Api/Auth.antt =====
-- apps/web/src/lib/api/auth.api.ts: the calls about accounts, sessions and second factors.
use xp_panel.Shared.{Text, codes, Bool, Option, none, some, [], ◌∷◌, ◌++◌}
use xp_panel.Api.Calls.{post, api_get, api_post, api_patch, api_delete}
use xp_panel.Api.Fields.{Value, string, boolean, Fields, FieldCall, optional}

pub record Registration : Type 0 where
  pub org_name : Text
  pub org_slug : Text
  pub email : Text
  pub username : Text
  pub password : Text

pub record ProfileInput : Type 0 where
  pub first_name : Option Text
  pub last_name : Option Text
  pub timezone : Option Text
  pub language : Option Text

pub data AuthCall : Type 0 where
  login : Text → Text → AuthCall
  register : Registration → AuthCall
  refresh confirm_totp disable_mfa revoke_session forgot_password : Text → AuthCall
  logout me setup_totp list_sessions revoke_all_sessions : AuthCall
  verify_mfa : Text → Text → Option Bool → AuthCall
  update_profile : ProfileInput → AuthCall
  reset_password : Text → Text → AuthCall

abbrev text_field : Text → Text → Text × Value
text_field key s = (key, string s)

abbrev backup_field : Option Bool → Fields
backup_field none = []
backup_field (some b) = (codes "backup", boolean b) ∷ []

unfoldable pub auth_request : AuthCall → FieldCall
auth_request (login email password) =
    api_post (codes "/auth/login")
      (text_field (codes "email") email ∷ text_field (codes "password") password ∷ [])
auth_request (register r) = api_post (codes "/auth/register") (
    text_field (codes "orgName") r.org_name
    ∷ text_field (codes "orgSlug") r.org_slug
    ∷ text_field (codes "email") r.email
    ∷ text_field (codes "username") r.username
    ∷ text_field (codes "password") r.password
    ∷ [])
auth_request (refresh token) =
    api_post (codes "/auth/refresh") (text_field (codes "refreshToken") token ∷ [])
auth_request logout = record { method = post; url = codes "/auth/logout"; body = none }
auth_request me = api_get (codes "/auth/me")
auth_request setup_totp = record { method = post; url = codes "/auth/mfa/totp/setup"; body = none }
auth_request (confirm_totp code) =
    api_post (codes "/auth/mfa/totp/confirm") (text_field (codes "code") code ∷ [])
auth_request (verify_mfa session code backup) = api_post (codes "/auth/mfa/verify") (
    text_field (codes "mfa_session_id") session
    ∷ text_field (codes "code") code
    ∷ backup_field backup)
auth_request (disable_mfa code) =
    api_post (codes "/auth/mfa/disable") (text_field (codes "code") code ∷ [])
auth_request list_sessions = api_get (codes "/auth/sessions")
auth_request (revoke_session i) = api_delete (codes "/auth/sessions/" ++ i)
auth_request revoke_all_sessions = api_delete (codes "/auth/sessions")
auth_request (update_profile p) = api_patch (codes "/auth/me") (
    optional (codes "firstName") p.first_name
    ++ optional (codes "lastName") p.last_name
    ++ optional (codes "timezone") p.timezone
    ++ optional (codes "language") p.language)
auth_request (forgot_password email) =
    api_post (codes "/auth/forgot-password") (text_field (codes "email") email ∷ [])
auth_request (reset_password token password) =
    api_post (codes "/auth/reset-password")
      (text_field (codes "token") token ∷ text_field (codes "password") password ∷ [])

pub data Provider : Type 0 where
  github google gitlab : Provider

abbrev pub provider_name : Provider → Text
provider_name github = codes "github"
provider_name google = codes "google"
provider_name gitlab = codes "gitlab"

-- The address that `oauthRedirect` opens, for the configured base.
unfoldable pub oauth_url : Option Text → Provider → Text
oauth_url none p = codes "http://localhost:8080/api/v1/auth/oauth/" ++ provider_name p
oauth_url (some []) p = codes "http://localhost:8080/api/v1/auth/oauth/" ++ provider_name p
oauth_url (some (c ∷ s)) p = (c ∷ s) ++ codes "/api/v1/auth/oauth/" ++ provider_name p
