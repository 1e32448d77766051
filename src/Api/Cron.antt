-- ===== src/Api/Cron.antt =====
-- apps/web/src/lib/api/cron.api.ts: the calls about cron jobs.
use xp_panel.Shared.{Text, codes, Bool, Option, [], ◌++◌}
use xp_panel.Api.Calls.{api_get, api_post, api_put, api_delete}
use xp_panel.Api.Fields.{Fields, FieldCall}

pub record CronJob : Type 0 where
  pub id : Text
  pub org_id : Text
  pub user_id : Text
  pub domain : Option Text
  pub label : Text
  pub command : Text
  pub schedule : Text
  pub minute : Text
  pub hour : Text
  pub day_month : Text
  pub month : Text
  pub day_week : Text
  pub enabled : Bool
  pub last_run_at : Option Text
  pub last_status : Option Text
  pub created_at : Text

pub data CronCall : Type 0 where
  list : CronCall
  create : Fields → CronCall
  update : Text → Fields → CronCall
  delete toggle : Text → CronCall

unfoldable pub cron_request : CronCall → FieldCall
cron_request list = api_get (codes "/webserver/cron")
cron_request (create d) = api_post (codes "/webserver/cron") d
cron_request (update i d) = api_put (codes "/webserver/cron/" ++ i) d
cron_request (delete i) = api_delete (codes "/webserver/cron/" ++ i)
cron_request (toggle i) = api_post (codes "/webserver/cron/" ++ i ++ codes "/toggle") []
