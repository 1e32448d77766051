-- ===== src/Panel/Notifications.antt =====
-- apps/web/src/app/(panel)/notifications/page.tsx: the filter, the list and what a click on it asks. The
-- list that is shown is what the query gave last.
pub mod Laws
use xp_panel.Shared.{
  ℕ, zero, suc, ◌==◌, ltb, ◌||◌, Text, codes, Bool, true, false, not, Option, none, some, List, [],
  ◌∷◌, ◌++◌, map, keep, length, take, get_elem?, if◌then◌else◌, get_or, text_eq,
}
use xp_panel.Api.Calls.{get, post, patch, api_get, api_delete}
use xp_panel.Api.Fields.{FieldCall}
use xp_panel.Panel.Runs.{PageEffect, calls, invalidates, tells_success}

pub data NotificationType : Type 0 where
  alert info success error security system : NotificationType

pub record Notification : Type 0 where
  pub id : Text
  pub kind : NotificationType
  pub title : Text
  pub body : Text
  pub resource_type : Option Text
  pub resource_id : Option Text
  pub is_read : Bool
  pub created_at : Text

pub data Filter : Type 0 where
  all_filter unread_filter alert_filter security_filter system_filter : Filter

abbrev pub filter_value : Filter → Text
filter_value all_filter = codes "all"
filter_value unread_filter = codes "unread"
filter_value alert_filter = codes "alert"
filter_value security_filter = codes "security"
filter_value system_filter = codes "system"

abbrev pub filter_label : Filter → Text
filter_label all_filter = codes "All"
filter_label unread_filter = codes "Unread"
filter_label alert_filter = codes "Alerts"
filter_label security_filter = codes "Security"
filter_label system_filter = codes "System"

abbrev pub filters : List Filter
filters = all_filter ∷ unread_filter ∷ alert_filter ∷ security_filter ∷ system_filter ∷ []

pub data NotificationCall : Type 0 where
  fetch : Filter → NotificationCall
  mark_read delete_notification : Text → NotificationCall
  mark_all_read : NotificationCall

unfoldable pub fetch_params : Text → Text
fetch_params filter =
    if text_eq filter (codes "all")
    then []
    else (codes "?"
        ++ (if text_eq filter (codes "unread")
            then codes "unread=true"
            else codes "type=" ++ filter))

unfoldable pub notification_request : NotificationCall → FieldCall
unfolding fetch_params
notification_request (fetch f) = api_get (codes "/notifications" ++ fetch_params (filter_value f))
notification_request (mark_read i) = record {
  method = patch;
  url = codes "/notifications/" ++ i ++ codes "/read";
  body = none;
}
notification_request mark_all_read = record {
  method = post;
  url = codes "/notifications/read-all";
  body = none;
}
notification_request (delete_notification i) = api_delete (codes "/notifications/" ++ i)

pub record NotificationPage : Type 0 where
  pub filter : Filter
  pub listed : List Notification
  pub marking_all : Bool

abbrev pub is_unread : Notification → Bool
is_unread n = not n.is_read

abbrev pub unread_count : List Notification → ℕ
unread_count ns = length (keep is_unread ns)

unfoldable pub mark_all_disabled : NotificationPage → Bool
mark_all_disabled p = p.marking_all || unread_count p.listed == 0

-- A click on a line or on its bin names the line by its place in the list. With another filter comes what
-- the cache has for it; when the query client fetches is its own affair.
pub data NotificationEvent : Type 0 where
  picks : Filter → List Notification → NotificationEvent
  fetches : NotificationEvent
  loaded : Option (List Notification) → NotificationEvent
  clicks clicks_bin : ℕ → NotificationEvent
  marks_all : NotificationEvent
  marked deleted all_marked : Bool → NotificationEvent

abbrev pub mark_if_unread : Option Notification → List (PageEffect NotificationCall)
mark_if_unread none = []
mark_if_unread (some n) = if n.is_read then [] else calls (mark_read n.id) ∷ []

abbrev pub delete_listed : Option Notification → List (PageEffect NotificationCall)
delete_listed none = []
delete_listed (some n) = calls (delete_notification n.id) ∷ []

abbrev pub refetch : Bool → List (PageEffect NotificationCall)
refetch true = invalidates (codes "notifications") ∷ []
refetch false = []

-- The bin stops the click, so that the line is not marked as read.
unfoldable pub notification_step :
    NotificationEvent → NotificationPage → NotificationPage × List (PageEffect NotificationCall)
unfolding mark_all_disabled
notification_step (picks f cached) p = (record p { filter = f; listed = cached }, [])
notification_step fetches p = (p, calls (fetch p.filter) ∷ [])
notification_step (loaded o) p = (record p { listed = get_or o [] }, [])
notification_step (clicks i) p = (p, mark_if_unread (get_elem? p.listed i))
notification_step (clicks_bin i) p = (p, delete_listed (get_elem? p.listed i))
notification_step marks_all p =
    if mark_all_disabled p
    then (p, [])
    else (record p { marking_all = true }, calls mark_all_read ∷ [])
notification_step (marked ok) p = (p, refetch ok)
notification_step (deleted ok) p = (p, refetch ok)
notification_step (all_marked true) p = (
  record p { marking_all = false },
  invalidates (codes "notifications") ∷ tells_success (codes "All marked as read") ∷ [],
)
notification_step (all_marked false) p = (record p { marking_all = false }, [])

-- The lines of the list; how long ago a date is, is a parameter.
pub data ResourceIcon : Type 0 where
  globe server box shield bell : ResourceIcon

unfoldable pub resource_icon : Option Text → ResourceIcon
resource_icon none = bell
resource_icon (some kind) =
    if text_eq kind (codes "domain")
    then globe
    else (if text_eq kind (codes "server")
        then server
        else (if text_eq kind (codes "app")
            then box
            else (if text_eq kind (codes "security") then shield else bell)))

pub record NotificationLine : Type 0 where
  pub line_title : Text
  pub line_body : Text
  pub line_age : Text
  pub highlighted : Bool
  pub resource : Option (ResourceIcon × Text × Option Text)
  pub dotted : Bool

abbrev short_id : Option Text → Option Text
short_id none = none
short_id (some []) = none
short_id (some (c ∷ s)) = some (take 8 (c ∷ s))

unfoldable pub resource_of : Option Text → Option Text → Option (ResourceIcon × Text × Option Text)
unfolding resource_icon
resource_of none i = none
resource_of (some []) i = none
resource_of (some (c ∷ s)) i = some (resource_icon (some (c ∷ s)), c ∷ s, short_id i)

unfoldable pub notification_line : (Text → Text) → Notification → NotificationLine
unfolding resource_of
notification_line age_text n = record {
  line_title = n.title;
  line_body = n.body;
  line_age = age_text n.created_at;
  highlighted = is_unread n;
  resource = resource_of n.resource_type n.resource_id;
  dotted = is_unread n;
}

pub data NotificationBody : Type 0 where
  loading : NotificationBody
  nothing : Text → NotificationBody
  lines : List NotificationLine → NotificationBody

pub record NotificationView : Type 0 where
  pub badge : Option ℕ
  pub mark_all_off : Bool
  pub body : NotificationBody

abbrev badge_of : ℕ → Option ℕ
badge_of zero = none
badge_of (suc n) = some (suc n)

abbrev empty_text : Filter → Text
empty_text unread_filter = codes "All caught up!"
empty_text f = codes "Nothing here yet."

abbrev body_of : (Text → Text) → Filter → List Notification → NotificationBody
body_of age_text f [] = nothing (empty_text f)
body_of age_text f (n ∷ ns) = lines (map (notification_line age_text) (n ∷ ns))

unfoldable pub notification_view : (Text → Text) → Bool → NotificationPage → NotificationView
unfolding mark_all_disabled notification_line
notification_view age_text is_loading p = record {
  badge = badge_of (unread_count p.listed);
  mark_all_off = mark_all_disabled p;
  body = if is_loading then loading else body_of age_text p.filter p.listed;
}
