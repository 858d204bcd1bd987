-- ===== src/Accounts/Notifications.antt =====
-- apps/api/src/notifications/notifications.service.ts: the notifications of camera events and alerts.
-- An id that the table gives, or the failure of a creation, is that of each user.
pub mod Recipients
use Prim.Native.String
use sms_app.Base.{
  ℕ, ◌+◌, String, Bool, true, false, not, ◌&&◌, ◌||◌, Option, none, some, List, [], ◌∷◌, ◌++◌, map,
  ◌==◌, string_eq, if◌then◌else◌, ltb, length, take, get_elem?, keep, any, replace_first, count_by,
}
use sms_app.Accounts.Guards.{Member}

-- A row of `NotificationPreference`.
pub record Preference : Type 0 where
  pub user_id : String
  pub org_id : String
  pub event_type : String
  pub enabled : Bool

pub record Notification : Type 0 where
  pub id : String
  pub org_id : String
  pub user_id : String
  pub type_ : String
  pub title : String
  pub body : String
  pub read : Bool

abbrev pub event_type_of : String → String
event_type_of status = String.◌++◌ "camera." status

abbrev pub wants_event : String → String → Preference → Bool
wants_event org event p = p.org_id == org && (p.event_type == event && p.enabled)

abbrev pub in_organization : String → Member → Bool
in_organization org m = m.organization_id == org

abbrev pub or_members : List String → List String → List String
or_members [] members = members
or_members (u ∷ us) members = u ∷ us

-- The users whose preference for the event is on, and else every member.
unfoldable pub recipients : (org event : String) → List Preference → List Member → List String
recipients org event preferences members =
    or_members (map (λ p. p.user_id) (keep (wants_event org event) preferences))
      (map (λ m. m.user_id) (keep (in_organization org) members))

abbrev pub created_one : Option String → (String → Notification) → List Notification
created_one none make = []
created_one (some id) make = make id ∷ []

-- The loop: a creation that fails is left out.
unfoldable pub create_all :
    (created : String → Option String)
    → (String → String → Notification)
    → List String
    → List Notification
create_all created make [] = []
create_all created make (user ∷ users) =
    created_one (created user) (make user) ++ create_all created make users

abbrev pub camera_notification : (org event status name : String) → String → String → Notification
camera_notification org event status name user id = record {
  id = id;
  org_id = org;
  user_id = user;
  type_ = event;
  title = String.◌++◌ name (String.◌++◌ " is " status);
  body = String.◌++◌ "Camera status changed to " status;
  read = false;
}

-- The rows, each of which is also sent to its user.
unfoldable pub create_for_camera_event :
    (created : String → Option String) (org status name : String)
    → List Preference
    → List Member
    → List Notification
unfolding recipients create_all
create_for_camera_event created org status name preferences members =
    create_all created (camera_notification org (event_type_of status) status name)
      (recipients org (event_type_of status) preferences members)

abbrev pub is_manager : String → Member → Bool
is_manager org m = m.organization_id == org && (m.role == "owner" || m.role == "admin")

abbrev pub alert_notification : (org title body : String) → String → String → Notification
alert_notification org title body user id = record {
  id = id;
  org_id = org;
  user_id = user;
  type_ = "system.alert";
  title = title;
  body = body;
  read = false;
}

unfoldable pub create_system_alert :
    (created : String → Option String) (org title body : String) → List Member → List Notification
unfolding create_all
create_system_alert created org title body members =
    create_all created (alert_notification org title body)
      (map (λ m. m.user_id) (keep (is_manager org) members))

-- `findMany` gives the rows in their order, from after the cursor; one more than a page is asked for.
pub record Page : Type 0 where
  pub items : List Notification
  pub next_cursor : Option String

abbrev pub id_at : List Notification → ℕ → Option String
id_at rows n = elim (get_elem? rows n) [ none ↦ none | some r ↦ some r.id ]

abbrev pub page_of : ℕ → List Notification → Page
page_of n rows =
    if ltb n (length rows)
    then record { items = take n rows; next_cursor = id_at rows n }
    else record { items = rows; next_cursor = none }

abbrev pub after_cursor : Option String → List Notification → List Notification
after_cursor none rows = rows
after_cursor (some id) [] = []
after_cursor (some id) (r ∷ rows) =
    let rest = after_cursor (some id) rows in if r.id == id then rows else rest

abbrev pub default_take : Option ℕ → ℕ
default_take none = 20
default_take (some n) = n

abbrev pub is_listed : String → Bool → Notification → Bool
is_listed user unread_only r = r.user_id == user && (not unread_only || not r.read)

unfoldable pub find_for_user :
    (user : String) (cursor : Option String) (size : Option ℕ) (unread_only : Bool)
    → List Notification
    → Page
find_for_user user cursor size unread_only rows =
    page_of (default_take size)
      (take (default_take size + 1) (after_cursor cursor (keep (is_listed user unread_only) rows)))

abbrev pub read_if : (Notification → Bool) → Notification → Notification
read_if p r = if p r then record r { read = true } else r

unfoldable pub mark_as_read : (user id : String) → List Notification → List Notification
mark_as_read user id rows = map (read_if (λ r. r.id == id && r.user_id == user)) rows

unfoldable pub mark_all_as_read : String → List Notification → List Notification
mark_all_as_read user rows = map (read_if (λ r. r.user_id == user && not r.read)) rows

unfoldable pub clear_all : String → List Notification → List Notification
clear_all user rows = keep (λ r. not (r.user_id == user)) rows

unfoldable pub get_unread_count : String → List Notification → ℕ
get_unread_count user rows = count_by (λ r. r.user_id == user && not r.read) rows

abbrev pub is_preference : String → String → String → Preference → Bool
is_preference user org event p = p.user_id == user && (p.org_id == org && p.event_type == event)

unfoldable pub update_preference :
    (user org event : String) (enabled : Bool) → List Preference → List Preference
update_preference user org event enabled preferences =
    if any (is_preference user org event) preferences
    then replace_first (is_preference user org event) (λ p. record p { enabled = enabled })
        preferences
    else record { user_id = user; org_id = org; event_type = event; enabled = enabled }
      ∷ preferences
