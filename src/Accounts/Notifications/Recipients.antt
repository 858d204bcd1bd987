-- ===== src/Accounts/Notifications/Recipients.antt =====
-- Who gets a camera's notification, and the pages of a list.
use sms_app.Base.{
  String, Bool, true, not, ◌&&◌, some, List, [], ◌∷◌, map, ◌≡◌, refl, arith, string_eq, keep,
}
use sms_app.Accounts.Guards.{Member}
use sms_app.Accounts.Notifications.{
  Preference, Notification, wants_event, in_organization, recipients, create_all, event_type_of,
  create_for_camera_event, camera_notification,
}

-- Whether every preference of the organization for the event is off.
abbrev pub all_off : String → String → List Preference → Bool
all_off org event [] = true
all_off org event (p ∷ ps) = not (wants_event org event p) && all_off org event ps

keep-all_off :
    (org event : String) (ps : List Preference)
    → all_off org event ps ≡ true
    → keep (wants_event org event) ps ≡ []
keep-all_off org event [] h = refl
keep-all_off org event (p ∷ ps) h = ground (arith, keep-all_off org event ps)

create_all-users :
    (ids : String → String) (make : String → String → Notification) (users : List String)
    → ((user id : String) → (make user id).user_id ≡ user)
    → map (λ n. n.user_id) (create_all (λ user. some (ids user)) make users) ≡ users
unfolding create_all
create_all-users ids make [] h = refl
create_all-users ids make (user ∷ users) h =
    cc (h user (ids user), create_all-users ids make users h)

-- Where every member has turned an event off, or no one has a preference for it, its notification goes
-- to every member: users who have turned it off are told as well.
pub disabled_still_notified :
    (ids : String → String) (org status name : String) (preferences : List Preference)
    (members : List Member)
    → all_off org (event_type_of status) preferences ≡ true
    → map
        (λ n. n.user_id)
        (create_for_camera_event (λ user. some (ids user)) org status name preferences members)
      ≡ map (λ m. m.user_id) (keep (in_organization org) members)
unfolding create_for_camera_event recipients
disabled_still_notified ids org status name preferences members h =
    rw (keep-all_off org (event_type_of status) preferences h) (
      create_all-users ids (camera_notification org (event_type_of status) status name)
        (map (λ m. m.user_id) (keep (in_organization org) members)) (λ user id. refl))
