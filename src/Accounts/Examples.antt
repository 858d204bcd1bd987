-- ===== src/Accounts/Examples.antt =====
-- Two organizations with their members, and the theorems at them.
use sms_app.Base.{
  ◌≤◌, String, true, false, string_eq, some, List, [], ◌∷◌, ◌≡◌, refl, ok, arith, count_by,
}
use sms_app.Accounts.Roles.{check_permission}
use sms_app.Accounts.Guards.{
  Session, Member, when_truthy, auth_guard, super_admin_guard, org_admin_guard,
}
use sms_app.Accounts.Guards.Scope.{Gives, IsEarned, IsAdministered, guards_scope}
use sms_app.Accounts.Members.{is_org_admin, remove_member}
use sms_app.Accounts.Members.Admins.{removal_keeps_admin}
use sms_app.Accounts.Notifications.{Preference}
use sms_app.Accounts.PlanUsage.Aggregation.{of_month}
use sms_app.ApiKeys.{
  System, Event, idle, used, job_started, counter_read, row_written, counter_deleted, step,
  record_usage, count_usage, start_job, read_next, write_row, delete_counter,
}
use sms_app.ApiKeys.Totals.{requests, all_lost}

abbrev member : String → String → String → Member
member org user role = record { organization_id = org; user_id = user; role = role }

abbrev members : List Member
members = member "o" "ann" "admin" ∷ member "o" "bob" "viewer" ∷ member "p" "ann" "viewer" ∷ []

abbrev session : Session
session = record { user_id = "ann"; user_role = some "user"; active_organization_id = some "o" }

guards_scope_example :
    Gives
      (λ c. IsEarned session c × (c.org_id ≡ when_truthy (some "o")))
      (auth_guard (some session))
    × Gives (IsEarned session) (super_admin_guard (some session))
    × Gives
        (IsAdministered (some "o") members session)
        (org_admin_guard (some "o") members (some session))
guards_scope_example = guards_scope (some "o") members session

administered :
    org_admin_guard (some "o") members (some session)
    ≡ ok (record { org_id = some "o"; is_superuser = false })
unfolding org_admin_guard
administered = refl

denied_by_override : check_permission (some "deny") "operator" "camera:create" ≡ false
unfolding check_permission
denied_by_override = refl

removal :
    remove_member "o" "bob" members ≡ ok (member "o" "ann" "admin" ∷ member "p" "ann" "viewer" ∷ [])
unfolding remove_member
removal = refl

removal_keeps_admin_example :
    1 ≤ count_by (is_org_admin "o") (member "o" "ann" "admin" ∷ member "p" "ann" "viewer" ∷ [])
removal_keeps_admin_example =
    removal_keeps_admin "o" "bob" members
      (member "o" "ann" "admin" ∷ member "p" "ann" "viewer" ∷ []) "o" (omega arith) removal
      (omega arith)

abbrev off : Preference
off = record { user_id = "bob"; org_id = "o"; event_type = "camera.offline"; enabled = false }

abbrev no_usage : System
no_usage = record { store = record { counters = []; rows = [] }; job = idle }

-- A request while the job is between its reading and its deletion.
abbrev history : List Event
history =
    used 5 "d" "k" 100
    ∷ job_started
    ∷ counter_read
    ∷ used 9 "d" "k" 20
    ∷ row_written true
    ∷ counter_deleted true
    ∷ []

dropped_request : all_lost requests (of_month ("k" ∷ []) (λ d. true)) history no_usage ≡ 1
unfolding all_lost step record_usage count_usage start_job read_next write_row delete_counter
dropped_request = refl
