-- ===== src/Accounts/Members.antt =====
-- apps/api/src/users/users.service.ts: the members of an organization.
pub mod Admins
use sms_app.Base.{
  ℕ, ◌+◌, ◌*◌, String, Bool, true, false, not, ◌&&◌, Option, none, some, List, [], ◌∷◌, map, ◌==◌,
  string_eq, nat_eq, if◌then◌else◌, leb, find, keep, count_by, Result, ok, err, bad_request,
  forbidden, not_found, found, require, ◌>>=◌, ◌>>◌,
}
use sms_app.Accounts.Guards.{Member}

pub record Invitation : Type 0 where
  pub organization_id : String
  pub email : String
  pub role : String
  pub status : String
  pub expires_at : ℕ
  pub inviter_id : String

-- Seven days in milliseconds.
abbrev pub invitation_ms : ℕ
invitation_ms = 7 * 24 * 60 * 60 * 1000

abbrev pub invite_user : (now : ℕ) (org inviter email role : String) → Invitation
invite_user now org inviter email role = record {
  organization_id = org;
  email = email;
  role = role;
  status = "pending";
  expires_at = now + invitation_ms;
  inviter_id = inviter;
}

abbrev pub is_member : String → String → Member → Bool
is_member org user m = m.organization_id == org && m.user_id == user

-- `signed_up` is the id that the authentication library gives to the account.
unfoldable pub create_user :
    (org role : String) (signed_up : Option String) → List Member → Result (List Member)
create_user org role signed_up members =
    found signed_up (bad_request "Failed to create user") >>= λ user.
    ok (record { organization_id = org; user_id = user; role = role } ∷ members)

abbrev pub with_role : String → String → String → Member → Member
with_role org user role m = if is_member org user m then record m { role = role } else m

unfoldable pub update_role : (org user role : String) → List Member → Result (List Member)
update_role org user role members =
    require (not (count_by (is_member org user) members == 0))
      (not_found "Member not found in organization")
    >> ok (map (with_role org user role) members)

unfoldable pub get_caller_membership : (org user : String) → List Member → Result Member
get_caller_membership org user members =
    found (find (is_member org user) members) (not_found "Not a member of this organization")

abbrev pub is_org_admin : String → Member → Bool
is_org_admin org m = m.organization_id == org && m.role == "admin"

abbrev pub may_remove : String → Member → List Member → Result (Unit {0})
may_remove org m members =
    if m.role == "admin"
    then require (not (leb (count_by (is_org_admin org) members) 1))
        (forbidden "Cannot remove the last admin")
    else ok tt

unfoldable pub remove_member : (org user : String) → List Member → Result (List Member)
remove_member org user members =
    found (find (is_member org user) members) (not_found "Member not found in organization")
    >>= λ m. may_remove org m members >> ok (keep (λ r. not (is_member org user r)) members)
