-- ===== src/Accounts/Members/Admins.antt =====
-- The admins that an organization has left.
use sms_app.Base.{
  ◌+◌, ◌≤◌, String, false, not, some, List, [], ◌∷◌, map, ◌≡◌, refl, arith, ◌==◌, string_eq, nat_eq,
  eq_iff, find, keep, count_by, ok, Option-cases, inl, inr, ◌∙◌,
}
use sms_app.Accounts.Guards.{Member}
use sms_app.Accounts.Members.{is_member, is_org_admin, remove_member, update_role, with_role}

-- The admins that a removal leaves are at least the admins less the rows of the user.
admins_left :
    (org user : String) (members : List Member)
    → count_by (is_org_admin org) members
      ≤ count_by (is_org_admin org) (keep (λ r. not (is_member org user r)) members)
        + count_by (is_member org user) members
admins_left org user [] = omega arith
admins_left org user (m ∷ members) = ground (arith, admins_left org user members)

keep_all :
    (org user : String) (members : List Member)
    → count_by (is_member org user) members ≡ 0
    → keep (λ r. not (is_member org user r)) members ≡ members
keep_all org user [] n = refl
keep_all org user (m ∷ members) n = ground (arith, keep_all org user members)

-- Where the user is no admin, no admin goes.
others_stay :
    (org user : String) (members : List Member) (m : Member)
    → find (is_member org user) members ≡ some m
    → count_by (is_member org user) members ≤ 1
    → (m.role == "admin") ≡ false
    → count_by (is_org_admin org) (keep (λ r. not (is_member org user r)) members)
      ≡ count_by (is_org_admin org) members
others_stay org user [] m f u r = refl
others_stay org user (x ∷ members) m f u r =
    ground (arith, others_stay org user members m, keep_all org user members)

elsewhere :
    (org user o : String) (members : List Member)
    → (org == o) ≡ false
    → count_by (is_org_admin o) (keep (λ r. not (is_member org user r)) members)
      ≡ count_by (is_org_admin o) members
elsewhere org user o [] n = refl
elsewhere org user o (x ∷ members) n = ground (
  arith,
  elsewhere org user o members,
  eq_iff x.organization_id org,
  eq_iff x.organization_id o,
  eq_iff org o,
)

-- The removal of a member, in a table where a user has one row for an organization at most, leaves
-- every organization an admin that had one.
pub removal_keeps_admin :
    (org user : String) (members left : List Member) (o : String)
    → count_by (is_member org user) members ≤ 1
    → remove_member org user members ≡ ok left
    → 1 ≤ count_by (is_org_admin o) members
    → 1 ≤ count_by (is_org_admin o) left
unfolding remove_member
removal_keeps_admin org user members left o u h a =
    elim (Option-cases (find (is_member org user) members)) [
      | inl f ↦ ground arith
      | inr (m, f) ↦ ground (
        arith,
        eq_iff org o,
        elsewhere org user o members,
        others_stay org user members m,
        admins_left org user members,
      )
    ]

with_role-admins :
    (org user role : String) (members : List Member)
    → (role == "admin") ≡ false
    → count_by (is_org_admin org) (map (with_role org user role) members)
      ≡ count_by (is_org_admin org) (keep (λ r. not (is_member org user r)) members)
with_role-admins org user role [] r = refl
with_role-admins org user role (x ∷ members) r =
    ground (arith, with_role-admins org user role members)

-- The change of a role has no such guard: where the user holds every admin's row of the organization,
-- a change to another role succeeds and leaves the organization no admin.
pub last_admin_demoted :
    (org user role : String) (members : List Member)
    → 1 ≤ count_by (is_member org user) members
    → (role == "admin") ≡ false
    → count_by (is_org_admin org) (keep (λ r. not (is_member org user r)) members) ≡ 0
    → (left : List Member) × (update_role org user role members ≡ ok left)
      × (count_by (is_org_admin org) left ≡ 0)
unfolding update_role
last_admin_demoted org user role members m r n = (
  map (with_role org user role) members,
  ground arith,
  with_role-admins org user role members r ∙ n,
)
