-- ===== src/Accounts/Guards.antt =====
-- The guards of apps/api/src/auth/guards: auth.guard.ts, org-admin.guard.ts and super-admin.guard.ts.
-- The session that the request's headers give is an argument.
pub mod Scope
use sms_app.Base.{
  String, Bool, true, false, not, ◌&&◌, ◌||◌, Option, none, some, List, [], ◌∷◌, ◌==◌, string_eq,
  if◌then◌else◌, any, Result, ok, err, forbidden, unauthorized, found, require, ◌>>=◌, ◌>>◌,
}
use sms_app.Camera.{truthy}

pub record Session : Type 0 where
  pub user_id : String
  pub user_role : Option String
  pub active_organization_id : Option String

-- The signals of the request's context, which say whose rows its queries see.
pub record Context : Type 0 where
  pub org_id : Option String
  pub is_superuser : Bool

-- A row of `Member`.
pub record Member : Type 0 where
  pub organization_id : String
  pub user_id : String
  pub role : String

abbrev pub is_role : String → Option String → Bool
is_role r none = false
is_role r (some s) = s == r

abbrev pub when_truthy : Option String → Option String
when_truthy none = none
when_truthy (some t) = if t == "" then none else some t

unfoldable pub auth_guard : Option Session → Result Context
auth_guard session = found session (unauthorized "Not authenticated") >>= λ s.
    require (truthy s.active_organization_id || is_role "admin" s.user_role)
      (forbidden "No active organization. User must be a member of at least one organization.")
    >> ok (record {
      org_id = when_truthy s.active_organization_id;
      is_superuser = is_role "admin" s.user_role;
    })

unfoldable pub super_admin_guard : Option Session → Result Context
super_admin_guard session = found session (unauthorized "Not authenticated") >>= λ s.
    require (is_role "admin" s.user_role) (unauthorized "Super admin access required")
    >> ok (record { org_id = none; is_superuser = true })

abbrev pub is_admin_of : String → String → Member → Bool
is_admin_of org user m = m.user_id == user && (m.organization_id == org && m.role == "admin")

-- The `:orgId` of the route, and the members.
unfoldable pub org_admin_guard :
    (org : Option String) → List Member → Option Session → Result Context
org_admin_guard org members session = found session (unauthorized "Not authenticated") >>= λ s.
    found (when_truthy org) (forbidden "orgId route param required") >>= λ o.
    if is_role "admin" s.user_role
    then ok (record { org_id = some o; is_superuser = true })
    else require (any (is_admin_of o s.user_id) members) (forbidden "Org admin access required")
      >> ok (record { org_id = some o; is_superuser = false })
