-- ===== src/Accounts/Roles.antt =====
-- apps/api/src/auth/roles.ts and permissions.ts: what the roles of an organization permit.
use sms_app.Base.{
  String, Bool, false, Option, none, some, List, [], ◌∷◌, ◌++◌, ◌==◌, string_eq, contains, Dict,
  lookup,
}

abbrev camera_permissions : List String
camera_permissions =
    "camera:create" ∷ "camera:read" ∷ "camera:update" ∷ "camera:delete" ∷ "camera:start"
    ∷ "camera:stop" ∷ []

abbrev key_permissions : List String
key_permissions = "apiKey:create" ∷ "apiKey:read" ∷ "apiKey:revoke" ∷ []

abbrev recording_permissions : List String
recording_permissions = "recording:view" ∷ "recording:manage" ∷ []

abbrev pub role_permissions : Dict (List String)
role_permissions =
    ("viewer", "camera:read" ∷ "stream:view" ∷ [])
    ∷ ("developer", "camera:read" ∷ "stream:view" ∷ key_permissions)
    ∷ ("operator", camera_permissions ++ ("stream:view" ∷ "stream:manage" ∷ recording_permissions))
    ∷ (
      "admin",
      camera_permissions
          ++ ("stream:view" ∷ "stream:manage" ∷ (key_permissions ++ recording_permissions)),
    )
    ∷ []

-- `checkPermission`, with the action of the user's override for the permission, where there is one.
unfoldable pub check_permission : (override : Option String) (role permission : String) → Bool
unfolding lookup
check_permission override role permission = elim (lookup role role_permissions) [
  | none ↦ false
  | some permissions ↦ (elim override [
    | none ↦ contains permissions permission
    | some action ↦ action == "grant"
  ])
]
