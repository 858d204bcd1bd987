-- ===== src/Accounts/Guards/Scope.antt =====
-- Whose rows a request may see after its guard.
use sms_app.Base.{
  String, Bool, true, false, ◌||◌, Option, none, some, List, ◌≡◌, arith, ◌==◌, string_eq, any,
  Result, ok, err, Bool-cases, inl, inr, refl, sym,
}
use sms_app.Camera.{truthy}
use sms_app.Accounts.Guards.{
  Session, Context, Member, is_role, when_truthy, auth_guard, super_admin_guard, org_admin_guard,
  is_admin_of,
}

-- A context is one that a session earns for an organization's rows: the signal for all organizations is
-- set exactly for a platform admin, and there is a signal.
abbrev pub IsEarned : Session → Context → Type 0
IsEarned s c =
    (c.is_superuser ≡ is_role "admin" s.user_role) × ((truthy c.org_id || c.is_superuser) ≡ true)

-- What holds of the context that a guard gives, if it gives one.
abbrev pub Gives : (Context → Type 0) → Result Context → Type 0
Gives P (err e) = Unit {0}
Gives P (ok c) = P c

abbrev pub admin_of_some : Option String → List Member → Session → Bool
admin_of_some none members s = false
admin_of_some (some o) members s = any (is_admin_of o s.user_id) members

-- The context of an organization that the user may administer.
abbrev pub IsAdministered : Option String → List Member → Session → Context → Type 0
IsAdministered org members s c =
    IsEarned s c
    × (c.org_id ≡ org)
    × (truthy c.org_id ≡ true)
    × ((is_role "admin" s.user_role || admin_of_some c.org_id members s) ≡ true)

truthy-when_truthy : (t : Option String) → truthy (when_truthy t) ≡ truthy t
truthy-when_truthy none = refl
truthy-when_truthy (some t) = ground arith

auth_guard-Gives :
    (s : Session)
    → Gives
        (λ c. IsEarned s c × (c.org_id ≡ when_truthy s.active_organization_id))
        (auth_guard (some s))
unfolding auth_guard
auth_guard-Gives s =
    elim (Bool-cases (truthy s.active_organization_id || is_role "admin" s.user_role)) [
      | inl h ↦ rw h ((refl, rw (truthy-when_truthy s.active_organization_id) h), refl)
      | inr h ↦ rw h tt
    ]

super_admin_guard-Gives : (s : Session) → Gives (IsEarned s) (super_admin_guard (some s))
unfolding super_admin_guard
super_admin_guard-Gives s = elim (Bool-cases (is_role "admin" s.user_role)) [
  | inl h ↦ rw h (sym h, refl)
  | inr h ↦ rw h tt
]

org_admin_guard-Gives :
    (org : Option String) (members : List Member) (s : Session)
    → Gives (IsAdministered org members s) (org_admin_guard org members (some s))
unfolding org_admin_guard
org_admin_guard-Gives none members s = tt
org_admin_guard-Gives (some o) members s = elim (Bool-cases (o == "")) [
  | inl e ↦ rw e tt
  | inr e ↦ elim (Bool-cases (is_role "admin" s.user_role)) [
    | inl h ↦ rw (e, h) ((sym h, ground arith), refl, ground arith, ground arith)
    | inr h ↦ elim (Bool-cases (any (is_admin_of o s.user_id) members)) [
      | inl a ↦ rw (e, h, a) ((sym h, ground arith), refl, ground arith, ground arith)
      | inr a ↦ rw (e, h, a) tt
    ]
  ]
]

-- The contexts that the guards give to a session. Each has a signal, and the one for all organizations
-- exactly for a platform admin. Behind the session's guard the organization is the session's active one;
-- behind the organization's guard it is the route's, of which the user is an admin where not a platform
-- admin.
pub guards_scope :
    (org : Option String) (members : List Member) (s : Session)
    → Gives
        (λ c. IsEarned s c × (c.org_id ≡ when_truthy s.active_organization_id))
        (auth_guard (some s))
      × Gives (IsEarned s) (super_admin_guard (some s))
      × Gives (IsAdministered org members s) (org_admin_guard org members (some s))
guards_scope org members s =
    (auth_guard-Gives s, super_admin_guard-Gives s, org_admin_guard-Gives org members s)
