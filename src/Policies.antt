-- ===== src/Policies.antt =====
-- apps/api/src/policies/policies.service.ts: the playback policies of a camera and the one that is in
-- force. What Prisma answers to a query is an argument; the rows that a call writes are its result.
-- The tenancy context in which `resolve` runs is left out.
pub mod Resolve
mod Examples
use sms_app.Base.{
  ℕ, String, Bool, true, false, not, ◌&&◌, ◌||◌, Option, none, some, List, [], ◌∷◌, ltb, sort_by,
  if◌then◌else◌, ◌==◌, string_eq, Result, ok, err, Error, not_found, bad_request, require, found,
  ◌>>=◌, ◌>>◌,
}
use sms_app.Camera.{truthy}

pub data Level : Type 0 where
  camera site project system : Level

pub record Policy : Type 0 where
  pub id : String
  pub org_id : Option String
  pub level : Level
  pub name : String
  pub ttl_seconds : Option ℕ
  pub max_viewers : Option ℕ
  pub domains : List String
  pub allow_no_referer : Option Bool
  pub camera_id : Option String
  pub site_id : Option String
  pub project_id : Option String

-- A value with the level that it comes from.
pub record Sourced (A : Type 0) : Type 0 where
  pub value : A
  pub source : Level

pub record ResolvedPolicy : Type 0 where
  pub ttl_seconds : Sourced ℕ
  pub max_viewers : Sourced ℕ
  pub domains : Sourced (List String)
  pub allow_no_referer : Sourced Bool

abbrev pub default_ttl_seconds : ℕ
default_ttl_seconds = 7200

abbrev pub default_max_viewers : ℕ
default_max_viewers = 10

abbrev pub level_priority : Level → ℕ
level_priority camera = 0
level_priority site = 1
level_priority project = 2
level_priority system = 3

-- The comparison of the sort, negative.
abbrev pub goes_before : Policy → Policy → Bool
goes_before p q = ltb (level_priority p.level) (level_priority q.level)

-- One turn of the loop over the scalar fields: the first policy whose field is not null.
abbrev pub first_set {ℓ} : {A : Type ℓ} → (Policy → Option A) → List Policy → Option (A × Level)
first_set get [] = none
first_set get (p ∷ ps) = elim (get p) [ none ↦ first_set get ps | some v ↦ some (v, p.level) ]

abbrev pub sourced : {A : Type 0} → A → Option (A × Level) → Sourced A
sourced default none = record { value = default; source = system }
sourced default (some (v, l)) = record { value = v; source = l }

-- Of the first policy, if there is one.
abbrev pub first_domains : List Policy → Sourced (List String)
first_domains [] = record { value = []; source = system }
first_domains (p ∷ ps) = record { value = p.domains; source = p.level }

unfoldable pub merge_policies : List Policy → ResolvedPolicy
merge_policies policies =
    let sorted = sort_by goes_before policies in
    record {
      ttl_seconds = sourced default_ttl_seconds (first_set (λ p. p.ttl_seconds) sorted);
      max_viewers = sourced default_max_viewers (first_set (λ p. p.max_viewers) sorted);
      domains = first_domains sorted;
      allow_no_referer = sourced true (first_set (λ p. p.allow_no_referer) sorted);
    }

-- The camera row with its site's project.
pub record Place : Type 0 where
  pub camera_id : String
  pub site_id : String
  pub project_id : String

abbrev pub id_is : Option String → String → Bool
id_is none s = false
id_is (some t) s = t == s

-- The `where` clause of the query.
abbrev pub applies_to : Place → Policy → Bool
applies_to place p = elim p.level [
  | camera ↦ id_is p.camera_id place.camera_id
  | site ↦ id_is p.site_id place.site_id
  | project ↦ id_is p.project_id place.project_id
  | system ↦ true
]

-- `find_many` answers `prisma.policy.findMany`.
unfoldable pub resolve : ((Policy → Bool) → List Policy) → Option Place → Result ResolvedPolicy
unfolding merge_policies
resolve find_many row = found row (not_found "Camera not found") >>= λ place.
    ok (merge_policies (find_many (applies_to place)))

unfoldable pub validate_level_foreign_key : Policy → Result (Unit {0})
validate_level_foreign_key dto = elim dto.level [
  | camera ↦ require (truthy dto.camera_id) (bad_request "cameraId is required")
  | site ↦ require (truthy dto.site_id) (bad_request "siteId is required")
  | project ↦ require (truthy dto.project_id) (bad_request "projectId is required")
  | system ↦ ok tt
]

-- The row that `create` writes for the fields of the request.
unfoldable pub create : String → Policy → Result Policy
unfolding validate_level_foreign_key
create org_id dto =
    validate_level_foreign_key dto
    >> ok (record dto { org_id = elim dto.level [ system ↦ none | _ ↦ some org_id ] })

abbrev pub system_default_policy : String → Policy
system_default_policy id = record {
  id = id;
  org_id = none;
  level = system;
  name = "System Default";
  ttl_seconds = some default_ttl_seconds;
  max_viewers = some default_max_viewers;
  domains = [];
  allow_no_referer = some true;
  camera_id = none;
  site_id = none;
  project_id = none;
}

-- The row that the start of the service writes, given the SYSTEM policy that it finds.
unfoldable pub seed_system_default : Option Policy → String → Option Policy
seed_system_default none id = some (system_default_policy id)
seed_system_default (some p) id = none

abbrev pub is_system_default : Policy → Bool
is_system_default p = elim p.level [ system ↦ p.name == "System Default" | _ ↦ false ]

-- The id of the row that `remove` deletes, given the row that it finds.
unfoldable pub remove : Option Policy → Result String
remove row = found row (not_found "Policy not found") >>= λ p.
    require (not (is_system_default p)) (bad_request "Cannot delete system default policy")
    >> ok p.id
