-- ===== src/Webhooks.antt =====
-- apps/api/src/webhooks/webhooks.service.ts: the subscriptions of an organization and the events that
-- are sent to them.
pub mod Url
pub mod Delivery
mod Examples
use sms_app.Base.{
  ℕ, String, Bool, true, false, ◌&&◌, Option, none, some, List, [], ◌∷◌, ◌++◌, map, ◌==◌, string_eq,
  if◌then◌else◌, contains, find, keep, take, remove_first, replace_first, Result, ok, ◌>>=◌, ◌>>◌,
}
use sms_app.Webhooks.Url.{Address, validate_webhook_url}

pub record Subscription : Type 0 where
  pub id : String
  pub org_id : String
  pub name : String
  pub url : String
  pub secret : String
  pub events : List String
  pub is_active : Bool

-- The body of a creation.
pub record NewWebhook : Type 0 where
  pub name : String
  pub url : String
  pub events : List String

-- The body of an update; a field that is left out stays.
pub record WebhookChange : Type 0 where
  pub name : Option String
  pub url : Option String
  pub events : Option (List String)
  pub is_active : Option Bool

-- The job of a delivery, with the options that the queue gets.
pub record DeliveryJob : Type 0 where
  pub delivery_id : String
  pub subscription_id : String
  pub url : String
  pub secret : String
  pub event_type : String
  pub payload : String
  pub attempts : ℕ

-- A row of `WebhookDelivery` as it is created.
pub record NewDelivery : Type 0 where
  pub id : String
  pub subscription_id : String
  pub event_type : String
  pub payload : String

abbrev pub is_subscription : String → String → Subscription → Bool
is_subscription id org s = s.id == id && s.org_id == org

abbrev pub has_subscription_id : String → Subscription → Bool
has_subscription_id id s = s.id == id

abbrev pub or_kept {ℓ} : {A : Type ℓ} → Option A → A → A
or_kept none old = old
or_kept (some new) old = new

-- The parser of addresses and the resolver of host names.
module _ (parse : String → Option Address) (resolve : String → Option String) where
  unfoldable pub create :
      (id secret org : String) → NewWebhook → List Subscription → Result (List Subscription)
  create id secret org dto rows =
      validate_webhook_url parse resolve dto.url
      >> ok (
          record {
            id = id;
            org_id = org;
            name = dto.name;
            url = dto.url;
            secret = secret;
            events = dto.events;
            is_active = true;
          }
          ∷ rows)

  abbrev pub validate_change : Option String → Result (Unit {0})
  validate_change none = ok tt
  validate_change (some url) = if url == "" then ok tt else validate_webhook_url parse resolve url

  abbrev pub changed : WebhookChange → Subscription → Subscription
  changed dto s = record s {
    name = or_kept dto.name s.name;
    url = or_kept dto.url s.url;
    events = or_kept dto.events s.events;
    is_active = or_kept dto.is_active s.is_active;
  }

  -- `null` for a subscription that the organization does not have.
  unfoldable pub update :
      (id org : String)
      → WebhookChange
      → List Subscription
      → Result (Option Subscription × List Subscription)
  update id org dto rows = validate_change dto.url >> (elim (find (is_subscription id org) rows) [
    | none ↦ ok (none, rows)
    | some s ↦ ok (some (changed dto s), replace_first (has_subscription_id id) (changed dto) rows)
  ])

unfoldable pub delete :
    (id org : String) → List Subscription → Option Subscription × List Subscription
delete id org rows = elim (find (is_subscription id org) rows) [
  | none ↦ (none, rows)
  | some s ↦ (some s, remove_first (has_subscription_id id) rows)
]

-- The deliveries of a subscription, the latest first.
unfoldable pub get_deliveries :
    (id org : String) (limit : ℕ) → List Subscription → List NewDelivery → List NewDelivery
get_deliveries id org limit rows deliveries = elim (find (is_subscription id org) rows) [
  | none ↦ []
  | some s ↦ take limit (keep (λ d. d.subscription_id == id) deliveries)
]

abbrev pub wants : String → String → Subscription → Bool
wants org event s = s.org_id == org && (s.is_active && contains s.events event)

abbrev pub delivery_of : String → String → String → Subscription → NewDelivery
delivery_of id event payload s = record {
  id = id;
  subscription_id = s.id;
  event_type = event;
  payload = payload;
}

abbrev pub job_of : String → String → String → Subscription → DeliveryJob
job_of id event payload s = record {
  delivery_id = id;
  subscription_id = s.id;
  url = s.url;
  secret = s.secret;
  event_type = event;
  payload = payload;
  attempts = 5;
}

-- The loop of `emitEvent`; `ids` are the ids that the table gives to the rows.
unfoldable pub emit_all :
    (ids : String → String) (event payload : String)
    → List Subscription
    → List NewDelivery × List DeliveryJob
emit_all ids event payload [] = ([], [])
emit_all ids event payload (s ∷ rest) =
    let more = emit_all ids event payload rest in
    (delivery_of (ids s.id) event payload s ∷ more.0, job_of (ids s.id) event payload s ∷ more.1)

unfoldable pub emit_event :
    (ids : String → String) (org event payload : String)
    → List Subscription
    → List NewDelivery × List DeliveryJob
unfolding emit_all
emit_event ids org event payload rows = emit_all ids event payload (keep (wants org event) rows)
