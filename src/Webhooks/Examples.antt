-- ===== src/Webhooks/Examples.antt =====
-- The theorems at a private address and at a delivery that succeeds at its third attempt.
use sms_app.Base.{
  ℕ, ◌+◌, ◌*◌, ◌≤◌, true, false, ◌≡◌, refl, arith, if◌then◌else◌, ltb, length, [], ◌∷◌,
}
use sms_app.Webhooks.{Subscription, emit_event, delivery_of, job_of, emit_all}
use sms_app.Webhooks.Url.{is_private_ip}
use sms_app.Webhooks.Url.Ranges.{in_ranges, is_private_ip-dotted}
use sms_app.Webhooks.Delivery.{Answer, responded, deliver}
use sms_app.Webhooks.Delivery.Outcome.{total_delay, delivery_bounds}

is_private_ip-dotted_example : is_private_ip "172.31.0.9" ≡ in_ranges 172 31 0 9
is_private_ip-dotted_example =
    is_private_ip-dotted "172.31.0.9" 172 31 0 9 (omega arith) (omega arith) (omega arith)
      (omega arith) refl

loopback_allowed : is_private_ip "127.0.0.2" ≡ false
unfolding is_private_ip
loopback_allowed = refl

abbrev third_time : ℕ → Answer
third_time n = if ltb n 2 then responded 503 "busy" else responded 200 "ok"

delivery_bounds_example :
    (1 ≤ (deliver (λ s. s) (λ n. n) third_time).delivery.attempts)
    × ((deliver (λ s. s) (λ n. n) third_time).delivery.attempts ≤ 5)
    × ((deliver (λ s. s) (λ n. n) third_time).delivery.attempts
        ≡ 1 + length (deliver (λ s. s) (λ n. n) third_time).delays)
    × (total_delay (deliver (λ s. s) (λ n. n) third_time).delays ≤ 156 * 60000)
delivery_bounds_example = delivery_bounds (λ s. s) (λ n. n) third_time

abbrev subscriber : Subscription
subscriber = record {
  id = "s";
  org_id = "o";
  name = "n";
  url = "https://a.example";
  secret = "k";
  events = "camera.offline" ∷ [];
  is_active = true;
}

emitted : emit_event (λ id. id) "o" "camera.offline" "{}" (subscriber ∷ []) ≡ (
  delivery_of "s" "camera.offline" "{}" subscriber ∷ [],
  job_of "s" "camera.offline" "{}" subscriber ∷ [],
)
unfolding emit_event emit_all
emitted = refl
