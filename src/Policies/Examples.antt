-- ===== src/Policies/Examples.antt =====
-- Policies at three levels, and the theorems at them.
use sms_app.Base.{true, false, none, some, List, [], ◌∷◌, ◌≡◌}
use sms_app.Policies.{
  camera, project, Policy, sourced, default_ttl_seconds, default_max_viewers, merge_policies,
  system_default_policy,
}
use sms_app.Policies.Resolve.{by_priority, merge_policies-by_priority}

abbrev stored : List Policy
stored =
    system_default_policy "s"
    ∷ record {
      id = "c";
      org_id = some "o";
      level = camera;
      name = "Gate";
      ttl_seconds = none;
      max_viewers = some 3;
      domains = "a.example" ∷ [];
      allow_no_referer = none;
      camera_id = some "gate";
      site_id = none;
      project_id = none;
    }
    ∷ record {
      id = "p";
      org_id = some "o";
      level = project;
      name = "Yard";
      ttl_seconds = some 60;
      max_viewers = some 5;
      domains = [];
      allow_no_referer = some false;
      camera_id = none;
      site_id = none;
      project_id = some "yard";
    }
    ∷ []

merge_policies-by_priority_example : merge_policies stored ≡ record {
  ttl_seconds = sourced default_ttl_seconds (by_priority (λ p. p.ttl_seconds) stored);
  max_viewers = sourced default_max_viewers (by_priority (λ p. p.max_viewers) stored);
  domains = sourced [] (by_priority (λ p. some p.domains) stored);
  allow_no_referer = sourced true (by_priority (λ p. p.allow_no_referer) stored);
}
merge_policies-by_priority_example = merge_policies-by_priority stored
