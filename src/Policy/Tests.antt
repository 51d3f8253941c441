-- ===== src/Policy/Tests.antt =====
-- Decisions of backend/policy.py on one engagement.
use vardr_map.Base.{
  ◌≡◌, ◌≢◌, ◌↔◌, ◌⊎◌, ◌++◌, refl, true, false, some, List, [], ◌∷◌, ◌∈◌, here, there, All,
}
use vardr_map.Text.{Text, text, starts_with, ends_with}
use vardr_map.Policy.Target.{normalize_target, domain, unclassified, normalizing}
use vardr_map.Policy.Match.{
  ScopeRule, rule_text, host_matches, host_covers, excludes_host, carve_covers, path_within,
  rule_matches, name_matches, url_matches,
}
use vardr_map.Policy.Decision.{
  PolicyInput, aware, naive, allowed, stop_work_active, evaluate, evaluate_all, evaluate_engagement,
  evaluate_scope, is_excluded, is_included, check_authorization, as_utc,
}
use vardr_map.Policy.Gates.{
  IsOpen, evaluate_engagement_iff, evaluate_all-stop_work, evaluate_all_iff,
}
use vardr_map.Policy.Rules.{
  HasExclusion, HasInclusion, evaluate_iff, SameRules, evaluate-rules_order,
  evaluate-exclusion_antitone,
}
use vardr_map.Policy.Hosts.{excludes_host-of_host_matches, rule_matches-subtree}
use vardr_map.Policy.Paths.{path_within_iff}
use vardr_map.Policy.Normal.{url, normalize_target-url}

abbrev wildcard : ScopeRule
wildcard = record { value = text "*.example.com"; kind = "wildcard"; excluded = false }

abbrev carve_out : ScopeRule
carve_out = record { value = text "admin.example.com"; kind = "domain"; excluded = true }

abbrev input : PolicyInput
input = record {
  engagement_status = "active";
  engagement_type = "pentest";
  target = text "api.example.com";
  capability = "httpx";
  now = aware 100;
  stop_work = false;
  authorization = some (record {
    status = "active";
    window_start = some (naive 50);
    window_end = some (aware 200);
    permitted_capabilities = [];
  });
  scope_rules = wildcard ∷ carve_out ∷ [];
}

evaluate_engagement_iff_example : (evaluate_engagement input ≡ allowed) ↔ IsOpen input
evaluate_engagement_iff_example = evaluate_engagement_iff input

evaluate_all-stop_work_example :
    (evaluate_all input (text "api.example.com" ∷ []) ≡ stop_work_active) ↔ (input.stop_work ≡ true)
evaluate_all-stop_work_example = evaluate_all-stop_work input (text "api.example.com" ∷ [])

evaluate_all_iff_example : (evaluate_all input (text "api.example.com" ∷ []) ≡ allowed) ↔ (
    IsOpen input
    × All (λ t. evaluate (record input { target = t }) ≡ allowed) (text "api.example.com" ∷ []))
evaluate_all_iff_example = evaluate_all_iff input (text "api.example.com" ∷ [])

evaluate_iff_example : (evaluate input ≡ allowed) ↔ (
    IsOpen input
    × (normalize_target input.target ≢ unclassified)
    × (¬ HasExclusion input)
    × HasInclusion input)
evaluate_iff_example = evaluate_iff input

abbrev swapped : List ScopeRule
swapped = carve_out ∷ wildcard ∷ wildcard ∷ []

module _ {A : Type 0} (a b : A) where
  mem-swap : (r : A) → r ∈ a ∷ b ∷ [] → r ∈ b ∷ a ∷ a ∷ []
  mem-swap r here = there here
  mem-swap r (there here) = here
  mem-swap r (there (there m)) = elim m [ ]

  swap-mem : (r : A) → r ∈ b ∷ a ∷ a ∷ [] → r ∈ a ∷ b ∷ []
  swap-mem r here = there here
  swap-mem r (there here) = here
  swap-mem r (there (there here)) = here
  swap-mem r (there (there (there m))) = elim m [ ]

swapped-SameRules : SameRules input.scope_rules swapped
swapped-SameRules r = (mem-swap wildcard carve_out r, swap-mem wildcard carve_out r)

evaluate-rules_order_example : evaluate (record input { scope_rules = swapped }) ≡ evaluate input
evaluate-rules_order_example = evaluate-rules_order input swapped swapped-SameRules

abbrev included : PolicyInput
included = record input { scope_rules = wildcard ∷ [] }

allowed_still : evaluate (record included { scope_rules = carve_out ∷ wildcard ∷ [] }) ≡ allowed
unfolding evaluate evaluate_engagement check_authorization as_utc normalize_target normalizing
    evaluate_scope is_excluded is_included rule_matches name_matches url_matches host_matches
    excludes_host host_covers carve_covers rule_text ends_with
allowed_still = refl

evaluate-exclusion_antitone_example : evaluate included ≡ allowed
evaluate-exclusion_antitone_example =
    evaluate-exclusion_antitone included carve_out refl allowed_still

rule_text-plain : rule_text (text "example.com") ≡ text "example.com"
unfolding rule_text normalizing
rule_text-plain = refl

covers_own : host_matches (text "admin.example.com") (text "admin.example.com") ≡ true
unfolding host_matches host_covers rule_text normalizing
covers_own = refl

excludes_own : excludes_host (text "admin.example.com") (text "admin.example.com") ≡ true
unfolding excludes_host host_covers carve_covers rule_text normalizing ends_with
excludes_own = refl

excludes_host-of_host_matches_example :
    excludes_host (text "admin.example.com") (text "admin.example.com") ≡ true
excludes_host-of_host_matches_example =
    excludes_host-of_host_matches (text "admin.example.com") (text "admin.example.com") covers_own

carves_own : rule_matches carve_out (domain (text "admin.example.com")) [] ≡ true
unfolding rule_text carve_covers excludes_host rule_matches name_matches
carves_own = refl

rule_matches-subtree_example :
    rule_matches carve_out (domain (text "v1.admin.example.com")) (text "v1.admin.example.com")
    ≡ true
rule_matches-subtree_example =
    rule_matches-subtree carve_out (text "admin.example.com") (text "v1") []
      (text "v1.admin.example.com") refl refl refl carves_own

path_within_iff_example : (path_within (text "/v1/administrator") (text "/v1/admin") ≡ true) ↔ (
    (text "/v1/administrator" ≡ text "/v1/admin")
    ⊎ ((rest : Text) × (text "/v1/administrator" ≡ text "/v1/admin" ++ (47 ∷ rest))))
unfolding ends_with starts_with
path_within_iff_example = path_within_iff (text "/v1/administrator") (text "/v1/admin") refl

normalize_target-url_example :
    normalize_target (url (text "https") (text "Example.com" ++ (58 ∷ text "8443")) (text "a/b"))
    ≡ normalize_target (text "Example.com")
normalize_target-url_example =
    normalize_target-url (text "https") (text "Example.com") (text "8443") (text "a/b") refl refl
      refl
