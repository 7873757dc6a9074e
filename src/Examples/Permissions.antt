-- ===== src/Examples/Permissions.antt =====
-- permissions/approvals.py, domain/policy.py: a permission that a mock approver settles, and a pattern.
use agent_trust_runtime.Base.{String, ◌≡◌, ◌≢◌, ◌↔◌, refl, true, none, some, [], ◌∷◌}
use agent_trust_runtime.Models.{PermissionDecision}
use agent_trust_runtime.Permission.{finalize_permission}
use agent_trust_runtime.Permission.Finality.{Permitted, final_allow_iff}
use agent_trust_runtime.Policy.Argv.{argv_pattern_matches}
use agent_trust_runtime.Policy.Argv.Patterns.{Matches, argv_pattern_matches_iff}
use agent_trust_runtime.Examples.Decisions.{host}

abbrev question : PermissionDecision
question = record {
  run_id = "run";
  tool_call_id = "call_001";
  tool_name = "shell";
  effect = "ask";
  reason = "rule";
  rule_id = none;
}

mock_mode : (◌≢◌ {A = String} "mock" "")
mock_mode p = cc p

final_allow_iff_example :
    ((finalize_permission question (some "mock") none none).final_effect ≡ "allow")
    ↔ Permitted question "mock" none
final_allow_iff_example = final_allow_iff question "mock" none mock_mode

argv_pattern_matches_iff_example :
    (argv_pattern_matches host ("git" ∷ "push" ∷ "--force" ∷ []) ("git" ∷ "**" ∷ "--force" ∷ [])
      ≡ true)
    ↔ Matches host ("git" ∷ "**" ∷ "--force" ∷ []) ("git" ∷ "push" ∷ "--force" ∷ [])
argv_pattern_matches_iff_example =
    argv_pattern_matches_iff host ("git" ∷ "push" ∷ "--force" ∷ []) ("git" ∷ "**" ∷ "--force" ∷ [])

matched_run :
    argv_pattern_matches host ("git" ∷ "push" ∷ "--force" ∷ []) ("git" ∷ "**" ∷ "--force" ∷ [])
    ≡ true
unfolding argv_pattern_matches
matched_run = refl
