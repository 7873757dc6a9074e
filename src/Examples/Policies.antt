-- ===== src/Examples/Policies.antt =====
-- domain/policy.py: a policy with a rule and a hook, printed and read back.
use agent_trust_runtime.Base.{String, ◌≡◌, refl, arith, some, [], ◌∷◌, ok}
use agent_trust_runtime.Value.{Value}
use agent_trust_runtime.Policy.{Policy}
use agent_trust_runtime.Policy.Parsing.Policies.{parse_policy, policy_to_dict}
use agent_trust_runtime.Policy.Parsing.Policies.Printed.{parse_policy-policy_to_dict}

abbrev shown_value : Value → String
shown_value v = "value"

abbrev policy : Policy
policy = record {
  project_root = ".";
  mode = "default";
  rules =
      record {
        id = "no-push";
        tool = "shell";
        effect = "deny";
        reason = "pushes are reviewed";
        paths = [];
        command_patterns = "git push*" ∷ [];
        argv_patterns = ("git" ∷ "push" ∷ "**" ∷ []) ∷ [];
      }
      ∷ [];
  hooks =
      record {
        id = "no-keys";
        tool = "read_file";
        action = "deny";
        reason = "keys stay where they are";
        path_glob = some "*.pem";
      }
      ∷ [];
  final_answer_mode = "deny_completion";
  verification_mode = "fallback";
  approval_ttl_seconds = 600;
  protocol_version = "agenttrust.policy/v1";
}

parse_policy-policy_to_dict_example : parse_policy shown_value (policy_to_dict policy) ≡ ok policy
parse_policy-policy_to_dict_example =
    parse_policy-policy_to_dict shown_value policy
      (refl, refl, refl, omega arith, (refl, refl, tt), (refl, tt))
