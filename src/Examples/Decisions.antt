-- ===== src/Examples/Decisions.antt =====
-- domain/policy.py, permissions/engine.py: a policy with a shell rule of each effect, and its host.
use mathlib.Core.List.Perm
use agent_trust_runtime.Base.{
  ℕ, String, ◌≡◌, ◌≢◌, refl, Bool, true, false, ◌&&◌, ◌||◌, Option, none, some, List, [], ◌∷◌, inr,
  ok, ◌==◌, eqb, if◌then◌else◌,
}
use agent_trust_runtime.Value.{text, Fields, dict}
use agent_trust_runtime.Host.{Host}
use agent_trust_runtime.Models.{ToolIntent, PermissionDecision}
use agent_trust_runtime.Policy.{PolicyRule}
use agent_trust_runtime.Registry.{tool_specs}
use agent_trust_runtime.Engine.{PermissionEngine, decide_intent, default_tool_decision, spec_for}
use agent_trust_runtime.Engine.Precedence.{precedence, decide_intent-precedence}
use agent_trust_runtime.Engine.Boundaries.{
  with_rules, EachMatch, decide_intent-perm, registry_denial_is_final, allow_is_unopposed,
}

-- Timestamps are `t0` and `t5`, five seconds later.
abbrev pub instants : String → Option (ℕ × Bool)
instants t = if t == "t0" then some (0, true) else if t == "t5" then some (5000000, true) else none

abbrev pub host : Host
host = record {
  dumps = λ _ _. some "{}";
  sha256 = λ t. t;
  fromisoformat = instants;
  add_seconds = λ t k. if t == "t0" && eqb k 5 then some "t5" else none;
  lower = λ t. t;
  fnmatch = λ name pattern. pattern == "*" || name == pattern;
  shlex_join = λ _. "";
  sensitive_key = λ key. key == "token";
  redact_text = λ t. t;
  float_equals = λ t n. false;
}

abbrev rule : String → String → List String → PolicyRule
rule id effect patterns = record {
  id = id;
  tool = "shell";
  effect = effect;
  reason = "rule";
  paths = [];
  command_patterns = patterns;
  argv_patterns = [];
}

abbrev rules : List PolicyRule
rules = rule "a" "allow" ("ls" ∷ "rm" ∷ []) ∷ rule "d" "deny" ("rm" ∷ []) ∷ []

abbrev engine : PermissionEngine
engine = record {
  policy = record {
    project_root = ".";
    mode = "enforce";
    rules = rules;
    hooks = [];
    final_answer_mode = "audit_warning";
    verification_mode = "soft";
    approval_ttl_seconds = 60;
    protocol_version = "agenttrust.policy/v1";
  };
  tool_specs = tool_specs;
}

abbrev pub intent : String → Fields → ToolIntent
intent tool arguments = record {
  run_id = "run";
  tool_call_id = "call_001";
  tool_name = tool;
  arguments = arguments;
  source = "agent";
  created_at = "t0";
  runtime_mode = "test";
  simulation_allowed = false;
}

abbrev remove : ToolIntent
remove = intent "shell" (dict (("command", text "rm") ∷ []))

abbrev list : ToolIntent
list = intent "shell" (dict (("command", text "ls") ∷ []))

list_decision :
    decide_intent host "t0" engine list
    ≡ ok (record {
      run_id = "run";
      tool_call_id = "call_001";
      tool_name = "shell";
      effect = "allow";
      reason = "rule";
      rule_id = some "a";
    })
unfolding decide_intent
list_decision = refl

decide_intent-precedence_example :
    (d : PermissionDecision) × (decide_intent host "t0" engine remove ≡ ok d)
    × (d.effect ≡ precedence host engine remove)
decide_intent-precedence_example = decide_intent-precedence host "t0" engine remove refl

allow_is_unopposed_example :
    EachMatch host list (λ r. r.effect ≢ "deny") rules
    × EachMatch host list (λ r. r.effect ≢ "ask") rules
    × ((default_tool_decision engine list).effect ≢ "deny")
    × (spec_for engine "shell" ≢ none)
allow_is_unopposed_example = allow_is_unopposed host "t0" engine list _ refl list_decision refl

registry_denial_is_final_example :
    (d : PermissionDecision) × (decide_intent host "t0"
        (with_rules engine rules)
        (intent "unknown" Fields.end)
      ≡ ok d)
    × (d.effect ≡ "deny")
unfolding spec_for
registry_denial_is_final_example =
    registry_denial_is_final host "t0" engine rules (intent "unknown" Fields.end) refl (inr refl)

decide_intent-perm_example :
    (d e : PermissionDecision) × (decide_intent host "t0" engine remove ≡ ok d)
    × (decide_intent host "t0"
          (with_rules engine
            (rule "d" "deny" ("rm" ∷ []) ∷ rule "a" "allow" ("ls" ∷ "rm" ∷ []) ∷ []))
          remove
        ≡ ok e)
    × (d.effect ≡ e.effect)
decide_intent-perm_example = decide_intent-perm host "t0" engine _ remove (Perm.swap _ _ _) refl
