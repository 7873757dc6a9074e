-- ===== src/Engine.antt =====
-- permissions/engine.py: a tool intent is evaluated against the policy's rules and the registry.
pub mod Precedence
pub mod Boundaries
use Prim.Native.String.{◌++◌ as ◌^^◌}
use agent_trust_runtime.Base.{
  String, Bool, true, false, not, Option, none, some, List, [], ◌∷◌, ◌==◌, if◌then◌else◌, Result,
  ok, raised, value_error, require, ◌>>=◌, ◌>>◌,
}
use agent_trust_runtime.Value.{end}
use agent_trust_runtime.Models.{ToolIntent, PermissionDecision}
use agent_trust_runtime.Host.{Host}
use agent_trust_runtime.Protocol.{
  DecisionRequest, DecisionResponse, Obligation, policy_protocol_version, local_user,
  request_from_intent, request_to_intent,
}
use agent_trust_runtime.Policy.{Policy, PolicyRule, rule_matches}
use agent_trust_runtime.Registry.{ToolSpec, same_spec, find_spec, get_tool_spec}

-- `PermissionEngine`: its policy and the specifications registered with it.
pub record PermissionEngine : Type 0 where
  pub policy : Policy
  pub tool_specs : List (String × ToolSpec)

unfoldable pub register_tool_spec : ToolSpec → PermissionEngine → Result PermissionEngine
unfolding find_spec same_spec
register_tool_spec spec engine = elim (find_spec spec.name engine.tool_specs) [
  | none ↦ ok (record engine { tool_specs = (spec.name, spec) ∷ engine.tool_specs })
  | some existing ↦
      if same_spec existing spec
      then ok engine
      else raised (value_error "tool spec is already registered")
]

-- A decision on the intent.
abbrev pub decision_on : ToolIntent → (effect reason : String) → Option String → PermissionDecision
decision_on intent effect reason rule_id = record {
  run_id = intent.run_id;
  tool_call_id = intent.tool_call_id;
  tool_name = intent.tool_name;
  effect = effect;
  reason = reason;
  rule_id = rule_id;
}

-- The engine's own specification comes before the static registry's.
unfoldable pub spec_for : PermissionEngine → String → Option ToolSpec
unfolding find_spec get_tool_spec
spec_for engine name = elim (find_spec name engine.tool_specs) [
  | some spec ↦ some spec
  | none ↦ get_tool_spec name
]

unfoldable pub default_from_spec : ToolIntent → Option ToolSpec → PermissionDecision
default_from_spec intent none =
    decision_on intent "deny" "unregistered_tool" (some "tool-registry:unregistered")
default_from_spec intent (some spec) =
    if spec.default_effect == "allow"
    then decision_on intent "allow" "tool registry default effect: allow"
        (some ("tool-default:" ^^ intent.tool_name))
    else decision_on intent spec.default_effect
        ("tool registry default effect: " ^^ spec.default_effect)
        (some ("tool-default:" ^^ intent.tool_name))

-- `_default_tool_decision`.
unfoldable pub default_tool_decision : PermissionEngine → ToolIntent → PermissionDecision
unfolding spec_for default_from_spec
default_tool_decision engine intent = default_from_spec intent (spec_for engine intent.tool_name)

-- `_matching_rule_decisions`.
unfoldable pub matching_rule_decisions :
    Host → List PolicyRule → ToolIntent → List PermissionDecision
unfolding rule_matches
matching_rule_decisions host [] intent = []
matching_rule_decisions host (rule ∷ rest) intent =
    let more = matching_rule_decisions host rest intent in
    if rule_matches host rule intent
    then decision_on intent rule.effect rule.reason (some rule.id) ∷ more
    else more

-- `next((d for d in decisions if d.effect == effect), None)`.
unfoldable pub first_with : String → List PermissionDecision → Option PermissionDecision
first_with effect [] = none
first_with effect (d ∷ rest) = if d.effect == effect then some d else first_with effect rest

-- `[d.rule_id for d in decisions if d.rule_id is not None]`.
unfoldable pub rule_ids : List PermissionDecision → List String
rule_ids [] = []
rule_ids (d ∷ rest) = elim d.rule_id [ none ↦ rule_ids rest | some id ↦ id ∷ rule_ids rest ]

-- `_response_from_decision`.
unfoldable pub response_from_decision : PermissionDecision → List String → DecisionResponse
response_from_decision d matched = record {
  protocol_version = policy_protocol_version;
  effect = d.effect;
  reason = d.reason;
  policy_rule_id = d.rule_id;
  matched_rule_ids = matched;
  obligations =
      if d.effect == "ask" then record { kind = "require_approval"; parameters = end } ∷ [] else [];
}

-- The precedence of `evaluate`. A tool default is always there, so its last return is not reached.
unfoldable pub select_decision : List PermissionDecision → PermissionDecision → PermissionDecision
unfolding first_with
select_decision matching default = elim (first_with "deny" matching) [
  | some deny ↦ deny
  | none ↦ if default.effect == "deny" then default else elim (first_with "ask" matching) [
    | some ask ↦ ask
    | none ↦ elim (first_with "allow" matching) [ some allow ↦ allow | none ↦ default ]
  ]
]

-- `evaluate`; `now` is the clock.
unfoldable pub evaluate :
    Host → (now : String) → PermissionEngine → DecisionRequest → Result DecisionResponse
unfolding request_to_intent default_tool_decision matching_rule_decisions select_decision rule_ids
    response_from_decision
evaluate host now engine request = do
  require (request.protocol_version == policy_protocol_version)
      (value_error "unsupported policy protocol version")
  let intent = request_to_intent now request
  let matching = matching_rule_decisions host engine.policy.rules intent
  ok (
      response_from_decision (select_decision matching (default_tool_decision engine intent))
        (rule_ids matching))

-- `decide`.
unfoldable pub decide_intent :
    Host → (now : String) → PermissionEngine → ToolIntent → Result PermissionDecision
unfolding request_from_intent evaluate
decide_intent host now engine intent = do
  request ← request_from_intent host intent local_user none "standard"
  response ← evaluate host now engine request
  ok (decision_on intent response.effect response.reason response.policy_rule_id)
