-- ===== src/Protocol.antt =====
-- domain/protocol.py: the portable request and response of a policy evaluation.
use Prim.Native.String.{◌++◌}
use agent_trust_runtime.Base.{
  String, Bool, false, Option, none, some, List, [], ◌∷◌, ◌==◌, one_of, if◌then◌else◌, Result, ok,
  ◌>>=◌,
}
use agent_trust_runtime.Value.{
  Value, text, array, object, Values, nil, cons, Fields, end, field, dict, strings, opt_text,
  get_or_none,
}
use agent_trust_runtime.Models.{ToolIntent}
use agent_trust_runtime.Host.{Host}
use agent_trust_runtime.Sessions.{arguments_digest}

abbrev pub policy_protocol_version : String
policy_protocol_version = "agenttrust.policy/v1"

pub record Principal : Type 0 where
  pub actor_id : String
  pub agent_id : Option String
  pub roles : List String

pub record Action : Type 0 where
  pub kind : String
  pub tool : String
  pub risk_level : String

pub record Resource : Type 0 where
  pub kind : String
  pub id : String
  pub classification : String

pub record DecisionContext : Type 0 where
  pub session_id : Option String
  pub runtime_mode : String
  pub sandbox_profile : String

pub record Obligation : Type 0 where
  pub kind : String
  pub parameters : Fields

pub record DecisionRequest : Type 0 where
  pub protocol_version : String
  pub run_id : String
  pub tool_call_id : String
  pub principal : Principal
  pub action : Action
  pub resource : Resource
  pub context : DecisionContext
  pub arguments_digest : String
  pub attributes : Fields

pub record DecisionResponse : Type 0 where
  pub protocol_version : String
  pub effect : String
  pub reason : String
  pub policy_rule_id : Option String
  pub matched_rule_ids : List String
  pub obligations : List Obligation

abbrev pub policy_attribute_keys : List String
policy_attribute_keys = "path" ∷ "command" ∷ "argv" ∷ "server" ∷ "tool" ∷ "sandbox_profile" ∷ []

unfoldable pub is_policy_attribute : String → Bool
is_policy_attribute key = one_of key policy_attribute_keys

-- `_policy_attributes`.
unfoldable pub policy_attributes : Fields → Fields
policy_attributes end = end
policy_attributes (field key value rest) =
    let kept = policy_attributes rest in
    if is_policy_attribute key then field key value kept else kept

-- `value if isinstance(value, str) else ...`.
abbrev pub as_text : Value → Option String
as_text (text s) = some s
as_text _ = none

-- The resource of a call that has no path.
unfoldable pub remote_resource : String → Option String → Option String → Resource
remote_resource tool_name (some server) (some tool) = record {
  kind = "mcp_tool";
  id = server ++ "/" ++ tool;
  classification = "unclassified";
}
remote_resource tool_name _ _ = record {
  kind = "tool";
  id = tool_name;
  classification = "unclassified";
}

unfoldable pub file_resource : String → Resource
file_resource path = record { kind = "file"; id = path; classification = "project-file" }

-- `_resource_for`.
unfoldable pub resource_for : String → Fields → Resource
unfolding remote_resource file_resource get_or_none
resource_for tool_name attributes =
    let remote =
      remote_resource tool_name (as_text (get_or_none "server" attributes))
        (as_text (get_or_none "tool" attributes)) in
    elim (as_text (get_or_none "path" attributes)) [
      | none ↦ remote
      | some path ↦ if path == "" then remote else file_resource path
    ]

-- `DecisionRequest.from_intent` with the identities and the profile that it is given.
unfoldable pub request_from_intent :
    Host
    → ToolIntent
    → Principal
    → (session_id : Option String) (sandbox_profile : String) → Result DecisionRequest
unfolding policy_attributes is_policy_attribute resource_for arguments_digest
request_from_intent host intent principal session_id sandbox_profile = do
  let attributes = policy_attributes intent.arguments
  digest ← arguments_digest host intent.arguments
  ok (record {
    protocol_version = policy_protocol_version;
    run_id = intent.run_id;
    tool_call_id = intent.tool_call_id;
    principal = principal;
    action = record { kind = "tool.execute"; tool = intent.tool_name; risk_level = "unknown" };
    resource = resource_for intent.tool_name attributes;
    context = record {
      session_id = session_id;
      runtime_mode = intent.runtime_mode;
      sandbox_profile = sandbox_profile;
    };
    arguments_digest = digest;
    attributes = attributes;
  })

-- The identity that `from_intent` takes when none is given.
abbrev pub local_user : Principal
local_user = record { actor_id = "local-user"; agent_id = none; roles = [] }

-- `DecisionRequest.to_intent`; `now` is the clock of `created_at`.
unfoldable pub request_to_intent : String → DecisionRequest → ToolIntent
request_to_intent now r = record {
  run_id = r.run_id;
  tool_call_id = r.tool_call_id;
  tool_name = r.action.tool;
  arguments = r.attributes;
  source = "policy_protocol";
  created_at = now;
  runtime_mode = r.context.runtime_mode;
  simulation_allowed = false;
}

unfoldable pub principal_to_dict : Principal → Fields
principal_to_dict p = dict (
    ("actor_id", text p.actor_id)
    ∷ ("agent_id", opt_text p.agent_id)
    ∷ ("roles", array (strings p.roles))
    ∷ [])

unfoldable pub action_to_dict : Action → Fields
action_to_dict a =
    dict (("type", text a.kind) ∷ ("tool", text a.tool) ∷ ("risk_level", text a.risk_level) ∷ [])

unfoldable pub resource_to_dict : Resource → Fields
resource_to_dict r =
    dict
      (("type", text r.kind) ∷ ("id", text r.id) ∷ ("classification", text r.classification) ∷ [])

unfoldable pub context_to_dict : DecisionContext → Fields
context_to_dict c = dict (
    ("session_id", opt_text c.session_id)
    ∷ ("runtime_mode", text c.runtime_mode)
    ∷ ("sandbox_profile", text c.sandbox_profile)
    ∷ [])

unfoldable pub request_to_dict : DecisionRequest → Fields
unfolding principal_to_dict action_to_dict resource_to_dict context_to_dict
request_to_dict r = dict (
    ("protocol_version", text r.protocol_version)
    ∷ ("run_id", text r.run_id)
    ∷ ("tool_call_id", text r.tool_call_id)
    ∷ ("principal", object (principal_to_dict r.principal))
    ∷ ("action", object (action_to_dict r.action))
    ∷ ("resource", object (resource_to_dict r.resource))
    ∷ ("context", object (context_to_dict r.context))
    ∷ ("arguments_digest", text r.arguments_digest)
    ∷ ("attributes", object r.attributes)
    ∷ [])

abbrev obligation_values : List Obligation → Values
obligation_values [] = nil
obligation_values (o ∷ r) =
    cons (object (dict (("type", text o.kind) ∷ ("parameters", object o.parameters) ∷ [])))
      (obligation_values r)

unfoldable pub response_to_dict : DecisionResponse → Fields
response_to_dict r = dict (
    ("protocol_version", text r.protocol_version)
    ∷ ("effect", text r.effect)
    ∷ ("reason", text r.reason)
    ∷ ("policy_rule_id", opt_text r.policy_rule_id)
    ∷ ("matched_rule_ids", array (strings r.matched_rule_ids))
    ∷ ("obligations", array (obligation_values r.obligations))
    ∷ [])
