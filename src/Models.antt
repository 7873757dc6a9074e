-- ===== src/Models.antt =====
-- domain/models.py and domain/decisions.py: the immutable records that the stages exchange.
use agent_trust_runtime.Base.{String, Bool, Option, [], ◌∷◌}
use agent_trust_runtime.Value.{boolean, text, object, Fields, dict, opt_text}

pub record ToolIntent : Type 0 where
  pub run_id : String
  pub tool_call_id : String
  pub tool_name : String
  pub arguments : Fields
  pub source : String
  pub created_at : String
  pub runtime_mode : String
  pub simulation_allowed : Bool

unfoldable pub intent_to_dict : ToolIntent → Fields
intent_to_dict i = dict (
    ("run_id", text i.run_id)
    ∷ ("tool_call_id", text i.tool_call_id)
    ∷ ("tool_name", text i.tool_name)
    ∷ ("arguments", object i.arguments)
    ∷ ("source", text i.source)
    ∷ ("created_at", text i.created_at)
    ∷ ("runtime_mode", text i.runtime_mode)
    ∷ ("simulation_allowed", boolean i.simulation_allowed)
    ∷ [])

pub record ToolResult : Type 0 where
  pub run_id : String
  pub tool_call_id : String
  pub tool_name : String
  pub status : String
  pub output_preview : String
  pub output_digest : Option String
  pub metadata : Fields
  pub error : Option String
  pub created_at : String

unfoldable pub result_to_dict : ToolResult → Fields
result_to_dict r = dict (
    ("run_id", text r.run_id)
    ∷ ("tool_call_id", text r.tool_call_id)
    ∷ ("tool_name", text r.tool_name)
    ∷ ("status", text r.status)
    ∷ ("output_preview", text r.output_preview)
    ∷ ("output_digest", opt_text r.output_digest)
    ∷ ("metadata", object r.metadata)
    ∷ ("error", opt_text r.error)
    ∷ ("created_at", text r.created_at)
    ∷ [])

pub record PermissionDecision : Type 0 where
  pub run_id : String
  pub tool_call_id : String
  pub tool_name : String
  pub effect : String
  pub reason : String
  pub rule_id : Option String

unfoldable pub permission_to_dict : PermissionDecision → Fields
permission_to_dict d = dict (
    ("run_id", text d.run_id)
    ∷ ("tool_call_id", text d.tool_call_id)
    ∷ ("tool_name", text d.tool_name)
    ∷ ("effect", text d.effect)
    ∷ ("reason", text d.reason)
    ∷ ("rule_id", opt_text d.rule_id)
    ∷ [])

pub record FinalPermission : Type 0 where
  pub effect : String
  pub final_effect : String
  pub reason : String
  pub approval_required : Bool

unfoldable pub final_to_dict : FinalPermission → Fields
final_to_dict f = dict (
    ("effect", text f.effect)
    ∷ ("final_effect", text f.final_effect)
    ∷ ("reason", text f.reason)
    ∷ ("approval_required", boolean f.approval_required)
    ∷ [])

pub record HookDecision : Type 0 where
  pub run_id : String
  pub tool_call_id : String
  pub tool_name : String
  pub effect : String
  pub hook_id : Option String
  pub reason : String

unfoldable pub hook_decision_to_dict : HookDecision → Fields
hook_decision_to_dict d = dict (
    ("run_id", text d.run_id)
    ∷ ("tool_call_id", text d.tool_call_id)
    ∷ ("tool_name", text d.tool_name)
    ∷ ("effect", text d.effect)
    ∷ ("hook_id", opt_text d.hook_id)
    ∷ ("reason", text d.reason)
    ∷ [])

pub record SandboxDecision : Type 0 where
  pub run_id : String
  pub tool_call_id : String
  pub tool_name : String
  pub effect : String
  pub reason : String
  pub path : Option String

unfoldable pub sandbox_to_dict : SandboxDecision → Fields
sandbox_to_dict d = dict (
    ("run_id", text d.run_id)
    ∷ ("tool_call_id", text d.tool_call_id)
    ∷ ("tool_name", text d.tool_name)
    ∷ ("effect", text d.effect)
    ∷ ("reason", text d.reason)
    ∷ ("path", opt_text d.path)
    ∷ [])
