-- ===== src/Policy/Parsing/Policies.antt =====
-- domain/policy.py: `from_dict` and `to_dict` of hooks and policies.
pub mod Printed
use agent_trust_runtime.Base.{
  ℕ, zero, suc, String, Bool, true, false, not, ◌&&◌, ◌==◌, Option, none, some, List, [], ◌∷◌, all,
  one_of, is_empty, if◌then◌else◌, Error, Result, ok, raised, value_error, key_error, type_error,
  attribute_error, require, ◌>>=◌, ◌>>◌,
}
use agent_trust_runtime.Value.{
  ℤ, Value, null, integer, text, array, tuple, object, Values, nil, cons, Fields, end, field, dict,
  strings, number, get, get_or_none, truthy,
}
use agent_trust_runtime.Protocol.{policy_protocol_version}
use agent_trust_runtime.Policy.{PolicyRule, HookRule, Policy}
use agent_trust_runtime.Policy.Parsing.{
  get_default, items_or_empty, str_of, parse_rule, rule_to_dict,
}

-- `value or {}`, which must be a dict.
unfoldable pub mapping_or_empty : Value → Option Fields
mapping_or_empty (object d) = some d
mapping_or_empty v = if truthy v then none else some end

abbrev require_mapping : Value → String → Result Fields
require_mapping v message = elim (mapping_or_empty v) [
  | none ↦ raised (value_error message)
  | some d ↦ ok d
]

-- `when` is dropped where it is no dict.
abbrev or_no_fields : Option Fields → Fields
or_no_fields none = end
or_no_fields (some d) = d

-- `approvals.get("default_ttl_seconds", 3600)`: a positive integer, and no bool.
unfoldable pub positive_ttl : Value → Option ℕ
positive_ttl (integer (ℤ.pos (suc n))) = some (suc n)
positive_ttl _ = none

abbrev pub valid_answer_modes : List String
valid_answer_modes = "warn" ∷ "deny_completion" ∷ "require_revision" ∷ []

abbrev pub valid_verification_modes : List String
valid_verification_modes = "fallback" ∷ "groundguard_required" ∷ []

-- `HookRule.__post_init__`, and the value that the constructor returns.
unfoldable pub check_hook : HookRule → Result HookRule
check_hook h = do require (h.action == "deny") (value_error "invalid hook action"); ok h

module _ (shown : Value → String) where
  -- `HookRule.from_dict`.
  unfoldable pub parse_hook : Fields → Result HookRule
  unfolding get_default get_or_none mapping_or_empty check_hook
  parse_hook raw =
      let when = or_no_fields (mapping_or_empty (get_default "when" (object end) raw)) in
      let path_glob = get_default "path_glob" (get_or_none "path_glob" when) raw in
      check_hook (record {
        id = str_of shown (get_default "id" (text "unnamed-hook") raw);
        tool = str_of shown (get_default "tool" (get_default "tool" (text "*") when) raw);
        action = str_of shown (get_default "action" (text "deny") raw);
        reason = str_of shown (get_default "reason" (text "blocked by hook") raw);
        path_glob = elim path_glob [ null ↦ none | v ↦ some (str_of shown v) ];
      })

  -- `PolicyRule.from_dict(rule)` for each item; an item that is no dict has no `get`.
  unfoldable pub parse_rules : Values → Result (List PolicyRule)
  unfolding parse_rule
  parse_rules nil = ok []
  parse_rules (cons (object raw) rest) = do
    rule ← parse_rule shown raw
    rules ← parse_rules rest
    ok (rule ∷ rules)
  parse_rules (cons _ rest) = raised (attribute_error "object has no attribute 'get'")

  unfoldable pub parse_hooks : Values → Result (List HookRule)
  unfolding parse_hook
  parse_hooks nil = ok []
  parse_hooks (cons (object raw) rest) = do
    hook ← parse_hook raw
    hooks ← parse_hooks rest
    ok (hook ∷ hooks)
  parse_hooks (cons _ rest) = raised (attribute_error "object has no attribute 'get'")

  -- `((raw.get("hooks", {}) or {}).get("pre_tool", ()) or ())`.
  unfoldable pub pre_tool_hooks : Fields → Result (List HookRule)
  unfolding get_default mapping_or_empty items_or_empty parse_hooks
  pre_tool_hooks raw = elim (mapping_or_empty (get_default "hooks" (object end) raw)) [
    | none ↦ raised (attribute_error "object has no attribute 'get'")
    | some hooks ↦ do
      items ← items_or_empty (get_default "pre_tool" (tuple nil) hooks)
      parse_hooks items
  ]

  -- `Policy.from_dict`.
  unfoldable pub parse_policy : Fields → Result Policy
  unfolding get_default mapping_or_empty positive_ttl items_or_empty parse_rules pre_tool_hooks
  parse_policy raw = do
    let version = str_of shown (get_default "policy_version" (text policy_protocol_version) raw)
    require (version == policy_protocol_version) (value_error "unsupported policy protocol version")
    final_answer ←
        require_mapping (get_default "final_answer" (object end) raw)
          "final_answer policy must contain a mapping"
    let answer_mode = str_of shown (get_default "on_incomplete" (text "warn") final_answer)
    require (one_of answer_mode valid_answer_modes)
        (value_error "invalid final_answer on_incomplete mode")
    verification ←
        require_mapping (get_default "verification" (object end) raw)
          "verification policy must contain a mapping"
    let verification_mode = str_of shown (get_default "mode" (text "fallback") verification)
    require (one_of verification_mode valid_verification_modes)
        (value_error "invalid verification mode")
    approvals ←
        require_mapping (get_default "approvals" (object end) raw)
          "approvals policy must contain a mapping"
    ttl ← (elim (positive_ttl (get_default "default_ttl_seconds" (number 3600) approvals)) [
      | none ↦ raised (value_error "approvals.default_ttl_seconds must be a positive integer")
      | some n ↦ ok n
    ])
    rule_items ← items_or_empty (get_default "rules" (tuple nil) raw)
    rules ← parse_rules rule_items
    hooks ← pre_tool_hooks raw
    ok (record {
      project_root = str_of shown (get_default "project_root" (text ".") raw);
      mode = str_of shown (get_default "mode" (text "default") raw);
      rules = rules;
      hooks = hooks;
      final_answer_mode = answer_mode;
      verification_mode = verification_mode;
      approval_ttl_seconds = ttl;
      protocol_version = version;
    })

-- `HookRule.to_dict`.
unfoldable pub hook_to_dict : HookRule → Fields
hook_to_dict h = dict (
    ("id", text h.id)
    ∷ (
      "when",
      object (
          field "tool" (text h.tool)
            (elim h.path_glob [ none ↦ end | some glob ↦ field "path_glob" (text glob) end ])),
    )
    ∷ ("action", text h.action)
    ∷ ("reason", text h.reason)
    ∷ [])

unfoldable pub rule_values : List PolicyRule → Values
unfolding rule_to_dict
rule_values [] = nil
rule_values (r ∷ rs) = cons (object (rule_to_dict r)) (rule_values rs)

unfoldable pub hook_values : List HookRule → Values
unfolding hook_to_dict
hook_values [] = nil
hook_values (h ∷ hs) = cons (object (hook_to_dict h)) (hook_values hs)

unfoldable pub hooks_field : List HookRule → Fields
unfolding hook_values
hooks_field [] = end
hooks_field (h ∷ hs) =
    field "hooks" (object (dict (("pre_tool", array (hook_values (h ∷ hs))) ∷ []))) end

-- `Policy.to_dict`.
unfoldable pub policy_to_dict : Policy → Fields
unfolding rule_values hooks_field
policy_to_dict p = field "policy_version" (text p.protocol_version) (
    field "project_root" (text p.project_root) (
      field "mode" (text p.mode) (
        field "final_answer" (object (dict (("on_incomplete", text p.final_answer_mode) ∷ []))) (
          field "verification" (object (dict (("mode", text p.verification_mode) ∷ []))) (
            field "approvals"
              (object (dict (("default_ttl_seconds", number p.approval_ttl_seconds) ∷ [])))
              (field "rules" (array (rule_values p.rules)) (hooks_field p.hooks)))))))
