-- ===== src/Policy/Parsing/Policies/Printed.antt =====
-- domain/policy.py: a policy is read back from what it is printed as.
use agent_trust_runtime.Base.{
  ℕ, suc, zero, ◌≤◌, String, ◌≡◌, refl, true, ◌==◌, Option, none, some, List, [], ◌∷◌, one_of,
  arith, ok,
}
use agent_trust_runtime.Value.{Value, Fields, number, get, get_or_none}
use agent_trust_runtime.Protocol.{policy_protocol_version}
use agent_trust_runtime.Policy.{PolicyRule, HookRule, Policy}
use agent_trust_runtime.Policy.Parsing.{get_default, items_or_empty, valid_effects}
use agent_trust_runtime.Policy.Parsing.RoundTrip.{full_patterns, parse_rule-rule_to_dict}
use agent_trust_runtime.Policy.Parsing.Policies.{
  mapping_or_empty, positive_ttl, valid_answer_modes, valid_verification_modes, check_hook,
  parse_hook, parse_rules, parse_hooks, pre_tool_hooks, parse_policy, hook_to_dict, rule_values,
  hook_values, hooks_field, policy_to_dict,
}

-- What the parser accepts of the rules and the hooks.
abbrev pub AreValidRules : List PolicyRule → Type 0
AreValidRules [] = Unit
AreValidRules (r ∷ rs) =
    (one_of r.effect valid_effects ≡ true)
    × (full_patterns r.argv_patterns ≡ true)
    × AreValidRules rs

abbrev pub AreValidHooks : List HookRule → Type 0
AreValidHooks [] = Unit
AreValidHooks (h ∷ hs) = ((h.action == "deny") ≡ true) × AreValidHooks hs

abbrev pub IsValidPolicy : Policy → Type 0
IsValidPolicy p =
    ((p.protocol_version == policy_protocol_version) ≡ true)
    × (one_of p.final_answer_mode valid_answer_modes ≡ true)
    × (one_of p.verification_mode valid_verification_modes ≡ true)
    × (1 ≤ p.approval_ttl_seconds)
    × AreValidRules p.rules
    × AreValidHooks p.hooks

module _ (shown : Value → String) where
  parse_rules-rule_values :
      (rs : List PolicyRule) → AreValidRules rs → parse_rules shown (rule_values rs) ≡ ok rs
  unfolding parse_rules rule_values
  parse_rules-rule_values [] h = refl
  parse_rules-rule_values (r ∷ rs) (e, f, h) =
      rw (parse_rule-rule_to_dict shown r e f, parse_rules-rule_values rs h)

  parse_hook-hook_to_dict :
      (h : HookRule) (glob : Option String)
      → (h.action == "deny") ≡ true
      → parse_hook shown (hook_to_dict (record h { path_glob = glob }))
        ≡ ok (record h { path_glob = glob })
  unfolding parse_hook hook_to_dict get_default get get_or_none mapping_or_empty check_hook
  parse_hook-hook_to_dict h none e = rw e
  parse_hook-hook_to_dict h (some glob) e = rw e

  parse_hooks-hook_values :
      (hs : List HookRule) → AreValidHooks hs → parse_hooks shown (hook_values hs) ≡ ok hs
  unfolding parse_hooks hook_values
  parse_hooks-hook_values [] v = refl
  parse_hooks-hook_values (h ∷ hs) (e, v) =
      rw (parse_hook-hook_to_dict h h.path_glob e, parse_hooks-hook_values hs v)

  positive_ttl-number : (n : ℕ) → 1 ≤ n → positive_ttl (number n) ≡ some n
  unfolding positive_ttl
  positive_ttl-number zero h = absurd (omega (arith, h))
  positive_ttl-number (suc n) h = refl

  pre_tool_hooks-hooks_field :
      (raw : Fields) (hs : List HookRule)
      → get "hooks" raw ≡ get "hooks" (hooks_field hs)
      → AreValidHooks hs
      → pre_tool_hooks shown raw ≡ ok hs
  unfolding pre_tool_hooks hooks_field get_default get mapping_or_empty items_or_empty hook_values
      parse_hooks
  pre_tool_hooks-hooks_field raw [] g v = rw (pre_tool_hooks, get_default, g)
  pre_tool_hooks-hooks_field raw (h ∷ hs) g v =
      rw (pre_tool_hooks, get_default, g) (parse_hooks-hook_values (h ∷ hs) v)

  -- A valid policy is read back from its dict.
  pub parse_policy-policy_to_dict :
      (p : Policy) → IsValidPolicy p → parse_policy shown (policy_to_dict p) ≡ ok p
  unfolding parse_policy policy_to_dict get_default get mapping_or_empty items_or_empty
  parse_policy-policy_to_dict p (version, answer, verification, ttl, rules, hooks) = rw (
    parse_policy,
    version,
    answer,
    verification,
    positive_ttl-number p.approval_ttl_seconds ttl,
    parse_rules-rule_values p.rules rules,
    pre_tool_hooks-hooks_field (policy_to_dict p) p.hooks refl hooks,
  )
