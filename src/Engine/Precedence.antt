-- ===== src/Engine/Precedence.antt =====
-- permissions/engine.py: the effect of a decision is the documented precedence of the matching
-- rules and of the tool's default, whatever the order of the rules.
use agent_trust_runtime.Base.{
  String, ◌≡◌, refl, Bool, true, false, ◌&&◌, Option, none, some, List, [], ◌∷◌, ◌==◌, any, eq_iff,
  arith, Bool-cases, inl, inr, if◌then◌else◌, ok,
}
use agent_trust_runtime.Value.{Fields, end, field, get, get_or_none}
use agent_trust_runtime.Models.{ToolIntent, PermissionDecision}
use agent_trust_runtime.Host.{Host}
use agent_trust_runtime.Sessions.{arguments_digest}
use agent_trust_runtime.Protocol.{is_policy_attribute, policy_attributes}
use agent_trust_runtime.Policy.{
  PolicyRule, paths_match, commands_match, joined_argv, command_text, argv_match, rule_matches,
}
use agent_trust_runtime.Engine.{
  PermissionEngine, decision_on, default_tool_decision, matching_rule_decisions, first_with,
  select_decision, decide_intent,
}

-- The request keeps the attributes that a rule reads.
get-policy_attributes :
    (k : String) (d : Fields) → is_policy_attribute k ≡ true → get k (policy_attributes d) ≡ get k d
unfolding get policy_attributes
get-policy_attributes k end h = refl
get-policy_attributes k (field j v r) h = ground (arith, eq_iff j k, get-policy_attributes k r h)

get_or_none-policy_attributes :
    (k : String) (d : Fields)
    → is_policy_attribute k ≡ true
    → get_or_none k (policy_attributes d) ≡ get_or_none k d
unfolding get_or_none
get_or_none-policy_attributes k d h = rw (get-policy_attributes k d h, get_or_none)

module _ (host : Host) where
  paths_match-policy_attributes :
      (paths : List String) (d : Fields)
      → paths_match host paths (policy_attributes d) ≡ paths_match host paths d
  unfolding paths_match is_policy_attribute
  paths_match-policy_attributes [] d = refl
  paths_match-policy_attributes (p ∷ paths) d =
      rw (get_or_none-policy_attributes "path" d refl, paths_match)

  joined_argv-policy_attributes :
      (d : Fields) → joined_argv host (policy_attributes d) ≡ joined_argv host d
  unfolding joined_argv is_policy_attribute
  joined_argv-policy_attributes d = rw (get_or_none-policy_attributes "argv" d refl, joined_argv)

  command_text-policy_attributes :
      (d : Fields) → command_text host (policy_attributes d) ≡ command_text host d
  unfolding command_text is_policy_attribute
  command_text-policy_attributes d =
      cc (get_or_none-policy_attributes "command" d refl, joined_argv-policy_attributes d)

  commands_match-policy_attributes :
      (patterns : List String) (d : Fields)
      → commands_match host patterns (policy_attributes d) ≡ commands_match host patterns d
  unfolding commands_match
  commands_match-policy_attributes [] d = refl
  commands_match-policy_attributes (p ∷ patterns) d =
      rw (command_text-policy_attributes d, commands_match)

  argv_match-policy_attributes :
      (patterns : List (List String)) (d : Fields)
      → argv_match host patterns (policy_attributes d) ≡ argv_match host patterns d
  unfolding argv_match is_policy_attribute
  argv_match-policy_attributes [] d = refl
  argv_match-policy_attributes (p ∷ patterns) d =
      rw (get_or_none-policy_attributes "argv" d refl, argv_match)

  -- The intent that the engine's matcher sees: only the policy attributes of the arguments.
  abbrev seen : String → ToolIntent → ToolIntent
  seen now i = record {
    run_id = i.run_id;
    tool_call_id = i.tool_call_id;
    tool_name = i.tool_name;
    arguments = policy_attributes i.arguments;
    source = "policy_protocol";
    created_at = now;
    runtime_mode = i.runtime_mode;
    simulation_allowed = false;
  }

  rule_matches-seen :
      (now : String) (rule : PolicyRule) (i : ToolIntent)
      → rule_matches host rule (seen now i) ≡ rule_matches host rule i
  unfolding rule_matches
  rule_matches-seen now rule i = cc (
    paths_match-policy_attributes rule.paths i.arguments,
    commands_match-policy_attributes rule.command_patterns i.arguments,
    argv_match-policy_attributes rule.argv_patterns i.arguments,
  )

  matching-seen :
      (now : String) (rules : List PolicyRule) (i : ToolIntent)
      → matching_rule_decisions host rules (seen now i) ≡ matching_rule_decisions host rules i
  unfolding matching_rule_decisions
  matching-seen now [] i = refl
  matching-seen now (rule ∷ rules) i = rw (rule_matches-seen now rule i, matching-seen now rules i)

  -- Some rule with the effect matches the intent.
  abbrev pub matched : String → ToolIntent → List PolicyRule → Bool
  matched effect i = any (λ rule. rule_matches host rule i && rule.effect == effect)

  -- The precedence that the engine documents: policy deny, registry deny, policy ask, policy allow,
  -- tool default.
  abbrev pub precedence : PermissionEngine → ToolIntent → String
  precedence engine i =
      let default = (default_tool_decision engine i).effect in
      if matched "deny" i engine.policy.rules
      then "deny"
      else if default == "deny"
      then "deny"
      else if matched "ask" i engine.policy.rules
      then "ask"
      else if matched "allow" i engine.policy.rules
      then "allow"
      else default

  -- What the first decision with an effect is, by whether a rule with it matches.
  abbrev Found : String → Bool → Option PermissionDecision → Type 0
  Found effect true o = (d : PermissionDecision) × (o ≡ some d) × (d.effect ≡ effect)
  Found effect false o = o ≡ none

  first_with-matching :
      (effect : String) (i : ToolIntent) (rules : List PolicyRule)
      → Found effect
          (matched effect i rules)
          (first_with effect (matching_rule_decisions host rules i))
  unfolding first_with matching_rule_decisions
  first_with-matching effect i [] = refl
  first_with-matching effect i (rule ∷ rules) = elim (Bool-cases (rule_matches host rule i)) [
    | inl fits ↦ elim (Bool-cases (rule.effect == effect)) [
      | inl e ↦
          rw (fits, e)
            (
              decision_on i rule.effect rule.reason (some rule.id),
              refl,
              (eq_iff rule.effect effect).0 e,
            )
      | inr e ↦ rw (fits, e) (first_with-matching effect i rules)
    ]
    | inr misses ↦ rw misses (first_with-matching effect i rules)
  ]

  -- The effect that `select_decision` ends in, from what the matching rules and the default are.
  effect-select :
      (deny ask allow : Bool) (matching : List PermissionDecision) (default : PermissionDecision)
      → Found "deny" deny (first_with "deny" matching)
      → Found "ask" ask (first_with "ask" matching)
      → Found "allow" allow (first_with "allow" matching)
      → (select_decision matching default).effect ≡ (
          if deny
          then "deny"
          else if default.effect == "deny"
          then "deny"
          else if ask
          then "ask"
          else if allow
          then "allow"
          else default.effect)
  unfolding select_decision
  effect-select true ask allow ds default (d, e, p) q r = rw (e, select_decision) p
  effect-select false true allow ds default e (d, f, p) r =
      ground (arith, eq_iff default.effect "deny")
  effect-select false false true ds default e f (d, g, p) =
      ground (arith, eq_iff default.effect "deny")
  effect-select false false false ds default e f g = ground (arith, eq_iff default.effect "deny")

  default-seen :
      (now : String) (engine : PermissionEngine) (i : ToolIntent)
      → default_tool_decision engine (seen now i) ≡ default_tool_decision engine i
  unfolding default_tool_decision
  default-seen now engine i = ground arith

  -- The decision that wins among the matching rules and the default.
  abbrev winner : PermissionEngine → ToolIntent → PermissionDecision
  winner engine i =
      select_decision (matching_rule_decisions host engine.policy.rules i)
        (default_tool_decision engine i)

  abbrev decided : PermissionEngine → ToolIntent → PermissionDecision
  decided engine i = let w = winner engine i in decision_on i w.effect w.reason w.rule_id

  decide_intent-decided :
      (now : String) (engine : PermissionEngine) (i : ToolIntent) {payload : String}
      → host.dumps false i.arguments ≡ some payload
      → decide_intent host now engine i ≡ ok (decided engine i)
  unfolding decide_intent arguments_digest
  decide_intent-decided now engine i h =
      rw (h, arguments_digest)
        (simp (matching-seen now engine.policy.rules i, default-seen now engine i))

  winner-precedence :
      (engine : PermissionEngine) (i : ToolIntent) → (winner engine i).effect ≡ precedence engine i
  winner-precedence engine i =
      effect-select (matched "deny" i engine.policy.rules) (matched "ask" i engine.policy.rules)
        (matched "allow" i engine.policy.rules) (matching_rule_decisions host engine.policy.rules i)
        (default_tool_decision engine i) (first_with-matching "deny" i engine.policy.rules)
        (first_with-matching "ask" i engine.policy.rules)
        (first_with-matching "allow" i engine.policy.rules)

  -- The evaluation of an intent: it answers whenever the arguments are JSON serializable, and then
  -- its effect is the documented precedence.
  pub decide_intent-precedence :
      (now : String) (engine : PermissionEngine) (i : ToolIntent) {payload : String}
      → host.dumps false i.arguments ≡ some payload
      → (d : PermissionDecision) × (decide_intent host now engine i ≡ ok d)
        × (d.effect ≡ precedence engine i)
  decide_intent-precedence now engine i h =
      (decided engine i, decide_intent-decided now engine i h, winner-precedence engine i)
