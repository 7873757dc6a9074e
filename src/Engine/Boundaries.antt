-- ===== src/Engine/Boundaries.antt =====
-- permissions/engine.py: what the precedence means for a caller. The order of the rules does not
-- matter, a denial by the registry is final, and nothing is allowed against a rule that matches.
use mathlib.Core.List.{Perm, Permᴰ}
use mathlib.Core.Logic.{∥∥₁_elim}
use agent_trust_runtime.Base.{
  String, ◌≡◌, ◌≢◌, refl, sym, ap, ◌∙◌, Bool, true, false, ◌&&◌, none, some, List, [], ◌∷◌, ◌==◌,
  any, eq_iff, arith, inl, inr, ◌⊎◌, ok,
}
use agent_trust_runtime.Models.{ToolIntent, PermissionDecision}
use agent_trust_runtime.Host.{Host}
use agent_trust_runtime.Policy.{PolicyRule, rule_matches}
use agent_trust_runtime.Engine.{
  PermissionEngine, default_tool_decision, spec_for, default_from_spec, decide_intent,
}
use agent_trust_runtime.Engine.Precedence.{matched, precedence, decide_intent-precedence}

any-Permᴰ : (p : PolicyRule → Bool) {xs ys : List PolicyRule} → Permᴰ xs ys → any p xs ≡ any p ys
any-Permᴰ p Permᴰ.nil = refl
any-Permᴰ p (Permᴰ.cons e d) = cc (any-Permᴰ p d)
any-Permᴰ p (Permᴰ.swap {a = a} {b = b} {a' = a'} {b' = b'} e f) = ground (arith, ap p e, ap p f)
any-Permᴰ p (Permᴰ.trans d f) = any-Permᴰ p d ∙ any-Permᴰ p f

Bool-set : IsSet Bool
Bool-set = hlevel

any-Perm : (p : PolicyRule → Bool) {xs ys : List PolicyRule} → Perm xs ys → any p xs ≡ any p ys
any-Perm p {xs} {ys} h = ∥∥₁_elim h (Bool-set (any p xs) (any p ys)) (any-Permᴰ p)

unknown_denied :
    (engine : PermissionEngine) (i : ToolIntent)
    → spec_for engine i.tool_name ≡ none
    → (default_tool_decision engine i).effect ≡ "deny"
unfolding default_tool_decision
unknown_denied engine i h = rw (h, default_from_spec)

-- The engine with other rules.
abbrev pub with_rules : PermissionEngine → List PolicyRule → PermissionEngine
with_rules engine rules = record engine { policy = record engine.policy { rules = rules } }

-- A statement about every rule that matches the intent.
abbrev pub EachMatch : Host → ToolIntent → (PolicyRule → Type 0) → List PolicyRule → Type 0
EachMatch host i P [] = Unit
EachMatch host i P (rule ∷ rules) =
    (rule_matches host rule i ≡ true → P rule) × EachMatch host i P rules

module _ (host : Host) where
  precedence-perm :
      (engine : PermissionEngine) (i : ToolIntent) (rules : List PolicyRule)
      → Perm engine.policy.rules rules
      → precedence host engine i ≡ precedence host (with_rules engine rules) i
  unfolding default_tool_decision
  precedence-perm engine i rules p = cc (
    any-Perm (λ r. rule_matches host r i && r.effect == "deny") p,
    any-Perm (λ r. rule_matches host r i && r.effect == "ask") p,
    any-Perm (λ r. rule_matches host r i && r.effect == "allow") p,
  )

  -- Two engines whose rules differ in their order alone decide an intent with serializable
  -- arguments to the same effect.
  pub decide_intent-perm :
      (now : String) (engine : PermissionEngine) (rules : List PolicyRule) (i : ToolIntent)
      {payload : String}
      → Perm engine.policy.rules rules
      → host.dumps false i.arguments ≡ some payload
      → (d e : PermissionDecision) × (decide_intent host now engine i ≡ ok d)
        × (decide_intent host now (with_rules engine rules) i ≡ ok e)
        × (d.effect ≡ e.effect)
  decide_intent-perm now engine rules i p h =
      let (d, dd, de) = decide_intent-precedence host now engine i h in
      let (e, ed, ee) = decide_intent-precedence host now (with_rules engine rules) i h in
      (d, e, dd, ed, de ∙ precedence-perm engine i rules p ∙ sym ee)

  precedence-deny :
      (engine : PermissionEngine) (i : ToolIntent)
      → (default_tool_decision engine i).effect ≡ "deny"
      → precedence host engine i ≡ "deny"
  precedence-deny engine i h = ground (arith, eq_iff (default_tool_decision engine i).effect "deny")

  -- A tool that the registry denies by default, or that has no specification, is denied whatever
  -- the policy's rules are, if its arguments are serializable.
  pub registry_denial_is_final :
      (now : String) (engine : PermissionEngine) (rules : List PolicyRule) (i : ToolIntent)
      {payload : String}
      → host.dumps false i.arguments ≡ some payload
      → ((default_tool_decision engine i).effect ≡ "deny") ⊎ (spec_for engine i.tool_name ≡ none)
      → (d : PermissionDecision) × (decide_intent host now (with_rules engine rules) i ≡ ok d)
        × (d.effect ≡ "deny")
  unfolding default_tool_decision
  registry_denial_is_final now engine rules i h (inl deny) =
      let (d, dd, de) = decide_intent-precedence host now (with_rules engine rules) i h in
      (d, dd, de ∙ precedence-deny (with_rules engine rules) i deny)
  registry_denial_is_final now engine rules i h (inr unknown) =
      let (d, dd, de) = decide_intent-precedence host now (with_rules engine rules) i h in
      (d, dd, de ∙ precedence-deny (with_rules engine rules) i (unknown_denied engine i unknown))

  unmatched :
      (effect : String) (i : ToolIntent) (rules : List PolicyRule)
      → matched host effect i rules ≡ false
      → EachMatch host i (λ r. r.effect ≢ effect) rules
  unmatched effect i [] h = tt
  unmatched effect i (rule ∷ rules) h =
      (ground (arith, eq_iff rule.effect effect), unmatched effect i rules (ground arith))

  precedence-allow :
      (engine : PermissionEngine) (i : ToolIntent)
      → precedence host engine i ≡ "allow"
      → (matched host "deny" i engine.policy.rules ≡ false)
        × (matched host "ask" i engine.policy.rules ≡ false)
        × ((default_tool_decision engine i).effect ≢ "deny")
  precedence-allow engine i h = ground (
    arith,
    eq_iff (default_tool_decision engine i).effect "deny",
    eq_iff "deny" "allow",
    eq_iff "ask" "allow",
  )

  -- If an intent is allowed, no rule that matches it denies it or asks, the registry does not deny
  -- the tool, and the tool is registered.
  pub allow_is_unopposed :
      (now : String) (engine : PermissionEngine) (i : ToolIntent) (d : PermissionDecision)
      {payload : String}
      → host.dumps false i.arguments ≡ some payload
      → decide_intent host now engine i ≡ ok d
      → d.effect ≡ "allow"
      → EachMatch host i (λ r. r.effect ≢ "deny") engine.policy.rules
        × EachMatch host i (λ r. r.effect ≢ "ask") engine.policy.rules
        × ((default_tool_decision engine i).effect ≢ "deny")
        × (spec_for engine i.tool_name ≢ none)
  allow_is_unopposed now engine i d h decided allow =
      let (e, de, pe) = decide_intent-precedence host now engine i h in
      let same : e.effect ≡ d.effect = cc in
      let (not_denied, not_asked, not_default) =
        precedence-allow engine i (sym pe ∙ same ∙ allow) in
      (
        unmatched "deny" i engine.policy.rules not_denied,
        unmatched "ask" i engine.policy.rules not_asked,
        not_default,
        λ unknown. not_default (unknown_denied engine i unknown),
      )
