-- ===== src/Permission/Finality.antt =====
-- permissions/approvals.py: when a decision ends in permission.
use agent_trust_runtime.Base.{
  String, ◌≡◌, ◌↔◌, ◌⊎◌, ◌≢◌, Option, none, some, arith, eq_iff, or_else, true, one_of, [], ◌∷◌,
  inl, inr,
}
use agent_trust_runtime.Models.{PermissionDecision}
use agent_trust_runtime.Permission.{finalize_in_mode, finalize_permission}

-- What may turn a decision into permission, in a mode and with an answer to the prompt.
abbrev pub Permitted : PermissionDecision → (mode : String) → Option String → Type 0
Permitted d mode response =
    (d.effect ≡ "allow")
    ⊎ ((d.effect ≢ "deny")
        × ((one_of mode ("test" ∷ "mock" ∷ []) ≡ true)
            ⊎ (one_of mode ("interactive" ∷ "inline_prompt" ∷ []) ≡ true)
              × (response ≡ some "approve")))

finalize_in_mode_allows :
    (d : PermissionDecision) (mode : String) (response : Option String)
    → (finalize_in_mode d mode response).final_effect ≡ "allow"
    → Permitted d mode response
unfolding finalize_in_mode
finalize_in_mode_allows d mode none h = ground (
  arith,
  eq_iff d.effect "allow",
  eq_iff d.effect "deny",
  eq_iff "deny" "allow",
  eq_iff "ask" "allow",
)
finalize_in_mode_allows d mode (some r) h = ground (
  arith,
  eq_iff d.effect "allow",
  eq_iff d.effect "deny",
  eq_iff r "approve",
  eq_iff "deny" "allow",
  eq_iff "ask" "allow",
)

one_of_two : (m a b : String) → one_of m (a ∷ b ∷ []) ≡ true → (m ≡ a) ⊎ (m ≡ b)
one_of_two m a b h = ground (arith, eq_iff m a, eq_iff m b)

finalize_in_mode-Permitted :
    (d : PermissionDecision) (mode : String) (response : Option String)
    → Permitted d mode response
    → (finalize_in_mode d mode response).final_effect ≡ "allow"
unfolding finalize_in_mode
finalize_in_mode-Permitted d mode response (inl e) = rw e
finalize_in_mode-Permitted d mode response (inr (n, inl e)) =
    elim (one_of_two mode "test" "mock" e) [
      | inl p ↦ rw p (ground (arith, eq_iff d.effect "allow", eq_iff d.effect "deny"))
      | inr p ↦ rw p (ground (arith, eq_iff d.effect "allow", eq_iff d.effect "deny"))
    ]
finalize_in_mode-Permitted d mode response (inr (n, inr (e, r))) =
    elim (one_of_two mode "interactive" "inline_prompt" e) [
      | inl p ↦ rw (p, r) (ground (arith, eq_iff d.effect "allow", eq_iff d.effect "deny"))
      | inr p ↦ rw (p, r) (ground (arith, eq_iff d.effect "allow", eq_iff d.effect "deny"))
    ]

resolved_mode : (mode : String) → mode ≢ "" → or_else none (or_else (some mode) "deny") ≡ mode
resolved_mode mode h = ground (arith, eq_iff mode "")

-- The final effect is `allow` exactly when the decision allows the call, or does not deny it and
-- either the mode is a mock approver's or an interactive approver answered `approve`.
pub final_allow_iff :
    (d : PermissionDecision) (mode : String) (response : Option String)
    → mode ≢ ""
    → ((finalize_permission d (some mode) response none).final_effect ≡ "allow")
      ↔ Permitted d mode response
unfolding finalize_permission
final_allow_iff d mode response h =
    rw (resolved_mode mode h)
      (finalize_in_mode_allows d mode response, finalize_in_mode-Permitted d mode response)
