-- ===== src/Governed/Rules.antt =====
-- Rules for the actions of a governed session.
use agent_trust_runtime.Base.{
  ◌≡◌, refl, sym, subst, Bool, true, false, Error, Result, ok, raised, none,
}
use agent_trust_runtime.Exec.{Exec, pure, raise, lift, check}
use agent_trust_runtime.Exec.Rules.{Returned, Ensures, Keeps}
use agent_trust_runtime.Governed.{Governed, with_state, modify, back, on_world, release, taking}

module _ {W A : Type 0} {P : Governed W → Type 0} {Q : A → Governed W → Type 0} where
  -- The action that reads the state is known to start from what it read.
  pub Ensures-with_state :
      (f : Governed W → Exec (Governed W) A)
      → ((t : Governed W) → P t → Ensures (λ s. s ≡ t) Q (f t))
      → Ensures P Q (with_state f)
  Ensures-with_state f h = record { at = λ s p. (h s p).at s refl }

  pub with_state-Ensures :
      (f : Governed W → Exec (Governed W) A)
      → ((t : Governed W) → Ensures P Q (f t))
      → Ensures P Q (with_state f)
  with_state-Ensures f h = record { at = λ s p. (h s).at s p }

  pub Ensures-lift :
      (r : Result A) → ((a : A) (s : Governed W) → r ≡ ok a → P s → Q a s) → Ensures P Q (lift r)
  unfolding lift
  Ensures-lift (ok a) h = record { at = λ s p. h a s refl p }
  Ensures-lift (raised e) h = record { at = λ s p. tt }

module _ {W : Type 0} {P Q : Governed W → Type 0} where
  pub Ensures-modify :
      (f : Governed W → Governed W)
      → ((s : Governed W) → P s → Q (f s))
      → Ensures P (λ _. Q) (modify f)
  unfolding modify
  Ensures-modify f h = record { at = h }

module _ {W : Type 0} {P : Governed W → Type 0} where
  pub Keeps-modify :
      (f : Governed W → Governed W) → ((s : Governed W) → P s → P (f s)) → Keeps P (modify f)
  unfolding modify
  Keeps-modify f h = record { at = h }

module _ {W A : Type 0} {P : Governed W → Type 0} where
  -- A port's action keeps what does not depend on the world.
  pub on_world-Keeps :
      (m : Exec W A)
      → ((s : Governed W) (w : W) → P s → P (record s { world = w }))
      → Keeps P (on_world m)
  unfolding on_world
  on_world-Keeps m h = record { at = λ s p. kept s p (m s.world) }
    where
      kept : (s : Governed W) → P s → (r : Result A × W) → Returned (λ _ t. P t) (back s r)
      kept s p (ok a, w) = h s w p
      kept s p (raised e, w) = tt

  -- Taking the active call keeps what does not depend on it.
  pub taking-Keeps :
      (m : Exec (Governed W) A)
      → ((s : Governed W) → P s → P (record s { active = none }))
      → Keeps P m
      → Keeps P (taking m)
  unfolding taking
  taking-Keeps m h k = record { at = λ s p. kept (m s) (k.at s p) }
    where
      kept :
          (r : Result A × Governed W) → Returned (λ _ t. P t) r → Returned (λ _ t. P t) (release r)
      kept (ok a, s) p = h s p
      kept (raised e, s) p = tt

module _ {W A : Type 0} {P R : Governed W → Type 0} {Q : A → Governed W → Type 0} where
  pub Ensures-from :
      (m : Exec (Governed W) A) → ((s : Governed W) → P s → R s) → Ensures R Q m → Ensures P Q m
  Ensures-from m w h = record { at = λ s p. h.at s (w s p) }

module _ {W : Type 0} {P : Governed W → Type 0} where
  pub check-Keeps : (f : Governed W → Bool) (e : Error) → Keeps P (with_state λ s. check (f s) e)
  unfolding check pure raise
  check-Keeps f e = Ensures-with_state _ λ t p. go t p (f t)
    where
      go : (t : Governed W) → P t → (b : Bool) → Ensures (λ s. s ≡ t) (λ _ s. P s) (check b e)
      go t p true = record { at = λ s eq. subst P (sym eq) p }
      go t p false = record { at = λ s eq. tt }

  -- An action on what was read keeps what every such action keeps.
  pub with_state-Keeps :
      {A : Type 0} (f : Governed W → Exec (Governed W) A)
      → ((t : Governed W) → Keeps P (f t))
      → Keeps P (with_state f)
  with_state-Keeps f h = record { at = λ s p. (h s).at s p }

module _ {S : Type 0} {P : S → Type 0} where
  -- A check that returns found its condition.
  pub check-true : (b : Bool) (e : Error) → Ensures P (λ _ s. P s × (b ≡ true)) (check b e)
  unfolding check pure raise
  check-true true e = record { at = λ s p. (p, refl) }
  check-true false e = record { at = λ s p. tt }
