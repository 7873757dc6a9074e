-- ===== src/Exec/Rules.antt =====
-- What an action guarantees when it returns: `Ensures P Q m` says that from a state with `P` a result
-- `a` and the state after it satisfy `Q`. One rule for each way to build an action.
use agent_trust_runtime.Base.{
  Bool, true, false, Error, Result, ok, raised, ◌≡◌, refl, if◌then◌else◌,
}
use agent_trust_runtime.Exec.{Exec, pure, raise, continue, ◌>>=◌, when, reraise, settle, on_raise}

-- `Q` holds of what was returned.
abbrev pub Returned : {S A : Type 0} → (A → S → Type 0) → Result A × S → Type 0
Returned Q (ok a, s) = Q a s
Returned Q (raised e, s) = Unit

pub record Ensures {S A : Type 0} (P : S → Type 0) (Q : A → S → Type 0) (m : Exec S A)
    : Type 0 where
  pub at : (s : S) → P s → Returned Q (m s)

-- The action keeps `P` when it returns.
abbrev pub Keeps : {S A : Type 0} → (S → Type 0) → Exec S A → Type 0
Keeps P m = Ensures P (λ _ s. P s) m

module _ {S A : Type 0} {P : S → Type 0} {Q : A → S → Type 0} where
  pub Ensures-pure : (a : A) → ((s : S) → P s → Q a s) → Ensures P Q (pure a)
  unfolding pure
  Ensures-pure a h = record { at = h }

  pub Ensures-raise : (e : Error) → Ensures P Q (raise e)
  unfolding raise
  Ensures-raise e = record { at = λ s h. tt }

  pub Ensures-if :
      (b : Bool) (m n : Exec S A)
      → (b ≡ true → Ensures P Q m)
      → (b ≡ false → Ensures P Q n)
      → Ensures P Q (if b then m else n)
  Ensures-if true m n hm hn = hm refl
  Ensures-if false m n hm hn = hn refl

  pub Ensures-weaken :
      (R : A → S → Type 0) (m : Exec S A)
      → Ensures P R m
      → ((a : A) (s : S) → R a s → Q a s)
      → Ensures P Q m
  Ensures-weaken R m h w = record { at = λ s p. Returned-weaken (m s) (h.at s p) }
    where
      Returned-weaken : (r : Result A × S) → Returned R r → Returned Q r
      Returned-weaken (ok a, s) q = w a s q
      Returned-weaken (raised e, s) q = tt

  pub Ensures-on_raise :
      (m : Exec S A) (handler : Exec S Unit) → Ensures P Q m → Ensures P Q (on_raise m handler)
  unfolding on_raise
  Ensures-on_raise m handler h = record { at = λ s p. settled (m s) (h.at s p) }
    where
      reraised : (e : Error) (r : Result (Unit {0}) × S) → Returned Q (reraise {A = A} e r)
      reraised e (ok u, s) = tt
      reraised e (raised f, s) = tt

      settled : (r : Result A × S) → Returned Q r → Returned Q (settle handler r)
      settled (ok a, s) q = q
      settled (raised e, s) q = reraised e (handler s)

module _ {S A B : Type 0} {P : S → Type 0} {Q : B → S → Type 0} where
  pub Ensures-bind :
      (R : A → S → Type 0) (m : Exec S A) (f : A → Exec S B)
      → Ensures P R m
      → ((a : A) → Ensures (R a) Q (f a))
      → Ensures P Q (m >>= f)
  unfolding ◌>>=◌
  Ensures-bind R m f hm hf = record { at = λ s p. continued (m s) (hm.at s p) }
    where
      continued : (r : Result A × S) → Returned R r → Returned Q (continue f r)
      continued (ok a, s) h = (hf a).at s h
      continued (raised e, s) h = tt

module _ {S : Type 0} {P : S → Type 0} where
  pub Keeps-when : (b : Bool) (m : Exec S Unit) → Keeps P m → Keeps P (when b m)
  unfolding when
  Keeps-when true m k = k
  Keeps-when false m k = record { at = λ s h. h }

  pub Keeps-pure : {A : Type 0} (a : A) → Keeps P (pure a)
  unfolding pure
  Keeps-pure a = record { at = λ s h. h }

module _ {S A : Type 0} {P : S → Type 0} where
  -- Every action ensures the trivial predicate.
  pub Ensures-trivial : (m : Exec S A) → Ensures P (λ _ _. Unit {0}) m
  Ensures-trivial m = record { at = λ s h. any_result (m s) }
    where
      any_result : (r : Result A × S) → Returned (λ _ _. Unit {0}) r
      any_result (ok a, s) = tt
      any_result (raised e, s) = tt

module _ {S A B : Type 0} {P : S → Type 0} {Q : B → S → Type 0} where
  -- The step keeps `P`, whatever it returns.
  pub Ensures-then :
      (m : Exec S A) (f : A → Exec S B)
      → Keeps P m
      → ((a : A) → Ensures P Q (f a))
      → Ensures P Q (m >>= f)
  Ensures-then m f hm hf = Ensures-bind (λ _ s. P s) m f hm hf

  -- Nothing is known of the state after the step.
  pub Ensures-any :
      (m : Exec S A) (f : A → Exec S B)
      → ((a : A) → Ensures (λ _. Unit {0}) Q (f a))
      → Ensures P Q (m >>= f)
  Ensures-any m f hf = Ensures-bind (λ _ _. Unit {0}) m f (Ensures-trivial m) hf
