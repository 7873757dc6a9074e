-- ===== src/Exec.antt =====
-- Stateful Python code: an action reads and changes a state, and returns or raises. What was written
-- before a raise stays written.
pub mod Rules
use agent_trust_runtime.Base.{Bool, true, false, Option, none, some, Error, Result, ok, raised}

abbrev pub Exec : Type 0 → Type 0 → Type 0
Exec S A = S → Result A × S

module _ {S A : Type 0} where
  unfoldable pub pure : A → Exec S A
  pure a s = (ok a, s)

  unfoldable pub raise : Error → Exec S A
  raise e s = (raised e, s)

  unfoldable pub lift : Result A → Exec S A
  lift r s = (r, s)

module _ {S A B : Type 0} where
  abbrev pub continue : (A → Exec S B) → Result A × S → Result B × S
  continue f (ok a, s) = f a s
  continue f (raised e, s) = (raised e, s)

  infixl 5 ◌>>=◌ ◌>>◌
  unfoldable pub ◌>>=◌ : Exec S A → (A → Exec S B) → Exec S B
  unfolding pure raise lift
  ◌>>=◌ m f s = continue f (m s)

  abbrev pub ◌>>◌ : Exec S A → Exec S B → Exec S B
  m >> k = m >>= λ _. k

module _ {S : Type 0} where
  -- `if test: action`.
  unfoldable pub when : Bool → Exec S (Unit {0}) → Exec S (Unit {0})
  unfolding pure
  when true m = m
  when false m = pure tt

  -- `if not test: raise error`.
  unfoldable pub check : Bool → Error → Exec S (Unit {0})
  unfolding pure raise
  check true e = pure tt
  check false e = raise e

module _ {S A : Type 0} where
  -- `handler` and the same exception again, or the one that the handler raises.
  abbrev pub reraise : Error → Result (Unit {0}) × S → Result A × S
  reraise e (ok _, s) = (raised e, s)
  reraise e (raised f, s) = (raised f, s)

  abbrev pub settle : Exec S (Unit {0}) → Result A × S → Result A × S
  settle handler (ok a, s) = (ok a, s)
  settle handler (raised e, s) = reraise e (handler s)

  -- `try: m` with `except BaseException: handler; raise`.
  unfoldable pub on_raise : Exec S A → Exec S (Unit {0}) → Exec S A
  on_raise m handler s = settle handler (m s)
