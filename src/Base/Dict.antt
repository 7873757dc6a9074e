-- ===== src/Base/Dict.antt =====
-- A Python dict with string keys and values of one type, in insertion order.
use mathlib.Core.Path.{◌≡◌, refl, sym, subst}
use mathlib.Core.Logic.{◌⊎◌, inl, inr}
use mathlib.Core.Bool.{true, false}
use mathlib.Core.List.{List, [], ◌∷◌}
use mathlib.Core.Option.{Option, none, some}
use Prim.Native.String.{String}
use text.Mathlib.Text.{◌==◌}
use text.Mathlib.TextEquality.{eq_iff}
use native.Mathlib.Omega.{arith}
use agent_trust_runtime.Base.Tests.{Bool-cases, if◌then◌else◌}

module _ {ℓ} {A : Type ℓ} where
  -- `d.get(key)`.
  unfoldable pub lookup : String → List (String × A) → Option A
  lookup k [] = none
  lookup k ((j, v) ∷ d) = let rest = lookup k d in if j == k then some v else rest

  -- `d[key] = value`.
  unfoldable pub put : String → A → List (String × A) → List (String × A)
  put k v [] = (k, v) ∷ []
  put k v ((j, w) ∷ d) = let rest = put k v d in if j == k then (j, v) ∷ d else (j, w) ∷ rest

  -- `d.values()`.
  abbrev pub values : List (String × A) → List A
  values [] = []
  values ((j, v) ∷ d) = v ∷ values d

  pub lookup-put :
      (k j : String) (v : A) (d : List (String × A))
      → lookup j (put k v d) ≡ (if k == j then some v else lookup j d)
  unfolding lookup put
  lookup-put k j v [] = refl
  lookup-put k j v ((i, w) ∷ d) =
      ground (arith, eq_iff k j, eq_iff i k, eq_iff i j, lookup-put k j v d)

  some-eq : (a b : A) → some a ≡ some b → a ≡ b
  some-eq a b h = cc

  -- Every entry has the property.
  abbrev pub Entries {κ} : (P : String → A → Type κ) → List (String × A) → Type κ
  Entries P [] = Unit
  Entries P ((k, v) ∷ d) = P k v × Entries P d

  pub Entries-put {κ} :
      (P : String → A → Type κ) (k : String) (v : A) (d : List (String × A))
      → P k v
      → Entries P d
      → Entries P (put k v d)
  unfolding put
  Entries-put P k v [] p h = (p, tt)
  Entries-put P k v ((j, w) ∷ d) p h = go (Entries-put P k v d p h.1) (Bool-cases (j == k))
    where
      go :
          Entries P (put k v d)
          → ((j == k) ≡ true) ⊎ ((j == k) ≡ false)
          → Entries P (put k v ((j, w) ∷ d))
      go rest (inl e) = rw (put, e) (subst (λ i. P i v) (sym ((eq_iff j k).0 e)) p, h.1)
      go rest (inr e) = rw (put, e) (h.0, rest)

  pub Entries-lookup {κ} :
      (P : String → A → Type κ) (k : String) (v : A) (d : List (String × A))
      → Entries P d
      → lookup k d ≡ some v
      → P k v
  unfolding lookup
  Entries-lookup P k v [] h e = cc
  Entries-lookup P k v ((j, w) ∷ d) h e = go (Entries-lookup P k v d h.1) (Bool-cases (j == k))
    where
      go : (lookup k d ≡ some v → P k v) → ((j == k) ≡ true) ⊎ ((j == k) ≡ false) → P k v
      go rest (inl t) =
          subst (λ x. P k x) (some-eq w v (rw (lookup, t) at e))
            (subst (λ i. P i w) ((eq_iff j k).0 t) h.0)
      go rest (inr t) = rest (rw (lookup, t) at e)

  pub Entries-map {κ} :
      (P Q : String → A → Type κ) (d : List (String × A))
      → ((k : String) (v : A) → P k v → Q k v)
      → Entries P d
      → Entries Q d
  Entries-map P Q [] f h = tt
  Entries-map P Q ((k, v) ∷ d) f h = (f k v h.0, Entries-map P Q d f h.1)
