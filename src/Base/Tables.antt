-- ===== src/Base/Tables.antt =====
-- A table as the list of its rows, with what the statements of SQL do on it.
use Prim.Native.Nat.{ℕ, suc}
use mathlib.Core.Bool.{Bool}
use mathlib.Core.List.{List, [], ◌∷◌}
use mathlib.Core.Option.{Option, none, some}
use agent_trust_runtime.Base.Tests.{if◌then◌else◌}

module _ {ℓ} {A : Type ℓ} where
  -- `SELECT ... WHERE p`, the first row.
  unfoldable pub select : (A → Bool) → List A → Option A
  select p [] = none
  select p (r ∷ rs) = let rest = select p rs in if p r then some r else rest

  -- `SELECT ... WHERE p`, every row.
  unfoldable pub select_all : (A → Bool) → List A → List A
  select_all p [] = []
  select_all p (r ∷ rs) = let rest = select_all p rs in if p r then r ∷ rest else rest

  -- The `rowcount` of a statement with `WHERE p`.
  unfoldable pub count_where : (A → Bool) → List A → ℕ
  count_where p [] = 0
  count_where p (r ∷ rs) = let rest = count_where p rs in if p r then suc rest else rest

  -- `UPDATE ... SET f WHERE p`.
  unfoldable pub update_where : (A → Bool) → (A → A) → List A → List A
  update_where p f [] = []
  update_where p f (r ∷ rs) = (if p r then f r else r) ∷ update_where p f rs

  -- `DELETE ... WHERE p`.
  unfoldable pub delete_where : (A → Bool) → List A → List A
  delete_where p [] = []
  delete_where p (r ∷ rs) = let rest = delete_where p rs in if p r then rest else r ∷ rest

  -- `ORDER BY`, where rows that are equal in it keep their order.
  unfoldable pub insert_row : (A → A → Bool) → A → List A → List A
  insert_row le r [] = r ∷ []
  insert_row le r (s ∷ rs) =
      let rest = insert_row le r rs in if le r s then r ∷ s ∷ rs else s ∷ rest

  unfoldable pub order_by : (A → A → Bool) → List A → List A
  unfolding insert_row
  order_by le [] = []
  order_by le (r ∷ rs) = insert_row le r (order_by le rs)
