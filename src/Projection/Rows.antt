-- ===== src/Projection/Rows.antt =====
-- adapters/evidence/sqlite_state.py: rows after an insertion, an update or a deletion.
use agent_trust_runtime.Base.{
  ◌≡◌, refl, inl, inr, Bool, true, false, Bool-cases, List, [], ◌∷◌, ◌++◌, is_some, arith,
  if◌then◌else◌,
}
use agent_trust_runtime.Base.Tables.{select, update_where, delete_where}

module _ {A : Type 0} where
  abbrev pub AllRows : (A → Type 0) → List A → Type 0
  AllRows P [] = Unit
  AllRows P (r ∷ rs) = P r × AllRows P rs

  pub AllRows-append :
      (P : A → Type 0) (r : A) (rs : List A) → P r → AllRows P rs → AllRows P (rs ++ r ∷ [])
  AllRows-append P r [] p h = (p, tt)
  AllRows-append P r (s ∷ rs) p h = (h.0, AllRows-append P r rs p h.1)

  pub AllRows-map :
      (P Q : A → Type 0) (rs : List A) → ((r : A) → P r → Q r) → AllRows P rs → AllRows Q rs
  AllRows-map P Q [] f h = tt
  AllRows-map P Q (r ∷ rs) f h = (f r h.0, AllRows-map P Q rs f h.1)

  pub AllRows-update :
      (P : A → Type 0) (p : A → Bool) (f : A → A) (rs : List A)
      → ((r : A) → P r → P (f r))
      → AllRows P rs
      → AllRows P (update_where p f rs)
  unfolding update_where
  AllRows-update P p f [] k h = tt
  AllRows-update P p f (r ∷ rs) k h = (chosen (p r), AllRows-update P p f rs k h.1)
    where
      chosen : (b : Bool) → P (if b then f r else r)
      chosen true = k r h.0
      chosen false = h.0

  pub select-append_old :
      (p : A → Bool) (r : A) (rs : List A)
      → is_some (select p rs) ≡ true
      → is_some (select p (rs ++ r ∷ [])) ≡ true
  unfolding select
  select-append_old p r [] h = cc
  select-append_old p r (s ∷ rs) h = ground (arith, select-append_old p r rs)

  pub select-update :
      (q p : A → Bool) (f : A → A) (rs : List A)
      → ((r : A) → q (f r) ≡ q r)
      → is_some (select q (update_where p f rs)) ≡ is_some (select q rs)
  unfolding select update_where
  select-update q p f [] k = refl
  select-update q p f (r ∷ rs) k = ground (arith, select-update q p f rs k, k r)

  pub AllRows-delete :
      (P : A → Type 0) (p : A → Bool) (rs : List A) → AllRows P rs → AllRows P (delete_where p rs)
  unfolding delete_where
  AllRows-delete P p [] h = tt
  AllRows-delete P p (r ∷ rs) h =
      let rest = AllRows-delete P p rs h.1 in
      elim (Bool-cases (p r)) [ inl e ↦ rw e rest | inr e ↦ rw e (h.0, rest) ]

  pub select-delete :
      (q p : A → Bool) (rs : List A)
      → ((r : A) → q r ≡ true → p r ≡ false)
      → is_some (select q (delete_where p rs)) ≡ is_some (select q rs)
  unfolding select delete_where
  select-delete q p [] k = refl
  select-delete q p (r ∷ rs) k = ground (arith, select-delete q p rs k, k r)

  -- A property of the rows that stay.
  pub AllRows-kept :
      (P Q : A → Type 0) (p : A → Bool) (rs : List A)
      → ((r : A) → p r ≡ false → P r → Q r)
      → AllRows P rs
      → AllRows Q (delete_where p rs)
  unfolding delete_where
  AllRows-kept P Q p [] f h = tt
  AllRows-kept P Q p (r ∷ rs) f h =
      let rest = AllRows-kept P Q p rs f h.1 in
      elim (Bool-cases (p r)) [ inl e ↦ rw e rest | inr e ↦ rw e (f r e h.0, rest) ]
