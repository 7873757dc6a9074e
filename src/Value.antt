-- ===== src/Value.antt =====
-- Python values: what `dict[str, Any]` holds in the events, the arguments of a tool call and the
-- `to_dict` methods of src/agenttrust. A dict keeps its keys in insertion order, each at most once.
-- A float is kept by its `repr`; `opaque` is any other object, or a mapping with a key that is no
-- string, known by its type's name. Two floats are compared by their `repr`.
pub mod Laws
use agent_trust_runtime.Base.{
  ℕ, suc, String, Bool, true, false, Option, none, some, List, [], ◌∷◌, ◌==◌, ◌&&◌, eqb, leb,
  if◌then◌else◌, zero, not, ◌||◌,
}

-- `negsuc n` is -(n + 1).
pub data ℤ : Type 0 where
  pos : ℕ → ℤ
  negsuc : ℕ → ℤ

mutual
  pub data Value : Type 0 where
    null : Value
    boolean : Bool → Value
    integer : ℤ → Value
    float : String → Value
    text : String → Value
    array : Values → Value
    tuple : Values → Value
    object : Fields → Value
    opaque : String → Value

  pub data Values : Type 0 where
    nil : Values
    cons : Value → Values → Values

  pub data Fields : Type 0 where
    end : Fields
    field : String → Value → Fields → Fields

-- A dict display `{"k": v, ...}` whose keys differ.
abbrev pub dict : List (String × Value) → Fields
dict [] = end
dict ((k, v) ∷ r) = field k v (dict r)

abbrev pub strings : List String → Values
strings [] = nil
strings (s ∷ r) = cons (text s) (strings r)

-- `str | None` as a value.
abbrev pub opt_text : Option String → Value
opt_text none = null
opt_text (some s) = text s

abbrev pub number : ℕ → Value
number n = integer (ℤ.pos n)

-- `d.get(key)`, where a missing key is told from `None`.
unfoldable pub get : String → Fields → Option Value
get k end = none
get k (field j v r) = if j == k then some v else get k r

-- `d.get(key)` as Python returns it.
unfoldable pub get_or_none : String → Fields → Value
unfolding get
get_or_none k d = elim (get k d) [ none ↦ null | some v ↦ v ]

-- `bool(value)`; an object of another type is taken as true.
abbrev pub truthy : Value → Bool
truthy null = false
truthy (boolean b) = b
truthy (integer (ℤ.pos zero)) = false
truthy (float s) = not ((s == "0.0") || (s == "-0.0"))
truthy (text s) = not (s == "")
truthy (array nil) = false
truthy (tuple nil) = false
truthy (object end) = false
truthy _ = true

-- `d[key] = v`.
unfoldable pub set : String → Value → Fields → Fields
set k v end = field k v end
set k v (field j w r) = if j == k then field j v r else field j w (set k v r)

-- `{**a, **b}`.
unfoldable pub merge : Fields → Fields → Fields
unfolding set
merge a end = a
merge a (field k v r) = merge (set k v a) r

-- `{key: value for ... if key != k}`.
unfoldable pub without : String → Fields → Fields
without k end = end
without k (field j v r) = let rest = without k r in if j == k then rest else field j v rest

unfoldable pub size : Fields → ℕ
size end = 0
size (field k v r) = suc (size r)

abbrev same_ℤ : ℤ → ℤ → Bool
same_ℤ (ℤ.pos n) (ℤ.pos m) = eqb n m
same_ℤ (ℤ.negsuc n) (ℤ.negsuc m) = eqb n m
same_ℤ _ _ = false

-- `True == 1` and `False == 0` in Python.
abbrev as_int : Bool → ℤ
as_int true = ℤ.pos 1
as_int false = ℤ.pos 0

-- Python's `==`; dicts are compared whatever the order of their keys.
unfoldable mutual
  unfolding get size

  pub same : Value → Value → Bool
  same null null = true
  same (boolean a) (boolean b) = same_ℤ (as_int a) (as_int b)
  same (boolean a) (integer n) = same_ℤ (as_int a) n
  same (integer n) (boolean b) = same_ℤ n (as_int b)
  same (integer n) (integer m) = same_ℤ n m
  same (float a) (float b) = a == b
  same (text a) (text b) = a == b
  same (array xs) (array ys) = same_items xs ys
  same (tuple xs) (tuple ys) = same_items xs ys
  same (object a) (object b) = eqb (size a) (size b) && covers a b
  same (opaque a) (opaque b) = a == b
  same _ _ = false

  pub same_items : Values → Values → Bool
  same_items nil nil = true
  same_items (cons x xs) (cons y ys) = same x y && same_items xs ys
  same_items _ _ = false

  -- Every key of the first dict is in the second, with an equal value.
  pub covers : Fields → Fields → Bool
  covers end b = true
  covers (field k v r) b = elim (get k b) [ none ↦ false | some w ↦ same v w ] && covers r b

-- `a == b` on dicts.
unfoldable pub same_dict : Fields → Fields → Bool
unfolding size same
same_dict a b = eqb (size a) (size b) && covers a b
