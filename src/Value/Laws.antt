-- ===== src/Value/Laws.antt =====
-- Lookups in a dict after a write, a merge or a removal.
use agent_trust_runtime.Base.{
  String, ◌≡◌, refl, ◌∙◌, none, some, arith, ◌==◌, eq_iff, if◌then◌else◌,
}
use agent_trust_runtime.Value.{Value, Fields, end, field, get, set, merge, without}

pub get-set :
    (k j : String) (v : Value) (d : Fields)
    → get j (set k v d) ≡ (if k == j then some v else get j d)
unfolding get set
get-set k j v end = refl
get-set k j v (field i w r) = ground (arith, eq_iff k j, eq_iff i k, eq_iff i j, get-set k j v r)

pub get-without :
    (k j : String) (d : Fields) → get j (without k d) ≡ (if k == j then none else get j d)
unfolding get without
get-without k j end = ground arith
get-without k j (field i w r) =
    ground (arith, eq_iff k j, eq_iff i k, eq_iff i j, get-without k j r)

pub without-set : (k : String) (v : Value) (d : Fields) → without k (set k v d) ≡ without k d
unfolding set without
without-set k v end = ground (arith, eq_iff k k)
without-set k v (field i w r) = ground (arith, eq_iff i k, without-set k v r)

lacks : (k j : String) (v : Value) (r : Fields) → get k (field j v r) ≡ none → get k r ≡ none
unfolding get
lacks k j v r h = ground arith

other :
    (k j : String) (v : Value) (r a : Fields)
    → get k (field j v r) ≡ none
    → (if j == k then some v else get k a) ≡ get k a
unfolding get
other k j v r a h = ground arith

-- A key that the second dict lacks is looked up in the first.
pub get-merge-none : (k : String) (a b : Fields) → get k b ≡ none → get k (merge a b) ≡ get k a
unfolding merge
get-merge-none k a end h = refl
get-merge-none k a (field j v r) h =
    get-merge-none k (set j v a) r (lacks k j v r h) ∙ get-set j k v a ∙ other k j v r a h
