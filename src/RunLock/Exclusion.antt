-- ===== src/RunLock/Exclusion.antt =====
-- adapters/evidence/run_lock.py: at most one object holds the lock.
use agent_trust_runtime.Base.{
  ℕ, zero, suc, ◌≤◌, ◌≡◌, refl, sym, ◌∙◌, none, some, List, [], ◌∷◌, arith,
}
use agent_trust_runtime.RunLock.{
  Locks, unlocked, with_depth, take_file, release_from, release_lock, LockAction, enter, leave,
  enter_from, act, act_all,
}

-- The object that holds the file is the one whose depth is not 0.
abbrev pub IsExclusive : Locks → Type 0
IsExclusive w = (j : ℕ) → (w.owner ≡ some j → 1 ≤ w.depth j) × (1 ≤ w.depth j → w.owner ≡ some j)

take_file-IsExclusive : (i : ℕ) (w : Locks) → IsExclusive w → IsExclusive (take_file i w).1
unfolding take_file with_depth
take_file-IsExclusive i w h j = ground (arith, h j, h i)

with_depth-IsExclusive :
    (i n : ℕ) (w : Locks)
    → IsExclusive w
    → 1 ≤ w.depth i
    → 1 ≤ n
    → IsExclusive (record w { depth = with_depth i n w.depth })
unfolding with_depth
with_depth-IsExclusive i n w h d p j = ground (arith, h j, h i)

freed-IsExclusive :
    (i : ℕ) (w : Locks)
    → IsExclusive w
    → 1 ≤ w.depth i
    → IsExclusive (record { owner = none; depth = with_depth i 0 w.depth })
unfolding with_depth
freed-IsExclusive i w h d j = ground (arith, h j, h i)

enter-IsExclusive :
    (i n : ℕ) (w : Locks) → w.depth i ≡ n → IsExclusive w → IsExclusive (enter_from i n w)
unfolding enter_from
enter-IsExclusive i zero w e h = take_file-IsExclusive i w h
enter-IsExclusive i (suc n) w e h =
    with_depth-IsExclusive i (suc (suc n)) w h (omega (arith, e)) (omega arith)

leave-IsExclusive :
    (i n : ℕ) (w : Locks) → w.depth i ≡ n → IsExclusive w → IsExclusive (release_from i n w).1
unfolding release_from
leave-IsExclusive i zero w e h = h
leave-IsExclusive i (suc zero) w e h = freed-IsExclusive i w h (omega (arith, e))
leave-IsExclusive i (suc (suc n)) w e h =
    with_depth-IsExclusive i (suc n) w h (omega (arith, e)) (omega arith)

act-IsExclusive : (a : LockAction) (w : Locks) → IsExclusive w → IsExclusive (act a w)
unfolding act release_lock
act-IsExclusive (enter i) w h = enter-IsExclusive i (w.depth i) w refl h
act-IsExclusive (leave i) w h = leave-IsExclusive i (w.depth i) w refl h

act_all-IsExclusive :
    (actions : List LockAction) (w : Locks) → IsExclusive w → IsExclusive (act_all actions w)
unfolding act_all
act_all-IsExclusive [] w h = h
act_all-IsExclusive (a ∷ rest) w h = act_all-IsExclusive rest (act a w) (act-IsExclusive a w h)

same-owner : (i j : ℕ) → some i ≡ some j → i ≡ j
same-owner i j h = cc

-- Whatever the objects do from the start, in any order: two objects that hold the lock are one.
pub act_all-exclusive :
    (actions : List LockAction) (i j : ℕ)
    → 1 ≤ (act_all actions unlocked).depth i
    → 1 ≤ (act_all actions unlocked).depth j
    → i ≡ j
act_all-exclusive actions i j p q =
    let held =
      act_all-IsExclusive actions unlocked (λ k. ((λ h. cc), (λ h. absurd (omega (arith, h))))) in
    same-owner i j (sym ((held i).1 p) ∙ (held j).1 q)
