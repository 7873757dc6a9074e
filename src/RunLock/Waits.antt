-- ===== src/RunLock/Waits.antt =====
-- adapters/evidence/run_lock.py: the wait for the lock ends, with the lock where it becomes free.
use native.Mathlib.Nat.{mul-suc}
use agent_trust_runtime.Base.{
  ℕ, zero, suc, ◌+◌, ◌*◌, ◌≤◌, ◌<◌, ◌≡◌, ◌≢◌, refl, true, false, Bool-cases, ◌⊎◌, inl, inr, none,
  List, [], ◌∷◌, length, leb, is_none, arith,
}
use agent_trust_runtime.RunLock.{
  Locks, take_file, act_all, Round, Outcome, acquired, waiting, with_depth, poll, acquire_from,
  acquire,
}

-- The clock is read after the start, and again only after a sleep of at least `gap`.
abbrev pub Ticks : (gap start : ℕ) → List Round → Type 0
Ticks gap start [] = Unit
Ticks gap start (r ∷ rounds) = (start ≤ r.clock) × Ticks gap (r.clock + gap) rounds

poll-ends :
    (deadline i gap start : ℕ) (w : Locks) (rounds : List Round)
    → Ticks gap start rounds
    → start < deadline + gap
    → deadline + gap ≤ start + gap * length rounds
    → (poll deadline i w rounds).0 ≢ waiting
unfolding poll take_file
poll-ends deadline i gap start w [] t b c h = omega (arith, b, c)
poll-ends deadline i gap start w (r ∷ rounds) t b c h =
    go (Bool-cases (is_none w.owner)) (Bool-cases (leb deadline r.clock)) (λ d.
      poll-ends deadline i gap (r.clock + gap) (act_all r.others w) rounds t.1 (omega (arith, d))
        (omega (arith, c, t.0, mul-suc gap (length rounds))))
  where
    go :
        (is_none w.owner ≡ true) ⊎ (is_none w.owner ≡ false)
        → (leb deadline r.clock ≡ true) ⊎ (leb deadline r.clock ≡ false)
        → (r.clock < deadline → (poll deadline i (act_all r.others w) rounds).0 ≢ waiting)
        → ⊥
    go (inl e) late more = cc (rw (poll, take_file, e) at h)
    go (inr e) (inl d) more = cc (rw (poll, take_file, e, d) at h)
    go (inr e) (inr d) more = more (ground (arith, d)) (rw (poll, take_file, e, d) at h)

-- The others leave the file free when the rounds are over.
abbrev pub FreeAfter : Locks → List Round → Type 0
FreeAfter w [] = w.owner ≡ none
FreeAfter w (r ∷ rounds) = FreeAfter (act_all r.others w) rounds

abbrev pub Before : (deadline : ℕ) → List Round → Type 0
Before deadline [] = Unit
Before deadline (r ∷ rounds) = (r.clock < deadline) × Before deadline rounds

-- The object holds the lock after a wait that succeeded.
abbrev pub Holds : ℕ → Outcome × Locks → Type 0
Holds i (outcome, w) = (outcome ≡ acquired) × (1 ≤ w.depth i)

poll-Holds :
    (deadline i : ℕ) (w : Locks) (rounds : List Round)
    → Before deadline rounds
    → FreeAfter w rounds
    → Holds i (poll deadline i w rounds)
unfolding poll take_file with_depth
poll-Holds deadline i w [] b f = rw f (refl, ground arith)
poll-Holds deadline i w (r ∷ rounds) b f =
    go (Bool-cases (is_none w.owner)) (poll-Holds deadline i (act_all r.others w) rounds b.1 f)
  where
    late : leb deadline r.clock ≡ false
    late = ground (arith, b.0)

    go :
        (is_none w.owner ≡ true) ⊎ (is_none w.owner ≡ false)
        → Holds i (poll deadline i (act_all r.others w) rounds)
        → Holds i (poll deadline i w (r ∷ rounds))
    go (inl e) more = rw (poll, take_file, e) (refl, ground arith)
    go (inr e) more = rw (poll, take_file, e, late) more

-- A wait whose clock advances by a gap with each round has ended once the rounds cover the timeout
-- and one gap more: the lock is acquired or the wait has timed out. And where the others leave the
-- file free after some rounds, each before the deadline, the wait has ended with the lock held.
pub acquire_lem :
    (started timeout gap i : ℕ) (w : Locks) (rounds : List Round)
    → 1 ≤ gap
    → Ticks gap started rounds
    → (timeout + gap ≤ gap * length rounds → (acquire started timeout i w rounds).0 ≢ waiting)
      × (Before (started + timeout) rounds
          → FreeAfter w rounds
          → Holds i (acquire started timeout i w rounds))
unfolding acquire
acquire_lem started timeout gap i w rounds g t = go (w.depth i)
  where
    go :
        (n : ℕ)
        → (timeout + gap ≤ gap * length rounds
            → (acquire_from n started timeout i w rounds).0 ≢ waiting)
          × (Before (started + timeout) rounds
              → FreeAfter w rounds
              → Holds i (acquire_from n started timeout i w rounds))
    go zero = (
      (λ c.
          poll-ends (started + timeout) i gap started w rounds t (omega (arith, g))
            (omega (arith, c))),
      (λ b f. poll-Holds (started + timeout) i w rounds b f),
    )
    go (suc n) = ((λ c h. cc h), (λ b f. (refl, ground arith)))
