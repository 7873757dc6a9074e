-- ===== src/RunLock.antt =====
-- adapters/evidence/run_lock.py: RunLock objects on one lock file, numbered. `_try_lock` is taken as
-- the exclusive, non-blocking lock of the file: it raises OSError while another object holds it. The
-- clock counts milliseconds. What the other objects do while one sleeps is an argument.
pub mod Exclusion
pub mod Waits
use agent_trust_runtime.Base.{
  ℕ, zero, suc, ◌+◌, ◌-◌, String, Bool, true, false, Option, none, some, List, [], ◌∷◌, eqb, leb,
  is_none, if◌then◌else◌, Error, Result, ok, raised, runtime_error, timeout_error, value_error,
  require,
}

-- Who holds the file, and the `_depth` of each object.
pub record Locks : Type 0 where
  pub owner : Option ℕ
  pub depth : ℕ → ℕ

abbrev pub unlocked : Locks
unlocked = record { owner = none; depth = λ i. 0 }

unfoldable pub with_depth : ℕ → ℕ → (ℕ → ℕ) → ℕ → ℕ
with_depth i n depth j = if eqb i j then n else depth j

-- `_try_lock`, and then `self._depth = 1`; the flag is false where OSError is raised.
unfoldable pub take_file : ℕ → Locks → Bool × Locks
unfolding with_depth
take_file i w =
    if is_none w.owner
    then (true, record { owner = some i; depth = with_depth i 1 w.depth })
    else (false, w)

unfoldable pub release_from : ℕ → ℕ → Locks → Result (Unit {0}) × Locks
unfolding with_depth
release_from i zero w = (raised (runtime_error "run lock is not held"), w)
release_from i (suc zero) w = (ok tt, record { owner = none; depth = with_depth i 0 w.depth })
release_from i (suc (suc n)) w = (ok tt, record w { depth = with_depth i (suc n) w.depth })

unfoldable pub release_lock : ℕ → Locks → Result (Unit {0}) × Locks
unfolding release_from
release_lock i w = release_from i (w.depth i) w

-- What an object does in one go: it enters again where it holds the lock and else tries to take the
-- file once; or it releases.
pub data LockAction : Type 0 where
  enter leave : ℕ → LockAction

unfoldable pub enter_from : ℕ → ℕ → Locks → Locks
unfolding take_file with_depth
enter_from i zero w = (take_file i w).1
enter_from i (suc n) w = record w { depth = with_depth i (suc (suc n)) w.depth }

unfoldable pub act : LockAction → Locks → Locks
unfolding enter_from release_lock
act (enter i) w = enter_from i (w.depth i) w
act (leave i) w = (release_lock i w).1

unfoldable pub act_all : List LockAction → Locks → Locks
unfolding act
act_all [] w = w
act_all (a ∷ rest) w = act_all rest (act a w)

-- A round of the loop that fails: the time that is read, and what the others do meanwhile.
pub record Round : Type 0 where
  pub clock : ℕ
  pub others : List LockAction

pub data Outcome : Type 0 where
  acquired waiting : Outcome
  failed : Error → Outcome

-- The loop of `acquire`; where the rounds end, it has tried once more.
unfoldable pub poll : (deadline i : ℕ) → Locks → List Round → Outcome × Locks
unfolding take_file act_all
poll deadline i w [] =
    let (held, next) = take_file i w in (if held then acquired else waiting, next)
poll deadline i w (r ∷ rounds) =
    let (held, next) = take_file i w in
    let rest = poll deadline i (act_all r.others next) rounds in
    if held
    then (acquired, next)
    else if leb deadline r.clock
    then (failed (timeout_error "timed out waiting for run lock"), next)
    else rest

unfoldable pub acquire_from : ℕ → (started timeout i : ℕ) → Locks → List Round → Outcome × Locks
unfolding poll with_depth
acquire_from zero started timeout i w rounds = poll (started + timeout) i w rounds
acquire_from (suc n) started timeout i w rounds =
    (acquired, record w { depth = with_depth i (suc (suc n)) w.depth })

-- `acquire`, entered at the time `started`.
unfoldable pub acquire : (started timeout i : ℕ) → Locks → List Round → Outcome × Locks
unfolding acquire_from
acquire started timeout i w rounds = acquire_from (w.depth i) started timeout i w rounds
