-- ===== src/Examples/Locks.antt =====
-- adapters/evidence/run_lock.py and adapters/sandbox/filesystem.py: two objects on one lock, and
-- a file system in which two paths are links.
use agent_trust_runtime.Base.{
  ℕ, ◌≤◌, ◌+◌, ◌*◌, String, ◌≡◌, ◌≢◌, ◌⊎◌, refl, arith, false, not, ◌&&◌, ◌==◌, eqb, some, List, [],
  ◌∷◌, length, one_of, ok, if◌then◌else◌,
}
use agent_trust_runtime.Value.{text, dict}
use agent_trust_runtime.Models.{ToolIntent, SandboxDecision}
use agent_trust_runtime.RunLock.{
  Locks, unlocked, LockAction, enter, leave, act_all, Round, waiting, act, acquire,
}
use agent_trust_runtime.RunLock.Exclusion.{act_all-exclusive}
use agent_trust_runtime.RunLock.Waits.{Before, FreeAfter, Holds, acquire_lem}
use agent_trust_runtime.Sandbox.{Paths, posix_prefixes, check_sandbox}
use agent_trust_runtime.Sandbox.Allowed.{IsReached, check_sandbox-allow}

-- The first object enters twice; the second cannot.
abbrev actions : List LockAction
actions = enter 1 ∷ enter 2 ∷ enter 1 ∷ []

entered_run : (act_all actions unlocked).depth 1 ≡ 2
unfolding act_all
entered_run = refl

abbrev first : ℕ
first = 1

act_all-exclusive_example : first ≡ first
unfolding act_all
act_all-exclusive_example = act_all-exclusive actions first first (omega arith) (omega arith)

-- The first object holds the lock and leaves it while the second sleeps.
abbrev held : Locks
held = record { owner = some 1; depth = λ i. if eqb i 1 then 1 else 0 }

abbrev rounds : List Round
rounds = record { clock = 105; others = leave 1 ∷ [] } ∷ []

acquire_lem_example :
    (60 + 20 ≤ 20 * length rounds → (acquire 100 60 2 held rounds).0 ≢ waiting)
    × (Before (100 + 60) rounds → FreeAfter held rounds → Holds 2 (acquire 100 60 2 held rounds))
acquire_lem_example = acquire_lem 100 60 20 2 held rounds (omega arith) ((omega arith), tt)

acquired_run : Holds 2 (acquire 100 60 2 held rounds)
unfolding act_all act acquire
acquired_run = acquire_lem_example.1 (omega arith, tt) refl

-- A file system with two links: the notes lead to a file of the project, the other link leads out.
abbrev followed : String → String
followed p =
    if p == "/work/notes.txt"
    then "/work/docs/notes.txt"
    else if p == "/work/link"
    then "/home/keys.txt"
    else p

abbrev paths : Paths String
paths = record {
  expanduser = λ s. ok s;
  is_absolute = λ p. not (p == "notes.txt");
  join = λ a b. "/work/notes.txt";
  child = λ a s. s;
  parent = λ p. p;
  name = λ p. p;
  suffix = λ p. "";
  parts = λ p. p ∷ [];
  resolve = λ p. ok (followed p);
  is_relative_to = λ p root. not (p == "/home/keys.txt") && root == "/work";
  shown = λ p. p;
  lower = λ s. s;
}

abbrev intent : ToolIntent
intent = record {
  run_id = "run";
  tool_call_id = "call_001";
  tool_name = "read_file";
  arguments = dict (("path", text "notes.txt") ∷ []);
  source = "model";
  created_at = "t0";
  runtime_mode = "live";
  simulation_allowed = false;
}

abbrev allowed : SandboxDecision
allowed = record {
  run_id = "run";
  tool_call_id = "call_001";
  tool_name = "read_file";
  effect = "allow";
  reason = "path allowed";
  path = some "/work/docs/notes.txt";
}

allowed_run : check_sandbox paths posix_prefixes "/work" intent ≡ ok allowed
unfolding check_sandbox
allowed_run = refl

-- The link out of the project is refused.
escaped_run :
    check_sandbox paths posix_prefixes "/work"
      (record intent { arguments = dict (("path", text "/work/link") ∷ []) })
    ≡ ok (record allowed {
      effect = "deny";
      reason = "path escapes project_root";
      path = some "/home/keys.txt";
    })
unfolding check_sandbox
escaped_run = refl

check_sandbox-allow_example :
    (one_of "read_file" ("read_file" ∷ "write_file" ∷ []) ≡ false)
    ⊎ IsReached paths posix_prefixes "/work" intent allowed
check_sandbox-allow_example =
    check_sandbox-allow paths posix_prefixes "/work" intent allowed allowed_run refl
