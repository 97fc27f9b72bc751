-- ===== src/Runner/Lease/Launches.antt =====
-- nix/app/runner.rs: any number of launches at once, of one app or of several. Each takes its next step
-- when the kernel lets it: `flock` gives a lock only if no other process has a conflicting one on the file
-- of the same path, and releases the locks of a process that ends. podman's answers and the order of the
-- steps are arbitrary. A podman process that a killed launch leaves behind is no launch, and what it still
-- does is not counted.
use nix_os_container_podman.Common.{
  ℕ, ◌≡◌, ◌≢◌, Bool, true, false, Option, none, List, Text, ◌==◌, if◌then◌else◌,
}
use nix_os_container_podman.Runner.Holder.{
  start, remove, remove_depend, create, taken, Op, lock_guard, try_lease, share_lease, podman,
  launch, Answer, Prog, done, ask, Launch,
}
use nix_os_container_podman.Runner.Lease.{run_entry}
use nix_os_container_podman.Runner.Lease.Rules.{unlocked, exclusive, Locks, no_locks, after}

-- A process: what it has left to do, and its locks on its app's two files.
pub record Process : Type 0 where
  pub prog : Prog (Option ℕ)
  pub locks : Locks

abbrev pub System : Type 0
System = ℕ → Process

abbrev pub update : System → ℕ → Process → System
update s i p j = if i == j then p else s j

-- When the kernel gives an answer that takes a lock.
abbrev pub Granted : (op : Op) → Answer op → ℕ → System → Type 0
Granted lock_guard true i s =
    (j : ℕ) → j ≢ i → (s j).locks.guard_file ≡ (s i).locks.guard_file → (s j).locks.guard ≡ false
Granted try_lease taken i s =
    (j : ℕ) → j ≢ i → (s j).locks.lease_file ≡ (s i).locks.lease_file → (s j).locks.lease ≡ unlocked
Granted share_lease true i s =
    (j : ℕ)
    → j ≢ i
    → (s j).locks.lease_file ≡ (s i).locks.lease_file
    → (s j).locks.lease ≢ exclusive
Granted op a i s = Unit

pub data Step (s : System) : System → Type 0 where
  answered :
      (i : ℕ) (op : Op) (k : Answer op → Prog (Option ℕ)) (a : Answer op)
      → (s i).prog ≡ ask op k
      → Granted op a i s
      → Step s (update s i (record { prog = k a; locks = after op a (s i).locks }))
  -- a conversion is not atomic: the lock that there was goes first
  converts :
      (i : ℕ) (k : Bool → Prog (Option ℕ))
      → (s i).prog ≡ ask share_lease k
      → Step s (
          update s i (record {
            prog = ask share_lease k;
            locks = record ((s i).locks) { lease = unlocked };
          }))
  -- `kill -9`, at any time
  dies : (i : ℕ) → Step s (update s i (record { prog = done none; locks = no_locks }))

pub data Reaches (launches : ℕ → Launch) : System → Type 0 where
  begins : Reaches launches (λ i. record { prog = run_entry (launches i); locks = no_locks })
  goes : {s t : System} → Reaches launches s → Step s t → Reaches launches t

-- What a process is about to do.
pub data IsAt (P : Op → Type 0) : Prog (Option ℕ) → Type 0 where
  at_op : {op : Op} {k : Answer op → Prog (Option ℕ)} → P op → IsAt P (ask op k)

pub data IsRemoval : Op → Type 0 where
  of_dead : (name : Text) → IsRemoval (podman (remove_depend name))
  of_last : (name : Text) → IsRemoval (podman (remove name))

pub data IsChange : Op → Type 0 where
  removal : {op : Op} → IsRemoval op → IsChange op
  creation : (args : List Text) → IsChange (podman (create args))
  starting : (name : Text) → IsChange (podman (start name))

pub data IsLaunch : Op → Type 0 where
  launching : IsLaunch launch

-- About to remove the holder; to remove, make or start it; and running the entry.
abbrev pub Removes : Process → Type 0
Removes p = IsAt IsRemoval p.prog

abbrev pub Changes : Process → Type 0
Changes p = IsAt IsChange p.prog

abbrev pub Runs : Process → Type 0
Runs p = IsAt IsLaunch p.prog
