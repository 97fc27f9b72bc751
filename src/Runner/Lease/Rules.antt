-- ===== src/Runner/Lease/Rules.antt =====
-- nix/app/runner.rs: what a launch has locked after each of its steps, and what it may do with which locks.
use nix_os_container_podman.Common.{◌≡◌, ◌≢◌, Bool, true, false, Option, none, some, Text}
use nix_os_container_podman.Runner.Holder.{
  Call, start, remove, remove_depend, create, Tried, taken, would_block, lock_failed, Op,
  open_guard, lock_guard, drop_guard, open_lease, try_lease, share_lease, drop_lease, podman,
  launch, Answer, Prog, done, ask, and_then,
}

pub data Mode : Type 0 where
  unlocked shared exclusive : Mode

-- The locks of one process: whether it has the guard, and how it has the lease file; and the paths at which
-- it has opened them.
pub record Locks : Type 0 where
  pub guard : Bool
  pub lease : Mode
  pub guard_file : Option Text
  pub lease_file : Option Text

abbrev pub no_locks : Locks
no_locks = record { guard = false; lease = unlocked; guard_file = none; lease_file = none }

abbrev after_try : Tried → Locks → Locks
after_try taken l = record l { lease = exclusive }
after_try would_block l = l
after_try lock_failed l = l

-- A lock that is converted is given up first, so a failure has lost it.
abbrev after_share : Bool → Locks → Locks
after_share true l = record l { lease = shared }
after_share false l = record l { lease = unlocked }

abbrev opened_guard : Text → Bool → Locks → Locks
opened_guard path true l = record l { guard_file = some path }
opened_guard path false l = l

abbrev opened_lease : Text → Bool → Locks → Locks
opened_lease path true l = record l { lease_file = some path }
opened_lease path false l = l

abbrev pub after : (op : Op) → Answer op → Locks → Locks
after (open_guard path) a l = opened_guard path a l
after (open_lease path) a l = opened_lease path a l
after lock_guard a l = record l { guard = a }
after drop_guard a l = record l { guard = false }
after try_lease a l = after_try a l
after share_lease a l = after_share a l
after drop_lease a l = record l { lease = unlocked }
after op a l = l

-- Only who has the guard and an exclusive lease removes the holder; only who has the guard makes or starts
-- it; and only who has a shared lease runs.
abbrev AllowedCall : Call → Locks → Type 0
AllowedCall (remove name) l = (l.guard ≡ true) × (l.lease ≡ exclusive)
AllowedCall (remove_depend name) l = (l.guard ≡ true) × (l.lease ≡ exclusive)
AllowedCall (create args) l = l.guard ≡ true
AllowedCall (start name) l = l.guard ≡ true
AllowedCall _ l = Unit

-- The files `own`, the guard's and the lease's, are the only ones that are opened and locked, and none is
-- opened again while it is locked.
abbrev pub Allowed : Text × Text → Op → Locks → Type 0
Allowed own (open_guard path) l = (path ≡ own.0) × (l.guard ≡ false)
Allowed own lock_guard l = (l.guard ≡ false) × (l.guard_file ≡ some own.0)
Allowed own drop_guard l = (l.guard ≡ true) × (l.lease ≢ exclusive)
Allowed own (open_lease path) l = (path ≡ own.1) × (l.lease ≡ unlocked)
Allowed own try_lease l = (l.guard ≡ true) × (l.lease ≡ unlocked) × (l.lease_file ≡ some own.1)
Allowed own share_lease l = (l.guard ≡ true) × (l.lease_file ≡ some own.1)
Allowed own (podman call) l = AllowedCall call l
Allowed own launch l = l.lease ≡ shared
Allowed own _ l = Unit

-- From the locks `l`, every step of the program is allowed, and `Q` holds at its end.
pub data Keeps (own : Text × Text) {A : Type 0} (Q : A → Locks → Type 0)
    : Prog A → Locks → Type 0 where
  ended : {a : A} {l : Locks} → Q a l → Keeps own Q (done a) l
  asked :
      {op : Op} {k : Answer op → Prog A} {l : Locks}
      → Allowed own op l
      → ((a : Answer op) → Keeps own Q (k a) (after op a l))
      → Keeps own Q (ask op k) l

pub Keeps-and_then :
    {own : Text × Text} {A B : Type 0} {Q : A → Locks → Type 0} {R : B → Locks → Type 0}
    {p : Prog A} {f : A → Prog B} {l : Locks}
    → Keeps own Q p l
    → ((a : A) (l' : Locks) → Q a l' → Keeps own R (f a) l')
    → Keeps own R (and_then p f) l
unfolding and_then
Keeps-and_then (ended h) g = g _ _ h
Keeps-and_then (asked h rest) g = asked h (λ a. Keeps-and_then (rest a) g)
