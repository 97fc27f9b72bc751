-- ===== src/Runner/Lease/Lawful.antt =====
-- nix/app/runner.rs: the locks that a step of a launch gives it, and those of the others.
use nix_os_container_podman.Common.{
  ℕ, ◌≡◌, ◌≢◌, ◌⊎◌, inl, inr, refl, sym, ◌∙◌, ap, true, false, some, Text, Bool-cases,
}
use nix_os_container_podman.Runner.Holder.{
  taken, would_block, lock_failed, Op, open_guard, lock_guard, drop_guard, open_lease, try_lease,
  share_lease, drop_lease, podman, net_exists, read_comm, launch, Answer,
}
use nix_os_container_podman.Runner.Lease.Rules.{
  Mode, unlocked, shared, exclusive, Locks, after, Allowed, Keeps,
}
use nix_os_container_podman.Runner.Lease.Claims.{Over}
use nix_os_container_podman.Runner.Lease.Launches.{System, Granted}

-- What every step keeps, each process having its own two files: the locks on one file exclude each other,
-- and each process keeps to its own files.
pub record IsSafe (own : ℕ → Text × Text) (s : System) : Type 0 where
  pub keeps : (i : ℕ) → Keeps (own i) Over (s i).prog (s i).locks
  pub guard_own : (i : ℕ) → (s i).locks.guard ≡ true → (s i).locks.guard_file ≡ some (own i).0
  pub lease_own : (i : ℕ) → (s i).locks.lease ≢ unlocked → (s i).locks.lease_file ≡ some (own i).1
  pub one_guard :
      (i j : ℕ)
      → (own i).0 ≡ (own j).0
      → (s i).locks.guard ≡ true
      → (s j).locks.guard ≡ true
      → i ≡ j
  pub alone :
      (i j : ℕ)
      → (own i).1 ≡ (own j).1
      → (s i).locks.lease ≡ exclusive
      → j ≢ i
      → (s j).locks.lease ≡ unlocked

-- The locks `l` may take the place of the process's own.
pub record IsLawful (own : ℕ → Text × Text) (s : System) (i : ℕ) (l : Locks) : Type 0 where
  pub guard_kept : l.guard ≡ true → l.guard_file ≡ some (own i).0
  pub lease_kept : l.lease ≢ unlocked → l.lease_file ≡ some (own i).1
  pub guard_law :
      l.guard ≡ true
      → ((s i).locks.guard ≡ true)
        ⊎ ((j : ℕ) → j ≢ i → (own i).0 ≡ (own j).0 → (s j).locks.guard ≡ false)
  pub exclusive_law :
      l.lease ≡ exclusive
      → ((s i).locks.lease ≡ exclusive)
        ⊎ ((j : ℕ) → j ≢ i → (own i).1 ≡ (own j).1 → (s j).locks.lease ≡ unlocked)
  pub other_law :
      (l.lease ≡ unlocked)
      ⊎ ((l.lease ≡ (s i).locks.lease)
          ⊎ ((j : ℕ) → j ≢ i → (own i).1 ≡ (own j).1 → (s j).locks.lease ≢ exclusive))

unlocked_or : (m : Mode) → (m ≡ unlocked) ⊎ (m ≢ unlocked)
unlocked_or unlocked = inl refl
unlocked_or shared = inr λ h. cc
unlocked_or exclusive = inr λ h. cc

module _ (own : ℕ → Text × Text) (s : System) (safe : IsSafe own s) (i : ℕ) where
  same-IsLawful : IsLawful own s i (s i).locks
  same-IsLawful = record {
    guard_kept = safe.guard_own i;
    lease_kept = safe.lease_own i;
    guard_law = λ h. inl h;
    exclusive_law = λ h. inl h;
    other_law = inr (inl refl);
  }

  -- Who has a lock on a file of the same path has opened the same file.
  same_guard_file :
      (s i).locks.guard_file ≡ some (own i).0
      → (j : ℕ) → (own i).0 ≡ (own j).0
      → (s j).locks.guard ≡ true
      → (s j).locks.guard_file ≡ (s i).locks.guard_file
  same_guard_file f j e h = safe.guard_own j h ∙ ap some (sym e) ∙ sym f

  same_lease_file :
      (s i).locks.lease_file ≡ some (own i).1
      → (j : ℕ) → (own i).1 ≡ (own j).1
      → (s j).locks.lease ≢ unlocked
      → (s j).locks.lease_file ≡ (s i).locks.lease_file
  same_lease_file f j e h = safe.lease_own j h ∙ ap some (sym e) ∙ sym f

  pub after-IsLawful :
      (op : Op) (a : Answer op)
      → Allowed (own i) op (s i).locks
      → Granted op a i s
      → IsLawful own s i (after op a (s i).locks)
  after-IsLawful lock_guard true (u, f) g = record {
    guard_kept = λ h. f;
    lease_kept = safe.lease_own i;
    guard_law = λ h. inr λ j d e. elim (Bool-cases (s j).locks.guard) [
      | inl has ↦ g j d (same_guard_file f j e has)
      | inr none ↦ none
    ];
    exclusive_law = λ h. inl h;
    other_law = inr (inl refl);
  }
  after-IsLawful lock_guard false f g = record {
    guard_kept = λ h. cc;
    lease_kept = safe.lease_own i;
    guard_law = λ h. cc;
    exclusive_law = λ h. inl h;
    other_law = inr (inl refl);
  }
  after-IsLawful drop_guard a f g = record {
    guard_kept = λ h. cc;
    lease_kept = safe.lease_own i;
    guard_law = λ h. cc;
    exclusive_law = λ h. inl h;
    other_law = inr (inl refl);
  }
  after-IsLawful try_lease taken (has, u, f) g = record {
    guard_kept = safe.guard_own i;
    lease_kept = λ h. f;
    guard_law = λ h. inl h;
    exclusive_law = λ h. inr λ j d e. elim (unlocked_or (s j).locks.lease) [
      | inl free ↦ free
      | inr locked ↦ g j d (same_lease_file f j e locked)
    ];
    other_law = inr (
        inr λ j d e x.
          let locked : (s j).locks.lease ≢ unlocked = λ u. cc (x, u) in
          locked (g j d (same_lease_file f j e locked)));
  }
  after-IsLawful try_lease would_block f g = same-IsLawful
  after-IsLawful try_lease lock_failed f g = same-IsLawful
  after-IsLawful share_lease true (has, f) g = record {
    guard_kept = safe.guard_own i;
    lease_kept = λ h. f;
    guard_law = λ h. inl h;
    exclusive_law = λ h. cc;
    other_law = inr (
        inr λ j d e x.
          let locked : (s j).locks.lease ≢ unlocked = λ u. cc (x, u) in
          g j d (same_lease_file f j e locked) x);
  }
  after-IsLawful share_lease false f g = record {
    guard_kept = safe.guard_own i;
    lease_kept = λ h. absurd (h refl);
    guard_law = λ h. inl h;
    exclusive_law = λ h. cc;
    other_law = inl refl;
  }
  after-IsLawful drop_lease a f g = record {
    guard_kept = safe.guard_own i;
    lease_kept = λ h. absurd (h refl);
    guard_law = λ h. inl h;
    exclusive_law = λ h. cc;
    other_law = inl refl;
  }
  after-IsLawful (open_guard path) true (e, u) g = record {
    guard_kept = λ h. cc (u, h);
    lease_kept = safe.lease_own i;
    guard_law = λ h. inl h;
    exclusive_law = λ h. inl h;
    other_law = inr (inl refl);
  }
  after-IsLawful (open_guard path) false f g = same-IsLawful
  after-IsLawful (open_lease path) true (e, u) g = record {
    guard_kept = safe.guard_own i;
    lease_kept = λ h. absurd (h u);
    guard_law = λ h. inl h;
    exclusive_law = λ h. inl h;
    other_law = inr (inl refl);
  }
  after-IsLawful (open_lease path) false f g = same-IsLawful
  after-IsLawful (podman c) a f g = same-IsLawful
  after-IsLawful (net_exists n) a f g = same-IsLawful
  after-IsLawful (read_comm n) a f g = same-IsLawful
  after-IsLawful launch a f g = same-IsLawful
