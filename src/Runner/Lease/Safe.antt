-- ===== src/Runner/Lease/Safe.antt =====
-- nix/app/runner.rs: no launch takes the holder from under another.
use nix_os_container_podman.Common.{
  ℕ, ◌≡◌, ◌≢◌, inl, inr, refl, sym, ap, subst, ◌∙◌, true, false, [], ◌∷◌, ◌++◌, Option, some, Text,
  codes, Result, ok, err, Bool-cases,
}
use nix_os_container_podman.Runner.Holder.{Prog, done, HolderError, Launch}
use nix_os_container_podman.Runner.Template.{get}
use nix_os_container_podman.Runner.Lease.{lock_paths}
use nix_os_container_podman.Runner.Lease.Rules.{
  unlocked, shared, exclusive, Locks, Keeps, ended, asked,
}
use nix_os_container_podman.Runner.Lease.Claims.{Over}
use nix_os_container_podman.Runner.Lease.Launches.{
  System, Reaches, IsAt, at_op, IsRemoval, of_dead, of_last, IsChange, removal, creation, starting,
  IsLaunch, launching, Removes, Changes, Runs,
}
use nix_os_container_podman.Runner.Lease.Lawful.{IsSafe}
use nix_os_container_podman.Runner.Lease.Invariant.{Reaches-IsSafe}

removal_of :
    {own : Text × Text} {p : Prog (Option ℕ)} {l : Locks}
    → IsAt IsRemoval p
    → Keeps own Over p l
    → (l.guard ≡ true) × (l.lease ≡ exclusive)
removal_of (at_op (of_dead name)) (asked h rest) = h
removal_of (at_op (of_last name)) (asked h rest) = h

change_of :
    {own : Text × Text} {p : Prog (Option ℕ)} {l : Locks}
    → IsAt IsChange p
    → Keeps own Over p l
    → l.guard ≡ true
change_of (at_op (removal r)) h = (removal_of (at_op r) h).0
change_of (at_op (creation args)) (asked h rest) = h
change_of (at_op (starting name)) (asked h rest) = h

launch_of :
    {own : Text × Text} {p : Prog (Option ℕ)} {l : Locks}
    → IsAt IsLaunch p
    → Keeps own Over p l
    → l.lease ≡ shared
launch_of (at_op launching) (asked h rest) = h

Over-of :
    {own : Text × Text} {code : Option ℕ} {l : Locks}
    → Keeps own Over (done code) l
    → (l.guard ≡ false) × (l.lease ≡ unlocked)
Over-of (ended h) = h

-- Where an app's two lock files lie in a runtime directory.
abbrev pub guard_path : Text → Text → Text
guard_path runtime name = runtime ++ (b'/' ∷ (name ++ codes ".guard"))

abbrev pub lease_path : Text → Text → Text
lease_path runtime name = runtime ++ (b'/' ∷ (name ++ codes ".lease"))

abbrev files : Result HolderError (Text × Text) → Text × Text
files (err e) = ([], [])
files (ok p) = p

files_lem :
    (r : Launch) (name runtime : Text)
    → get r.vars (codes "xdg_runtime_dir") ≡ some runtime
    → files (lock_paths name r.vars) ≡ (guard_path runtime name, lease_path runtime name)
unfolding lock_paths
files_lem r name runtime e = rw (e, lock_paths) refl

module _ (launches : ℕ → Launch) (names : ℕ → Text) (s : System)
    (holders : (i : ℕ) → (launches i).plan.holder ≡ some (names i))
    (reached : Reaches launches s) where
  abbrev own : ℕ → Text × Text
  own i = files (lock_paths (names i) (launches i).vars)

  safe : IsSafe own s
  safe = Reaches-IsSafe own launches names holders (λ i p e. sym (ap files e)) reached

  module _ (i j : ℕ) (d : j ≢ i) (name runtime : Text) (name_i : names i ≡ name)
      (name_j : names j ≡ name)
      (dir_i : get (launches i).vars (codes "xdg_runtime_dir") ≡ some runtime)
      (dir_j : get (launches j).vars (codes "xdg_runtime_dir") ≡ some runtime) where
    paths : Text × Text
    paths = (guard_path runtime name, lease_path runtime name)

    own_i : own i ≡ paths
    unfolding paths
    own_i = files_lem (launches i) (names i) runtime dir_i ∙ (rw name_i refl)

    own_j : own j ≡ paths
    unfolding paths
    own_j = files_lem (launches j) (names j) runtime dir_j ∙ (rw name_j refl)

    -- Of any number of launches, of one app or of several, in any order of their steps, with any answers of
    -- podman and kills at any time: while one that has not been killed is about to remove its holder, it has
    -- locked the guard and, exclusively, the lease file of the holder's name in its runtime directory, and no
    -- other launch with a holder of that name and that runtime directory has the guard or a lock on the
    -- lease file, or runs its entry. Launches that differ in the runtime directory do not exclude each
    -- other, and what podman does for a launch that is killed is not counted.
    pub removal_safe :
        Removes (s i)
        → ((s i).locks.guard_file ≡ some (guard_path runtime name))
          × ((s i).locks.lease_file ≡ some (lease_path runtime name))
          × ((s i).locks.guard ≡ true)
          × ((s i).locks.lease ≡ exclusive)
          × ((s j).locks.guard ≡ false)
          × ((s j).locks.lease ≡ unlocked)
          × (¬ Runs (s j))
    unfolding paths
    removal_safe r = (
      safe.guard_own i has.0 ∙ ap (λ p. some p.0) own_i,
      safe.lease_own i (λ u. cc (has.1, u)) ∙ ap (λ p. some p.1) own_i,
      has.0,
      has.1,
      unguarded,
      free,
      λ runs. apart (launch_of runs (safe.keeps j)),
    )
      where
        has : ((s i).locks.guard ≡ true) × ((s i).locks.lease ≡ exclusive)
        has = removal_of r (safe.keeps i)

        free : (s j).locks.lease ≡ unlocked
        free = safe.alone i j (ap (λ p. p.1) (own_i ∙ sym own_j)) has.1 d

        apart : (s j).locks.lease ≢ shared
        apart h = let e : unlocked ≡ shared = sym free ∙ h in cc

        unguarded : (s j).locks.guard ≡ false
        unguarded = elim (Bool-cases (s j).locks.guard) [
          | inl h ↦ absurd (d (safe.one_guard j i (ap (λ p. p.0) (own_j ∙ sym own_i)) h has.0))
          | inr h ↦ h
        ]

    -- Of any number of launches, in any order of their steps, with any answers of podman and kills at any
    -- time: two that have not been killed, with a holder of the same name and the same runtime directory,
    -- are never about to remove, make or start the holder at once, and the one that is has locked the guard
    -- of that name in that directory. What podman does for a launch that is killed is not counted.
    pub one_at_once :
        Changes (s i)
        → ((s i).locks.guard ≡ true)
          × ((s i).locks.guard_file ≡ some (guard_path runtime name))
          × (¬ Changes (s j))
    unfolding paths
    one_at_once c =
        let has = change_of c (safe.keeps i) in
        (
          has,
          safe.guard_own i has ∙ ap (λ p. some p.0) own_i,
          λ e. d (
              safe.one_guard j i (ap (λ p. p.0) (own_j ∙ sym own_i)) (change_of e (safe.keeps j))
                has),
        )

  -- A launch that is over, in whatever way, has no lock left, so it keeps no other from the holder.
  pub over_unlocked :
      (i : ℕ) (code : Option ℕ)
      → (s i).prog ≡ done code
      → ((s i).locks.guard ≡ false) × ((s i).locks.lease ≡ unlocked)
  over_unlocked i code e = Over-of (subst (λ p. Keeps (own i) Over p (s i).locks) e (safe.keeps i))
