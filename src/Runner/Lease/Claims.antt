-- ===== src/Runner/Lease/Claims.antt =====
-- nix/app/runner.rs: which locks a launch has behind `acquire_lease` and behind `release_lease`.
use nix_os_container_podman.Common.{
  ◌≡◌, ◌≢◌, refl, sym, subst, Bool, true, false, Option, none, some, Text, Result, ok, err,
}
use nix_os_container_podman.Runner.Holder.{
  share_lease, try_lease, open_guard, lock_guard, open_lease, Tried, taken, would_block,
  lock_failed, HolderError, Launch,
}
use nix_os_container_podman.Runner.Lease.{
  Lease, lease, lock_paths, close_guard, guarded_by, guarded_in, shared_lock, share_alive,
  join_holder, claimed, keep_claim, claim_in, claim, acquire_at, acquire_for, acquire_lease,
  close_both, remove_last, probe_in, probe_guarded, probe_at, release_at, release_lease, run_with,
  run_entry,
}
use nix_os_container_podman.Runner.Lease.Rules.{
  Mode, unlocked, shared, exclusive, Locks, no_locks, after, Keeps, ended, asked, Keeps-and_then,
}
use nix_os_container_podman.Runner.Lease.Kept.{
  Keeps-bind, holder_alive-Calls, start_holder-Calls, clean_leftover-Calls,
}

-- Behind the claim, and still under the guard: shared with success; with an error, whatever there was.
abbrev Joined : Result HolderError (Unit {0}) → Locks → Type 0
Joined (err e) l = l.guard ≡ true
Joined (ok _) l = (l.guard ≡ true) × (l.lease ≡ shared)

-- What a launch that has a holder has of the lease file, by the result of `acquire_lease`.
abbrev pub IsHeld : Result HolderError (Option Lease) → Mode → Type 0
IsHeld (ok (some lease)) m = m ≡ shared
IsHeld (ok none) m = ⊥
IsHeld (err e) m = m ≡ unlocked

abbrev Claims : Result HolderError (Option Lease) → Locks → Type 0
Claims r l = (l.guard ≡ true) × IsHeld r l.lease

-- Behind `acquire_lease`.
abbrev pub Acquired : Result HolderError (Option Lease) → Locks → Type 0
Acquired r l = (l.guard ≡ false) × IsHeld r l.lease

not_exclusive : (r : Result HolderError (Option Lease)) (m : Mode) → IsHeld r m → m ≢ exclusive
not_exclusive (ok (some lease)) m h x = cc
not_exclusive (ok none) m h x = h
not_exclusive (err e) m h x = cc

-- A launch that is over.
abbrev pub Over : {A : Type 0} → A → Locks → Type 0
Over a l = (l.guard ≡ false) × (l.lease ≡ unlocked)

module _ {own : Text × Text} where
  share_alive-Joined :
      (alive : Bool) {l : Locks}
      → l.guard ≡ true
      → l.lease_file ≡ some own.1
      → Keeps own Joined (share_alive alive) l
  share_alive-Joined false g f = ended g
  share_alive-Joined true {l} g f = asked (g, f) shares
    where
      shares : (a : Bool) → Keeps own Joined (shared_lock a) (after share_lease a l)
      shares true = ended (g, refl)
      shares false = ended g

  join_holder-Joined :
      (r : Launch) (name : Text) {l : Locks}
      → l.guard ≡ true
      → l.lease_file ≡ some own.1
      → Keeps own Joined (join_holder r name) l
  unfolding join_holder
  join_holder-Joined r name g f =
      Keeps-bind (start_holder-Calls g r name) (λ e. g)
        λ u.
          Keeps-bind (holder_alive-Calls r.plan name) (λ e. g) λ alive. share_alive-Joined alive g f

  claimed-Joined :
      (r : Launch) (name : Text) (t : Tried) (l : Locks)
      → l.guard ≡ true
      → l.lease_file ≡ some own.1
      → Keeps own Joined (claimed r name t) (after try_lease t l)
  claimed-Joined r name taken l g f =
      Keeps-bind (clean_leftover-Calls g r.plan name refl) (λ e. g)
        λ u. join_holder-Joined r name g f
  claimed-Joined r name would_block l g f = join_holder-Joined r name g f
  claimed-Joined r name lock_failed l g f = ended g

  claim-Claims :
      (r : Launch) (name : Text) {l : Locks}
      → l.guard ≡ true
      → l.lease ≡ unlocked
      → Keeps own Claims (claim r name own.1) l
  unfolding claim
  claim-Claims r name {l} g u = asked (refl, u) opened
    where
      kept :
          (q : Result HolderError (Unit {0})) (l' : Locks)
          → Joined q l'
          → Keeps own Claims (keep_claim q) l'
      kept (err e) l' j = asked tt λ a. ended (j, refl)
      kept (ok _) l' j = ended j

      opened : (a : Bool) → Keeps own Claims (claim_in r name a) (after (open_lease own.1) a l)
      opened false = ended (g, u)
      opened true =
          Keeps-and_then
            (asked (g, u, refl)
              λ t. claimed-Joined r name t (record l { lease_file = some own.1 }) g refl)
            kept

  acquire_for-Acquired :
      (r : Launch) (name : Text)
      → ((p : Text × Text) → lock_paths name r.vars ≡ ok p → p ≡ own)
      → Keeps own Acquired (acquire_for r (some name)) no_locks
  acquire_for-Acquired r name its = acquires (lock_paths name r.vars) its
    where
      closes :
          (q : Result HolderError (Option Lease)) (l : Locks)
          → Claims q l
          → Keeps own Acquired (close_guard q) l
      closes q l (g, m) = asked (g, not_exclusive q l.lease m) λ a. ended (refl, m)

      locked :
          (a : Bool)
          → Keeps own Acquired
              (guarded_by (claim r name own.1) a)
              (after lock_guard a (record no_locks { guard_file = some own.0 }))
      locked false = ended (refl, refl)
      locked true = Keeps-and_then (claim-Claims r name refl refl) closes

      opened :
          (a : Bool)
          → Keeps own Acquired
              (guarded_in (claim r name own.1) a)
              (after (open_guard own.0) a no_locks)
      opened false = ended (refl, refl)
      opened true = asked (refl, refl) locked

      acquires :
          (p : Result HolderError (Text × Text))
          → ((q : Text × Text) → p ≡ ok q → q ≡ own)
          → Keeps own Acquired (acquire_at r name p) no_locks
      acquires (err e) its = ended (refl, refl)
      acquires (ok paths) its =
          subst (λ p. Keeps own Acquired (acquire_at r name (ok p)) no_locks) (sym (its paths refl))
            (asked (refl, refl) opened)

  release_at-Over :
      (name : Text) (p : Result HolderError (Text × Text)) {l : Locks}
      → ((q : Text × Text) → p ≡ ok q → q ≡ own)
      → l.guard ≡ false
      → l.lease ≡ unlocked
      → Keeps own Over (release_at name p) l
  release_at-Over name (err e) its g u = ended (g, u)
  release_at-Over name (ok paths) {l} its g u =
      subst (λ p. Keeps own Over (release_at name (ok p)) l) (sym (its paths refl))
        (asked (refl, g) opened)
    where
      closes : {l : Locks} → l.guard ≡ true → Keeps own Over close_both l
      closes g = asked tt λ a. asked (g, λ x. cc) λ b. ended (refl, refl)

      guarded : Locks
      guarded = record l { guard = true; guard_file = some own.0 }

      held : Locks
      held = record guarded { lease_file = some own.1 }

      removes : (t : Tried) → Keeps own Over (remove_last name t) (after try_lease t held)
      removes taken = asked (refl, refl) λ e. closes refl
      removes would_block = closes refl
      removes lock_failed = closes refl

      probes : (a : Bool) → Keeps own Over (probe_in name a) (after (open_lease own.1) a guarded)
      probes false = asked (refl, λ x. cc) λ b. ended (refl, u)
      probes true = asked (refl, u, refl) removes

      locked :
          (a : Bool)
          → Keeps own Over
              (probe_guarded name own.1 a)
              (after lock_guard a (record l { guard_file = some own.0 }))
      locked false = ended (refl, u)
      locked true = asked (refl, u) probes

      opened : (a : Bool) → Keeps own Over (probe_at name own.1 a) (after (open_guard own.0) a l)
      opened false = ended (g, u)
      opened true = asked (g, refl) locked

  release_lease-Over :
      (r : Launch) (name : Text) (held : Lease) {l : Locks}
      → r.plan.holder ≡ some name
      → ((p : Text × Text) → lock_paths name r.vars ≡ ok p → p ≡ own)
      → l.guard ≡ false
      → Keeps own Over (release_lease r held) l
  unfolding release_lease
  release_lease-Over r name held {l} e its g =
      asked tt λ a. simp e (release_at-Over name (lock_paths name r.vars) its g refl)

  -- A launch with a holder, from its start to its end, on its own two files.
  pub run_entry-Over :
      (r : Launch) (name : Text)
      → r.plan.holder ≡ some name
      → ((p : Text × Text) → lock_paths name r.vars ≡ ok p → p ≡ own)
      → Keeps own Over (run_entry r) no_locks
  unfolding run_entry acquire_lease
  run_entry-Over r name e its = simp e (Keeps-and_then (acquire_for-Acquired r name its) runs)
    where
      runs :
          (q : Result HolderError (Option Lease)) (l : Locks)
          → Acquired q l
          → Keeps own Over (run_with r q) l
      runs (err e) l (g, m) = ended (g, m)
      runs (ok none) l (g, m) = absurd m
      runs (ok (some lease)) l (g, m) =
          asked m
            λ code. Keeps-and_then (release_lease-Over r name lease e its g) λ u l' over. ended over
