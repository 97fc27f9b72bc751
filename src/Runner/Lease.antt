-- ===== src/Runner/Lease.antt =====
-- nix/app/runner.rs: the lease on the network holder. A `File` that goes out of scope is closed, which
-- releases its lock; the drops are written out, in Rust's order.
pub mod Rules
pub mod Kept
pub mod Claims
pub mod Launches
pub mod Lawful
pub mod Invariant
pub mod Safe
pub mod Healthy
pub mod Examples
use nix_os_container_podman.Common.{
  ℕ, Bool, true, false, not, List, [], ◌∷◌, ◌++◌, Option, none, some, Text, codes, if◌then◌else◌,
  Result, ok, err,
}
use nix_os_container_podman.Runner.Template.{get, Vars}
use nix_os_container_podman.Runner.Plan.{Plan}
use nix_os_container_podman.Runner.Holder.{
  remove, remove_depend, exists, taken, would_block, lock_failed, Tried, open_guard, lock_guard,
  drop_guard, open_lease, try_lease, share_lease, drop_lease, podman, launch, Prog, done, ask,
  and_then, HolderError, no_runtime_directory, cannot_open, guard_stuck, cannot_lock, not_running,
  Task, ◌>>=◌, ◌>>◌, pure, throw, Launch, podman_with, holder_alive, start_holder,
}

pub data Lease : Type 0 where
  lease : Lease

-- The guard's path and the lease's.
unfoldable pub lock_paths : Text → Vars → Result HolderError (Text × Text)
unfolding get
lock_paths holder vars = elim (get vars (codes "xdg_runtime_dir")) [
  | none ↦ err no_runtime_directory
  | some runtime ↦ ok (
    runtime ++ (b'/' ∷ (holder ++ codes ".guard")),
    runtime ++ (b'/' ∷ (holder ++ codes ".lease")),
  )
]

abbrev pub close_guard : {A : Type 0} → A → Prog A
close_guard a = ask drop_guard (λ _. done a)

-- The guard is locked from its opening to the end of the caller.
abbrev pub guarded_by : {A : Type 0} → Task A → Bool → Task A
guarded_by body false = throw guard_stuck
guarded_by body true = and_then body close_guard

abbrev pub guarded_in : {A : Type 0} → Task A → Bool → Task A
guarded_in body false = throw cannot_open
guarded_in body true = ask lock_guard (guarded_by body)

-- A leftover that is not alive goes, whatever `rm` says.
abbrev pub replace_dead : Text → Bool → Task (Unit {0})
replace_dead name true = pure tt
replace_dead name false = ask (podman (remove_depend name)) (λ _. pure tt)

abbrev pub clean_existing : Plan → Text → Bool → Task (Unit {0})
clean_existing plan name false = pure tt
clean_existing plan name true = do alive ← holder_alive plan name; replace_dead name alive

unfoldable pub clean_leftover : Plan → Text → Task (Unit {0})
unfolding holder_alive podman_with and_then
clean_leftover plan name = do there ← podman_with (exists name); clean_existing plan name there

abbrev pub shared_lock : Bool → Task (Unit {0})
shared_lock true = pure tt
shared_lock false = throw cannot_lock

-- The exclusive lock becomes a shared one, if the holder is alive.
abbrev pub share_alive : Bool → Task (Unit {0})
share_alive false = throw not_running
share_alive true = ask share_lease shared_lock

unfoldable pub join_holder : Launch → Text → Task (Unit {0})
unfolding start_holder holder_alive and_then
join_holder l name = do start_holder l name; alive ← holder_alive l.plan name; share_alive alive

abbrev pub claimed : Launch → Text → Tried → Task (Unit {0})
claimed l name taken = do clean_leftover l.plan name; join_holder l name
claimed l name would_block = join_holder l name
claimed l name lock_failed = throw cannot_lock

-- An error drops the claim, a success keeps it.
abbrev pub keep_claim : Result HolderError (Unit {0}) → Task (Option Lease)
keep_claim (err e) = ask drop_lease (λ _. throw e)
keep_claim (ok _) = pure (some lease)

abbrev pub claim_in : Launch → Text → Bool → Task (Option Lease)
claim_in l name false = throw cannot_open
claim_in l name true = and_then (ask try_lease (claimed l name)) keep_claim

unfoldable pub claim : Launch → Text → Text → Task (Option Lease)
unfolding clean_leftover join_holder and_then
claim l name lease_path = ask (open_lease lease_path) (claim_in l name)

abbrev pub acquire_at : Launch → Text → Result HolderError (Text × Text) → Task (Option Lease)
acquire_at l name (err e) = throw e
acquire_at l name (ok (guard_path, lease_path)) =
    ask (open_guard guard_path) (guarded_in (claim l name lease_path))

abbrev pub acquire_for : Launch → Option Text → Task (Option Lease)
acquire_for l none = pure none
acquire_for l (some name) = acquire_at l name (lock_paths name l.vars)

unfoldable pub acquire_lease : Launch → Task (Option Lease)
unfolding claim lock_paths and_then
acquire_lease l = acquire_for l l.plan.holder

-- The end of `release_lease`: the probe is closed, then the guard.
abbrev pub close_both : Prog (Unit {0})
close_both = ask drop_lease (λ _. close_guard tt)

abbrev pub remove_last : Text → Tried → Prog (Unit {0})
remove_last name taken = ask (podman (remove name)) (λ _. close_both)
remove_last name would_block = close_both
remove_last name lock_failed = close_both

abbrev pub probe_in : Text → Bool → Prog (Unit {0})
probe_in name false = close_guard tt
probe_in name true = ask try_lease (remove_last name)

abbrev pub probe_guarded : Text → Text → Bool → Prog (Unit {0})
probe_guarded name lease_path false = done tt
probe_guarded name lease_path true = ask (open_lease lease_path) (probe_in name)

abbrev pub probe_at : Text → Text → Bool → Prog (Unit {0})
probe_at name lease_path false = done tt
probe_at name lease_path true = ask lock_guard (probe_guarded name lease_path)

abbrev pub release_at : Text → Result HolderError (Text × Text) → Prog (Unit {0})
release_at name (err e) = done tt
release_at name (ok (guard_path, lease_path)) =
    ask (open_guard guard_path) (probe_at name lease_path)

abbrev pub release_for : Launch → Option Text → Prog (Unit {0})
release_for l none = done tt
release_for l (some name) = release_at name (lock_paths name l.vars)

unfoldable pub release_lease : Launch → Lease → Prog (Unit {0})
unfolding lock_paths
release_lease l held = ask drop_lease (λ _. release_for l l.plan.holder)

-- `run` from `acquire_lease` on: the exit status of the entry, if it was started.
abbrev pub run_with : Launch → Result HolderError (Option Lease) → Prog (Option ℕ)
run_with l (err e) = done none
run_with l (ok none) = ask launch done
run_with l (ok (some held)) = ask launch (λ code. and_then (release_lease l held) (λ _. done code))

unfoldable pub run_entry : Launch → Prog (Option ℕ)
unfolding acquire_lease release_lease and_then
run_entry l = and_then (acquire_lease l) (run_with l)
