-- ===== src/Runner/Lease/Examples.antt =====
-- nix/app/runner.rs: launches of one app on concrete answers.
use nix_os_container_podman.Common.{
  ℕ, zero, suc, ◌≡◌, ◌≢◌, refl, ap, true, false, [], ◌∷◌, none, some, Text, codes, bytes_eq, ◌==◌,
  arith,
}
use nix_os_container_podman.Runner.Template.{get}
use nix_os_container_podman.Runner.Mounts.{FileSystem}
use nix_os_container_podman.Runner.Plan.{default_plan}
use nix_os_container_podman.Runner.Holder.{
  Call, inspect, taken, ended, Op, open_guard, lock_guard, drop_guard, open_lease, try_lease,
  share_lease, drop_lease, podman, net_exists, read_comm, launch, exists, Answer, done, ask,
  and_then, Launch, podman_with, holder_alive, Ended,
}
use nix_os_container_podman.Runner.Lease.{
  lock_paths, acquire_lease, claim, clean_leftover, run_entry,
}
use nix_os_container_podman.Runner.Lease.Rules.{unlocked, exclusive, no_locks, after}
use nix_os_container_podman.Runner.Lease.Launches.{
  Process, System, update, answered, Reaches, begins, goes, at_op, of_dead, removal, Removes,
  Changes, Runs,
}
use nix_os_container_podman.Runner.Lease.Safe.{guard_path, lease_path, removal_safe, one_at_once}
use nix_os_container_podman.Common.{inl, ok}
use nix_os_container_podman.StoreCheck.Decimal.{parse_u32, parse_unsigned, parse_digits}
use nix_os_container_podman.Runner.Holder.{split_whitespace, white_pieces}
use nix_os_container_podman.Runner.Lease.{lease}
use nix_os_container_podman.Runner.Lease.Healthy.{IsHealthy, Goes, acquire_lease-Goes}

abbrev holder_name : Text
holder_name = codes "h"

abbrev no_files : FileSystem
no_files = record { metadata = λ path. none; read_dir = λ dir. none }

abbrev app : Launch
app = record {
  plan = record default_plan { holder = some holder_name };
  vars = (codes "xdg_runtime_dir", codes "/run/user/1000") ∷ [];
  fs = no_files;
}

-- Every lock is free, and podman knows a holder that it cannot inspect.
abbrev call_answer : Call → Ended
call_answer (inspect name) = ended false []
call_answer call = ended true []

abbrev answer : (op : Op) → Answer op
answer drop_guard = tt
answer drop_lease = tt
answer try_lease = taken
answer (podman call) = call_answer call
answer (read_comm pid) = none
answer launch = none
answer (open_guard path) = true
answer lock_guard = true
answer (open_lease path) = true
answer share_lease = true
answer (net_exists pid) = false

abbrev step : Process → Process
step p = elim p.prog [
  | done code ↦ p
  | ask op k ↦ record { prog = k (answer op); locks = after op (answer op) p.locks }
]

abbrev apps : ℕ → Launch
apps i = app

abbrev system : ℕ → System
system zero i = record { prog = run_entry (apps i); locks = no_locks }
system (suc n) i = update (system n) 0 (step (system n 0)) i

others : (n j : ℕ) → j ≢ 0 → system n j ≡ system 0 j
others zero j d = refl
others (suc n) j d = let e : (0 == j) ≡ false = ground (arith, d) in simp e (others n j d)

-- The first launch finds a holder that is not alive.
dead_found : Reaches apps (system 6)
unfolding run_entry acquire_lease claim clean_leftover podman_with holder_alive lock_paths and_then
    get bytes_eq
dead_found =
    goes
      (goes
        (goes
          (goes
            (goes
              (goes begins
                (answered 0 (open_guard (codes "/run/user/1000/h.guard")) _ true refl tt))
              (answered 0 lock_guard _ true refl (λ j d e. ap (λ p. p.locks.guard) (others 1 j d))))
            (answered 0 (open_lease (codes "/run/user/1000/h.lease")) _ true refl tt))
          (answered 0 try_lease _ taken refl (λ j d e. ap (λ p. p.locks.lease) (others 3 j d))))
        (answered 0 (podman (exists holder_name)) _ (ended true []) refl tt))
      (answered 0 (podman (inspect holder_name)) _ (ended false []) refl tt)

dead_goes : Removes (system 6 0)
unfolding run_entry acquire_lease claim clean_leftover podman_with holder_alive lock_paths and_then
    get bytes_eq
dead_goes = at_op (of_dead holder_name)

dead_gone : Changes (system 6 0)
unfolding run_entry acquire_lease claim clean_leftover podman_with holder_alive lock_paths and_then
    get bytes_eq
dead_gone = at_op (removal (of_dead holder_name))

one_zero : ◌≢◌ {A = ℕ} 1 0
one_zero h = absurd (omega arith)

abbrev run_dir : Text
run_dir = codes "/run/user/1000"

app_dir : get app.vars (codes "xdg_runtime_dir") ≡ some run_dir
unfolding get bytes_eq
app_dir = refl

removal_safe_example :
    ((system 6 0).locks.guard_file ≡ some (guard_path run_dir holder_name))
    × ((system 6 0).locks.lease_file ≡ some (lease_path run_dir holder_name))
    × ((system 6 0).locks.guard ≡ true)
    × ((system 6 0).locks.lease ≡ exclusive)
    × ((system 6 1).locks.guard ≡ false)
    × ((system 6 1).locks.lease ≡ unlocked)
    × (¬ Runs (system 6 1))
removal_safe_example =
    removal_safe apps (λ i. holder_name) (system 6) (λ i. refl) dead_found 0 1 one_zero holder_name
      run_dir refl refl app_dir app_dir dead_goes

one_at_once_example :
    ((system 6 0).locks.guard ≡ true)
    × ((system 6 0).locks.guard_file ≡ some (guard_path run_dir holder_name))
    × (¬ Changes (system 6 1))
one_at_once_example =
    one_at_once apps (λ i. holder_name) (system 6) (λ i. refl) dead_found 0 1 one_zero holder_name
      run_dir refl refl app_dir app_dir dead_gone

-- Every lock is free, and the holder runs as process 9.
abbrev alive_answer : Call → Ended
alive_answer (inspect name) = ended true (codes "running 9")
alive_answer call = ended true []

abbrev healthy_answer : (op : Op) → Answer op
healthy_answer (podman call) = alive_answer call
healthy_answer (net_exists pid) = true
healthy_answer op = answer op

app_healthy : IsHealthy healthy_answer app holder_name
unfolding lock_paths get bytes_eq split_whitespace white_pieces parse_u32 parse_unsigned
    parse_digits
app_healthy = record {
  guard_path = codes "/run/user/1000/h.guard";
  lease_path = codes "/run/user/1000/h.lease";
  has_paths = refl;
  guard_opens = refl;
  guard_locks = refl;
  lease_opens = refl;
  lease_tried = inl refl;
  lease_shares = refl;
  there = [];
  is_there = refl;
  out = codes "running 9";
  is_inspected = refl;
  digits = codes "9";
  words = [];
  says_running = refl;
  pid = 8;
  says_pid = refl;
  has_net = refl;
  comm = [];
  is_process = λ process e. cc;
  started = [];
  is_started = refl;
}

acquire_lease-Goes_example : Goes healthy_answer (acquire_lease app) (ok (some lease))
acquire_lease-Goes_example = acquire_lease-Goes healthy_answer app holder_name refl app_healthy
