-- ===== src/Runner/Lease/Healthy.antt =====
-- nix/app/runner.rs: a launch that finds the app's holder alive.
use nix_os_container_podman.Common.{
  ℕ, suc, ◌≡◌, ◌⊎◌, inl, inr, refl, sym, subst, Bool, true, false, List, ◌∷◌, Option, none, some,
  Text, ok, codes, bytes_eq_refl, if◌then◌else◌, ◌==◌, arith,
}
use nix_os_container_podman.StoreCheck.Units.{trim}
use nix_os_container_podman.StoreCheck.Decimal.{parse_u32}
use nix_os_container_podman.Runner.Holder.{
  Call, exists, inspect, start, remove, remove_depend, create, ended, taken, would_block, Op,
  open_guard, lock_guard, open_lease, try_lease, share_lease, podman, net_exists, read_comm, Answer,
  Prog, done, ask, and_then, Task, on_ok, ◌>>=◌, pure, Launch, podman_with, split_whitespace,
  process_is, holder_alive, create_holder, start_holder, throw, not_started,
}
use nix_os_container_podman.Runner.Lease.{
  lease, lock_paths, clean_existing, clean_leftover, join_holder, claimed, claim, acquire_lease,
}

-- Neither removes a container nor makes one.
abbrev pub is_gentle : Op → Bool
is_gentle (podman (remove name)) = false
is_gentle (podman (remove_depend name)) = false
is_gentle (podman (create args)) = false
is_gentle op = true

-- Given the answers, the program ends with a result, and all that it asks is gentle.
pub data Goes (answer : (op : Op) → Answer op) {A : Type 0} : Prog A → A → Type 0 where
  over : {a : A} → Goes answer (done a) a
  next :
      {op : Op} {k : Answer op → Prog A} {a : A}
      → is_gentle op ≡ true
      → Goes answer (k (answer op)) a
      → Goes answer (ask op k) a

-- The app's holder runs, and every lock can be had.
pub record IsHealthy (answer : (op : Op) → Answer op) (r : Launch) (name : Text) : Type 0 where
  pub guard_path : Text
  pub lease_path : Text
  pub has_paths : lock_paths name r.vars ≡ ok (guard_path, lease_path)
  pub guard_opens : answer (open_guard guard_path) ≡ true
  pub guard_locks : answer lock_guard ≡ true
  pub lease_opens : answer (open_lease lease_path) ≡ true
  pub lease_tried : (answer try_lease ≡ taken) ⊎ (answer try_lease ≡ would_block)
  pub lease_shares : answer share_lease ≡ true
  pub there : Text
  pub is_there : answer (podman (exists name)) ≡ ended true there
  pub out : Text
  pub is_inspected : answer (podman (inspect name)) ≡ ended true out
  pub digits : Text
  pub words : List Text
  pub says_running : split_whitespace out ≡ codes "running" ∷ digits ∷ words
  pub pid : ℕ
  pub says_pid : parse_u32 digits ≡ some (suc pid)
  pub has_net : answer (net_exists (suc pid)) ≡ true
  pub comm : Text
  pub is_process :
      (process : Text)
      → r.plan.holder_process ≡ some process
      → (answer (read_comm (suc pid)) ≡ some comm) × (trim comm ≡ process)
  pub started : Text
  pub is_started : answer (podman (start name)) ≡ ended true started

Goes-and_then :
    {answer : (op : Op) → Answer op} {A B : Type 0} {p : Prog A} {f : A → Prog B} {a : A} {b : B}
    → Goes answer p a
    → ((x : A) → x ≡ a → Goes answer (f x) b)
    → Goes answer (and_then p f) b
unfolding and_then
Goes-and_then {a} over g = g a refl
Goes-and_then (next gentle h) g = next gentle (Goes-and_then h g)

next_by :
    {answer : (op : Op) → Answer op} {A : Type 0} {op : Op} {k : Answer op → Prog A} {a : A}
    (v : Answer op)
    → answer op ≡ v
    → is_gentle op ≡ true
    → Goes answer (k v) a
    → Goes answer (ask op k) a
next_by {answer} {k} {a} v e gentle h = next gentle (subst (λ x. Goes answer (k x) a) (sym e) h)

podman_with-Goes :
    {answer : (op : Op) → Answer op} (c : Call) (s : Bool) (out : Text)
    → answer (podman c) ≡ ended s out
    → is_gentle (podman c) ≡ true
    → Goes answer (podman_with c) (ok s)
unfolding podman_with
podman_with-Goes c s out e gentle = next_by (ended s out) e gentle over

module _ {answer : (op : Op) → Answer op} {r : Launch} {name : Text}
    (h : IsHealthy answer r name) where
  process_is-Goes :
      (comm : Option Text)
      → r.plan.holder_process ≡ comm
      → Goes answer (process_is (suc h.pid) comm) (ok true)
  unfolding process_is
  process_is-Goes none e =
      let z : (suc h.pid == 0) ≡ false = ground arith in simp z (next_by true h.has_net refl over)
  process_is-Goes (some process) e =
      let z : (suc h.pid == 0) ≡ false = ground arith in
      let (read, trimmed) = h.is_process process e in
      simp z (
        next_by true h.has_net refl
          (next_by (some h.comm) read refl (simp (trimmed, bytes_eq_refl process) over)))

  holder_alive-Goes : Goes answer (holder_alive r.plan name) (ok true)
  unfolding holder_alive
  holder_alive-Goes = next_by (ended true h.out) h.is_inspected refl (
      simp (h.says_running, bytes_eq_refl (codes "running"), h.says_pid)
        (process_is-Goes r.plan.holder_process refl))

  start_holder-Goes : Goes answer (start_holder r name) (ok tt)
  unfolding start_holder
  start_holder-Goes =
      Goes-and_then {f = on_ok starts} (podman_with-Goes (exists name) true h.there h.is_there refl)
        λ x e. rw e (
          Goes-and_then {p = pure tt} {f = on_ok begins} over λ x e. rw e (
            Goes-and_then {f = on_ok finishes}
              (podman_with-Goes (start name) true h.started h.is_started refl) λ x e. rw e over))
    where
      finishes : Bool → Task (Unit {0})
      finishes started = if started then pure tt else throw not_started

      begins : Unit {0} → Task (Unit {0})
      begins u = podman_with (start name) >>= finishes

      starts : Bool → Task (Unit {0})
      starts there = (if there then pure tt else create_holder r name) >>= begins

  join_holder-Goes : Goes answer (join_holder r name) (ok tt)
  unfolding join_holder
  join_holder-Goes = Goes-and_then start_holder-Goes λ x e.
      rw e (Goes-and_then holder_alive-Goes λ x e. rw e (next_by true h.lease_shares refl over))

  clean_leftover-Goes : Goes answer (clean_leftover r.plan name) (ok tt)
  unfolding clean_leftover
  clean_leftover-Goes =
      Goes-and_then {f = on_ok (clean_existing r.plan name)}
        (podman_with-Goes (exists name) true h.there h.is_there refl)
        λ x e. rw e (Goes-and_then holder_alive-Goes λ x e. rw e over)

  claimed-Goes : Goes answer (ask try_lease (claimed r name)) (ok tt)
  claimed-Goes = elim h.lease_tried [
    | inl e ↦ next_by taken e refl (Goes-and_then clean_leftover-Goes λ x e. rw e join_holder-Goes)
    | inr e ↦ next_by would_block e refl join_holder-Goes
  ]

  claim-Goes : Goes answer (claim r name h.lease_path) (ok (some lease))
  unfolding claim
  claim-Goes = next_by true h.lease_opens refl (Goes-and_then claimed-Goes λ x e. rw e over)

-- If the app's holder runs, as the process that the plan names if it names one, and the locks can be had,
-- another launch having a claim or none, then `acquire_lease` ends with a lease, and on the way removes no
-- container and makes none.
pub acquire_lease-Goes :
    (answer : (op : Op) → Answer op) (r : Launch) (name : Text)
    → r.plan.holder ≡ some name
    → IsHealthy answer r name
    → Goes answer (acquire_lease r) (ok (some lease))
unfolding acquire_lease
acquire_lease-Goes answer r name e h =
    simp (e, h.has_paths)
      (next_by true h.guard_opens refl (
        next_by true h.guard_locks refl
          (Goes-and_then (claim-Goes h) λ x e. rw e (next refl over))))
