-- ===== src/Runner/Session/Tidy.antt =====
-- nix/app/runner.rs: what a run starts it also ends.
use nix_os_container_podman.Common.{
  ℕ, Bool, true, false, List, [], ◌∷◌, Text, Result, ok, err, Result-cases, Option-cases, inl, inr,
}
use nix_os_container_podman.Runner.Template.{Vars}
use nix_os_container_podman.Runner.Plan.{Plan}
use nix_os_container_podman.Runner.Launch.{prepare, plan_file}
use nix_os_container_podman.Runner.Session.{
  Step, claimed, released, Stop, panicked, replaced, World, cannot_exec, failed, holder_failed,
  no_plan, cannot_run_proxy, cannot_run, run_prepared, run_plan, launch, release_after, run_leased,
  run,
}
use nix_os_container_podman.Runner.Session.Steps.{
  off, Held, held, claims, releases, Runs, end, next, Runs-one,
}
use nix_os_container_podman.Runner.Session.Bus.{Stops}
use nix_os_container_podman.Runner.Session.Launched.{launch-Ends}

abbrev pub nothing_held : Held
nothing_held = held off false

-- What is left of a claim: nothing, or the claim itself when the run panicked.
pub data Leaves : Bool → Result Stop ℕ → Type 0 where
  nothing : {r : Result Stop ℕ} → Leaves false r
  a_claim : Leaves true (err panicked)

abbrev pub IsTidy : Result Stop ℕ × List Step → Type 0
IsTidy (r, log) = (left : Bool) × Runs nothing_held log (held off left) × Leaves left r

release_after-IsTidy :
    (l : Bool) (r : Result Stop ℕ) (log : List Step)
    → Runs nothing_held log (held off l)
    → Stops l r
    → IsTidy (release_after l r log)
release_after-IsTidy true (ok code) log q s = (false, Runs-one log released q releases, nothing)
release_after-IsTidy true (err panicked) log q s = (true, q, a_claim)
release_after-IsTidy true (err replaced) log q s = absurd s
release_after-IsTidy true (err (failed e)) log q s =
    (false, Runs-one log released q releases, nothing)
release_after-IsTidy true (err (holder_failed e)) log q s =
    (false, Runs-one log released q releases, nothing)
release_after-IsTidy true (err no_plan) log q s = (false, Runs-one log released q releases, nothing)
release_after-IsTidy true (err cannot_run_proxy) log q s =
    (false, Runs-one log released q releases, nothing)
release_after-IsTidy true (err cannot_exec) log q s =
    (false, Runs-one log released q releases, nothing)
release_after-IsTidy true (err cannot_run) log q s =
    (false, Runs-one log released q releases, nothing)
release_after-IsTidy false (ok code) log q s = (false, q, nothing)
release_after-IsTidy false (err e) log q s = (false, q, nothing)

module _ (w : World) (user_args : List Text) where
  run_leased-IsTidy :
      (plan : Plan) (vars : Vars) (l : Bool) (log : List Step)
      → Runs nothing_held log (held off l)
      → IsTidy (run_leased w plan vars user_args l log)
  unfolding run_leased
  run_leased-IsTidy plan vars l log r =
      let (q, s) = launch-Ends nothing_held l w plan user_args vars log r in
      release_after-IsTidy l (launch w plan vars user_args l log).0
        (launch w plan vars user_args l log).1 q s

  run_prepared-IsTidy : (p : Plan × Vars) → IsTidy (run_prepared w user_args p [])
  run_prepared-IsTidy (plan, vars) = elim (Result-cases (w.acquire plan vars)) [
    | inr (e, refused) ↦ simp refused (false, end, nothing)
    | inl (true, e) ↦ simp e (run_leased-IsTidy plan vars true (claimed ∷ []) (next claims end))
    | inl (false, e) ↦ simp e (run_leased-IsTidy plan vars false [] end)
  ]

  run_plan-IsTidy : (text : Text) → IsTidy (run_plan w user_args text [])
  run_plan-IsTidy text = elim (Result-cases (prepare w.host text)) [
    | inr (e, bad) ↦ simp bad (false, end, nothing)
    | inl (p, e) ↦ simp e (run_prepared-IsTidy p)
  ]

  -- Whatever the host answers, a run takes only steps that are right where it stands, from nothing held
  -- to nothing held: the proxy that it starts it also kills and waits for, and only then removes its
  -- socket; the claim on the holder it gives back; and it becomes podman only if it holds neither. The
  -- one exception is a panic, which leaves the claim, but no proxy.
  pub run-IsTidy : (plan_dir : Text) → IsTidy (run w plan_dir user_args [])
  unfolding run
  run-IsTidy plan_dir = elim (Option-cases (w.read_plan (plan_file plan_dir w.host.uid))) [
    | inl none_there ↦ simp none_there (false, end, nothing)
    | inr (text, e) ↦ simp e (run_plan-IsTidy text)
  ]
