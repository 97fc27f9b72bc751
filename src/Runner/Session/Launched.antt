-- ===== src/Runner/Session/Launched.antt =====
-- nix/app/runner.rs: the steps of `launch`.
use nix_os_container_podman.Common.{
  ℕ, refl, Bool, true, false, List, ◌++◌, Option, none, some, Text, ok, if◌then◌else◌,
}
use nix_os_container_podman.Runner.Template.{Vars}
use nix_os_container_podman.Runner.Mounts.{resolve}
use nix_os_container_podman.Runner.Plan.{Plan}
use nix_os_container_podman.Runner.Launch.{value, launch_args}
use nix_os_container_podman.Runner.Session.{
  supervised, execed, replaced, World, throw, note, run_error, Proxied, start_podman, slice,
  podman_on, code_or, cannot_exec, start_dbus_proxy, launch_entry, with_proxy, launch,
}
use nix_os_container_podman.Runner.Session.Steps.{off, up, Held, held, supervises, execs}
use nix_os_container_podman.Runner.Session.Bus.{
  Ends, Keeps, Ends->>=, Keeps->>=, Keeps-run_error, Keeps-note, dropping-Ends, proxied,
  start_dbus_proxy-Ends,
}

module _ (start : Held) (l : Bool) where
  -- podman as a child, whatever is held.
  supervise-Keeps :
      (h : Held) (w : World) (args : List Text) → Keeps start l h (start_podman w true args)
  supervise-Keeps h w args =
      Keeps->>= start l (note (supervised args)) (λ u. code_or (w.supervise args)) h
        (Keeps-note start l h (supervised args) (supervises args))
        (λ u. code_or-Keeps (w.supervise args))
    where
      code_or-Keeps : (o : Option ℕ) → Keeps start l h (code_or o)
      code_or-Keeps none = λ log r. (r, tt)
      code_or-Keeps (some code) = λ log r. (r, tt)

  slice-Keeps : (h : Held) (o : Option (List Text)) → Keeps start l h (slice o)
  slice-Keeps h none log r = (r, tt)
  slice-Keeps h (some args) log r = (r, tt)

  launch_entry-Keeps :
      (h : Held) (w : World) (plan : Plan) (vars : Vars) (user_args : List Text) (must_wait : Bool)
      → ((args : List Text) → Keeps start l h (start_podman w must_wait args))
      → Keeps start l h (launch_entry w plan vars user_args must_wait)
  unfolding launch_entry
  launch_entry-Keeps h w plan vars user_args must_wait start_it =
      Keeps->>= start l (run_error (value (resolve w.fs plan.run_argv plan.providers vars)))
        (podman_on w plan user_args must_wait) h
        (Keeps-run_error start l h (value (resolve w.fs plan.run_argv plan.providers vars)))
        (λ argv.
          Keeps->>= start l (slice (launch_args plan w.is_terminal argv user_args))
            (λ args. start_podman w must_wait (plan.podman_args ++ args)) h
            (slice-Keeps h (launch_args plan w.is_terminal argv user_args))
            (λ args. start_it (plan.podman_args ++ args)))

-- A process without a proxy: with a claim podman is a child, and without one it takes its place.
start_podman-Keeps :
    (start : Held) (l : Bool) (w : World) (args : List Text)
    → Keeps start l (held off l) (start_podman w l args)
start_podman-Keeps start true w args = supervise-Keeps start true (held off true) w args
start_podman-Keeps start false w args =
    Keeps->>= start false {B = ℕ} (note (execed args))
      (λ u. throw (if w.exec args then replaced else cannot_exec)) (held off false)
      (Keeps-note start false (held off false) (execed args) (execs args)) (λ u. stop (w.exec args))
  where
    stop :
        (b : Bool)
        → Keeps start false (held off false) (throw {A = ℕ} (if b then replaced else cannot_exec))
    stop true = λ log r. (r, tt)
    stop false = λ log r. (r, tt)

module _ (start : Held) (l : Bool) (w : World) (plan : Plan) (user_args : List Text) where
  with_proxy-Ends :
      (p : Proxied)
      → Ends start l (proxied start l (ok p)) (λ x. held off l) (with_proxy w plan user_args l p)
  with_proxy-Ends (none, vars) =
      launch_entry-Keeps start l (held off l) w plan vars user_args l (start_podman-Keeps start l w)
  with_proxy-Ends (some socket, vars) =
      dropping-Ends start l socket (launch_entry w plan vars user_args true) (
        launch_entry-Keeps start l (held (up socket) l) w plan vars user_args true
          (supervise-Keeps start l (held (up socket) l) w))

  pub launch-Ends : (vars : Vars) → Keeps start l (held off l) (launch w plan vars user_args l)
  unfolding launch
  launch-Ends vars =
      Ends->>= start l (start_dbus_proxy w plan vars) (with_proxy w plan user_args l) (held off l)
        (proxied start l) (λ x. held off l) (start_dbus_proxy-Ends start l w plan vars)
        with_proxy-Ends (λ e. refl)
