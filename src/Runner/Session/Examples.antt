-- ===== src/Runner/Session/Examples.antt =====
-- nix/app/runner.rs: runs of an entry behind a D-Bus proxy, and of one without a command.
use nix_os_container_podman.Common.{
  zero, suc, ◌≡◌, refl, true, false, [], ◌∷◌, none, some, codes, bytes_eq, split, ok, err,
}
use nix_os_container_podman.Runner.Mounts.{lit, splice}
use nix_os_container_podman.Runner.Plan.{Plan, Dbus, default_plan}
use nix_os_container_podman.Runner.Launch.Examples.{host, text, vars}
use nix_os_container_podman.Runner.Session.{
  claimed, made_dir, removed_file, spawned_proxy, killed_proxy, waited_proxy, supervised, panicked,
  World, parent, wait_socket, await_proxy, start_proxy, clear_socket, connect_at, connect_bus,
  start_dbus_proxy, launch_entry, launch, run_leased, run,
}
use nix_os_container_podman.Runner.Session.Tidy.{IsTidy, run-IsTidy}

-- A host on which everything goes well; the proxy's socket is there at the second look.
abbrev world : World
world = record {
  host = host;
  fs = record { metadata = λ path. none; read_dir = λ path. none };
  read_plan = λ path. some text;
  spawn = λ program args. true;
  comes_up = λ i. elim i [ zero ↦ false | suc n ↦ true ];
  is_terminal = false;
  exec = λ args. true;
  supervise = λ args. some 3;
  acquire = λ plan vars. ok true;
}

abbrev bus : Dbus
bus = record {
  proxy = codes "/bin/proxy";
  upstream = codes "/run/bus";
  socket = codes "/tmp/app/bus";
  args = [];
}

abbrev bus_plan : Plan
bus_plan = record default_plan {
  dbus = some bus;
  podman_args = codes "--log" ∷ [];
  run_argv = lit (codes "podman") ∷ lit (codes "run") ∷ [];
}

parents :
    (parent (codes "/a//b/./") ≡ some (codes "/a"))
    × (parent (codes "/a") ≡ some (codes "/"))
    × (parent (codes "a") ≡ some [])
    × (parent (codes "/.") ≡ none)
unfolding parent split bytes_eq
parents = (refl, refl, refl, refl)

launched : launch world bus_plan vars (codes "x" ∷ []) false [] ≡ (
  ok 3,
  made_dir (codes "/tmp/app")
      ∷ removed_file (codes "/tmp/app/bus")
      ∷ spawned_proxy
          (codes "/tmp/app/bus")
          (codes "/bin/proxy")
          (codes "unix:path=/run/bus" ∷ codes "/tmp/app/bus" ∷ codes "--fd=0" ∷ [])
      ∷ supervised (codes "--log" ∷ codes "run" ∷ codes "x" ∷ [])
      ∷ killed_proxy
      ∷ waited_proxy
      ∷ removed_file (codes "/tmp/app/bus")
      ∷ [],
)
unfolding launch start_dbus_proxy connect_bus connect_at clear_socket start_proxy await_proxy
    wait_socket launch_entry
launched = refl

-- A command of splices only that find nothing: the slice panics, and the claim is not given back.
panics_with_claim :
    run_leased world
      (record default_plan { providers = (codes "p", []) ∷ []; run_argv = splice (codes "p") ∷ [] })
      vars
      []
      true
      (claimed ∷ [])
    ≡ (err panicked, claimed ∷ [])
unfolding run_leased launch start_dbus_proxy launch_entry
panics_with_claim = refl

run-IsTidy_example : IsTidy (run world (codes "/plans") (codes "x" ∷ []) [])
run-IsTidy_example = run-IsTidy world (codes "x" ∷ []) (codes "/plans")
