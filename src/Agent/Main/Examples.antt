-- ===== src/Agent/Main/Examples.antt =====
-- ssh-agent-filter/src/main.rs: starts under two umasks.
use nix_os_container_podman.Common.{ℕ, ◌≡◌, refl, false, true, List, [], ◌∷◌, All}
use nix_os_container_podman.Agent.Main.{
  Start, group, other, step, connect, main, Event, main_from, advance_from, connect_in,
}
use nix_os_container_podman.Agent.Main.Admitted.{IsAdmitted, main_admits}

abbrev start_with : ℕ → Start
start_with umask = record {
  allow = [];
  deny = [];
  exists = false;
  can_remove = true;
  can_bind = true;
  can_restrict = true;
  umask = umask;
}

abbrev early : List Event
early = step ∷ step ∷ step ∷ connect other ∷ step ∷ []

-- The usual umask leaves no one a window.
refused : (main (start_with 0o022) early).connections ≡ []
unfolding main main_from advance_from connect_in
refused = refl

main_admits_example :
    All
      (IsAdmitted (start_with 0o002))
      (main
        (start_with 0o002)
        (step ∷ step ∷ step ∷ connect group ∷ step ∷ connect group ∷ [])).connections
main_admits_example =
    main_admits (start_with 0o002) (step ∷ step ∷ step ∷ connect group ∷ step ∷ connect group ∷ [])
