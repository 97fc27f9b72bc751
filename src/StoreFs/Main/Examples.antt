-- ===== src/StoreFs/Main/Examples.antt =====
-- A mount on a host that grants the capability.
use nix_os_container_podman.Common.{
  ◌≡◌, ◌≤◌, ◌<◌, refl, true, false, [], ◌∷◌, some, none, Text, codes, split, err, any, length,
  strip_prefix, arith,
}
use nix_os_container_podman.Runner.Texts.{lines}
use nix_os_container_podman.StoreCheck.Units.{trim}
use nix_os_container_podman.StoreFs.Realize.{path_of}
use nix_os_container_podman.StoreFs.State.{StoreFs}
use nix_os_container_podman.StoreFs.State.Inodes.{IsKept}
use nix_os_container_podman.StoreFs.Operations.{lookup_request, serve}
use nix_os_container_podman.StoreFs.Operations.Runs.{stay, step}
use nix_os_container_podman.StoreFs.Main.{
  Args, Machine, Mount, mount_of, redirect_root_of, has_cap_sys_admin, main, prepare,
  require_cap_sys_admin, parse_hex, from_str_radix_16, cap_in, no_cap_sys_admin,
}
use nix_os_container_podman.StoreFs.Main.Capability.{hex_of, has_cap_sys_admin-shown}
use nix_os_container_podman.StoreFs.Main.Mounted.{
  is_read_only, is_no_dev, is_no_suid, is_allow_others, main_mounts,
}
use nix_os_container_podman.StoreFs.Examples.{farm}

abbrev status : Text
status = codes "Name:\tfuse\nCapEff:\t0000000000200000\nSeccomp:\t0\n"

has_cap_sys_admin-shown_example : has_cap_sys_admin (some status) ≡ some true
unfolding lines split hex_of strip_prefix
has_cap_sys_admin-shown_example =
    has_cap_sys_admin-shown status (codes "Name:\tfuse" ∷ []) (codes "Seccomp:\t0" ∷ []) 0x200000
      (omega arith) (refl, tt) refl

abbrev args : Args
args = record {
  bind_target = path_of (codes "/farm");
  resolution_root = path_of (codes "/nix/store");
  redirect_root = none;
  allow_other = true;
  nosuid = false;
  mountpoint = path_of (codes "/mnt");
  max_open_files = 16;
}

abbrev machine : Machine
machine = record { status = some status; open_dir = λ p. some farm; mount = λ m. true }

abbrev mount : Mount
mount = mount_of args farm farm

abbrev later : StoreFs
later = (serve mount.dirs (λ es e. false) (lookup_request 1 (codes "x")) mount.filesystem).1

refused :
    main (record machine { status = some (codes "CapEff:\t0000000000100000\n") }) args
    ≡ err no_cap_sys_admin
unfolding main prepare require_cap_sys_admin has_cap_sys_admin cap_in lines split trim
    from_str_radix_16 parse_hex strip_prefix
refused = refl

main_mounts_example :
    (has_cap_sys_admin machine.status ≡ some true)
    × (machine.open_dir args.bind_target ≡ some mount.dirs.bind_dir)
    × (machine.open_dir (redirect_root_of args) ≡ some mount.dirs.redirect_dir)
    × ((any is_read_only mount.options ≡ true)
        × (any is_no_dev mount.options ≡ true)
        × (any is_no_suid mount.options ≡ args.nosuid)
        × (any is_allow_others mount.options ≡ args.allow_other))
    × (0 < args.max_open_files)
    × (length later.backing_by_handle ≤ args.max_open_files)
    × IsKept later
unfolding main prepare require_cap_sys_admin has_cap_sys_admin cap_in lines split trim
    from_str_radix_16 parse_hex strip_prefix
main_mounts_example =
    main_mounts machine args mount later refl
      (step mount.dirs (λ es e. false) (lookup_request 1 (codes "x")) stay)
