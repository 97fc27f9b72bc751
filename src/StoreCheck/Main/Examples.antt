-- ===== src/StoreCheck/Main/Examples.antt =====
-- Runs of prison-store-check on concrete machines.
use nix_os_container_podman.Common.{
  ◌≡◌, refl, true, List, [], ◌∷◌, ◌++◌, none, some, Bytes, Text, codes, bytes_eq, strip_prefix,
  split, ok, err, arith, if◌then◌else◌,
}
use nix_os_container_podman.StoreCheck.Units.{
  is_unit_name, recheck_unit, timer_stem, trim, check_unit_name,
}
use nix_os_container_podman.StoreCheck.Argv.{bind_target_flag, bind_target, joined_value, cmdline}
use nix_os_container_podman.StoreCheck.Argv.Targets.{nul_terminated}
use nix_os_container_podman.StoreCheck.Decimal.{parse_u32, to_string}
use nix_os_container_podman.StoreCheck.Utf8.{encode, decode}
use nix_os_container_podman.StoreCheck.Check.{
  World, View, absent, started, check, served, stale_units, settle, skip, skip_counted, bump, count,
  file_count, exit_status,
}
use nix_os_container_podman.StoreCheck.Check.Outcomes.{serves_view}
use nix_os_container_podman.StoreCheck.System.{
  Machine, Ran, printed, host_of, recheck_args, run, property, active_state,
}
use nix_os_container_podman.StoreCheck.System.Daemon.{joined, served_by_daemon}
use nix_os_container_podman.StoreCheck.Main.{
  checks, unknown_argument, command_line, read_flags, kind_of, read_last, read_value, push_view,
  job_of, system, perform, main,
}
use nix_os_container_podman.StoreCheck.Main.Rechecked.{Taken, skipped_start_recovers}
use nix_os_container_podman.StoreCheck.Main.Exits.{Exits, main-Exits}

abbrev unit : Text
unit = codes "p-s.service"

abbrev view : View
view = record { unit = codes "v.service"; target = codes "/new" }

abbrev daemon_args : List Bytes
daemon_args = codes "fuse" ∷ (bind_target_flag ++ (b'=' ∷ codes "/old")) ∷ []

abbrev answer : Bytes → Ran
answer wanted =
    if bytes_eq wanted (codes "--property=MainPID")
    then printed (codes "10\n")
    else if bytes_eq wanted (codes "--property=ActiveState")
    then printed (codes "inactive\n")
    else printed []

abbrev output : List Bytes → Ran
output [] = printed []
output (verb ∷ []) = printed []
output (verb ∷ wanted ∷ rest) = answer wanted

-- A machine on which a daemon of pid 10 serves the old store.
abbrev machine : Machine
machine = record {
  output = λ program args. output args;
  read_file = λ path.
      if bytes_eq path (codes "/proc/10/cmdline") then some (nul_terminated daemon_args) else none;
  current_exe = some (codes "/bin/check");
  can_record = λ dir unit. true;
  can_clear = λ dir unit. true;
}

abbrev arguments : List Bytes
arguments =
    codes "--systemctl"
    ∷ codes "/s"
    ∷ codes "--systemd-run"
    ∷ codes "/r"
    ∷ codes "--unit"
    ∷ unit
    ∷ codes "--view"
    ∷ view.unit
    ∷ view.target
    ∷ []

abbrev no_skips : World
no_skips = record { skips = λ unit. absent; commands = [] }

arguments-read :
    command_line arguments
    ≡ ok (checks (codes "/s") (codes "/r") unit (codes "/run/prison-store-check") (view ∷ []))
unfolding command_line read_flags kind_of read_value push_view job_of bytes_eq decode
arguments-read = refl

unknown-read : command_line (codes "--help" ∷ []) ≡ err (unknown_argument (codes "--help"))
unfolding command_line read_flags kind_of read_last bytes_eq
unknown-read = refl

served_by_daemon_example :
    serves_view (host_of machine (system (codes "/s") none) []) view
    ≡ bytes_eq (codes "/old") view.target
unfolding encode bytes_eq joined_value strip_prefix to_string
served_by_daemon_example =
    served_by_daemon machine (system (codes "/s") none) [] view 10 (codes "fuse" ∷ [])
      ((bind_target_flag ++ (b'=' ∷ codes "/old")) ∷ []) (codes "/old") (omega arith) (omega arith)
      refl refl (refl, tt) (refl, tt) (record { separate = refl; joined = refl }, tt) (joined [])

main-Exits_example :
    Exits machine no_skips
      (command_line arguments)
      (main machine arguments no_skips).0
      (main machine arguments no_skips).1
main-Exits_example = main-Exits machine no_skips arguments

skipped_start_recovers_example :
    Taken machine (codes "/s") (codes "/r") unit
    × (main machine (recheck_args (codes "/s") unit) no_skips
        ≡ (0, record no_skips { commands = started unit ∷ [] }))
unfolding main perform command_line read_flags kind_of read_value push_view job_of bytes_eq decode
    encode check served stale_units settle skip skip_counted bump count file_count check_unit_name
    is_unit_name recheck_unit timer_stem strip_prefix bind_target joined_value exit_status host_of
    active_state property run parse_u32 trim cmdline to_string split
skipped_start_recovers_example =
    skipped_start_recovers machine machine arguments (codes "/s") (codes "/r") unit
      (codes "/run/prison-store-check") (view ∷ []) no_skips no_skips (codes "inactive") []
      arguments-read refl (λ name e h. cc) refl refl refl
