-- ===== src/StoreCheck/System.antt =====
-- prison-store-check/src/lib.rs: `System`, the host that asks systemctl and reads procfs. What a program
-- answers and what a file holds is a parameter, the `Machine`.
pub mod Daemon
use nix_os_container_podman.Common.{
  ℕ, Bool, List, [], ◌∷◌, ◌++◌, map, reverse, Option, none, some, Bytes, Text, codes, bytes_eq,
  join, Result, ok, err, ◌==◌, if◌then◌else◌,
}
use nix_os_container_podman.StoreCheck.Units.{
  Error, refused, not_utf8, not_a_number, no_systemd_run, trim, recheck_unit,
}
use nix_os_container_podman.StoreCheck.Argv.{cmdline}
use nix_os_container_podman.StoreCheck.Decimal.{parse_u32, to_string}
use nix_os_container_podman.StoreCheck.Utf8.{encode, decode}
use nix_os_container_podman.StoreCheck.Check.{Host}

-- How a program ended: it could not be run, it failed, or it succeeded and printed this.
pub data Ran : Type 0 where
  not_run failed : Ran
  printed : Bytes → Ran

pub record Machine : Type 0 where
  pub output : Bytes → List Bytes → Ran
  -- `none` if the file cannot be read
  pub read_file : Bytes → Option Bytes
  -- `none` if the program cannot be located
  pub current_exe : Option Bytes
  -- whether the directory of the skip counts takes a new count of the unit and lets one go
  pub can_record : Bytes → Text → Bool
  pub can_clear : Bytes → Text → Bool

pub record System : Type 0 where
  pub systemctl : Bytes
  pub systemd_run : Option Bytes
  pub proc_root : Bytes

abbrev pub recheck_after_seconds : ℕ
recheck_after_seconds = 120

-- `?` on an error.
infixl 5 ◌>>=◌ ◌>>◌
abbrev ◌>>=◌ : {A B : Type 0} → Result Error A → (A → Result Error B) → Result Error B
ok a >>= f = f a
err e >>= f = err e

abbrev ◌>>◌ : {A B : Type 0} → Result Error A → Result Error B → Result Error B
m >> k = m >>= λ _. k

-- `map(drop)`
abbrev pub dropped : {A : Type 0} → Result Error A → Result Error (Unit {0})
dropped m = do m; ok tt

-- `ok_or(e)?`
abbrev pub ok_or : {A : Type 0} → Option A → Error → Result Error A
ok_or none e = err e
ok_or (some a) e = ok a

abbrev pub stdout_of : Ran → Result Error Bytes
stdout_of not_run = err refused
stdout_of failed = err refused
stdout_of (printed out) = ok out

-- `System::run`
unfoldable pub run : Machine → Bytes → List Bytes → Result Error Bytes
run m program args = stdout_of (m.output program args)

abbrev pub property_args : Text → Text → List Bytes
property_args unit name =
    codes "show"
    ∷ (codes "--property=" ++ encode name)
    ∷ codes "--value"
    ∷ codes "--"
    ∷ encode unit
    ∷ []

abbrev pub restart_args : List Text → List Bytes
restart_args units = codes "restart" ∷ codes "--no-block" ∷ codes "--" ∷ map encode units

abbrev pub start_args : Text → List Bytes
start_args unit = codes "start" ∷ codes "--no-block" ∷ codes "--" ∷ encode unit ∷ []

-- What the timer runs, behind the path of this program.
abbrev pub recheck_args : Bytes → Text → List Bytes
recheck_args systemctl unit =
    codes "--recheck" ∷ codes "--systemctl" ∷ systemctl ∷ codes "--unit" ∷ encode unit ∷ []

abbrev pub timer_args : Text → Bytes → Bytes → Text → List Bytes
timer_args name program systemctl unit =
    codes "--quiet"
    ∷ codes "--collect"
    ∷ (codes "--unit=" ++ encode name)
    ∷ (codes "--on-active=" ++ to_string recheck_after_seconds)
    ∷ codes "--timer-property=AccuracySec=5s"
    ∷ codes "--"
    ∷ program
    ∷ recheck_args systemctl unit

module _ (m : Machine) (s : System) where
  unfoldable pub property : Text → Text → Result Error Text
  unfolding run
  property unit name = do
    out ← run m s.systemctl (property_args unit name)
    text ← ok_or (decode out) not_utf8
    ok (trim text)

  unfoldable pub main_pid : Text → Result Error ℕ
  unfolding property
  main_pid unit = do
    text ← property unit (codes "MainPID")
    ok_or (parse_u32 text) (not_a_number unit)

  unfoldable pub proc_cmdline : ℕ → Option (List Bytes)
  proc_cmdline pid =
      cmdline (m.read_file (join (join s.proc_root (to_string pid)) (codes "cmdline")))

  unfoldable pub restart : List Text → Result Error (Unit {0})
  unfolding run
  restart units = dropped (run m s.systemctl (restart_args units))

  unfoldable pub active_state : Text → Result Error Text
  unfolding property
  active_state unit = property unit (codes "ActiveState")

  unfoldable pub start : Text → Result Error (Unit {0})
  unfolding run
  start unit = dropped (run m s.systemctl (start_args unit))

  -- `to_str` checks the two paths, and gives them on as they are.
  unfoldable pub arm_timer : Bytes → Text → Text → Result Error (Unit {0})
  unfolding run
  arm_timer systemd_run name unit = do
    program ← ok_or m.current_exe refused
    ok_or (decode program) not_utf8
    ok_or (decode s.systemctl) not_utf8
    dropped (run m systemd_run (timer_args name program s.systemctl unit))

  unfoldable pub arm_recheck : Text → Result Error (Unit {0})
  unfolding active_state arm_timer
  arm_recheck unit = do
    systemd_run ← ok_or s.systemd_run no_systemd_run
    name ← recheck_unit unit
    state ← active_state (name ++ codes ".timer")
    if bytes_eq state (codes "active") then ok tt else arm_timer systemd_run name unit

  -- `impl Host for System`, with the directory of the skip counts.
  unfoldable pub host_of : Bytes → Host
  unfolding main_pid proc_cmdline active_state restart start arm_recheck
  host_of dir = record {
    main_pid = main_pid;
    cmdline = proc_cmdline;
    active_state = active_state;
    restart = restart;
    start = start;
    arm_recheck = arm_recheck;
    can_record = m.can_record dir;
    can_clear = m.can_clear dir;
  }
