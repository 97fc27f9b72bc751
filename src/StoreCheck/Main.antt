-- ===== src/StoreCheck/Main.antt =====
-- prison-store-check/src/main.rs: the command line, and the exit status.
pub mod Rechecked
pub mod Exits
mod Examples
use nix_os_container_podman.Common.{
  ℕ, Bool, true, false, not, ◌||◌, List, [], ◌∷◌, ◌++◌, Option, none, some, Bytes, Text, codes,
  bytes_eq, is_empty, Result, ok, err, if◌then◌else◌,
}
use nix_os_container_podman.StoreCheck.Units.{Error}
use nix_os_container_podman.StoreCheck.Utf8.{decode}
use nix_os_container_podman.StoreCheck.Check.{World, View, Outcome, check, recheck, exit_status}
use nix_os_container_podman.StoreCheck.System.{Machine, System, host_of}

abbrev pub stale_status : ℕ
stale_status = 1

abbrev pub error_status : ℕ
error_status = 255

-- What `usage` is told. It ends the program with ERROR.
pub data Usage : Type 0 where
  missing not_text : Text → Usage
  unknown_argument : Bytes → Usage
  only_recheck no_view : Usage

-- The variables of the loop over the arguments.
pub record Flags : Type 0 where
  pub systemctl : Option Bytes
  pub systemd_run : Option Bytes
  pub unit : Option Text
  pub skips : Bytes
  pub rechecking : Bool
  pub views : List View

abbrev pub no_flags : Flags
no_flags = record {
  systemctl = none;
  systemd_run = none;
  unit = none;
  skips = codes "/run/prison-store-check";
  rechecking = false;
  views = [];
}

pub data Kind : Type 0 where
  is_systemctl is_systemd_run is_unit is_skips is_recheck is_view is_unknown : Kind

-- The patterns of the match on `flag.to_str()`.
unfoldable pub kind_of : Bytes → Kind
kind_of flag =
    if bytes_eq flag (codes "--systemctl")
    then is_systemctl
    else if bytes_eq flag (codes "--systemd-run")
    then is_systemd_run
    else if bytes_eq flag (codes "--unit")
    then is_unit
    else if bytes_eq flag (codes "--skips")
    then is_skips
    else if bytes_eq flag (codes "--recheck")
    then is_recheck
    else if bytes_eq flag (codes "--view")
    then is_view
    else is_unknown

-- The function `utf8` of an argument that is there.
abbrev pub utf8 : Bytes → Text → Result Usage Text
utf8 arg what = elim (decode arg) [ none ↦ err (not_text what) | some t ↦ ok t ]

infixl 5 ◌>>=◌
abbrev pub ◌>>=◌ : {A B : Type 0} → Result Usage A → (A → Result Usage B) → Result Usage B
ok a >>= f = f a
err u >>= f = err u

-- A flag at the end of the arguments.
unfoldable pub read_last : Kind → Bytes → Flags → Result Usage Flags
read_last is_systemctl flag f = err (missing (codes "systemctl path"))
read_last is_systemd_run flag f = err (missing (codes "systemd-run path"))
read_last is_unit flag f = err (missing (codes "unit"))
read_last is_skips flag f = err (missing (codes "skips directory"))
read_last is_recheck flag f = ok (record f { rechecking = true })
read_last is_view flag f = err (missing (codes "view unit"))
read_last is_unknown flag f = err (unknown_argument flag)

-- A flag with the argument behind it, which for `--view` is the last one. `--recheck`, which takes
-- none, never comes here.
unfoldable pub read_value : Kind → Bytes → Bytes → Flags → Result Usage Flags
read_value is_systemctl flag arg f = ok (record f { systemctl = some arg })
read_value is_systemd_run flag arg f = ok (record f { systemd_run = some arg })
read_value is_unit flag arg f = do t ← utf8 arg (codes "unit"); ok (record f { unit = some t })
read_value is_skips flag arg f = ok (record f { skips = arg })
read_value is_recheck flag arg f = err (unknown_argument arg)
read_value is_view flag arg f = do
  unit ← utf8 arg (codes "view unit")
  err (missing (codes "bind target"))
read_value is_unknown flag arg f = err (unknown_argument flag)

unfoldable pub push_view : Bytes → Bytes → Flags → Result Usage Flags
push_view arg target f = do
  unit ← utf8 arg (codes "view unit")
  ok (record f { views = f.views ++ (record { unit = unit; target = target } ∷ []) })

unfoldable pub read_flags : List Bytes → Flags → Result Usage Flags
unfolding kind_of read_last read_value push_view
read_flags [] f = ok f
read_flags (flag ∷ []) f = read_last (kind_of flag) flag f
read_flags (flag ∷ arg ∷ []) f = elim (kind_of flag) [
  | is_recheck ↦ read_flags (arg ∷ []) (record f { rechecking = true })
  | kind ↦ read_value kind flag arg f
]
read_flags (flag ∷ arg ∷ next ∷ rest) f = elim (kind_of flag) [
  | is_recheck ↦ read_flags (arg ∷ next ∷ rest) (record f { rechecking = true })
  | is_view ↦ do f' ← push_view arg next f; read_flags rest f'
  | kind ↦ do f' ← read_value kind flag arg f; read_flags (next ∷ rest) f'
]

-- What the command line asks for.
pub data Job : Type 0 where
  rechecks : Bytes → Text → Job
  checks : Bytes → Bytes → Text → Bytes → List View → Job

abbrev pub is_given : Option Bytes → Bool
is_given none = false
is_given (some b) = true

-- The code behind the loop, up to the calls of the library.
abbrev check_job : Bytes → Text → Flags → Option Bytes → Result Usage Job
check_job systemctl unit f none = err (missing (codes "--systemd-run"))
check_job systemctl unit f (some systemd_run) =
    if is_empty f.views then err no_view else ok (checks systemctl systemd_run unit f.skips f.views)

abbrev with_unit : Bytes → Flags → Option Text → Result Usage Job
with_unit systemctl f none = err (missing (codes "--unit"))
with_unit systemctl f (some unit) =
    if f.rechecking
    then if not (is_empty f.views) || is_given f.systemd_run
      then err only_recheck
      else ok (rechecks systemctl unit)
    else check_job systemctl unit f f.systemd_run

abbrev with_systemctl : Flags → Option Bytes → Result Usage Job
with_systemctl f none = err (missing (codes "--systemctl"))
with_systemctl f (some systemctl) = with_unit systemctl f f.unit

unfoldable pub job_of : Flags → Result Usage Job
job_of f = with_systemctl f f.systemctl

unfoldable pub command_line : List Bytes → Result Usage Job
unfolding job_of read_flags
command_line args = do f ← read_flags args no_flags; job_of f

abbrev pub system : Bytes → Option Bytes → System
system systemctl systemd_run = record {
  systemctl = systemctl;
  systemd_run = systemd_run;
  proc_root = codes "/proc";
}

unfoldable pub recheck_status : Result Error (Unit {0}) → ℕ
recheck_status (ok u) = 0
recheck_status (err e) = error_status

unfoldable pub perform : Machine → Result Usage Job → World → ℕ × World
unfolding host_of recheck_status
perform m (err u) w = (error_status, w)
perform m (ok (rechecks systemctl unit)) w =
    let (r, w') = recheck (host_of m (system systemctl none) []) unit w in (recheck_status r, w')
perform m (ok (checks systemctl systemd_run unit dir views)) w =
    let (r, w') = check (host_of m (system systemctl (some systemd_run)) dir) unit views w in
    (exit_status r, w')

-- `main`, in the world whose skip counts are those of the directory that the command line names.
unfoldable pub main : Machine → List Bytes → World → ℕ × World
unfolding command_line perform
main m args w = perform m (command_line args) w
