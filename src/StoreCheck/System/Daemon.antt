-- ===== src/StoreCheck/System/Daemon.antt =====
-- prison-store-check/src/lib.rs: `served` through systemctl and procfs, on a daemon that runs.
use nix_os_container_podman.Common.{
  ℕ, ◌<◌, ◌^◌, ◌≡◌, refl, ap, ◌∙◌, Bool, true, false, List, [], ◌∷◌, ◌++◌, some, Bytes, Text, codes,
  bytes_eq, join, All, All-append, All-map_of, ok, ◌==◌, arith, if◌then◌else◌,
}
use nix_os_container_podman.StoreCheck.Units.{not_a_number}
use nix_os_container_podman.StoreCheck.Argv.{bind_target_flag, bind_target, cmdline}
use nix_os_container_podman.StoreCheck.Argv.Targets.{
  IsOther, bind_target_first, nul_terminated, HasNoNul, cmdline-nul_terminated,
}
use nix_os_container_podman.StoreCheck.Decimal.{to_string}
use nix_os_container_podman.StoreCheck.Decimal.RoundTrip.{
  IsDigit, to_string-IsDigit, parse_u32-to_string,
}
use nix_os_container_podman.StoreCheck.Utf8.{decode, IsAscii, decode-ascii}
use nix_os_container_podman.StoreCheck.Check.{Host, View, expected, other, served}
use nix_os_container_podman.StoreCheck.Check.Outcomes.{serves, serves_view}
use nix_os_container_podman.StoreCheck.System.{
  Machine, System, printed, property_args, property, main_pid, proc_cmdline, host_of, ok_or,
}

-- The end of a command line that names `value` as its bind target, in either spelling.
pub data NamesTarget (value : Bytes) : List Bytes → Type 0 where
  separate : (rest : List Bytes) → NamesTarget value (bind_target_flag ∷ value ∷ rest)
  joined : (rest : List Bytes) → NamesTarget value ((bind_target_flag ++ (b'=' ∷ value)) ∷ rest)

bind_target-named :
    (args named : List Bytes) (value : Bytes)
    → All IsOther args
    → NamesTarget value named
    → bind_target (args ++ named) ≡ some value
bind_target-named args named value h (separate rest) = (bind_target_first args rest value h).0
bind_target-named args named value h (joined rest) = (bind_target_first args rest value h).1

cmdline-shown :
    (args named : List Bytes) (value : Bytes)
    → NamesTarget value named
    → All HasNoNul args
    → All HasNoNul named
    → cmdline (some (nul_terminated (args ++ named))) ≡ some (args ++ named)
cmdline-shown [] named value (separate rest) h n = cmdline-nul_terminated _ _ n.0 n.1
cmdline-shown [] named value (joined rest) h n = cmdline-nul_terminated _ _ n.0 n.1
cmdline-shown (a ∷ args) named value t h n =
    cmdline-nul_terminated a (args ++ named) h.0 (All-append HasNoNul args named h.1 n)

IsAscii-digit : (c : ℕ) → IsDigit c → IsAscii c
IsAscii-digit c h = ground arith

decode-number : (n : ℕ) → decode (to_string n ++ b'\n' ∷ []) ≡ some (to_string n ++ b'\n' ∷ [])
decode-number n = decode-ascii _ (
    All-append IsAscii (to_string n) (b'\n' ∷ [])
      (All-map_of IsDigit IsAscii IsAscii-digit (to_string n) (to_string-IsDigit n))
      (omega arith, tt))

serves_view-running :
    (host : Host) (view : View) (pid : ℕ) (argv : List Bytes) (value : Bytes)
    → 0 < pid
    → host.main_pid view.unit ≡ ok pid
    → host.cmdline pid ≡ some argv
    → bind_target argv ≡ some value
    → serves_view host view ≡ bytes_eq value view.target
unfolding served
serves_view-running host view pid argv value pos e shown named =
    let running : (pid == 0) ≡ false = ground arith in
    simp (e, running, shown, named, judged (bytes_eq value view.target) value)
  where
    judged :
        (same : Bool) (value : Bytes)
        → serves (ok (if same then expected else other (some value))) ≡ same
    judged true value = refl
    judged false value = refl

module _ (m : Machine) (s : System) (dir : Bytes) where
  main_pid-printed :
      (unit : Text) (pid : ℕ)
      → pid < 2 ^ 32
      → m.output s.systemctl (property_args unit (codes "MainPID"))
        ≡ printed (to_string pid ++ b'\n' ∷ [])
      → main_pid m s unit ≡ ok pid
  unfolding main_pid property
  main_pid-printed unit pid small e =
      rw (e, decode-number pid)
        (ap (λ r. ok_or r (not_a_number unit)) (parse_u32-to_string pid small))

  -- A view's daemon runs: systemctl prints its pid, at least 1 and a `u32`, on a line, and procfs
  -- holds its arguments, each with a NUL behind it. If the first of them that names a bind target
  -- names `value`, in either spelling, then the view counts as served exactly when `value` is the
  -- expected target.
  pub served_by_daemon :
      (view : View) (pid : ℕ) (args named : List Bytes) (value : Bytes)
      → 0 < pid
      → pid < 2 ^ 32
      → m.output s.systemctl (property_args view.unit (codes "MainPID"))
        ≡ printed (to_string pid ++ b'\n' ∷ [])
      → m.read_file (join (join s.proc_root (to_string pid)) (codes "cmdline"))
        ≡ some (nul_terminated (args ++ named))
      → All HasNoNul args
      → All HasNoNul named
      → All IsOther args
      → NamesTarget value named
      → serves_view (host_of m s dir) view ≡ bytes_eq value view.target
  unfolding host_of proc_cmdline
  served_by_daemon view pid args named value pos small out file h n others names =
      serves_view-running (host_of m s dir) view pid (args ++ named) value pos
        (main_pid-printed view.unit pid small out)
        (ap cmdline file ∙ cmdline-shown args named value names h n)
        (bind_target-named args named value others names)
