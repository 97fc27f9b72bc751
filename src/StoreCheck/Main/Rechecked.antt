-- ===== src/StoreCheck/Main/Rechecked.antt =====
-- prison-store-check: from a start that is skipped, through the timer, to the recheck it runs.
use nix_os_container_podman.Common.{
  ℕ, ◌≡◌, ◌≢◌, refl, ap, ◌∙◌, true, false, List, [], ◌∷◌, ◌++◌, none, some, Bytes, Text, codes,
  bytes_eq, bytes_eq→eq, All, all, Result, ok, err, Result-cases, Option-cases, Bool-cases, inl,
  inr, &&_left, &&_right, arith,
}
use nix_os_container_podman.StoreCheck.Units.{Error, is_unit_char, is_unit_name, recheck_unit}
use nix_os_container_podman.StoreCheck.Utf8.{IsAscii, encode-ascii, decode-ascii}
use nix_os_container_podman.StoreCheck.Check.{
  Host, World, View, Outcome, fresh, restarting, gave_up, started, bump, skip, skip_counted, settle,
  check, clear, continue, stale_units, recheck, is_running, exit_status,
}
use nix_os_container_podman.StoreCheck.System.{
  Machine, System, Ran, printed, not_run, failed, dropped, active_state, arm_recheck, arm_timer,
  start_args, timer_args, recheck_args, start, run, stdout_of, host_of,
}
use nix_os_container_podman.StoreCheck.Main.{
  checks, rechecks, command_line, read_flags, kind_of, job_of, read_value, system, utf8, perform,
  recheck_status, main,
}

IsAscii-unit_char : (c : ℕ) → is_unit_char c ≡ true → IsAscii c
IsAscii-unit_char c h = ground arith

All-IsAscii : (s : Text) → all is_unit_char s ≡ true → All IsAscii s
All-IsAscii [] h = tt
All-IsAscii (c ∷ s) h =
    (IsAscii-unit_char c (&&_left _ _ h), All-IsAscii s (&&_right (is_unit_char c) _ h))

All-unit_name : (unit : Text) → is_unit_name unit ≡ true → All IsAscii unit
unfolding is_unit_name
All-unit_name unit h = All-IsAscii unit (ground arith)

-- The arguments that the timer gives are read as a recheck of the same unit with the same systemctl.
pub command_line-recheck_args :
    (systemctl : Bytes) (unit : Text)
    → is_unit_name unit ≡ true
    → command_line (recheck_args systemctl unit) ≡ ok (rechecks systemctl unit)
unfolding command_line read_flags kind_of read_value bytes_eq job_of
command_line-recheck_args systemctl unit h =
    rw (encode-ascii unit (All-unit_name unit h), utf8, decode-ascii unit (All-unit_name unit h))

module _ (host : Host) (unit : Text) where
  skip_counted-arms :
      (stale : List Text) (n : ℕ) (w : World) (units : List Text)
      → (skip_counted host unit stale n w).0 ≡ ok (restarting units)
      → host.arm_recheck unit ≡ ok tt
  unfolding skip_counted
  skip_counted-arms stale n w units h = ground arith

  skip-arms :
      (stale : List Text) (w : World) (units : List Text)
      → (skip host unit stale w).0 ≡ ok (restarting units)
      → host.arm_recheck unit ≡ ok tt
  unfolding skip
  skip-arms stale w units h = elim (Result-cases (bump host unit w).0) [
    | inl (n, e) ↦ skip_counted-arms stale n (bump host unit w).1 units (rw (e, continue) at h)
    | inr (e, broken) ↦ absurd (ground (arith, broken))
  ]

  check-arms :
      (views : List View) (w : World) (units : List Text)
      → (check host unit views w).0 ≡ ok (restarting units)
      → host.arm_recheck unit ≡ ok tt
  unfolding check settle
  check-arms views w units h = elim (Result-cases (stale_units host views)) [
    | inl ([], e) ↦ elim (Result-cases (clear host unit w).0) [
      | inl (u, c) ↦ absurd (cc (rw (e, c, continue) at h))
      | inr (x, broken) ↦ absurd (ground (arith, e, broken))
    ]
    | inl (s ∷ stale, e) ↦ skip-arms (s ∷ stale) w units (rw (e, continue) at h)
    | inr (e, broken) ↦ absurd (ground (arith, broken))
  ]

printed-of : (r : Ran) → dropped (stdout_of r) ≡ ok tt → (out : Bytes) × (r ≡ printed out)
printed-of not_run h = cc
printed-of failed h = cc
printed-of (printed out) h = (out, refl)

module _ (m : Machine) (s : System) (unit : Text) where
  -- What an `Ok` of `arm_recheck` comes of: a timer of the recheck's name was active, be it for this unit
  -- or for one whose name gives the same; or systemd-run has just taken a timer that runs this program with
  -- the arguments of the recheck.
  pub data Armed : Type 0 where
    already :
        (name : Text)
        → recheck_unit unit ≡ ok name
        → active_state m s (name ++ codes ".timer") ≡ ok (codes "active")
        → Armed
    now :
        (systemd_run : Bytes) (name : Text) (program out : Bytes)
        → s.systemd_run ≡ some systemd_run
        → recheck_unit unit ≡ ok name
        → m.current_exe ≡ some program
        → m.output systemd_run (timer_args name program s.systemctl unit) ≡ printed out
        → Armed

  arm_timer-Armed :
      (systemd_run : Bytes) (name : Text)
      → s.systemd_run ≡ some systemd_run
      → recheck_unit unit ≡ ok name
      → arm_timer m s systemd_run name unit ≡ ok tt
      → Armed
  unfolding arm_timer run
  arm_timer-Armed systemd_run name given e h = elim (Option-cases m.current_exe) [
    | inl lost ↦ absurd (ground (arith, lost))
    | inr (program, at) ↦
        let (out, o) =
          printed-of (m.output systemd_run (timer_args name program s.systemctl unit))
            (ground (arith, at)) in
        now systemd_run name program out given e at o
  ]

  arm_recheck-Armed : arm_recheck m s unit ≡ ok tt → Armed
  unfolding arm_recheck
  arm_recheck-Armed h = elim (Option-cases s.systemd_run) [
    | inl lost ↦ absurd (ground (arith, lost))
    | inr (systemd_run, given) ↦ elim (Result-cases (recheck_unit unit)) [
      | inr (e, bad) ↦ absurd (ground (arith, given, bad))
      | inl (name, e) ↦ elim (Result-cases (active_state m s (name ++ codes ".timer"))) [
        | inr (x, bad) ↦ absurd (ground (arith, given, e, bad))
        | inl (state, q) ↦ elim (Bool-cases (bytes_eq state (codes "active"))) [
          | inl same ↦ already name e (q ∙ ap ok (bytes_eq→eq state (codes "active") same))
          | inr idle ↦ arm_timer-Armed systemd_run name given e (ground (arith, given, e, q, idle))
        ]
      ]
    ]
  ]

  Armed-is_unit_name : Armed → is_unit_name unit ≡ true
  unfolding recheck_unit
  Armed-is_unit_name (already name e q) = ground (arith, e)
  Armed-is_unit_name (now systemd_run name program out given e at o) = ground (arith, e)

skipped-restarting :
    (r : Result Error Outcome)
    → exit_status r ≡ 1
    → (stale : List Text) × (r ≡ ok (restarting stale))
unfolding exit_status
skipped-restarting (ok fresh) h = absurd (omega (arith, h))
skipped-restarting (ok (restarting stale)) h = (stale, refl)
skipped-restarting (ok (gave_up stale)) h = absurd (omega (arith, h))
skipped-restarting (err e) h = absurd (omega (arith, h))

recheck-starts :
    (m : Machine) (systemctl : Bytes) (unit state : Text) (out : Bytes) (w : World)
    → active_state m (system systemctl none) unit ≡ ok state
    → is_running state ≡ false
    → m.output systemctl (start_args unit) ≡ printed out
    → perform m (ok (rechecks systemctl unit)) w
      ≡ (0, record w { commands = started unit ∷ w.commands })
unfolding perform recheck host_of start run recheck_status
recheck-starts m systemctl unit state out w e idle o = ground (arith, e, idle, o)

-- systemd-run, called with the arguments of the timer and this program's path, has succeeded.
abbrev pub Taken : Machine → Bytes → Bytes → Text → Type 0
Taken m systemctl systemd_run unit =
    (name : Text) × (program : Bytes) × (out : Bytes) × (recheck_unit unit ≡ ok name)
    × (m.current_exe ≡ some program)
    × (m.output systemd_run (timer_args name program systemctl unit) ≡ printed out)

Taken-of :
    (m : Machine) (systemctl systemd_run : Bytes) (unit : Text)
    → ((name : Text)
        → recheck_unit unit ≡ ok name
        → active_state m (system systemctl (some systemd_run)) (name ++ codes ".timer")
          ≢ ok (codes "active"))
    → Armed m (system systemctl (some systemd_run)) unit
    → Taken m systemctl systemd_run unit
Taken-of m systemctl systemd_run unit idle (already name e q) = absurd (idle name e q)
Taken-of m systemctl systemd_run unit idle (now taker name program out given e at o) =
    let same : systemd_run ≡ taker = cc in (name, program, out, e, at, rw same o)

-- A start was skipped: the command line was one of a check, and it ended with status 1; and before, no
-- timer of the recheck's name was active, which a timer of another unit could be, since names collide.
-- Then systemd-run was called for a timer that runs this program with the arguments of the recheck of
-- this unit, and succeeded. Those arguments, on any later machine on which the unit is in a state that is
-- not a running one and systemctl takes the start, end with status 0 and have the unit started, and
-- nothing else.
pub skipped_start_recovers :
    (m later : Machine) (args : List Bytes) (systemctl systemd_run : Bytes) (unit : Text)
    → (dir : Bytes) (views : List View) (w w' : World) (state : Text) (out : Bytes)
    → command_line args ≡ ok (checks systemctl systemd_run unit dir views)
    → (main m args w).0 ≡ 1
    → ((name : Text)
        → recheck_unit unit ≡ ok name
        → active_state m (system systemctl (some systemd_run)) (name ++ codes ".timer")
          ≢ ok (codes "active"))
    → active_state later (system systemctl none) unit ≡ ok state
    → is_running state ≡ false
    → later.output systemctl (start_args unit) ≡ printed out
    → Taken m systemctl systemd_run unit
      × (main later (recheck_args systemctl unit) w'
          ≡ (0, record w' { commands = started unit ∷ w'.commands }))
unfolding main host_of
skipped_start_recovers m later args systemctl systemd_run unit dir views w w' state out a h free e
      idle o =
    let s = system systemctl (some systemd_run) in
    let (stale, r) =
      skipped-restarting (check (host_of m s dir) unit views w).0 (unfold perform in simp a at h) in
    let armed = arm_recheck-Armed m s unit (check-arms (host_of m s dir) unit views w stale r) in
    (
      Taken-of m systemctl systemd_run unit free armed,
      ap (λ job. perform later job w')
            (command_line-recheck_args systemctl unit (Armed-is_unit_name m s unit armed))
          ∙ recheck-starts later systemctl unit state out w' e idle o,
    )
