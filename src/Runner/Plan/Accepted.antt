-- ===== src/Runner/Plan/Accepted.antt =====
-- nix/app/runner.rs: what holds of every plan that `parse_plan` accepts.
use nix_os_container_podman.Common.{
  ◌≤◌, ◌<◌, ◌^◌, ◌≡◌, refl, Bool, true, false, not, ◌&&◌, List, Option, none, some, Text, codes,
  contains, starts_with, is_empty, length, ltb, All, All-map_of, if◌then◌else◌, arith, Result, ok,
  err,
}
use nix_os_container_podman.StoreCheck.Units.{len}
use nix_os_container_podman.Runner.Texts.{lines}
use nix_os_container_podman.Runner.Mounts.{Item}
use nix_os_container_podman.Runner.Plan.{Plan, Dbus, is_holder_name, is_process_name, is_env_name}
use nix_os_container_podman.Runner.Plan.Lines.{IsExpected, Holds, AllRules}
use nix_os_container_podman.Runner.Plan.Parse.{
  Parser, PlanError, bad_line, missing_header, incomplete_dbus, no_podman, empty_run,
  no_holder_command, start, parse_lines, is_complete, is_some, finish, finish_parsed, parse_plan,
}
use nix_os_container_podman.Runner.Plan.Steps.{IsParser, Parsed, parse_lines-Parsed}

-- A name that makes a file in the runtime directory.
abbrev pub IsFileName : Text → Type 0
IsFileName v = (is_empty v ≡ false) × (contains b'/' v ≡ false)

abbrev pub IsHolder : Option Text → List Item → Type 0
IsHolder none argv = Unit
IsHolder (some v) argv = IsFileName v × (contains 0 v ≡ false) × (2 ≤ length argv)

abbrev pub IsProcess : Option Text → Type 0
IsProcess none = Unit
IsProcess (some v) = IsFileName v × (len v ≤ 15)

abbrev pub IsEnvName : Text → Type 0
IsEnvName name = (is_empty name ≡ false) × (contains b'=' name ≡ false) × (contains 0 name ≡ false)

abbrev pub IsAbsolute : Text → Type 0
IsAbsolute t = starts_with (codes "/") t ≡ true

abbrev pub IsBus : Option Dbus → Type 0
IsBus none = Unit
IsBus (some d) = IsAbsolute d.proxy × (is_empty d.upstream ≡ false) × (is_empty d.socket ≡ false)

-- A plan that the rest of the program can rely on.
pub record IsAccepted (plan : Plan) : Type 0 where
  pub absolute_podman : IsAbsolute plan.podman
  pub some_command : is_empty plan.run_argv ≡ false
  pub holder : IsHolder plan.holder plan.holder_argv
  pub process : IsProcess plan.holder_process
  pub derived : All (λ d. is_empty d.0 ≡ false) plan.derived
  pub modes : All (λ d. d.0 < 2 ^ 32) plan.ensure_dirs
  pub rules : AllRules plan.providers
  pub bus : IsBus plan.dbus
  pub env : All (λ e. IsEnvName e.0) plan.podman_env

-- What reading a plan can give: an error that is no panic, or an accepted plan.
abbrev pub IsRefusal : PlanError → Type 0
IsRefusal (bad_line n e) = IsExpected e
IsRefusal _ = Unit

pub data Accepts : Result PlanError Plan → Type 0 where
  refused : {e : PlanError} → IsRefusal e → Accepts (err e)
  accepted : {plan : Plan} → IsAccepted plan → Accepts (ok plan)

Accepts-if :
    (b : Bool) (e : PlanError) {r : Result PlanError Plan}
    → IsRefusal e
    → (b ≡ false → Accepts r)
    → Accepts (if b then err e else r)
Accepts-if true e f g = refused f
Accepts-if false e f g = g refl

IsProcess-of : (o : Option Text) → Holds is_process_name o → IsProcess o
IsProcess-of none h = tt
IsProcess-of (some v) h = ground (arith, h)

IsHolder-of :
    (o : Option Text) (argv : List Item)
    → Holds is_holder_name o
    → is_some o && ltb (length argv) 2 ≡ false
    → IsHolder o argv
IsHolder-of none argv h n = tt
IsHolder-of (some v) argv h n = ground (arith, h, n)

IsBus-of : (o : Option Dbus) → is_complete o ≡ true → IsBus o
IsBus-of none h = tt
IsBus-of (some d) h = ground (arith, h)

finish-Accepts : (p : Parser) → IsParser p → Accepts (finish p)
unfolding finish
finish-Accepts p (h, ready) = Accepts-if (not p.saw_header) _ tt λ header.
    Accepts-if (not (is_complete p.plan.dbus)) _ tt λ complete.
      Accepts-if (not (starts_with (codes "/") p.plan.podman)) _ tt λ absolute.
        Accepts-if (is_empty p.plan.run_argv) _ tt λ command.
          Accepts-if (is_some p.plan.holder && ltb (length p.plan.holder_argv) 2) _ tt λ two.
            accepted (record {
              absolute_podman = ground (arith, absolute);
              some_command = command;
              holder = IsHolder-of p.plan.holder p.plan.holder_argv h.0 two;
              process = IsProcess-of p.plan.holder_process h.1;
              derived = h.2;
              modes = h.3;
              rules = h.4;
              bus = IsBus-of p.plan.dbus (ground (arith, complete));
              env =
                  All-map_of (λ e. is_env_name e.0 ≡ true) (λ e. IsEnvName e.0) env_name
                    p.plan.podman_env h.5;
            })
  where
    env_name : (e : Text × Text) → is_env_name e.0 ≡ true → IsEnvName e.0
    env_name e n = ground (arith, n)

-- No text makes `parse_plan` panic, and every plan that it accepts has an absolute path of podman, a
-- command to run, names of the holder and of its process that are file names, a holder command of two
-- items or more if there is a holder, wildcards in the last component of a mount only, a complete D-Bus
-- section if any, and names of variables that an environment can hold. It does not say that the command
-- still has an argument once its splices are resolved.
pub parse_plan-Accepts : (text : Text) → Accepts (parse_plan text)
unfolding parse_plan
parse_plan-Accepts text =
    finished (parse_lines 1 (lines text) start)
      (parse_lines-Parsed 1 (lines text) start ((tt, tt, tt, tt, tt, tt), tt))
  where
    finished : (r : Result PlanError Parser) → Parsed r → Accepts (finish_parsed r)
    finished (err (bad_line n e)) h = refused h
    finished (err missing_header) h = refused tt
    finished (err incomplete_dbus) h = refused tt
    finished (err no_podman) h = refused tt
    finished (err empty_run) h = refused tt
    finished (err no_holder_command) h = refused tt
    finished (ok p) h = finish-Accepts p h
