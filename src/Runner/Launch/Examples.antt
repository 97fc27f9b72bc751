-- ===== src/Runner/Launch/Examples.antt =====
-- nix/app/runner.rs: the start of a launch on a concrete host.
use nix_os_container_podman.Common.{
  ◌≡◌, refl, true, List, [], ◌∷◌, ◌++◌, none, some, Text, codes, bytes_eq, split, strip_prefix, All,
  if◌then◌else◌, ok,
}
use nix_os_container_podman.StoreCheck.Decimal.{to_string, decimal}
use nix_os_container_podman.Runner.Texts.{lines, lines_of, strip_suffix, split_once}
use nix_os_container_podman.Runner.Template.{Vars, get}
use nix_os_container_podman.Runner.Mounts.{lit}
use nix_os_container_podman.Runner.Plan.{Plan, default_plan, meta_line, require_line, item_line}
use nix_os_container_podman.Runner.Plan.Parse.{
  parse_line, parse_lines, section_line, finish, parse_plan,
}
use nix_os_container_podman.Runner.Plan.Accepted.{IsAccepted}
use nix_os_container_podman.Runner.Launch.{
  Host, base_vars, derive, host_vars, check_required, ensure_dirs, expand_all, expand_env,
  resolve_podman, prepare,
}
use nix_os_container_podman.Runner.Launch.Prepared.{HasValue, IsFilled, prepare-IsAccepted}

abbrev pub host : Host
host = record {
  uid = 1000;
  gid = 100;
  pid = 7;
  env = λ name. if bytes_eq name (codes "HOME") then some (codes "/home/u") else none;
  cwd = none;
  exists = λ path. true;
  is_dir = λ path. true;
  create_dir = λ mode path. true;
  mode = λ path. some 448;
  chmod = λ path mode. true;
}

abbrev line : List Text → Text
line [] = b'\n' ∷ []
line (f ∷ []) = f ++ (b'\n' ∷ [])
line (f ∷ g ∷ fs) = f ++ (b'\t' ∷ line (g ∷ fs))

abbrev pub text : Text
text =
    line (codes "plan 1" ∷ [])
    ++ line (codes "[meta]" ∷ [])
    ++ line (codes "podman" ∷ codes "/bin/podman" ∷ [])
    ++ line (codes "[require]" ∷ [])
    ++ line (codes "home" ∷ codes "no home" ∷ [])
    ++ line (codes "[run]" ∷ [])
    ++ line (codes "s" ∷ codes "run" ∷ [])

abbrev plan : Plan
plan = record default_plan {
  podman = codes "/bin/podman";
  require = (codes "home", codes "no home") ∷ [];
  run_argv = lit (codes "run") ∷ [];
}

abbrev pub vars : Vars
vars = base_vars host (codes "/home/u") (codes "/run/user/1000")

prepare-text : prepare host text ≡ ok (plan, vars)
unfolding prepare parse_plan parse_lines parse_line section_line finish meta_line require_line
    item_line lines lines_of strip_suffix split split_once strip_prefix bytes_eq host_vars derive
    check_required ensure_dirs resolve_podman expand_all expand_env get to_string decimal
prepare-text = refl

prepare-IsAccepted_example :
    IsAccepted plan
    × All (λ n. HasValue vars n.0) plan.require
    × ((p : Plan) × (parse_plan text ≡ ok p) × IsFilled vars p plan)
prepare-IsAccepted_example = prepare-IsAccepted host text plan vars prepare-text
