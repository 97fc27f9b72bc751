-- ===== src/Runner/Launch.antt =====
-- nix/app/runner.rs: what `run` prepares before the holder and podman: the launch's values, the required
-- ones, the directories, and podman's command line. What the host answers is a parameter.
pub mod Prepared
pub mod Examples
use nix_os_container_podman.Common.{
  ℕ, ◌%◌, Bool, true, false, not, ◌&&◌, ◌||◌, List, [], ◌∷◌, ◌++◌, Option, none, some, Text, codes,
  bytes_eq, contains, split, starts_with, strip_prefix, any, is_empty, leb, length, ◌==◌,
  if◌then◌else◌, Result, ok, err,
}
use nix_os_container_podman.StoreCheck.Decimal.{to_string}
use nix_os_container_podman.Runner.Texts.{trim_end_matches}
use nix_os_container_podman.Runner.Template.{Error, unsafe_path, Vars, get, expand}
use nix_os_container_podman.Runner.Mounts.{is_mount_safe}
use nix_os_container_podman.Runner.Plan.{Plan}
use nix_os_container_podman.Runner.Plan.Parse.{PlanError, parse_plan}

-- What /proc/self, the environment and the file system say. `create_dir` and `chmod` say whether the call
-- succeeds; `mode` is none if the path has no metadata.
pub record Host : Type 0 where
  pub uid : ℕ
  pub gid : ℕ
  pub pid : ℕ
  pub env : Text → Option Text
  pub cwd : Option Text
  pub exists : Text → Bool
  pub is_dir : Text → Bool
  pub create_dir : ℕ → Text → Bool
  pub mode : Text → Option ℕ
  pub chmod : Text → ℕ → Bool

pub data RunError : Type 0 where
  bad_plan : PlanError → RunError
  bad_value : Error → RunError
  no_home : RunError
  required : Text → RunError
  no_dir no_metadata no_chmod : Text → RunError

abbrev pub Run : Type 0 → Type 0
Run A = Result RunError A

infixl 5 ◌>>=◌ ◌>>◌
abbrev pub ◌>>=◌ : {A B : Type 0} → Run A → (A → Run B) → Run B
err e >>= f = err e
ok a >>= f = f a

abbrev pub ◌>>◌ : {A B : Type 0} → Run A → Run B → Run B
m >> k = m >>= λ _. k

abbrev pub value : {A : Type 0} → Result Error A → Run A
value (err e) = err (bad_value e)
value (ok a) = ok a

abbrev pub home_or : Option Text → Run Text
home_or none = err no_home
home_or (some home) = ok home

abbrev default_runtime : ℕ → Text
default_runtime uid = codes "/run/user/" ++ to_string uid

abbrev runtime_or : ℕ → Option Text → Text
runtime_or uid none = default_runtime uid
runtime_or uid (some v) = if starts_with (codes "/") v then v else default_runtime uid

abbrev or_else : Text → Option Text → Text
or_else t none = t
or_else t (some s) = s

abbrev display_path : Text → Text → Text
display_path runtime display =
    if starts_with (codes "/") display then display else runtime ++ (b'/' ∷ display)

abbrev if_exists : Host → Text → Text
if_exists h path = if h.exists path then path else []

abbrev wayland_socket : Host → Text → Text
wayland_socket h runtime =
    if_exists h
      (display_path runtime (or_else (codes "wayland-0") (h.env (codes "WAYLAND_DISPLAY"))))

-- The values of `host_vars` before the derived ones.
abbrev pub base_vars : Host → Text → Text → Vars
base_vars h home runtime =
    (codes "dbus_socket", [])
    ∷ (codes "pid", to_string h.pid)
    ∷ (codes "cwd", or_else (codes "/") h.cwd)
    ∷ (codes "wayland_socket", wayland_socket h runtime)
    ∷ (codes "xdg_runtime_dir", runtime)
    ∷ (codes "home", home)
    ∷ (codes "gid", to_string h.gid)
    ∷ (codes "uid", to_string h.uid)
    ∷ []

unfoldable pub derive : List (Text × Text) → Vars → Run Vars
unfolding expand
derive [] vars = ok vars
derive ((name, template) ∷ derived) vars = do
  v ← value (expand template vars)
  derive derived ((name, v) ∷ vars)

unfoldable pub host_vars : Host → Plan → Run Vars
unfolding derive strip_prefix to_string
host_vars h plan = do
  home ← home_or (h.env (codes "HOME"))
  derive plan.derived (base_vars h home (runtime_or h.uid (h.env (codes "XDG_RUNTIME_DIR"))))

-- `vars.get(var).map(String::is_empty).unwrap_or(true)`
abbrev pub is_missing : Option Text → Bool
is_missing none = true
is_missing (some v) = is_empty v

unfoldable pub check_required : List (Text × Text) → Vars → Run (Unit {0})
unfolding get
check_required [] vars = ok tt
check_required ((name, message) ∷ more) vars =
    if is_missing (get vars name) then err (required message) else check_required more vars

abbrev set_mode : Host → ℕ → Text → Option ℕ → Run (Unit {0})
set_mode h mode path none = err (no_metadata path)
set_mode h mode path (some m) =
    if m % 512 == mode then ok tt else if h.chmod path mode then ok tt else err (no_chmod path)

unfoldable pub ensure_dir : Host → ℕ → Text → Run (Unit {0})
unfolding strip_prefix
ensure_dir h mode path = do
  if is_mount_safe path then ok tt else err (bad_value (unsafe_path path))
  if h.is_dir path || h.create_dir mode path then ok tt else err (no_dir path)
  set_mode h mode path (h.mode path)

unfoldable pub ensure_dirs : Host → List (ℕ × Text) → Vars → Run (Unit {0})
unfolding expand ensure_dir
ensure_dirs h [] vars = ok tt
ensure_dirs h ((mode, template) ∷ dirs) vars = do
  path ← value (expand template vars)
  ensure_dir h mode path
  ensure_dirs h dirs vars

unfoldable pub expand_all : List Text → Vars → Run (List Text)
unfolding expand
expand_all [] vars = ok []
expand_all (t ∷ ts) vars = do v ← value (expand t vars); vs ← expand_all ts vars; ok (v ∷ vs)

unfoldable pub expand_env : List (Text × Text) → Vars → Run (List (Text × Text))
unfolding expand
expand_env [] vars = ok []
expand_env ((name, t) ∷ env) vars = do
  v ← value (expand t vars)
  vs ← expand_env env vars
  ok ((name, v) ∷ vs)

unfoldable pub resolve_podman : Plan → Vars → Run Plan
unfolding expand_all expand_env
resolve_podman plan vars = do
  args ← expand_all plan.podman_args vars
  env ← expand_env plan.podman_env vars
  ok (record plan { podman_args = args; podman_env = env })

abbrev pub parsed : Result PlanError Plan → Run Plan
parsed (err e) = err (bad_plan e)
parsed (ok plan) = ok plan

-- `run` from the plan's text up to `acquire_lease`.
unfoldable pub prepare : Host → Text → Run (Plan × Vars)
unfolding parse_plan host_vars check_required ensure_dirs resolve_podman
prepare h text = do
  plan ← parsed (parse_plan text)
  vars ← host_vars h plan
  check_required plan.require vars
  ensure_dirs h plan.ensure_dirs vars
  resolved ← resolve_podman plan vars
  ok (resolved, vars)

unfoldable pub plan_file : Text → ℕ → Text
unfolding trim_end_matches to_string
plan_file dir uid = trim_end_matches b'/' dir ++ (b'/' ∷ (to_string uid ++ codes ".plan"))

abbrev pub wrappers : Text
wrappers = codes "/run/wrappers/bin"

unfoldable pub with_wrappers : Text → Text
unfolding split bytes_eq
with_wrappers path =
    if any (λ p. bytes_eq p wrappers) (split b':' path)
    then path
    else if is_empty path
    then wrappers
    else wrappers ++ (b':' ∷ path)

-- `argv.insert(2, "-t")` on two arguments or more.
abbrev pub insert_tty : List Text → List Text
insert_tty (program ∷ subcommand ∷ rest) = program ∷ subcommand ∷ codes "-t" ∷ rest
insert_tty argv = argv

-- `launch`'s arguments of podman behind the plan's own; `none` is the failure of `&argv[1..]`.
abbrev pub but_first : List Text → Option (List Text)
but_first [] = none
but_first (program ∷ args) = some args

unfoldable pub launch_args : Plan → Bool → List Text → List Text → Option (List Text)
launch_args plan is_terminal argv user_args = but_first (
    (if plan.tty_auto && is_terminal && leb 2 (length argv) then insert_tty argv else argv)
    ++ user_args)
