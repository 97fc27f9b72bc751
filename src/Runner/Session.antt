-- ===== src/Runner/Session.antt =====
-- nix/app/runner.rs: `start_dbus_proxy`, `launch`, `run` and `main`, with what they start and have to end.
-- The claim on the holder is Runner.Lease's; here it is one answer.
pub mod Steps
pub mod Bus
pub mod Launched
pub mod Tidy
mod Examples
use nix_os_container_podman.Common.{
  ℕ, zero, suc, ◌+◌, ◌-◌, Bool, true, false, not, ◌&&◌, ◌||◌, List, [], ◌∷◌, ◌++◌, reverse, Option,
  none, some, Text, codes, bytes_eq, split, is_empty, if◌then◌else◌, Result, ok, err,
}
use nix_os_container_podman.Runner.Template.{Error, unsafe_path, Vars, expand}
use nix_os_container_podman.Runner.Mounts.{FileSystem, is_mount_safe, resolve}
use nix_os_container_podman.Runner.Plan.{Plan, Dbus}
use nix_os_container_podman.Runner.Holder.{HolderError, panicked as holder_panicked}
use nix_os_container_podman.Runner.Launch.{
  Host, RunError, bad_value, value, ensure_dir, expand_all, prepare, plan_file, launch_args,
}

-- What is started, ended and changed, in order.
pub data Step : Type 0 where
  -- the holder: claimed by `acquire_lease`, given back by `release_lease`
  claimed released : Step
  made_dir removed_file : Text → Step
  -- the socket, the program and its arguments
  spawned_proxy : Text → Text → List Text → Step
  killed_proxy waited_proxy : Step
  -- podman's arguments
  supervised execed : List Text → Step

-- Why a function did not return a value: an error, a panic, or another program in the process.
pub data Stop : Type 0 where
  failed : RunError → Stop
  holder_failed : HolderError → Stop
  no_plan cannot_run_proxy cannot_exec cannot_run panicked replaced : Stop

-- What the host answers. `comes_up i` is whether the socket is there at the i-th look; `supervise` gives
-- the exit code, and `acquire` whether the plan has a holder, which is claimed.
pub record World : Type 0 where
  pub host : Host
  pub fs : FileSystem
  pub read_plan : Text → Option Text
  pub spawn : Text → List Text → Bool
  pub comes_up : ℕ → Bool
  pub is_terminal : Bool
  pub exec : List Text → Bool
  pub supervise : List Text → Option ℕ
  pub acquire : Plan → Vars → Result HolderError Bool

abbrev pub Exec : Type 0 → Type 0
Exec A = List Step → Result Stop A × List Step

abbrev pub pure : {A : Type 0} → A → Exec A
pure a log = (ok a, log)

abbrev pub throw : {A : Type 0} → Stop → Exec A
throw e log = (err e, log)

abbrev pub note : Step → Exec (Unit {0})
note s log = (ok tt, log ++ s ∷ [])

abbrev pub run_error : {A : Type 0} → Result RunError A → Exec A
run_error (err e) log = (err (failed e), log)
run_error (ok a) log = (ok a, log)

abbrev pub continue : {A B : Type 0} → Result Stop A → (A → Exec B) → Exec B
continue (err e) f log = (err e, log)
continue (ok a) f log = f a log

infixl 5 ◌>>=◌ ◌>>◌
abbrev pub ◌>>=◌ : {A B : Type 0} → Exec A → (A → Exec B) → Exec B
◌>>=◌ m f log = let (r, log') = m log in continue r f log'

abbrev pub ◌>>◌ : {A B : Type 0} → Exec A → Exec B → Exec B
m >> k = m >>= λ _. k

-- `Path::parent`, over the pieces between slashes, the last first: empty ones and `.` count at the head of
-- the path only.
abbrev trim_pieces : List Text → List Text
trim_pieces [] = []
trim_pieces (p ∷ []) = p ∷ []
trim_pieces (p ∷ q ∷ rest) =
    let fewer = trim_pieces (q ∷ rest) in
    if is_empty p || bytes_eq p (codes ".") then fewer else p ∷ q ∷ rest

abbrev slashed : List Text → Text
slashed [] = []
slashed (p ∷ []) = p
slashed (p ∷ q ∷ rest) = p ++ (b'/' ∷ slashed (q ∷ rest))

abbrev path_from : List Text → Text
path_from (p ∷ []) = if is_empty p then codes "/" else p
path_from pieces = slashed (reverse pieces)

abbrev but_last : List Text → Option Text
but_last [] = none
but_last (p ∷ []) = if is_empty p then none else some []
but_last (p ∷ q ∷ rest) = some (path_from (trim_pieces (q ∷ rest)))

unfoldable pub parent : Text → Option Text
unfolding split bytes_eq
parent path = but_last (trim_pieces (reverse (split b'/' path)))

abbrev pub ensure_parent : World → Option Text → Exec (Unit {0})
ensure_parent w none = pure tt
ensure_parent w (some dir) = do run_error (ensure_dir w.host 0o700 dir); note (made_dir dir)

-- `ProxyGuard` goes out of scope.
abbrev pub drop_proxy : Text → List Step
drop_proxy socket = killed_proxy ∷ waited_proxy ∷ removed_file socket ∷ []

abbrev pub dropping : {A : Type 0} → Text → Exec A → Exec A
dropping socket m log = let (r, log') = m log in (r, log' ++ drop_proxy socket)

-- The loop that waits for the socket: `tries` are left, and this is look `i`.
unfoldable pub wait_socket : World → ℕ → ℕ → Bool
wait_socket w zero i = false
wait_socket w (suc tries) i =
    let later = wait_socket w tries (suc i) in if w.comes_up i then true else later

abbrev pub proxy_tries : ℕ
proxy_tries = 50

-- The proxy that is up, by its socket, with the values of the launch.
abbrev pub Proxied : Type 0
Proxied = Option Text × Vars

-- Behind the spawn.
unfoldable pub await_proxy : World → Text → Vars → Exec Proxied
unfolding wait_socket
await_proxy w socket vars =
    if wait_socket w proxy_tries 0
    then pure (some socket, (codes "dbus_socket", socket) ∷ vars)
    else dropping socket (pure (none, vars))

abbrev pub spawn_proxy : World → Text → Text → List Text → Exec (Unit {0})
spawn_proxy w socket program args =
    if w.spawn program args
    then note (spawned_proxy socket program args)
    else throw cannot_run_proxy

abbrev pub safe_socket : Text → Result RunError (Unit {0})
safe_socket socket = if is_mount_safe socket then ok tt else err (bad_value (unsafe_path socket))

unfoldable pub start_proxy : World → Dbus → Text → Vars → Text → List Text → Exec Proxied
unfolding await_proxy
start_proxy w dbus upstream vars socket args = do
  spawn_proxy w socket dbus.proxy
      ((codes "unix:path=" ++ upstream) ∷ socket ∷ (args ++ codes "--fd=0" ∷ []))
  await_proxy w socket vars

unfoldable pub clear_socket : World → Dbus → Text → Vars → Text → Exec Proxied
unfolding parent ensure_dir expand_all start_proxy
clear_socket w dbus upstream vars socket = do
  ensure_parent w (parent socket)
  note (removed_file socket)
  run_error (expand_all dbus.args vars) >>= start_proxy w dbus upstream vars socket

unfoldable pub connect_at : World → Dbus → Text → Vars → Text → Exec Proxied
unfolding clear_socket
connect_at w dbus upstream vars socket = do
  run_error (safe_socket socket)
  clear_socket w dbus upstream vars socket

-- `start_dbus_proxy` on a bus that is there.
unfoldable pub connect_bus : World → Dbus → Text → Vars → Exec Proxied
unfolding expand connect_at
connect_bus w dbus upstream vars =
    run_error (value (expand dbus.socket vars)) >>= connect_at w dbus upstream vars

abbrev pub if_bus : World → Dbus → Vars → Text → Exec Proxied
if_bus w dbus vars upstream =
    if w.host.exists upstream then connect_bus w dbus upstream vars else pure (none, vars)

abbrev pub proxy_for : World → Option Dbus → Vars → Exec Proxied
proxy_for w none vars = pure (none, vars)
proxy_for w (some dbus) vars = run_error (value (expand dbus.upstream vars)) >>= if_bus w dbus vars

unfoldable pub start_dbus_proxy : World → Plan → Vars → Exec Proxied
unfolding connect_bus expand
start_dbus_proxy w plan vars = proxy_for w plan.dbus vars

abbrev pub code_or : Option ℕ → Exec ℕ
code_or none = throw cannot_run
code_or (some code) = pure code

-- `command.exec()` and, on a child, `supervise`.
abbrev pub start_podman : World → Bool → List Text → Exec ℕ
start_podman w true args = do note (supervised args); code_or (w.supervise args)
start_podman w false args = do
  note (execed args)
  throw (if w.exec args then replaced else cannot_exec)

-- `&argv[1..]`
abbrev pub slice : Option (List Text) → Exec (List Text)
slice none = throw panicked
slice (some args) = pure args

-- `launch` behind the proxy; `must_wait` says that something is left to clean up.
abbrev pub podman_on : World → Plan → List Text → Bool → List Text → Exec ℕ
podman_on w plan user_args must_wait argv =
    slice (launch_args plan w.is_terminal argv user_args) >>= λ args.
    start_podman w must_wait (plan.podman_args ++ args)

unfoldable pub launch_entry : World → Plan → Vars → List Text → Bool → Exec ℕ
unfolding resolve launch_args
launch_entry w plan vars user_args must_wait =
    run_error (value (resolve w.fs plan.run_argv plan.providers vars))
    >>= podman_on w plan user_args must_wait

abbrev pub with_proxy : World → Plan → List Text → Bool → Proxied → Exec ℕ
with_proxy w plan user_args leased (none, vars) = launch_entry w plan vars user_args leased
with_proxy w plan user_args leased (some socket, vars) =
    dropping socket (launch_entry w plan vars user_args true)

unfoldable pub launch : World → Plan → Vars → List Text → Bool → Exec ℕ
unfolding start_dbus_proxy launch_entry
launch w plan vars user_args leased =
    start_dbus_proxy w plan vars >>= with_proxy w plan user_args leased

abbrev pub acquired : Result HolderError Bool → Exec Bool
acquired (err e) = throw (holder_failed e)
acquired (ok false) = pure false
acquired (ok true) = do note claimed; pure true

-- `release_lease` behind `launch`. A panic unwinds past it, and another program in the process has none.
abbrev pub release_after : Bool → Result Stop ℕ → Exec ℕ
release_after true (err panicked) = throw panicked
release_after true (err replaced) = throw replaced
release_after true (err e) = do note released; throw e
release_after true (ok code) = do note released; pure code
release_after false (err e) = throw e
release_after false (ok code) = pure code

unfoldable pub run_leased : World → Plan → Vars → List Text → Bool → Exec ℕ
unfolding launch
run_leased w plan vars user_args leased log =
    let (r, log') = launch w plan vars user_args leased log in release_after leased r log'

abbrev pub plan_text : Option Text → Exec Text
plan_text none = throw no_plan
plan_text (some text) = pure text

abbrev pub run_prepared : World → List Text → Plan × Vars → Exec ℕ
run_prepared w user_args (plan, vars) =
    acquired (w.acquire plan vars) >>= run_leased w plan vars user_args

abbrev pub run_plan : World → List Text → Text → Exec ℕ
run_plan w user_args text = run_error (prepare w.host text) >>= run_prepared w user_args

unfoldable pub run : World → Text → List Text → Exec ℕ
unfolding prepare plan_file run_leased
run w plan_dir user_args =
    plan_text (w.read_plan (plan_file plan_dir w.host.uid)) >>= run_plan w user_args

-- The exit status, if the process ends as this program.
abbrev pub status_of : Result Stop ℕ → Option ℕ
status_of (ok code) = some code
status_of (err replaced) = none
status_of (err panicked) = some 101
status_of (err (holder_failed holder_panicked)) = some 101
status_of (err e) = some 1

unfoldable pub main : World → List Text → Option ℕ × List Step
unfolding run
main w [] = (some 2, [])
main w (plan_dir ∷ user_args) = let (r, log) = run w plan_dir user_args [] in (status_of r, log)
