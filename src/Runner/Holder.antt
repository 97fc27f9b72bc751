-- ===== src/Runner/Holder.antt =====
-- nix/app/runner.rs: the calls that look at the network holder and start it. A program is the tree of what
-- it asks of the kernel and of podman, with a branch for every answer; messages are left out.
use nix_os_container_podman.Common.{
  ℕ, Bool, true, false, not, List, [], ◌∷◌, Option, none, some, Text, codes, bytes_eq, filter,
  is_empty, ◌==◌, if◌then◌else◌, Result, ok, err,
}
use nix_os_container_podman.StoreCheck.Units.{is_whitespace, trim}
use nix_os_container_podman.StoreCheck.Decimal.{parse_u32}
use nix_os_container_podman.Runner.Template.{Error, Vars}
use nix_os_container_podman.Runner.Mounts.{FileSystem, resolve}
use nix_os_container_podman.Runner.Plan.{Plan}

-- A call of podman about the holder, with its own arguments behind the plan's.
pub data Call : Type 0 where
  exists inspect start remove remove_depend : Text → Call
  create : List Text → Call

abbrev pub arguments : Call → List Text
arguments (exists name) = codes "container" ∷ codes "exists" ∷ name ∷ []
arguments (inspect name) =
    codes "inspect" ∷ codes "--format" ∷ codes "{{.State.Status}} {{.State.Pid}}" ∷ name ∷ []
arguments (start name) = codes "start" ∷ name ∷ []
arguments (remove name) = codes "rm" ∷ codes "-f" ∷ codes "-t" ∷ codes "0" ∷ name ∷ []
arguments (remove_depend name) =
    codes "rm" ∷ codes "-f" ∷ codes "-t" ∷ codes "0" ∷ codes "--depend" ∷ name ∷ []
arguments (create args) = args

-- How a child ends: its success, and what it wrote to stdout.
pub data Ended : Type 0 where
  not_spawned timed_out : Ended
  ended : Bool → Text → Ended

-- `try_lock` of the lease file.
pub data Tried : Type 0 where
  taken would_block lock_failed : Tried

pub data Op : Type 0 where
  -- the guard file: open it at its path, lock it within the limit, close it
  open_guard : Text → Op
  lock_guard drop_guard : Op
  -- the lease file: open it at its path, try an exclusive lock, wait for a shared one, close it
  open_lease : Text → Op
  try_lease share_lease drop_lease : Op
  podman : Call → Op
  net_exists read_comm : ℕ → Op
  -- the entry itself, from its start to its end
  launch : Op

abbrev pub Answer : Op → Type 0
Answer drop_guard = Unit
Answer drop_lease = Unit
Answer try_lease = Tried
Answer (podman call) = Ended
Answer (read_comm pid) = Option Text
Answer launch = Option ℕ
Answer _ = Bool

pub data Prog (A : Type 0) : Type 0 where
  done : A → Prog A
  ask : (op : Op) → (Answer op → Prog A) → Prog A

unfoldable pub and_then : {A B : Type 0} → Prog A → (A → Prog B) → Prog B
and_then (done a) f = f a
and_then (ask op k) f = ask op (λ a. and_then (k a) f)

pub data HolderError : Type 0 where
  no_runtime_directory cannot_open guard_stuck cannot_lock cannot_run stalled : HolderError
  unresolved : Error → HolderError
  not_created not_started not_running : HolderError
  -- an index out of range, which unwinds the stack
  panicked : HolderError

abbrev pub Task : Type 0 → Type 0
Task A = Prog (Result HolderError A)

abbrev pub on_ok : {A B : Type 0} → (A → Task B) → Result HolderError A → Task B
on_ok f (err e) = done (err e)
on_ok f (ok a) = f a

-- `?`
infixl 5 ◌>>=◌ ◌>>◌
abbrev pub ◌>>=◌ : {A B : Type 0} → Task A → (A → Task B) → Task B
m >>= f = and_then m (on_ok f)

abbrev pub ◌>>◌ : {A B : Type 0} → Task A → Task B → Task B
m >> k = m >>= λ _. k

abbrev pub pure : {A : Type 0} → A → Task A
pure a = done (ok a)

abbrev pub throw : {A : Type 0} → HolderError → Task A
throw e = done (err e)

-- What of the launch is the same throughout.
pub record Launch : Type 0 where
  pub plan : Plan
  pub vars : Vars
  pub fs : FileSystem

-- `podman_with`, `podman`, `podman_quiet`
abbrev pub success : Ended → Result HolderError Bool
success not_spawned = err cannot_run
success timed_out = err stalled
success (ended s out) = ok s

unfoldable pub podman_with : Call → Task Bool
podman_with call = ask (podman call) (λ e. done (success e))

-- `out.split_whitespace()`
abbrev onto_word : ℕ → List Text → List Text
onto_word c [] = (c ∷ []) ∷ []
onto_word c (w ∷ ws) = (c ∷ w) ∷ ws

unfoldable pub white_pieces : Text → List Text
white_pieces [] = [] ∷ []
white_pieces (c ∷ s) =
    let rest = white_pieces s in if is_whitespace c then [] ∷ rest else onto_word c rest

unfoldable pub split_whitespace : Text → List Text
unfolding white_pieces
split_whitespace s = filter (λ w. not (is_empty w)) (white_pieces s)

abbrev same_comm : Text → Option Text → Bool
same_comm name none = false
same_comm name (some c) = bytes_eq (trim c) name

abbrev pub has_comm : ℕ → Option Text → Task Bool
has_comm pid none = pure true
has_comm pid (some name) = ask (read_comm pid) (λ c. pure (same_comm name c))

unfoldable pub process_is : ℕ → Option Text → Task Bool
unfolding bytes_eq
process_is pid comm =
    if pid == 0
    then pure false
    else ask (net_exists pid) (λ there. if there then has_comm pid comm else pure false)

abbrev pub alive_pid : Option Text → Option ℕ → Task Bool
alive_pid comm none = pure false
alive_pid comm (some pid) = process_is pid comm

abbrev pub alive_words : Option Text → List Text → Task Bool
alive_words comm (status ∷ pid ∷ more) =
    if bytes_eq status (codes "running") then alive_pid comm (parse_u32 pid) else pure false
alive_words comm _ = pure false

abbrev pub alive_from : Option Text → Ended → Task Bool
alive_from comm not_spawned = throw cannot_run
alive_from comm timed_out = throw stalled
alive_from comm (ended false out) = pure false
alive_from comm (ended true out) = alive_words comm (split_whitespace out)

unfoldable pub holder_alive : Plan → Text → Task Bool
unfolding process_is split_whitespace parse_u32
holder_alive plan name = ask (podman (inspect name)) (alive_from plan.holder_process)

-- `start_holder` behind a creation that podman says has failed.
abbrev pub lost_race : Text → Task (Unit {0})
lost_race name = do there ← podman_with (exists name); if there then pure tt else throw not_created

abbrev pub created : Text → Bool → Task (Unit {0})
created name true = pure tt
created name false = lost_race name

-- `&argv[1..]`
abbrev pub create_with : Text → List Text → Task (Unit {0})
create_with name [] = throw panicked
create_with name (a ∷ args) = do s ← podman_with (create args); created name s

abbrev pub create_from : Text → Result Error (List Text) → Task (Unit {0})
create_from name (err e) = throw (unresolved e)
create_from name (ok argv) = create_with name argv

unfoldable pub create_holder : Launch → Text → Task (Unit {0})
unfolding resolve podman_with and_then
create_holder l name = create_from name (resolve l.fs l.plan.holder_argv l.plan.providers l.vars)

unfoldable pub start_holder : Launch → Text → Task (Unit {0})
unfolding create_holder podman_with and_then
start_holder l name = do
  there ← podman_with (exists name)
  if there then pure tt else create_holder l name
  started ← podman_with (start name)
  if started then pure tt else throw not_started
