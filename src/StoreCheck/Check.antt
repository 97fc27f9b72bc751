-- ===== src/StoreCheck/Check.antt =====
-- prison-store-check/src/lib.rs: the `Host` trait, the skip counts, `check` and `recheck`, and the exit
-- status that main.rs makes of an outcome. The host's answers and the disk's failures are a parameter;
-- what is changed, the files of the skip counts and the commands given, is a `World`.
pub mod Skips
pub mod Outcomes
pub mod Repeated
use nix_os_container_podman.Common.{
  ℕ, zero, suc, ◌+◌, ◌-◌, ◌≤◌, ◌^◌, Bool, true, false, not, ◌&&◌, ◌||◌, List, [], ◌∷◌, ◌++◌, Option,
  none, some, Bytes, Text, codes, bytes_eq, any, is_empty, Result, ok, err, min, ltb, ◌==◌,
  if◌then◌else◌,
}
use nix_os_container_podman.StoreCheck.Units.{
  Error, cannot_read_count, cannot_record_skip, cannot_clear_count, trim, check_unit_name,
}
use nix_os_container_podman.StoreCheck.Argv.{bind_target}
use nix_os_container_podman.StoreCheck.Decimal.{parse_u32, to_string}

abbrev pub max_skips : ℕ
max_skips = 3

pub record View : Type 0 where
  pub unit : Text
  pub target : Bytes

pub data Served : Type 0 where
  expected not_running : Served
  other : Option Bytes → Served

pub data Outcome : Type 0 where
  fresh : Outcome
  restarting gave_up : List Text → Outcome

-- A skip count's file.
pub data File : Type 0 where
  absent unreadable : File
  text : Text → File

-- A call of the host's `restart`, `start` or `arm_recheck` that returned `Ok`.
pub data Command : Type 0 where
  restarted : List Text → Command
  started took_recheck : Text → Command

-- Calls have the latest first; `skips` has the file of each unit.
pub record World : Type 0 where
  pub skips : Text → File
  pub commands : List Command

-- The answers of the host, and whether the runtime directory takes a new count and lets one go.
pub record Host : Type 0 where
  pub main_pid : Text → Result Error ℕ
  pub cmdline : ℕ → Option (List Bytes)
  pub active_state : Text → Result Error Text
  pub restart : List Text → Result Error (Unit {0})
  pub start : Text → Result Error (Unit {0})
  pub arm_recheck : Text → Result Error (Unit {0})
  pub can_record : Text → Bool
  pub can_clear : Text → Bool

-- An action on the world that may fail; what it did before it failed stays done.
abbrev pub Exec : Type 0 → Type 0
Exec A = World → Result Error A × World

abbrev pub pure : {A : Type 0} → A → Exec A
pure a w = (ok a, w)

abbrev pub throw : {A : Type 0} → Error → Exec A
throw e w = (err e, w)

abbrev pub lift : {A : Type 0} → Result Error A → Exec A
lift r w = (r, w)

abbrev pub continue : {A B : Type 0} → Result Error A → (A → Exec B) → Exec B
continue (ok a) f w = f a w
continue (err e) f w = (err e, w)

infixl 5 ◌>>=◌ ◌>>◌
abbrev pub ◌>>=◌ : {A B : Type 0} → Exec A → (A → Exec B) → Exec B
◌>>=◌ m f w = let (r, w') = m w in continue r f w'

abbrev pub ◌>>◌ : {A B : Type 0} → Exec A → Exec B → Exec B
m >> k = m >>= λ _. k

abbrev update : (Text → File) → Text → File → Text → File
update files unit file u = if bytes_eq u unit then file else files u

-- `text.trim().parse().unwrap_or(0)`
abbrev or_zero : Option ℕ → ℕ
or_zero none = 0
or_zero (some n) = n

unfoldable pub file_count : Text → File → Result Error ℕ
file_count unit absent = ok 0
file_count unit unreadable = err (cannot_read_count unit)
file_count unit (text s) = ok (or_zero (parse_u32 (trim s)))

-- `Skips::count`
unfoldable pub count : Text → Exec ℕ
count unit = do lift (check_unit_name unit); λ w. (file_count unit (w.skips unit), w)

abbrev pub write_count : Host → Text → ℕ → Exec (Unit {0})
write_count host unit n w =
    if host.can_record unit
    then (ok tt, record w { skips = update w.skips unit (text (to_string n ++ b'\n' ∷ [])) })
    else (err (cannot_record_skip unit), w)

-- `Skips::bump`: the staging file is renamed over the old one, so a failure leaves that as it was.
unfoldable pub bump : Host → Text → Exec ℕ
unfolding count
bump host unit = do
  n ← count unit
  lift (check_unit_name unit)
  write_count host unit (min (n + 1) (2 ^ 32 - 1))
  pure (min (n + 1) (2 ^ 32 - 1))

abbrev pub remove_count : Host → Text → File → Exec (Unit {0})
remove_count host unit absent w = (ok tt, w)
remove_count host unit _ w =
    if host.can_clear unit
    then (ok tt, record w { skips = update w.skips unit absent })
    else (err (cannot_clear_count unit), w)

-- `Skips::clear`
unfoldable pub clear : Host → Text → Exec (Unit {0})
clear host unit = do lift (check_unit_name unit); λ w. remove_count host unit (w.skips unit) w

-- A call that returns `Ok` is noted.
abbrev pub note : Result Error (Unit {0}) → Command → Exec (Unit {0})
note (ok _) c w = (ok tt, record w { commands = c ∷ w.commands })
note (err e) c w = (err e, w)

-- The match on `bind_target(&argv)`.
abbrev pub judge : Option Bytes → Bytes → Served
judge none target = other none
judge (some t) target = if bytes_eq t target then expected else other (some t)

abbrev pub served_by : Option (List Bytes) → Bytes → Served
served_by none target = not_running
served_by (some argv) target = judge (bind_target argv) target

abbrev pub served_pid : Host → Result Error ℕ → Bytes → Result Error Served
served_pid host (err e) target = err e
served_pid host (ok pid) target =
    if pid == 0 then ok not_running else ok (served_by (host.cmdline pid) target)

unfoldable pub served : Host → View → Result Error Served
served host view = served_pid host (host.main_pid view.unit) view.target

abbrev is_expected : Served → Bool
is_expected expected = true
is_expected _ = false

abbrev pub collect :
    Text → Result Error Served → Result Error (List Text) → Result Error (List Text)
collect unit (err e) rest = err e
collect unit (ok s) (err e) = err e
collect unit (ok s) (ok stale) = ok (if is_expected s then stale else unit ∷ stale)

-- The loop over the views, which stops at the first error.
unfoldable pub stale_units : Host → List View → Result Error (List Text)
stale_units host [] = ok []
stale_units host (v ∷ views) = collect v.unit (served host v) (stale_units host views)

-- `check` on stale views, behind the bump that gave `n`.
unfoldable pub skip_counted : Host → Text → List Text → ℕ → Exec Outcome
skip_counted host unit stale n = do
  note (host.restart (stale ++ unit ∷ [])) (restarted (stale ++ unit ∷ []))
  if ltb max_skips n
      then pure (gave_up stale)
      else do note (host.arm_recheck unit) (took_recheck unit); pure (restarting stale)

unfoldable pub skip : Host → Text → List Text → Exec Outcome
unfolding skip_counted
skip host unit stale = do n ← bump host unit; skip_counted host unit stale n

unfoldable pub settle : Host → Text → List Text → Exec Outcome
settle host unit [] = do clear host unit; pure fresh
settle host unit (s ∷ stale) = skip host unit (s ∷ stale)

unfoldable pub check : Host → Text → List View → Exec Outcome
check host unit views = do stale ← lift (stale_units host views); settle host unit stale

abbrev pub is_running : Text → Bool
is_running state =
    any (bytes_eq state)
      (codes "active" ∷ codes "activating" ∷ codes "reloading" ∷ codes "refreshing" ∷ [])

unfoldable pub recheck : Host → Text → Exec (Unit {0})
recheck host unit = do
  state ← lift (host.active_state unit)
  if is_running state then pure tt else note (host.start unit) (started unit)

-- The exit status of main.rs: ExecCondition goes on at 0, skips the start at 1 and fails it at 255.
unfoldable pub exit_status : Result Error Outcome → ℕ
exit_status (ok fresh) = 0
exit_status (ok (restarting stale)) = 1
exit_status (ok (gave_up stale)) = 255
exit_status (err e) = 255
