-- ===== src/Prison/Users.antt =====
-- nix/prison/user-manager-generator.rs: the uid of an account in /etc/passwd, and the drop-in that makes a
-- prison's target require the manager of that account. What the disk answers is a parameter.
pub mod Accounts
pub mod DropIns
use nix_os_container_podman.Common.{
  ℕ, Bool, true, false, not, ◌&&◌, ◌||◌, List, [], ◌∷◌, ◌++◌, Option, none, some, ◌>>=◌, Text,
  codes, bytes_eq, contains, split, join, is_empty, all, is_ascii_alphanumeric, Result, ok, err,
  if◌then◌else◌,
}
use nix_os_container_podman.Runner.Texts.{lines}
use nix_os_container_podman.StoreCheck.Decimal.{parse_u32, to_string}

pub data Error : Type 0 where
  missing_account duplicate_account : Text → Error
  invalid_name : Error
  missing_output unreadable_passwd : Error
  -- what the disk refuses
  io : Error

-- The third field, `fields.nth(1)` behind the first.
abbrev pub third : List Text → Option Text
third (name ∷ password ∷ uid ∷ rest) = some uid
third _ = none

abbrev pub is_of : Text → List Text → Bool
is_of user [] = false
is_of user (name ∷ fields) = bytes_eq name user

-- The closure of `filter_map`.
abbrev pub uid_in : Text → List Text → Option ℕ
uid_in user fields = if is_of user fields then third fields >>= parse_u32 else none

abbrev pub onto : Option ℕ → List ℕ → List ℕ
onto none uids = uids
onto (some uid) uids = uid ∷ uids

unfoldable pub uids_of : Text → List Text → List ℕ
uids_of user [] = []
uids_of user (line ∷ more) = onto (uid_in user (split b':' line)) (uids_of user more)

abbrev pub only : Text → List ℕ → Result Error ℕ
only user [] = err (missing_account user)
only user (uid ∷ []) = ok uid
only user (uid ∷ again ∷ more) = err (duplicate_account user)

unfoldable pub account_uid : Text → Text → Result Error ℕ
unfolding uids_of
account_uid passwd user = only user (uids_of user (lines passwd))

-- A change of the disk. A file is written under its temporary name and then renamed.
pub data Change : Type 0 where
  made_dir : Text → Change
  wrote : Text → Text → Change
  renamed : Text → Text → Change

abbrev pub Gen : Type 0 → Type 0
Gen A = List Change → Result Error A × List Change

abbrev pub pure : {A : Type 0} → A → Gen A
pure a log = (ok a, log)

abbrev pub throw : {A : Type 0} → Error → Gen A
throw e log = (err e, log)

abbrev pub lift : {A : Type 0} → Result Error A → Gen A
lift r log = (r, log)

abbrev pub continue : {A B : Type 0} → Result Error A → (A → Gen B) → Gen B
continue (err e) f log = (err e, log)
continue (ok a) f log = f a log

infixl 5 ◌>>~◌ ◌>>◌
abbrev pub ◌>>~◌ : {A B : Type 0} → Gen A → (A → Gen B) → Gen B
◌>>~◌ m f log = let (r, log') = m log in continue r f log'

abbrev pub ◌>>◌ : {A B : Type 0} → Gen A → Gen B → Gen B
m >> k = m >>~ λ _. k

-- A change that the disk takes is noted, in order.
abbrev pub change : (Change → Bool) → Change → Gen (Unit {0})
change disk c log = if disk c then (ok tt, log ++ c ∷ []) else (err io, log)

abbrev is_name_char : ℕ → Bool
is_name_char b = is_ascii_alphanumeric b || contains b (codes "_.-")

abbrev pub is_account_name : Text → Bool
is_account_name user = not (is_empty user) && all is_name_char user

abbrev pub directory_of : Text → Text → Text
directory_of output user = join output (codes "prison-user-" ++ (user ++ codes ".target.d"))

abbrev pub drop_in : ℕ → Text
drop_in uid =
    codes "[Unit]\nRequires=user@"
    ++ (to_string uid ++ (codes ".service\nAfter=user@" ++ (to_string uid ++ codes ".service\n")))

abbrev pub temporary : Text → Text
temporary directory = join directory (codes "account.conf.tmp")

abbrev pub final : Text → Text
final directory = join directory (codes "account.conf")

module _ (disk : Change → Bool) (output passwd : Text) where
  unfoldable pub write_drop_in : Text → ℕ → Gen (Unit {0})
  write_drop_in directory uid = do
    change disk (made_dir directory)
    change disk (wrote (temporary directory) (drop_in uid))
    change disk (renamed (temporary directory) (final directory))

  unfoldable pub generate_user : Text → Gen (Unit {0})
  unfolding account_uid write_drop_in
  generate_user user =
      if is_account_name user
      then lift (account_uid passwd user) >>~ write_drop_in (directory_of output user)
      else throw invalid_name

  unfoldable pub generate : List Text → Gen (Unit {0})
  unfolding generate_user
  generate [] = pure tt
  generate (user ∷ users) = do generate_user user; generate users

abbrev with_passwd : (Change → Bool) → Text → Text → Option Text → Gen (Unit {0})
with_passwd disk users output none = throw unreadable_passwd
with_passwd disk users output (some passwd) = generate disk output passwd (lines users)

abbrev with_output : (Change → Bool) → Text → Option Text → Option Text → Gen (Unit {0})
with_output disk users passwd none = throw missing_output
with_output disk users passwd (some output) = with_passwd disk users output passwd

abbrev exit_code : Result Error (Unit {0}) → ℕ
exit_code (ok u) = 0
exit_code (err e) = 1

-- `main` on USERS, the first argument and what /etc/passwd holds.
unfoldable pub main : (Change → Bool) → Text → Option Text → Option Text → ℕ × List Change
unfolding generate
main disk users output passwd =
    let (r, log) = with_output disk users passwd output [] in (exit_code r, log)
