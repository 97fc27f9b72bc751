-- ===== src/StoreFs/Main.antt =====
-- nix-store-shared-fuse/src/main.rs behind the parsing of the command line: the test of CAP_SYS_ADMIN, the
-- two roots and the options of the mount. What the host answers is a parameter.
pub mod Capability
pub mod Mounted
mod Examples
use nix_os_container_podman.Common.{
  ℕ, ◌+◌, ◌-◌, ◌*◌, ◌/◌, ◌%◌, ◌^◌, Bool, true, false, ◌&&◌, List, [], ◌∷◌, ◌++◌, Option, none, some,
  ◌>>=◌, Text, codes, strip_prefix, ltb, leb, ◌==◌, if◌then◌else◌, is_ascii_digit, Result, ok, err,
}
use nix_os_container_podman.Runner.Texts.{lines}
use nix_os_container_podman.StoreCheck.Units.{trim}
use nix_os_container_podman.StoreFs.Realize.{PathBuf, normalize}
use nix_os_container_podman.StoreFs.Dirs.{Dir}
use nix_os_container_podman.StoreFs.State.{StoreFs, Dirs, new}

-- `char::to_digit(16)`
abbrev pub hex_digit : ℕ → Option ℕ
hex_digit c =
    if is_ascii_digit c
    then some (c - b'0')
    else if leb b'a' c && leb c b'f'
    then some (c - b'a' + 10)
    else if leb b'A' c && leb c b'F'
    then some (c - b'A' + 10)
    else none

-- One more digit; `none` past `u64::MAX`.
abbrev pub shift_in : ℕ → ℕ → Option ℕ
shift_in acc d = if ltb (acc * 16 + d) (2 ^ 64) then some (acc * 16 + d) else none

unfoldable pub parse_hex : ℕ → Text → Option ℕ
parse_hex acc [] = some acc
parse_hex acc (c ∷ cs) = do d ← hex_digit c; acc' ← shift_in acc d; parse_hex acc' cs

abbrev hex_digits : Text → Option ℕ
hex_digits [] = none
hex_digits (c ∷ cs) = parse_hex 0 (c ∷ cs)

-- `u64::from_str_radix(s, 16)`: one leading `+` may stand.
unfoldable pub from_str_radix_16 : Text → Option ℕ
unfolding parse_hex
from_str_radix_16 [] = none
from_str_radix_16 (c ∷ cs) = if c == b'+' then hex_digits cs else hex_digits (c ∷ cs)

abbrev pub cap_sys_admin : ℕ
cap_sys_admin = 21

-- `bits & (1 << CAP_SYS_ADMIN) != 0`
abbrev pub has_bit : ℕ → Bool
has_bit bits = bits / 2 ^ cap_sys_admin % 2 == 1

abbrev pub cap_eff : Text
cap_eff = codes "CapEff:"

-- The loop over the lines, which ends at the first CapEff, readable or not.
unfoldable pub cap_in : List Text → Option Bool
unfolding from_str_radix_16
cap_in [] = none
cap_in (line ∷ more) = elim (strip_prefix cap_eff line) [
  | some hex ↦ do bits ← from_str_radix_16 (trim hex); some (has_bit bits)
  | none ↦ cap_in more
]

-- `has_cap_sys_admin` on /proc/self/status, `none` if it cannot be read.
unfoldable pub has_cap_sys_admin : Option Text → Option Bool
unfolding cap_in
has_cap_sys_admin status = do text ← status; cap_in (lines text)

pub data Error : Type 0 where
  no_cap_sys_admin cannot_verify no_open_files : Error
  opening_bind_target opening_redirect_root mounting : Error

abbrev pub require_bit : Option Bool → Result Error (Unit {0})
require_bit (some true) = ok tt
require_bit (some false) = err no_cap_sys_admin
require_bit none = err cannot_verify

unfoldable pub require_cap_sys_admin : Option Text → Result Error (Unit {0})
unfolding has_cap_sys_admin
require_cap_sys_admin status = require_bit (has_cap_sys_admin status)

-- `Args`, as clap gives them.
pub record Args : Type 0 where
  pub bind_target : PathBuf
  pub resolution_root : PathBuf
  pub redirect_root : Option PathBuf
  pub allow_other : Bool
  pub nosuid : Bool
  pub mountpoint : PathBuf
  pub max_open_files : ℕ

pub data MountOption : Type 0 where
  read_only no_dev no_suid allow_others : MountOption
  fs_name subtype : Text → MountOption

-- What `fuser::mount2` is called with.
pub record Mount : Type 0 where
  pub filesystem : StoreFs
  pub dirs : Dirs
  pub mountpoint : PathBuf
  pub options : List MountOption

-- /proc/self/status, the directories that can be opened, and whether the mount runs to its end.
pub record Machine : Type 0 where
  pub status : Option Text
  pub open_dir : PathBuf → Option Dir
  pub mount : Mount → Bool

abbrev pub if_set : Bool → MountOption → List MountOption
if_set true o = o ∷ []
if_set false o = []

abbrev pub options_of : Args → List MountOption
options_of args =
    read_only
    ∷ fs_name (codes "nix-store-shared")
    ∷ subtype (codes "nixstoreshared")
    ∷ no_dev
    ∷ (if_set args.nosuid no_suid ++ if_set args.allow_other allow_others)

-- `args.redirect_root.clone().map(|p| normalize(&p)).unwrap_or_else(|| resolution_root.clone())`
abbrev pub redirect_root_of : Args → PathBuf
redirect_root_of args = elim args.redirect_root [
  | some p ↦ normalize p
  | none ↦ normalize args.resolution_root
]

abbrev pub mount_of : Args → Dir → Dir → Mount
mount_of args bind_dir redirect_dir = record {
  filesystem =
      new (normalize args.resolution_root) (normalize args.bind_target) args.max_open_files;
  dirs = record { bind_dir = bind_dir; redirect_dir = redirect_dir };
  mountpoint = args.mountpoint;
  options = options_of args;
}

abbrev pub opened : Option Dir → Error → Result Error Dir
opened none e = err e
opened (some d) e = ok d

infixl 5 ◌>>?◌
abbrev pub ◌>>?◌ : {A B : Type 0} → Result Error A → (A → Result Error B) → Result Error B
err e >>? f = err e
ok a >>? f = f a

-- `main` up to the mount.
unfoldable pub prepare : Machine → Args → Result Error Mount
unfolding require_cap_sys_admin
prepare m args = require_cap_sys_admin m.status >>? λ _.
    (if ltb 0 args.max_open_files then ok tt else err no_open_files) >>? λ _.
    opened (m.open_dir args.bind_target) opening_bind_target >>? λ bind_dir.
    opened (m.open_dir (redirect_root_of args)) opening_redirect_root >>? λ redirect_dir.
    ok (mount_of args bind_dir redirect_dir)

abbrev pub run_mount : Machine → Mount → Result Error Mount
run_mount m mount = if m.mount mount then ok mount else err mounting

-- `main`; on Ok, with the mount that has run.
unfoldable pub main : Machine → Args → Result Error Mount
unfolding prepare
main m args = prepare m args >>? run_mount m
