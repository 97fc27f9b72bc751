-- ===== src/StoreCheck/Argv.antt =====
-- prison-store-check/src/lib.rs: what a daemon's command line says that it serves.
pub mod Targets
use nix_os_container_podman.Common.{
  ℕ, Bool, true, false, ◌&&◌, List, [], ◌∷◌, ◌++◌, reverse, Option, none, some, Bytes, codes,
  bytes_eq, strip_prefix, split, is_empty, if◌then◌else◌, ◌==◌,
}

abbrev pub bind_target_flag : Bytes
bind_target_flag = codes "--bind-target"

-- `it.next().cloned()`
abbrev next : List Bytes → Option Bytes
next [] = none
next (a ∷ rest) = some a

-- The value of `--bind-target=...`.
unfoldable pub joined_value : Bytes → Option Bytes
joined_value arg = strip_prefix (bind_target_flag ++ (b'=' ∷ [])) arg

unfoldable pub bind_target : List Bytes → Option Bytes
unfolding joined_value
bind_target [] = none
bind_target (arg ∷ rest) =
    let later = bind_target rest in
    if bytes_eq arg bind_target_flag
    then next rest
    else elim (joined_value arg) [ some value ↦ some value | none ↦ later ]

-- `raw.strip_suffix(&[0]).unwrap_or(&raw)`
abbrev dropped : Bytes → Bytes → Bytes
dropped raw [] = raw
dropped raw (b ∷ rest) = if b == 0 then reverse rest else raw

abbrev drop_final_nul : Bytes → Bytes
drop_final_nul raw = dropped raw (reverse raw)

-- `System::cmdline` on what `/proc/<pid>/cmdline` holds, `none` if it cannot be read.
unfoldable pub cmdline : Option Bytes → Option (List Bytes)
cmdline none = none
cmdline (some raw) = if is_empty raw then none else some (split 0 (drop_final_nul raw))
