-- ===== src/StoreFs/Dirs.antt =====
-- The capability directories of cap-std and the metadata that nix-store-shared-fuse reads through them.
-- What they answer is a parameter: the code reaches no file but through a `Dir`.
use nix_os_container_podman.Common.{ℕ, List, Option, Text, Result}
use nix_os_container_podman.StoreFs.Realize.{PathBuf}

-- A signed number: `negsuc n` is -(n + 1).
pub data ℤ : Type 0 where
  pos negsuc : ℕ → ℤ

-- `cap_std::fs::FileType` as `is_symlink`, `is_dir` and `is_file` read it.
pub data DiskType : Type 0 where
  symlink_type dir_type file_type other_type : DiskType

-- `cap_std::fs::Metadata`
pub record Metadata : Type 0 where
  pub disk_type : DiskType
  pub size : ℕ
  pub blocks : ℕ
  pub atime : ℤ
  pub atime_nsec : ℤ
  pub mtime : ℤ
  pub mtime_nsec : ℤ
  pub ctime : ℤ
  pub ctime_nsec : ℤ
  pub mode : ℕ
  pub nlink : ℕ
  pub uid : ℕ
  pub gid : ℕ
  pub rdev : ℕ
  pub blksize : ℕ

-- `std::io::Error`, as its `raw_os_error`.
abbrev pub IoError : Type 0
IoError = Option ℕ

-- `cap_std::fs::Dir`; a file that was opened is its number, and an entry that cannot be read is `none`.
pub record Dir : Type 0 where
  pub symlink_metadata : PathBuf → Result IoError Metadata
  pub metadata : PathBuf → Result IoError Metadata
  pub read_link_contents : PathBuf → Result IoError PathBuf
  pub read_dir : PathBuf → Result IoError (List (Option Text))
  pub open_nofollow : PathBuf → Result IoError ℕ
  pub open_backing : ℕ → Result IoError ℕ
