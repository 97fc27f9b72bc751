-- ===== src/StoreFs/Nodes.antt =====
-- nix-store-shared-fuse/src/fs/nodes.rs: which node a name stands for, and the attributes of a node.
pub mod Times
use nix_os_container_podman.Common.{
  ℕ, suc, ◌+◌, ◌*◌, ◌%◌, ◌^◌, Bool, true, false, List, [], ◌∷◌, Option, none, some, Text, Result,
  ok, err, max, if◌then◌else◌,
}
use nix_os_container_podman.StoreFs.Realize.{
  PathBuf, cur_dir, path_of, is_empty_path, join, Realization, realize, keep_symlink, panicked,
  classify, resolve_target,
}
use nix_os_container_podman.StoreFs.Dirs.{
  Dir, DiskType, symlink_type, dir_type, file_type, other_type, Metadata, IoError, ℤ, pos, negsuc,
}
use nix_os_container_podman.StoreFs.State.{
  Backing, bind, redirect, NodeKind, dir, file, symlink, realized_dir, Node, Dirs, StoreFs, dir_for,
  bind_logical,
}

abbrev pub child_path : PathBuf → Text → PathBuf
child_path parent name = if is_empty_path parent then path_of name else join parent (path_of name)

-- The kind of a realized target; nothing else than directories and files is realized.
abbrev target_kind : Result IoError Metadata → Option NodeKind
target_kind (err e) = none
target_kind (ok md) = elim md.disk_type [
  | dir_type ↦ some realized_dir
  | file_type ↦ some file
  | symlink_type ↦ none
  | other_type ↦ none
]

abbrev pub realized_kind : Dir → PathBuf → Option NodeKind
realized_kind d rel = if is_empty_path rel then some realized_dir else target_kind (d.metadata rel)

abbrev pub redirected : PathBuf → PathBuf → Option NodeKind → Node
redirected child rel (some k) = record { backing = redirect; rel = rel; kind = k }
redirected child rel none = record { backing = bind; rel = child; kind = symlink }

abbrev pub realized : Dir → PathBuf → Realization → Option Node
realized d child (realize rel) = some (redirected child rel (realized_kind d rel))
realized d child keep_symlink = some (record { backing = bind; rel = child; kind = symlink })
realized d child panicked = none

abbrev pub bind_symlink : Dirs → StoreFs → PathBuf → PathBuf → Result IoError PathBuf → Option Node
bind_symlink dirs fs parent child (err e) = none
bind_symlink dirs fs parent child (ok raw_target) = realized dirs.redirect_dir child (
    classify (resolve_target (bind_logical fs parent) raw_target) fs.resolution_root
      fs.bind_target_logical)

abbrev pub bind_typed : Dirs → StoreFs → PathBuf → PathBuf → DiskType → Option Node
bind_typed dirs fs parent child symlink_type =
    bind_symlink dirs fs parent child (dirs.bind_dir.read_link_contents child)
bind_typed dirs fs parent child dir_type = some (record { backing = bind; rel = child; kind = dir })
bind_typed dirs fs parent child file_type =
    some (record { backing = bind; rel = child; kind = file })
bind_typed dirs fs parent child other_type = none

abbrev pub bind_found : Dirs → StoreFs → PathBuf → PathBuf → Result IoError Metadata → Option Node
bind_found dirs fs parent child (err e) = none
bind_found dirs fs parent child (ok md) = bind_typed dirs fs parent child md.disk_type

-- `resolve_bind_child`
unfoldable pub resolve_bind_child : Dirs → StoreFs → PathBuf → Text → Option Node
resolve_bind_child dirs fs parent name =
    let child = child_path parent name in
    bind_found dirs fs parent child (dirs.bind_dir.symlink_metadata child)

abbrev pub redirect_kind : DiskType → Option NodeKind
redirect_kind symlink_type = some symlink
redirect_kind dir_type = some dir
redirect_kind file_type = some file
redirect_kind other_type = none

abbrev pub redirect_typed : PathBuf → Option NodeKind → Option Node
redirect_typed child none = none
redirect_typed child (some k) = some (record { backing = redirect; rel = child; kind = k })

abbrev pub redirect_found : PathBuf → Result IoError Metadata → Option Node
redirect_found child (err e) = none
redirect_found child (ok md) = redirect_typed child (redirect_kind md.disk_type)

-- `resolve_redirect_child`
unfoldable pub resolve_redirect_child : Dirs → PathBuf → Text → Option Node
resolve_redirect_child dirs parent name =
    let child = child_path parent name in
    redirect_found child (dirs.redirect_dir.symlink_metadata child)

-- The match on the parent's backing, in `lookup` and `readdir`.
abbrev pub resolve_child : Dirs → StoreFs → Node → Text → Option Node
resolve_child dirs fs parent name = elim parent.backing [
  | bind ↦ resolve_bind_child dirs fs parent.rel name
  | redirect ↦ resolve_redirect_child dirs parent.rel name
]

abbrev pub or_cur_dir : PathBuf → PathBuf
or_cur_dir rel =
    let here : PathBuf = record { absolute = false; parts = cur_dir ∷ [] } in
    if is_empty_path rel then here else rel

-- `node_metadata`
abbrev node_metadata : Dirs → Node → Result IoError Metadata
node_metadata dirs node =
    let d = dir_for dirs node.backing in
    elim node.kind [
      | symlink ↦ d.symlink_metadata (or_cur_dir node.rel)
      | dir ↦ d.metadata (or_cur_dir node.rel)
      | file ↦ d.metadata (or_cur_dir node.rel)
      | realized_dir ↦ d.metadata (or_cur_dir node.rel)
    ]

-- A `SystemTime`, in nanoseconds from the epoch.
pub data SystemTime : Type 0 where
  after before : ℕ → SystemTime

-- `nsec.max(0) as u32`
abbrev nanos : ℤ → ℕ
nanos (pos n) = n % 2 ^ 32
nanos (negsuc n) = 0

unfoldable pub system_time : ℤ → ℤ → SystemTime
system_time (pos s) nsec = after (s * 10 ^ 9 + nanos nsec)
system_time (negsuc s) nsec = before ((s + 1) * 10 ^ 9 + nanos nsec)

pub data FileType : Type 0 where
  directory regular_file symlink_file : FileType

abbrev pub file_type_of : NodeKind → FileType
file_type_of dir = directory
file_type_of realized_dir = directory
file_type_of file = regular_file
file_type_of symlink = symlink_file

pub record FileAttr : Type 0 where
  pub ino : ℕ
  pub size : ℕ
  pub blocks : ℕ
  pub atime : SystemTime
  pub mtime : SystemTime
  pub ctime : SystemTime
  pub crtime : SystemTime
  pub kind : FileType
  pub perm : ℕ
  pub nlink : ℕ
  pub uid : ℕ
  pub gid : ℕ
  pub rdev : ℕ
  pub blksize : ℕ
  pub flags : ℕ

abbrev metadata_to_attr : ℕ → NodeKind → Metadata → FileAttr
metadata_to_attr ino kind md = record {
  ino = ino;
  size = md.size;
  blocks = md.blocks;
  atime = system_time md.atime md.atime_nsec;
  mtime = system_time md.mtime md.mtime_nsec;
  ctime = system_time md.ctime md.ctime_nsec;
  crtime = after 0;
  kind = file_type_of kind;
  perm = md.mode % 2 ^ 12;
  nlink = max md.nlink 1 % 2 ^ 32;
  uid = md.uid;
  gid = md.gid;
  rdev = md.rdev % 2 ^ 32;
  blksize = max md.blksize 512 % 2 ^ 32;
  flags = 0;
}

abbrev attr_of : ℕ → NodeKind → Result IoError Metadata → Option FileAttr
attr_of ino kind (err e) = none
attr_of ino kind (ok md) = some (metadata_to_attr ino kind md)

-- `attr_for`
unfoldable pub attr_for : Dirs → ℕ → Node → Option FileAttr
attr_for dirs ino node = attr_of ino node.kind (node_metadata dirs node)
