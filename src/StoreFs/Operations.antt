-- ===== src/StoreFs/Operations.antt =====
-- nix-store-shared-fuse/src/fs/operations.rs and mutations.rs: the requests of the kernel, each answered
-- with one reply. How many entries of a directory fit in a reply is fuser's, a parameter of `readdir`.
pub mod Runs
pub mod Confined
pub mod Within
use nix_os_container_podman.Common.{
  ℕ, ◌+◌, Bool, true, false, ◌&&◌, ◌||◌, List, [], ◌∷◌, ◌++◌, Option, none, some, Bytes, Text,
  Result, ok, err, ◌==◌, drop, if◌then◌else◌,
}
use nix_os_container_podman.StoreFs.Realize.{PathBuf}
use nix_os_container_podman.StoreFs.Dirs.{Dir, IoError}
use nix_os_container_podman.StoreFs.State.{
  enoent, eio, eacces, enotdir, eisdir, einval, erofs, Backing, NodeKind, dir, file, symlink,
  realized_dir, Node, Backed, Dirs, StoreFs, dir_for, Opened, backing_get_or, backing_put, intern,
}
use nix_os_container_podman.StoreFs.Nodes.{
  FileAttr, FileType, directory, file_type_of, resolve_child, attr_for, or_cur_dir,
}

pub record Entry : Type 0 where
  pub entry_ino : ℕ
  pub next_offset : ℕ
  pub entry_kind : FileType
  pub name : Text

-- The numbers of `reply.statfs`.
pub record Statfs : Type 0 where
  pub blocks : ℕ
  pub bfree : ℕ
  pub bavail : ℕ
  pub files : ℕ
  pub ffree : ℕ
  pub bsize : ℕ
  pub namelen : ℕ
  pub frsize : ℕ

pub data Reply : Type 0 where
  error : ℕ → Reply
  entry attr : FileAttr → Reply
  data_of : PathBuf → Reply
  opened : ℕ → Reply
  opened_passthrough : ℕ → Backed → Reply
  directory_entries : List Entry → Reply
  statfs_of : Statfs → Reply
  done : Reply

abbrev is_dir_kind : NodeKind → Bool
is_dir_kind dir = true
is_dir_kind realized_dir = true
is_dir_kind file = false
is_dir_kind symlink = false

-- `e.raw_os_error().unwrap_or(EIO)`
abbrev raw_or_eio : IoError → ℕ
raw_or_eio none = eio
raw_or_eio (some e) = e

abbrev lookup_attr : StoreFs → ℕ → Text → Node → Option FileAttr → Reply × StoreFs
lookup_attr fs parent name child none = (error eio, fs)
lookup_attr fs parent name child (some a) =
    let (ino, fs') = intern fs parent name child in (entry (record a { ino = ino }), fs')

abbrev lookup_child : Dirs → StoreFs → ℕ → Text → Option Node → Reply × StoreFs
lookup_child dirs fs parent name none = (error enoent, fs)
lookup_child dirs fs parent name (some child) =
    lookup_attr fs parent name child (attr_for dirs 0 child)

abbrev lookup_in : Dirs → StoreFs → ℕ → Text → Option Node → Reply × StoreFs
lookup_in dirs fs parent name none = (error enoent, fs)
lookup_in dirs fs parent name (some node) =
    let found = lookup_child dirs fs parent name (resolve_child dirs fs node name) in
    if is_dir_kind node.kind then found else (error enotdir, fs)

unfoldable pub lookup : Dirs → ℕ → Text → StoreFs → Reply × StoreFs
lookup dirs parent name fs = lookup_in dirs fs parent name (fs.nodes parent)

abbrev attr_reply : Option FileAttr → Reply
attr_reply none = error eio
attr_reply (some a) = attr a

abbrev getattr_of : Dirs → ℕ → Option Node → Reply
getattr_of dirs ino none = error enoent
getattr_of dirs ino (some node) = attr_reply (attr_for dirs ino node)

unfoldable pub getattr : Dirs → ℕ → StoreFs → Reply × StoreFs
getattr dirs ino fs = (getattr_of dirs ino (fs.nodes ino), fs)

abbrev link_reply : Result IoError PathBuf → Reply
link_reply (ok target) = data_of target
link_reply (err e) = error (raw_or_eio e)

abbrev readlink_of : Dirs → Option Node → Reply
readlink_of dirs none = error enoent
readlink_of dirs (some node) = elim node.kind [
  | symlink ↦ link_reply ((dir_for dirs node.backing).read_link_contents node.rel)
  | dir ↦ error einval
  | file ↦ error einval
  | realized_dir ↦ error einval
]

unfoldable pub readlink : Dirs → ℕ → StoreFs → Reply × StoreFs
readlink dirs ino fs = (readlink_of dirs (fs.nodes ino), fs)

abbrev opendir_of : Option Node → Reply
opendir_of none = error enoent
opendir_of (some node) = if is_dir_kind node.kind then opened 0 else error enotdir

unfoldable pub opendir : ℕ → StoreFs → Reply × StoreFs
opendir ino fs = (opendir_of (fs.nodes ino), fs)

-- `pending`: the entries that can be read and stand for a node.
abbrev pend : Text → Option Node → List (Text × Node) → List (Text × Node)
pend name none rest = rest
pend name (some child) rest = (name, child) ∷ rest

unfoldable pub pending : Dirs → StoreFs → Node → List (Option Text) → List (Text × Node)
pending dirs fs node [] = []
pending dirs fs node (none ∷ entries) = pending dirs fs node entries
pending dirs fs node (some name ∷ entries) =
    pend name (resolve_child dirs fs node name) (pending dirs fs node entries)

abbrev Listed : Type 0
Listed = ℕ × FileType × Text

-- The loop that interns what is pending.
unfoldable pub intern_all : StoreFs → ℕ → List (Text × Node) → List Listed × StoreFs
intern_all fs parent [] = ([], fs)
intern_all fs parent ((name, child) ∷ rest) =
    let (ino, fs1) = intern fs parent name child in
    let (listed, fs2) = intern_all fs1 parent rest in
    ((ino, file_type_of child.kind, name) ∷ listed, fs2)

abbrev number : ℕ → List Listed → List Entry
number i [] = []
number i ((ino, t, name) ∷ rest) =
    record { entry_ino = ino; next_offset = i + 1; entry_kind = t; name = name }
    ∷ number (i + 1) rest

-- The entries that `reply.add` takes until it says that the reply is full.
abbrev add_entries : (List Entry → Entry → Bool) → List Entry → List Entry → List Entry
add_entries is_full added [] = added
add_entries is_full added (e ∷ rest) =
    let more = add_entries is_full (added ++ (e ∷ [])) rest in
    if is_full added e then added else more

abbrev readdir_names :
    Dirs
    → (List Entry → Entry → Bool)
    → ℕ
    → ℕ
    → StoreFs
    → Node
    → Result IoError (List (Option Text))
    → Reply × StoreFs
readdir_names dirs is_full ino offset fs node (err e) = (error (raw_or_eio e), fs)
readdir_names dirs is_full ino offset fs node (ok names) =
    let (listed, fs') = intern_all fs ino (pending dirs fs node names) in
    let entries = (ino, directory, b'.' ∷ []) ∷ (ino, directory, b'.' ∷ b'.' ∷ []) ∷ listed in
    (directory_entries (add_entries is_full [] (drop offset (number 0 entries))), fs')

abbrev readdir_of :
    Dirs → (List Entry → Entry → Bool) → ℕ → ℕ → StoreFs → Option Node → Reply × StoreFs
readdir_of dirs is_full ino offset fs none = (error enoent, fs)
readdir_of dirs is_full ino offset fs (some node) =
    let found =
      readdir_names dirs is_full ino offset fs node
        ((dir_for dirs node.backing).read_dir (or_cur_dir node.rel)) in
    if is_dir_kind node.kind then found else (error enotdir, fs)

unfoldable pub readdir : Dirs → (List Entry → Entry → Bool) → ℕ → ℕ → StoreFs → Reply × StoreFs
readdir dirs is_full ino offset fs = readdir_of dirs is_full ino offset fs (fs.nodes ino)

abbrev open_reply : Opened → Reply
open_reply (ok (fh, b)) = opened_passthrough fh b
open_reply (err e) = error (raw_or_eio e)

abbrev open_node : Dirs → ℕ → StoreFs → Option Node → Reply × StoreFs
open_node dirs ino fs none = (error enoent, fs)
open_node dirs ino fs (some node) =
    let (r, fs') = backing_get_or dirs fs ino node in
    elim node.kind [
      | file ↦ (open_reply r, fs')
      | dir ↦ (error eisdir, fs)
      | realized_dir ↦ (error eisdir, fs)
      | symlink ↦ (error einval, fs)
    ]

-- `open`; `read_only` says that access mode of the flags is `O_RDONLY`.
unfoldable pub open_inode : Dirs → ℕ → Bool → StoreFs → Reply × StoreFs
open_inode dirs ino read_only fs =
    let found = open_node dirs ino fs (fs.nodes ino) in
    if read_only then found else (error erofs, fs)

unfoldable pub release : ℕ → StoreFs → Reply × StoreFs
release fh fs = (done, backing_put fs fh)

abbrev access_of : Option Node → Reply
access_of none = error eacces
access_of (some node) = done

unfoldable pub access : ℕ → StoreFs → Reply × StoreFs
access ino fs = (access_of (fs.nodes ino), fs)

-- A large pseudo file system with no space.
abbrev no_space : Statfs
no_space = record {
  blocks = 0;
  bfree = 0;
  bavail = 0;
  files = 0;
  ffree = 0;
  bsize = 512;
  namelen = 255;
  frsize = 512;
}

-- The operations of mutations.rs.
pub data Mutation : Type 0 where
  setattr mknod mkdir unlink rmdir make_symlink rename link write create setxattr : Mutation

-- A request, with what the directories answer while it is served.
pub data Request : Type 0 where
  lookup_request : ℕ → Text → Request
  getattr_request readlink_request opendir_request : ℕ → Request
  readdir_request : ℕ → ℕ → Request
  releasedir_request read_request : ℕ → ℕ → Request
  open_request : ℕ → Bool → Request
  release_request : ℕ → Request
  access_request : ℕ → Request
  statfs_request : ℕ → Request
  mutation_request : Mutation → Request

unfoldable pub serve : Dirs → (List Entry → Entry → Bool) → Request → StoreFs → Reply × StoreFs
serve dirs is_full (lookup_request parent name) fs = lookup dirs parent name fs
serve dirs is_full (getattr_request ino) fs = getattr dirs ino fs
serve dirs is_full (readlink_request ino) fs = readlink dirs ino fs
serve dirs is_full (opendir_request ino) fs = opendir ino fs
serve dirs is_full (readdir_request ino offset) fs = readdir dirs is_full ino offset fs
serve dirs is_full (releasedir_request ino fh) fs = (done, fs)
serve dirs is_full (read_request ino fh) fs = (error eio, fs)
serve dirs is_full (open_request ino read_only) fs = open_inode dirs ino read_only fs
serve dirs is_full (release_request fh) fs = release fh fs
serve dirs is_full (access_request ino) fs = access ino fs
serve dirs is_full (statfs_request ino) fs = (statfs_of no_space, fs)
serve dirs is_full (mutation_request m) fs = (error erofs, fs)

-- What the kernel takes when the file system is mounted: the capability for passthrough, and a depth of
-- stacked file systems.
pub record KernelConfig : Type 0 where
  pub has_passthrough : Bool
  pub takes_stack_depth : ℕ → Bool

-- `init`, without which nothing is served.
unfoldable pub init : KernelConfig → Result ℕ (Unit {0})
init config =
    if config.has_passthrough
    then if config.takes_stack_depth 2 then ok tt else err eio
    else err eio
