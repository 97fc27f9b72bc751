-- ===== src/StoreFs/State.antt =====
-- nix-store-shared-fuse/src/fs/mod.rs and backing.rs: the nodes, inodes and open handles of the file
-- system. A `HashMap` is a function; the handles, whose number matters, are a list.
pub mod Inodes
pub mod Handles
pub mod Shared
use nix_os_container_podman.Common.{
  ℕ, ◌+◌, ◌-◌, ◌^◌, Bool, true, false, ◌&&◌, ◌||◌, List, [], ◌∷◌, Option, none, some, Bytes, Text,
  bytes_eq, Result, ok, err, ltb, leb, ◌==◌, if◌then◌else◌, length,
}
use nix_os_container_podman.StoreFs.Realize.{PathBuf, is_empty_path, join}
use nix_os_container_podman.StoreFs.Dirs.{Dir, IoError}

-- errno
abbrev pub enoent : ℕ
enoent = 2

abbrev pub eio : ℕ
eio = 5

abbrev pub eacces : ℕ
eacces = 13

abbrev pub enotdir : ℕ
enotdir = 20

abbrev pub eisdir : ℕ
eisdir = 21

abbrev pub einval : ℕ
einval = 22

abbrev pub emfile : ℕ
emfile = 24

abbrev pub erofs : ℕ
erofs = 30

abbrev pub root_id : ℕ
root_id = 1

pub data Backing : Type 0 where
  bind redirect : Backing

pub data NodeKind : Type 0 where
  dir file symlink realized_dir : NodeKind

pub record Node : Type 0 where
  pub backing : Backing
  pub rel : PathBuf
  pub kind : NodeKind

-- An `Rc<BackingId>`: `rc` tells the allocations apart, and `id` is the kernel's number.
pub record Backed : Type 0 where
  pub rc : ℕ
  pub id : ℕ

-- The two directories answer differently from call to call, so they are an argument of each operation.
pub record Dirs : Type 0 where
  pub bind_dir : Dir
  pub redirect_dir : Dir

-- `next_rc` numbers the next `Rc::new`.
pub record StoreFs : Type 0 where
  pub resolution_root : PathBuf
  pub bind_target_logical : PathBuf
  pub nodes : ℕ → Option Node
  pub lookup_cache : ℕ → Text → Option ℕ
  -- a `u64` in the source, which 2 ^ 64 - 2 interned names would wrap
  pub next_ino : ℕ
  pub backing_by_handle : List (ℕ × Backed)
  pub backing_by_inode : ℕ → Option Backed
  pub next_fh : ℕ
  pub next_rc : ℕ
  pub max_open_files : ℕ

abbrev pub insert {ℓ} : {A : Type ℓ} → (ℕ → Option A) → ℕ → A → ℕ → Option A
insert m k a i = if i == k then some a else m i

-- `PathBuf::new`
abbrev pub no_path : PathBuf
no_path = record { absolute = false; parts = [] }

abbrev root_node : Node
root_node = record { backing = bind; rel = no_path; kind = dir }

-- `StoreFs::new`
abbrev pub new : PathBuf → PathBuf → ℕ → StoreFs
new resolution_root bind_target_logical max_open_files = record {
  resolution_root = resolution_root;
  bind_target_logical = bind_target_logical;
  nodes = insert (λ ino. none) root_id root_node;
  lookup_cache = λ parent name. none;
  next_ino = root_id + 1;
  backing_by_handle = [];
  backing_by_inode = λ ino. none;
  next_fh = 0;
  next_rc = 0;
  max_open_files = max_open_files;
}

abbrev pub dir_for : Dirs → Backing → Dir
dir_for dirs bind = dirs.bind_dir
dir_for dirs redirect = dirs.redirect_dir

-- `backing::open_readonly`
unfoldable pub open_readonly : Dir → PathBuf → Result IoError ℕ
open_readonly d rel =
    if is_empty_path rel || rel.absolute then err (some eio) else d.open_nofollow rel

abbrev pub open_backing_file : Dirs → Node → Result IoError ℕ
open_backing_file dirs node = open_readonly (dir_for dirs node.backing) node.rel

-- Whether a handle holds the allocation.
unfoldable pub is_held : ℕ → List (ℕ × Backed) → Bool
is_held rc [] = false
is_held rc ((fh, b) ∷ handles) = b.rc == rc || is_held rc handles

-- `Weak::upgrade`: the file id is there as long as a handle holds it.
unfoldable pub upgrade : Option Backed → List (ℕ × Backed) → Option Backed
upgrade none handles = none
upgrade (some b) handles = if is_held b.rc handles then some b else none

abbrev pub Opened : Type 0
Opened = Result IoError (ℕ × Backed)

-- `backing_get_or` from `checked_add` on.
abbrev hold : StoreFs → ℕ → Backed → Opened × StoreFs
hold fs fh b = (ok (fh, b), record fs { backing_by_handle = (fh, b) ∷ fs.backing_by_handle })

abbrev register : StoreFs → ℕ → ℕ → Result IoError ℕ → Opened × StoreFs
register fs ino fh (err e) = (err e, fs)
register fs ino fh (ok id) =
    let b : Backed = record { rc = fs.next_rc; id = id } in
    hold
      (record fs { next_rc = fs.next_rc + 1; backing_by_inode = insert fs.backing_by_inode ino b })
      fh b

abbrev register_file : Dirs → StoreFs → ℕ → Node → ℕ → Result IoError ℕ → Opened × StoreFs
register_file dirs fs ino node fh (err e) = (err e, fs)
register_file dirs fs ino node fh (ok f) =
    register fs ino fh ((dir_for dirs node.backing).open_backing f)

abbrev share_or_open : Dirs → StoreFs → ℕ → Node → ℕ → Option Backed → Opened × StoreFs
share_or_open dirs fs ino node fh (some b) = hold fs fh b
share_or_open dirs fs ino node fh none =
    register_file dirs fs ino node fh (open_backing_file dirs node)

-- `backing_get_or`
unfoldable pub backing_get_or : Dirs → StoreFs → ℕ → Node → Opened × StoreFs
backing_get_or dirs fs ino node =
    if leb fs.max_open_files (length fs.backing_by_handle)
    then (err (some emfile), fs)
    else if leb (2 ^ 64 - 1) fs.next_fh
    then (err (some emfile), fs)
    else share_or_open dirs (record fs { next_fh = fs.next_fh + 1 }) ino node (fs.next_fh + 1)
        (upgrade (fs.backing_by_inode ino) fs.backing_by_handle)

abbrev pub remove_handle : ℕ → List (ℕ × Backed) → List (ℕ × Backed)
remove_handle fh [] = []
remove_handle fh ((f, b) ∷ handles) =
    let rest = remove_handle fh handles in if f == fh then rest else (f, b) ∷ rest

-- `backing_put`
unfoldable pub backing_put : StoreFs → ℕ → StoreFs
backing_put fs fh = record fs { backing_by_handle = remove_handle fh fs.backing_by_handle }

abbrev cache_insert : (ℕ → Text → Option ℕ) → ℕ → Text → ℕ → ℕ → Text → Option ℕ
cache_insert cache parent name ino p n =
    if p == parent && bytes_eq n name then some ino else cache p n

abbrev pub intern_at : StoreFs → ℕ → Text → Node → Option ℕ → ℕ × StoreFs
intern_at fs parent name node (some ino) = (ino, record fs { nodes = insert fs.nodes ino node })
intern_at fs parent name node none = (
  fs.next_ino,
  record fs {
    next_ino = fs.next_ino + 1;
    nodes = insert fs.nodes fs.next_ino node;
    lookup_cache = cache_insert fs.lookup_cache parent name fs.next_ino;
  },
)

-- `intern`
unfoldable pub intern : StoreFs → ℕ → Text → Node → ℕ × StoreFs
intern fs parent name node = intern_at fs parent name node (fs.lookup_cache parent name)

-- `bind_logical`
abbrev pub bind_logical : StoreFs → PathBuf → PathBuf
bind_logical fs rel =
    if is_empty_path rel then fs.bind_target_logical else join fs.bind_target_logical rel
