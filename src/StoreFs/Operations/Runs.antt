-- ===== src/StoreFs/Operations/Runs.antt =====
-- Runs of the file system: the requests it has served since the mount.
use nix_os_container_podman.Common.{
  ℕ, ◌≤◌, ◌≡◌, refl, ◌∙◌, Bool, true, false, List, [], ◌∷◌, Option, none, some, Text, Result, ok,
  err, length, arith, if◌then◌else◌,
}
use nix_os_container_podman.StoreFs.Realize.{PathBuf}
use nix_os_container_podman.StoreFs.Dirs.{IoError}
use nix_os_container_podman.StoreFs.State.{
  Node, NodeKind, dir, file, symlink, realized_dir, Dirs, StoreFs, new, dir_for, intern,
  backing_get_or, backing_put,
}
use nix_os_container_podman.StoreFs.State.Inodes.{
  IsKept, IsStable, new-IsKept, intern-IsKept, intern-IsStable, IsKept-same, IsStable-same,
  intern-limit,
}
use nix_os_container_podman.StoreFs.State.Handles.{
  IsBounded, new-IsBounded, intern-IsBounded, backing_get_or-IsBounded, backing_get_or-same,
  backing_put-IsBounded,
}
use nix_os_container_podman.StoreFs.Nodes.{FileAttr, resolve_child, attr_for, or_cur_dir}
use nix_os_container_podman.StoreFs.Operations.{
  Entry, Request, lookup_request, getattr_request, readlink_request, opendir_request,
  readdir_request, releasedir_request, read_request, open_request, release_request, access_request,
  statfs_request, mutation_request, serve, lookup, lookup_in, lookup_child, lookup_attr, getattr,
  readlink, opendir, readdir, readdir_of, readdir_names, pending, intern_all, open_inode, open_node,
  release, access, is_dir_kind,
}

-- Everything that one step keeps.
record Keeps (before after : StoreFs) : Type 0 where
  table : IsKept before → IsKept after
  stable : IsStable before after
  bounded : IsBounded before → IsBounded after
  limit : after.max_open_files ≡ before.max_open_files

Keeps-refl : (fs : StoreFs) → Keeps fs fs
Keeps-refl fs = record { table = λ k. k; stable = λ p n i h. h; bounded = λ k. k; limit = refl }

Keeps-trans : (a b c : StoreFs) → Keeps a b → Keeps b c → Keeps a c
Keeps-trans a b c k l = record {
  table = λ h. l.table (k.table h);
  stable = λ p n i h. l.stable p n i (k.stable p n i h);
  bounded = λ h. l.bounded (k.bounded h);
  limit = l.limit ∙ k.limit;
}

intern-Keeps :
    (fs : StoreFs) (parent : ℕ) (name : Text) (node : Node)
    → Keeps fs (intern fs parent name node).1
intern-Keeps fs parent name node = record {
  table = intern-IsKept fs parent name node;
  stable = intern-IsStable fs parent name node;
  bounded = intern-IsBounded fs parent name node;
  limit = intern-limit fs parent name node;
}

intern_all-Keeps :
    (fs : StoreFs) (parent : ℕ) (listed : List (Text × Node))
    → Keeps fs (intern_all fs parent listed).1
unfolding intern_all
intern_all-Keeps fs parent [] = Keeps-refl fs
intern_all-Keeps fs parent ((name, child) ∷ rest) =
    let next = (intern fs parent name child).1 in
    Keeps-trans fs next (intern_all next parent rest).1 (intern-Keeps fs parent name child)
      (intern_all-Keeps next parent rest)

module _ (dirs : Dirs) (is_full : List Entry → Entry → Bool) (fs : StoreFs) where
  -- The second branch of a test leaves the state as it is.
  unless :
      (b : Bool) {A : Type 0} (m : A × StoreFs) (a : A)
      → Keeps fs m.1
      → Keeps fs (if b then m else (a, fs)).1
  unless true m a k = k
  unless false m a k = Keeps-refl fs

  lookup_attr-Keeps :
      (parent : ℕ) (name : Text) (child : Node) (o : Option FileAttr)
      → Keeps fs (lookup_attr fs parent name child o).1
  lookup_attr-Keeps parent name child none = Keeps-refl fs
  lookup_attr-Keeps parent name child (some a) = intern-Keeps fs parent name child

  lookup_child-Keeps :
      (parent : ℕ) (name : Text) (o : Option Node) → Keeps fs (lookup_child dirs fs parent name o).1
  lookup_child-Keeps parent name none = Keeps-refl fs
  lookup_child-Keeps parent name (some child) =
      lookup_attr-Keeps parent name child (attr_for dirs 0 child)

  lookup_in-Keeps :
      (parent : ℕ) (name : Text) (o : Option Node) → Keeps fs (lookup_in dirs fs parent name o).1
  lookup_in-Keeps parent name none = Keeps-refl fs
  lookup_in-Keeps parent name (some node) =
      unless (is_dir_kind node.kind) _ _
        (lookup_child-Keeps parent name (resolve_child dirs fs node name))

  readdir_names-Keeps :
      (ino offset : ℕ) (node : Node) (r : Result IoError (List (Option Text)))
      → Keeps fs (readdir_names dirs is_full ino offset fs node r).1
  readdir_names-Keeps ino offset node (err e) = Keeps-refl fs
  readdir_names-Keeps ino offset node (ok names) =
      intern_all-Keeps fs ino (pending dirs fs node names)

  readdir_of-Keeps :
      (ino offset : ℕ) (o : Option Node) → Keeps fs (readdir_of dirs is_full ino offset fs o).1
  readdir_of-Keeps ino offset none = Keeps-refl fs
  readdir_of-Keeps ino offset (some node) = unless (is_dir_kind node.kind) _ _ (
      readdir_names-Keeps ino offset node
        ((dir_for dirs node.backing).read_dir (or_cur_dir node.rel)))

  backing_get_or-Keeps : (ino : ℕ) (node : Node) → Keeps fs (backing_get_or dirs fs ino node).1
  backing_get_or-Keeps ino node =
      let same = backing_get_or-same dirs fs ino node in
      let (_, _, _, same_limit, _) = same in
      let after = (backing_get_or dirs fs ino node).1 in
      record {
        table = IsKept-same after fs same;
        stable = IsStable-same after fs same;
        bounded = backing_get_or-IsBounded dirs fs ino node;
        limit = same_limit;
      }

  open_kind-Keeps :
      (ino : ℕ) (node : Node) (k : NodeKind)
      → node.kind ≡ k
      → Keeps fs (open_node dirs ino fs (some node)).1
  open_kind-Keeps ino node dir e = rw e (Keeps-refl fs)
  open_kind-Keeps ino node realized_dir e = rw e (Keeps-refl fs)
  open_kind-Keeps ino node symlink e = rw e (Keeps-refl fs)
  open_kind-Keeps ino node file e = rw e (backing_get_or-Keeps ino (record node { kind = file }))

  open_node-Keeps : (ino : ℕ) (o : Option Node) → Keeps fs (open_node dirs ino fs o).1
  open_node-Keeps ino none = Keeps-refl fs
  open_node-Keeps ino (some node) = open_kind-Keeps ino node node.kind refl

  release-Keeps : (fh : ℕ) → Keeps fs (backing_put fs fh)
  unfolding backing_put
  release-Keeps fh = record {
    table = λ k. k;
    stable = λ p n i h. h;
    bounded = backing_put-IsBounded fs fh;
    limit = refl;
  }

  serve-Keeps : (request : Request) → Keeps fs (serve dirs is_full request fs).1
  unfolding serve lookup getattr readlink opendir readdir open_inode release access
  serve-Keeps (lookup_request parent name) = lookup_in-Keeps parent name (fs.nodes parent)
  serve-Keeps (getattr_request ino) = Keeps-refl fs
  serve-Keeps (readlink_request ino) = Keeps-refl fs
  serve-Keeps (opendir_request ino) = Keeps-refl fs
  serve-Keeps (readdir_request ino offset) = readdir_of-Keeps ino offset (fs.nodes ino)
  serve-Keeps (releasedir_request ino fh) = Keeps-refl fs
  serve-Keeps (read_request ino fh) = Keeps-refl fs
  serve-Keeps (open_request ino read_only) =
      unless read_only _ _ (open_node-Keeps ino (fs.nodes ino))
  serve-Keeps (release_request fh) = release-Keeps fh
  serve-Keeps (access_request ino) = Keeps-refl fs
  serve-Keeps (statfs_request ino) = Keeps-refl fs
  serve-Keeps (mutation_request m) = Keeps-refl fs

-- A state from which requests have led to another; the directories may have changed before each.
pub data Run : StoreFs → StoreFs → Type 0 where
  stay : {fs : StoreFs} → Run fs fs
  step :
      {fs before : StoreFs}
      → (dirs : Dirs) (is_full : List Entry → Entry → Bool) (request : Request) → Run fs before
      → Run fs (serve dirs is_full request before).1

Run-Keeps : {fs after : StoreFs} → Run fs after → Keeps fs after
Run-Keeps {fs} stay = Keeps-refl fs
Run-Keeps {fs} (step {before = b} dirs is_full request run) =
    Keeps-trans fs b (serve dirs is_full request b).1 (Run-Keeps run)
      (serve-Keeps dirs is_full b request)

-- Whatever requests a mounted file system has served: two names never share an inode, every inode that
-- was given out has a node and is below the next one, no more handles are open than
-- `max_open_files`, and each handle's number is at most the counter.
pub Run-IsKept :
    (resolution_root bind_target : PathBuf) (max_open_files : ℕ) (fs : StoreFs)
    → Run (new resolution_root bind_target max_open_files) fs
    → IsKept fs × (length fs.backing_by_handle ≤ max_open_files) × IsBounded fs
Run-IsKept r b m fs run =
    let k = Run-Keeps run in
    let bounded = k.bounded (new-IsBounded r b m) in
    (k.table (new-IsKept r b m), omega (arith, bounded.few, k.limit), bounded)

-- An inode that a name of a directory has been given stays that name's, through all later requests.
pub Run-IsStable :
    (before after : StoreFs) (parent : ℕ) (name : Text) (ino : ℕ)
    → Run before after
    → before.lookup_cache parent name ≡ some ino
    → after.lookup_cache parent name ≡ some ino
Run-IsStable before after parent name ino run h = (Run-Keeps run).stable parent name ino h
