-- ===== src/StoreFs/Operations/Within.antt =====
-- nix-store-shared-fuse/src/fs: no request leads out of the two directories.
use nix_os_container_podman.Common.{
  ℕ, ◌≡◌, refl, sym, ap, ◌∙◌, subst, Bool, true, false, List, [], ◌∷◌, Option, none, some, Text,
  Result, ok, err, All, Bool-cases, Option-cases, inl, inr, ◌==◌, if◌then◌else◌,
}
use nix_os_container_podman.StoreFs.Realize.{PathBuf}
use nix_os_container_podman.StoreFs.Dirs.{IoError}
use nix_os_container_podman.StoreFs.State.{
  Node, NodeKind, dir, file, symlink, realized_dir, bind, redirect, Backing, Dirs, StoreFs, new,
  dir_for, insert, intern, intern_at, backing_get_or, backing_put,
}
use nix_os_container_podman.StoreFs.State.Handles.{backing_get_or-same}
use nix_os_container_podman.StoreFs.Nodes.{FileAttr, resolve_child, attr_for, or_cur_dir}
use nix_os_container_podman.StoreFs.Operations.{
  Entry, Request, lookup_request, getattr_request, readlink_request, opendir_request,
  readdir_request, releasedir_request, read_request, open_request, release_request, access_request,
  statfs_request, mutation_request, serve, lookup, lookup_in, lookup_child, lookup_attr, getattr,
  readlink, opendir, readdir, readdir_of, readdir_names, pend, pending, intern_all, open_inode,
  open_node, release, access, is_dir_kind,
}
use nix_os_container_podman.StoreFs.Operations.Confined.{
  IsFileName, IsConfined, Holds, resolve_child-Holds,
}

-- Every node's path is confined, and the bind target, below which links are looked up, is absolute.
abbrev IsWithin : StoreFs → Type 0
IsWithin fs =
    (fs.bind_target_logical.absolute ≡ true)
    × ((ino : ℕ) (node : Node) → fs.nodes ino ≡ some node → IsConfined node.rel)

insert-within :
    (nodes : ℕ → Option Node) (i : ℕ) (node : Node)
    → ((ino : ℕ) (n : Node) → nodes ino ≡ some n → IsConfined n.rel)
    → IsConfined node.rel
    → (ino : ℕ) (n : Node) → insert nodes i node ino ≡ some n
    → IsConfined n.rel
insert-within nodes i node all c ino n e = elim (Bool-cases (ino == i)) [
  | inl same ↦
      let found : some node ≡ some n = rw (same, if◌then◌else◌) at e in subst (λ o. Holds o) found c
  | inr differs ↦ all ino n (rw (differs, if◌then◌else◌) at e)
]

intern-IsWithin :
    (fs : StoreFs) (parent : ℕ) (name : Text) (node : Node)
    → IsWithin fs
    → IsConfined node.rel
    → IsWithin (intern fs parent name node).1
unfolding intern
intern-IsWithin fs parent name node w c = elim (Option-cases (fs.lookup_cache parent name)) [
  | inl e ↦ rw (e, intern_at) (w.0, insert-within fs.nodes fs.next_ino node w.1 c)
  | inr (ino, e) ↦ rw (e, intern_at) (w.0, insert-within fs.nodes ino node w.1 c)
]

abbrev AreConfined : List (Text × Node) → Type 0
AreConfined listed = All (λ (p : Text × Node). IsConfined p.1.rel) listed

intern_all-IsWithin :
    (fs : StoreFs) (parent : ℕ) (listed : List (Text × Node))
    → IsWithin fs
    → AreConfined listed
    → IsWithin (intern_all fs parent listed).1
unfolding intern_all
intern_all-IsWithin fs parent [] w c = w
intern_all-IsWithin fs parent ((name, child) ∷ rest) w c =
    intern_all-IsWithin (intern fs parent name child).1 parent rest
      (intern-IsWithin fs parent name child w c.0) c.1

-- An entry of a directory that can be read has a plain name.
abbrev pub IsEntry : Option Text → Type 0
IsEntry none = Unit
IsEntry (some name) = IsFileName name

-- Directories that list plain names only, as those of the kernel do.
pub record ArePlain (dirs : Dirs) : Type 0 where
  pub bound :
      (p : PathBuf) (names : List (Option Text))
      → dirs.bind_dir.read_dir p ≡ ok names
      → All IsEntry names
  pub redirected :
      (p : PathBuf) (names : List (Option Text))
      → dirs.redirect_dir.read_dir p ≡ ok names
      → All IsEntry names

-- A name to look up is a plain one.
abbrev pub IsPlain : Request → Type 0
IsPlain (lookup_request parent name) = IsFileName name
IsPlain _ = Unit

module _ (dirs : Dirs) (is_full : List Entry → Entry → Bool) (fs : StoreFs) (w : IsWithin fs) where
  pending-AreConfined :
      (node : Node) (names : List (Option Text))
      → IsConfined node.rel
      → All IsEntry names
      → AreConfined (pending dirs fs node names)
  unfolding pending
  pending-AreConfined node [] c h = tt
  pending-AreConfined node (none ∷ names) c h = pending-AreConfined node names c h.1
  pending-AreConfined node (some name ∷ names) c h =
      pended (resolve_child dirs fs node name) (pending dirs fs node names)
        (resolve_child-Holds dirs fs w.0 node name c h.0) (pending-AreConfined node names c h.1)
    where
      pended :
          (o : Option Node) (rest : List (Text × Node))
          → Holds o
          → AreConfined rest
          → AreConfined (pend name o rest)
      pended none rest f r = r
      pended (some child) rest f r = (f, r)

  unless :
      (b : Bool) {A : Type 0} (m : A × StoreFs) (a : A)
      → IsWithin m.1
      → IsWithin (if b then m else (a, fs)).1
  unless true m a k = k
  unless false m a k = w

  lookup_child-IsWithin :
      (parent : ℕ) (name : Text) (o : Option Node)
      → Holds o
      → IsWithin (lookup_child dirs fs parent name o).1
  lookup_child-IsWithin parent name none c = w
  lookup_child-IsWithin parent name (some child) c = attributed (attr_for dirs 0 child)
    where
      attributed : (o : Option FileAttr) → IsWithin (lookup_attr fs parent name child o).1
      attributed none = w
      attributed (some a) = intern-IsWithin fs parent name child w c

  lookup_in-IsWithin :
      (parent : ℕ) (name : Text) (o : Option Node)
      → IsFileName name
      → Holds o
      → IsWithin (lookup_in dirs fs parent name o).1
  lookup_in-IsWithin parent name none h c = w
  lookup_in-IsWithin parent name (some node) h c = unless (is_dir_kind node.kind) _ _ (
      lookup_child-IsWithin parent name (resolve_child dirs fs node name)
        (resolve_child-Holds dirs fs w.0 node name c h))

  found-Holds : (ino : ℕ) → Holds (fs.nodes ino)
  found-Holds ino = elim (Option-cases (fs.nodes ino)) [
    | inl none_there ↦ rw none_there tt
    | inr (node, e) ↦ rw e (w.1 ino node e)
  ]

  readdir_names-IsWithin :
      (ino offset : ℕ) (node : Node) (r : Result IoError (List (Option Text)))
      → IsConfined node.rel
      → ((names : List (Option Text)) → r ≡ ok names → All IsEntry names)
      → IsWithin (readdir_names dirs is_full ino offset fs node r).1
  readdir_names-IsWithin ino offset node (err e) c h = w
  readdir_names-IsWithin ino offset node (ok names) c h =
      intern_all-IsWithin fs ino (pending dirs fs node names) w
        (pending-AreConfined node names c (h names refl))

  readdir_of-IsWithin :
      (ino offset : ℕ) (o : Option Node)
      → ArePlain dirs
      → Holds o
      → IsWithin (readdir_of dirs is_full ino offset fs o).1
  readdir_of-IsWithin ino offset none plain c = w
  readdir_of-IsWithin ino offset (some node) plain c = unless (is_dir_kind node.kind) _ _ (
      readdir_names-IsWithin ino offset node
        ((dir_for dirs node.backing).read_dir (or_cur_dir node.rel)) c (listed node.backing))
    where
      listed :
          (b : Backing) (names : List (Option Text))
          → (dir_for dirs b).read_dir (or_cur_dir node.rel) ≡ ok names
          → All IsEntry names
      listed bind names e = plain.bound _ names e
      listed redirect names e = plain.redirected _ names e

  backing_get_or-IsWithin : (ino : ℕ) (node : Node) → IsWithin (backing_get_or dirs fs ino node).1
  backing_get_or-IsWithin ino node =
      let (_, nodes, _, _, target) = backing_get_or-same dirs fs ino node in
      (
        ap (λ p. p.absolute) target ∙ w.0,
        subst (λ ns. (i : ℕ) (n : Node) → ns i ≡ some n → IsConfined n.rel) (sym nodes) w.1,
      )

  open_kind-IsWithin :
      (ino : ℕ) (node : Node) (k : NodeKind)
      → node.kind ≡ k
      → IsWithin (open_node dirs ino fs (some node)).1
  open_kind-IsWithin ino node dir e = rw e w
  open_kind-IsWithin ino node realized_dir e = rw e w
  open_kind-IsWithin ino node symlink e = rw e w
  open_kind-IsWithin ino node file e =
      rw e (backing_get_or-IsWithin ino (record node { kind = file }))

  open_node-IsWithin : (ino : ℕ) (o : Option Node) → IsWithin (open_node dirs ino fs o).1
  open_node-IsWithin ino none = w
  open_node-IsWithin ino (some node) = open_kind-IsWithin ino node node.kind refl

  serve-IsWithin :
      (request : Request)
      → ArePlain dirs
      → IsPlain request
      → IsWithin (serve dirs is_full request fs).1
  unfolding serve lookup getattr readlink opendir readdir open_inode release access backing_put
  serve-IsWithin (lookup_request parent name) plain h =
      lookup_in-IsWithin parent name (fs.nodes parent) h (found-Holds parent)
  serve-IsWithin (getattr_request ino) plain h = w
  serve-IsWithin (readlink_request ino) plain h = w
  serve-IsWithin (opendir_request ino) plain h = w
  serve-IsWithin (readdir_request ino offset) plain h =
      readdir_of-IsWithin ino offset (fs.nodes ino) plain (found-Holds ino)
  serve-IsWithin (releasedir_request ino fh) plain h = w
  serve-IsWithin (read_request ino fh) plain h = w
  serve-IsWithin (open_request ino read_only) plain h =
      unless read_only _ _ (open_node-IsWithin ino (fs.nodes ino))
  serve-IsWithin (release_request fh) plain h = w
  serve-IsWithin (access_request ino) plain h = w
  serve-IsWithin (statfs_request ino) plain h = w
  serve-IsWithin (mutation_request m) plain h = w

-- Requests of a kernel that looks up plain names, over directories that list plain names.
pub data PlainRun (start : StoreFs) : StoreFs → Type 0 where
  stay : PlainRun start start
  step :
      {before : StoreFs}
      → (dirs : Dirs) (is_full : List Entry → Entry → Bool) (request : Request) → ArePlain dirs
      → IsPlain request
      → PlainRun start before
      → PlainRun start (serve dirs is_full request before).1

PlainRun-IsWithin : {start fs : StoreFs} → IsWithin start → PlainRun start fs → IsWithin fs
PlainRun-IsWithin w stay = w
PlainRun-IsWithin w (step {before = b} dirs is_full request plain h run) =
    serve-IsWithin dirs is_full b (PlainRun-IsWithin w run) request plain h

-- Whatever else the two directories answer, links that lead anywhere included, and whatever plain names
-- the kernel looks up: every node of a file system that was mounted with an absolute bind target has a
-- relative path of names, without `..`.
pub nodes-IsConfined :
    (resolution_root bind_target : PathBuf) (max_open_files : ℕ) (fs : StoreFs) (ino : ℕ)
    → (node : Node) → bind_target.absolute ≡ true
    → PlainRun (new resolution_root bind_target max_open_files) fs
    → fs.nodes ino ≡ some node
    → IsConfined node.rel
nodes-IsConfined resolution_root bind_target max_open_files fs ino node absolute run =
    (PlainRun-IsWithin (absolute, insert-within (λ i. none) 1 _ (λ i n e. cc e) (refl, tt)) run).1
      ino node
