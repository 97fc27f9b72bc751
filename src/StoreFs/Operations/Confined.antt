-- ===== src/StoreFs/Operations/Confined.antt =====
-- nix-store-shared-fuse/src/fs: which paths the nodes of a mounted file system have.
use nix_os_container_podman.Common.{
  ℕ, ◌≡◌, refl, sym, ◌∙◌, subst, true, false, [], ◌∷◌, Option, none, some, Text, Result, ok, err,
  All, All-append, contains, is_empty, bytes_eq, Bool-cases, inl, inr, arith,
}
use nix_os_container_podman.Runner.Texts.{split-none}
use nix_os_container_podman.StoreFs.Realize.{
  PathBuf, normal, path_of, is_empty_path, normalize, Realization, realize, keep_symlink, panicked,
  classify, resolve_target,
}
use nix_os_container_podman.StoreFs.Realize.Normal.{IsName}
use nix_os_container_podman.StoreFs.Realize.Classify.{classify_lem}
use nix_os_container_podman.StoreFs.Dirs.{
  DiskType, symlink_type, dir_type, file_type, other_type, Metadata, IoError,
}
use nix_os_container_podman.StoreFs.State.{
  Backing, bind, redirect, NodeKind, Node, Dirs, StoreFs, bind_logical,
}
use nix_os_container_podman.StoreFs.Nodes.{
  child_path, redirected, realized, realized_kind, bind_symlink, bind_typed, bind_found,
  resolve_bind_child, redirect_kind, redirect_typed, redirect_found, resolve_redirect_child,
  resolve_child,
}

-- A name as the kernel and `read_dir` give it: one component, which does not lead up.
pub record IsFileName (name : Text) : Type 0 where
  pub no_slash : contains b'/' name ≡ false
  pub is_something : is_empty name ≡ false
  pub not_here : bytes_eq name (b'.' ∷ []) ≡ false
  pub not_up : bytes_eq name (b'.' ∷ b'.' ∷ []) ≡ false

-- A relative path of names, so without `..`.
abbrev pub IsConfined : PathBuf → Type 0
IsConfined rel = (rel.absolute ≡ false) × All IsName rel.parts

no_root : (c : ℕ) (t : Text) → contains b'/' (c ∷ t) ≡ false → bytes_eq (c ∷ []) (b'/' ∷ []) ≡ false
unfolding bytes_eq
no_root c t h = ground arith

path_of-name :
    (name : Text)
    → IsFileName name
    → path_of name ≡ record { absolute = false; parts = normal name ∷ [] }
path_of-name [] h = cc h.is_something
path_of-name (c ∷ t) h =
    simp (no_root c t h.no_slash, split-none b'/' (c ∷ t) h.no_slash, h.not_here, h.not_up)

child_path-IsConfined :
    (rel : PathBuf) (name : Text)
    → IsConfined rel
    → IsFileName name
    → IsConfined (child_path rel name)
child_path-IsConfined rel name c h = elim (Bool-cases (is_empty_path rel)) [
  | inl top ↦ simp (top, path_of-name name h) (refl, ((name, refl), tt))
  | inr below ↦
      simp (below, path_of-name name h)
        (c.0, All-append IsName rel.parts (normal name ∷ []) c.1 ((name, refl), tt))
]

-- A node that was found, if any.
abbrev pub Holds : Option Node → Type 0
Holds none = Unit
Holds (some node) = IsConfined node.rel

redirected-IsConfined :
    (child rel : PathBuf) (k : Option NodeKind)
    → IsConfined child
    → IsConfined rel
    → IsConfined (redirected child rel k).rel
redirected-IsConfined child rel (some k) c r = r
redirected-IsConfined child rel none c r = c

-- `classify` gives confined paths only.
classify-IsConfined :
    (target root bind_target rel : PathBuf)
    → target.absolute ≡ true
    → classify target root bind_target ≡ realize rel
    → IsConfined rel
classify-IsConfined target root bind_target rel absolute e =
    elim (classify_lem target root bind_target absolute) [
      | inl (found, e', inside, free, names, behind) ↦
          let same : rel ≡ found = realize_inj (sym e ∙ e') in
          subst IsConfined (sym same) (behind.0, names)
      | inr (kept, why) ↦ absurd (cc (sym e ∙ kept))
    ]
  where
    realize_inj : {a b : PathBuf} → realize a ≡ realize b → a ≡ b
    realize_inj h = cc h

resolve_target-absolute :
    (link_dir target : PathBuf)
    → link_dir.absolute ≡ true
    → (resolve_target link_dir target).absolute ≡ true
unfolding resolve_target normalize
resolve_target-absolute link_dir target h = elim (Bool-cases target.absolute) [
  | inl there ↦ simp (there)
  | inr relative ↦ simp (relative, h)
]

bind_logical-absolute :
    (fs : StoreFs) (rel : PathBuf)
    → fs.bind_target_logical.absolute ≡ true
    → (bind_logical fs rel).absolute ≡ true
bind_logical-absolute fs rel h = elim (Bool-cases (is_empty_path rel)) [
  | inl top ↦ simp (top, h)
  | inr below ↦ elim (Bool-cases rel.absolute) [
    | inl there ↦ simp below (simp there)
    | inr relative ↦ simp below (simp (relative, h))
  ]
]

module _ (dirs : Dirs) (fs : StoreFs) (absolute : fs.bind_target_logical.absolute ≡ true) where
  realized-Holds :
      (link_dir raw child : PathBuf) (r : Realization)
      → link_dir.absolute ≡ true
      → classify (resolve_target link_dir raw) fs.resolution_root fs.bind_target_logical ≡ r
      → IsConfined child
      → Holds (realized dirs.redirect_dir child r)
  realized-Holds link_dir raw child (realize rel) h e c =
      redirected-IsConfined child rel (realized_kind dirs.redirect_dir rel) c (
        classify-IsConfined (resolve_target link_dir raw) fs.resolution_root fs.bind_target_logical
          rel (resolve_target-absolute link_dir raw h) e)
  realized-Holds link_dir raw child keep_symlink h e c = c
  realized-Holds link_dir raw child panicked h e c = tt

  bind_symlink-Holds :
      (parent child : PathBuf) (r : Result IoError PathBuf)
      → IsConfined child
      → Holds (bind_symlink dirs fs parent child r)
  bind_symlink-Holds parent child (err e) c = tt
  bind_symlink-Holds parent child (ok raw) c =
      realized-Holds (bind_logical fs parent) raw child _ (bind_logical-absolute fs parent absolute)
        refl c

  bind_found-Holds :
      (parent child : PathBuf) (r : Result IoError Metadata)
      → IsConfined child
      → Holds (bind_found dirs fs parent child r)
  bind_found-Holds parent child (err e) c = tt
  bind_found-Holds parent child (ok md) c = typed md.disk_type
    where
      typed : (t : DiskType) → Holds (bind_typed dirs fs parent child t)
      typed symlink_type =
          bind_symlink-Holds parent child (dirs.bind_dir.read_link_contents child) c
      typed dir_type = c
      typed file_type = c
      typed other_type = tt

  redirect_found-Holds :
      (child : PathBuf) (r : Result IoError Metadata)
      → IsConfined child
      → Holds (redirect_found child r)
  redirect_found-Holds child (err e) c = tt
  redirect_found-Holds child (ok md) c = typed (redirect_kind md.disk_type)
    where
      typed : (k : Option NodeKind) → Holds (redirect_typed child k)
      typed none = tt
      typed (some k) = c

  -- Whatever the directories answer, a child of a confined node is confined.
  pub resolve_child-Holds :
      (node : Node) (name : Text)
      → IsConfined node.rel
      → IsFileName name
      → Holds (resolve_child dirs fs node name)
  unfolding resolve_bind_child resolve_redirect_child
  resolve_child-Holds node name c h = by_backing node.backing
    where
      child : IsConfined (child_path node.rel name)
      child = child_path-IsConfined node.rel name c h

      by_backing :
          (b : Backing)
          → Holds (elim b [
            | bind ↦ resolve_bind_child dirs fs node.rel name
            | redirect ↦ resolve_redirect_child dirs node.rel name
          ])
      by_backing bind =
          bind_found-Holds node.rel (child_path node.rel name)
            (dirs.bind_dir.symlink_metadata (child_path node.rel name)) child
      by_backing redirect =
          redirect_found-Holds (child_path node.rel name)
            (dirs.redirect_dir.symlink_metadata (child_path node.rel name)) child
