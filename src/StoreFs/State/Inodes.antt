-- ===== src/StoreFs/State/Inodes.antt =====
-- Inodes: what `intern` gives and keeps.
use nix_os_container_podman.Common.{
  ℕ, ◌<◌, ◌⊎◌, ◌≡◌, refl, ap, sym, ◌∙◌, subst, Option, none, some, Option-cases, Bool-cases, inl,
  inr, Text, bytes_eq, bytes_eq_refl, bytes_eq→eq, arith, ◌==◌,
}
use nix_os_container_podman.StoreFs.Realize.{PathBuf}
use nix_os_container_podman.StoreFs.State.{
  root_id, Node, StoreFs, insert, cache_insert, intern, intern_at, new,
}

-- Every inode that was given out is between 2 and `next_ino`, has a node, and stands for one name of one
-- parent.
pub record IsTable (lookup_cache : ℕ → Text → Option ℕ) (nodes : ℕ → Option Node) (next_ino : ℕ)
    : Type 0 where
  pub root_below : root_id < next_ino
  pub cached_above :
      (parent : ℕ) (name : Text) (ino : ℕ)
      → lookup_cache parent name ≡ some ino
      → (root_id < ino) × (ino < next_ino)
  pub cached_node :
      (parent : ℕ) (name : Text) (ino : ℕ)
      → lookup_cache parent name ≡ some ino
      → (node : Node) × (nodes ino ≡ some node)
  pub cached_once :
      (parent : ℕ) (name : Text) (parent' : ℕ) (name' : Text) (ino : ℕ)
      → lookup_cache parent name ≡ some ino
      → lookup_cache parent' name' ≡ some ino
      → (parent ≡ parent') × (name ≡ name')

abbrev pub IsKept : StoreFs → Type 0
IsKept fs = IsTable fs.lookup_cache fs.nodes fs.next_ino

-- The inode of a name, once given, is the name's from then on.
abbrev pub IsStable : StoreFs → StoreFs → Type 0
IsStable before after =
    (parent : ℕ) (name : Text) (ino : ℕ)
    → before.lookup_cache parent name ≡ some ino
    → after.lookup_cache parent name ≡ some ino

pub new-IsKept :
    (resolution_root bind_target : PathBuf) (max_open_files : ℕ)
    → IsKept (new resolution_root bind_target max_open_files)
new-IsKept r b m = record {
  root_below = omega arith;
  cached_above = λ p n i h. cc h;
  cached_node = λ p n i h. cc h;
  cached_once = λ p n p' n' i h h'. cc h;
}

module _ (fs : StoreFs) (parent : ℕ) (name : Text) (node : Node) where
  cache_cases :
      (p : ℕ) (n : Text) (ino i : ℕ)
      → cache_insert fs.lookup_cache parent name ino p n ≡ some i
      → ((p ≡ parent) × (n ≡ name) × (i ≡ ino)) ⊎ (fs.lookup_cache p n ≡ some i)
  cache_cases p n ino i h = elim (Bool-cases (bytes_eq n name)) [
    | inl e ↦ elim (Bool-cases (p == parent)) [
      | inl q ↦ inl (ground arith, bytes_eq→eq n name e, ground (arith, e, q))
      | inr q ↦ inr (ground (arith, e, q))
    ]
    | inr e ↦ inr (ground (arith, e))
  ]

  inserted :
      (i j : ℕ)
      → ((n : Node) × (fs.nodes i ≡ some n))
      → (n : Node) × (insert fs.nodes j node i ≡ some n)
  inserted i j (n, h) = elim (Bool-cases (i == j)) [
    | inl e ↦ (node, ground (arith, e))
    | inr e ↦ (n, ground (arith, e, h))
  ]

  reused : (ino : ℕ) → IsKept fs → IsKept (record fs { nodes = insert fs.nodes ino node })
  reused ino k = record {
    root_below = k.root_below;
    cached_above = k.cached_above;
    cached_node = λ p n i h. inserted i ino (k.cached_node p n i h);
    cached_once = k.cached_once;
  }

  fresh : IsKept fs → IsKept (intern_at fs parent name node none).1
  fresh k = record {
    root_below = omega (arith, k.root_below);
    cached_above = λ p n i h. elim (cache_cases p n fs.next_ino i h) [
      | inl (_, _, e) ↦ let below = k.root_below in (omega arith, omega arith)
      | inr old ↦ let (low, high) = k.cached_above p n i old in (low, omega arith)
    ];
    cached_node = λ p n i h. elim (cache_cases p n fs.next_ino i h) [
      | inl (_, _, e) ↦ (node, ground (arith, e))
      | inr old ↦ inserted i fs.next_ino (k.cached_node p n i old)
    ];
    cached_once = λ p n p' n' i h h'. elim (cache_cases p n fs.next_ino i h) [
      | inl (ep, en, e) ↦ elim (cache_cases p' n' fs.next_ino i h') [
        | inl (ep', en', e') ↦ (cc, cc)
        | inr old ↦ let (low, high) = k.cached_above p' n' i old in absurd (omega arith)
      ]
      | inr old ↦ elim (cache_cases p' n' fs.next_ino i h') [
        | inl (ep', en', e') ↦ let (low, high) = k.cached_above p n i old in absurd (omega arith)
        | inr old' ↦ k.cached_once p n p' n' i old old'
      ]
    ];
  }

  pub intern-IsKept : IsKept fs → IsKept (intern fs parent name node).1
  unfolding intern
  intern-IsKept k = elim (Option-cases (fs.lookup_cache parent name)) [
    | inl e ↦ rw (e, intern_at) (fresh k)
    | inr (ino, e) ↦ rw (e, intern_at) (reused ino k)
  ]

  IsStable-fresh :
      fs.lookup_cache parent name ≡ none → IsStable fs (intern_at fs parent name node none).1
  IsStable-fresh e p n i h = elim (Bool-cases (bytes_eq n name)) [
    | inl same ↦ elim (Bool-cases (p == parent)) [
      | inl q ↦
          let en = bytes_eq→eq n name same in
          let ep : p ≡ parent = ground arith in
          let clash : fs.lookup_cache parent name ≡ some i = cc in cc
      | inr q ↦ ground (arith, same, q)
    ]
    | inr other ↦ ground (arith, other)
  ]

  pub intern-IsStable : IsStable fs (intern fs parent name node).1
  unfolding intern
  intern-IsStable = elim (Option-cases (fs.lookup_cache parent name)) [
    | inl e ↦ rw (e, intern_at) (IsStable-fresh e)
    | inr (ino, e) ↦ rw (e, intern_at) (λ p n i h. h)
  ]

  -- The inode that a name is given has the node from then on, and is the name's.
  pub intern_lem :
      let (ino, after) = intern fs parent name node in
      (after.lookup_cache parent name ≡ some ino) × (after.nodes ino ≡ some node)
  unfolding intern
  intern_lem = elim (Option-cases (fs.lookup_cache parent name)) [
    | inl e ↦ (ground (arith, e, bytes_eq_refl name), ground (arith, e))
    | inr (ino, e) ↦ (ground (arith, e), ground (arith, e))
  ]

-- The inodes, the nodes and the limit of one state are another's.
abbrev pub SameTable : StoreFs → StoreFs → Type 0
SameTable f fs =
    (f.lookup_cache ≡ fs.lookup_cache)
    × (f.nodes ≡ fs.nodes)
    × (f.next_ino ≡ fs.next_ino)
    × (f.max_open_files ≡ fs.max_open_files)
    × (f.bind_target_logical ≡ fs.bind_target_logical)

pub IsKept-same : (f fs : StoreFs) → SameTable f fs → IsKept fs → IsKept f
IsKept-same f fs (c, n, i, _, _) k =
    subst (λ t. IsTable t f.nodes f.next_ino) (sym c)
      (subst (λ t. IsTable fs.lookup_cache t f.next_ino) (sym n)
        (subst (IsTable fs.lookup_cache fs.nodes) (sym i) k))

pub IsStable-same : (f fs : StoreFs) → SameTable f fs → IsStable fs f
IsStable-same f fs (c, n, i, _, _) parent name ino h = ap (λ t. t parent name) c ∙ h

pub intern-limit :
    (fs : StoreFs) (parent : ℕ) (name : Text) (node : Node)
    → (intern fs parent name node).1.max_open_files ≡ fs.max_open_files
unfolding intern
intern-limit fs parent name node = interned (fs.lookup_cache parent name)
  where
    interned :
        (o : Option ℕ) → (intern_at fs parent name node o).1.max_open_files ≡ fs.max_open_files
    interned none = refl
    interned (some ino) = refl
