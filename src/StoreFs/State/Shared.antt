-- ===== src/StoreFs/State/Shared.antt =====
-- nix-store-shared-fuse/src/fs/mod.rs: the backing file that the open handles of an inode share.
use nix_os_container_podman.Common.{
  ℕ, ◌+◌, ◌-◌, ◌≤◌, ◌<◌, ◌^◌, ◌≡◌, ◌≢◌, ◌⊎◌, refl, ap, sym, ◌∙◌, subst, true, List, [], ◌∷◌, Option,
  none, some, false, Bool-cases, inl, inr, arith, if◌then◌else◌, ◌==◌, ==_iff, leb, length, Result,
  ok, err, Text,
}
use nix_os_container_podman.StoreFs.Dirs.{IoError}
use nix_os_container_podman.StoreFs.State.{
  Node, Backed, StoreFs, Dirs, dir_for, open_backing_file, insert, is_held, upgrade, backing_get_or,
  backing_put, remove_handle, Opened, hold, register, register_file, share_or_open, intern,
  intern_at,
}

-- The handle is open on the backing file.
abbrev pub Has : ℕ → Backed → List (ℕ × Backed) → Type 0
Has fh b [] = ⊥
Has fh b (h ∷ handles) = (h ≡ (fh, b)) ⊎ Has fh b handles

is_held-Has :
    (fh : ℕ) (b : Backed) (handles : List (ℕ × Backed))
    → Has fh b handles
    → is_held b.rc handles ≡ true
unfolding is_held
is_held-Has fh b [] h = absurd h
is_held-Has fh b ((f, c) ∷ handles) (inl e) =
    let same : c.rc ≡ b.rc = ap (λ p. p.1.rc) e in ground (arith, same)
is_held-Has fh b ((f, c) ∷ handles) (inr h) = ground (arith, is_held-Has fh b handles h)

Has-remove_handle :
    (fh other : ℕ) (b : Backed) (handles : List (ℕ × Backed))
    → other ≢ fh
    → Has fh b handles
    → Has fh b (remove_handle other handles)
Has-remove_handle fh other b [] d h = h
Has-remove_handle fh other b ((f, c) ∷ handles) d (inl e) = elim (Bool-cases (f == other)) [
  | inl same ↦ absurd (d (sym ((==_iff f other).0 same) ∙ ap (λ p. p.0) e))
  | inr differs ↦ rw (differs, if◌then◌else◌) (inl e)
]
Has-remove_handle fh other b ((f, c) ∷ handles) d (inr h) = elim (Bool-cases (f == other)) [
  | inl same ↦ rw (same, if◌then◌else◌) (Has-remove_handle fh other b handles d h)
  | inr differs ↦ rw (differs, if◌then◌else◌) (inr (Has-remove_handle fh other b handles d h))
]

module _ (dirs : Dirs) (fs : StoreFs) (ino : ℕ) (node : Node) where
  abbrev counted : StoreFs
  counted = record fs { next_fh = fs.next_fh + 1 }

  -- The inode's file id is the one given, and the handle of that number, the latest, holds it.
  abbrev HoldsFor : ℕ → Backed → StoreFs → Type 0
  HoldsFor fh b f =
      (f.backing_by_inode ino ≡ some b) × Has fh b f.backing_by_handle × (f.next_fh ≡ fh)

  hold-holds :
      (f : StoreFs) (n : ℕ) (c : Backed)
      → f.backing_by_inode ino ≡ some c
      → f.next_fh ≡ n
      → (fh : ℕ) (b : Backed) → (hold f n c).0 ≡ ok (fh, b)
      → HoldsFor fh b (hold f n c).1
  hold-holds f n c i e fh b h =
      let (en, eb) : (n ≡ fh) × (c ≡ b) = (cc h, cc h) in (cc (i, eb), inl (cc (en, eb)), e ∙ en)

  register-holds :
      (r : Result IoError ℕ) (fh : ℕ) (b : Backed)
      → (register counted ino (fs.next_fh + 1) r).0 ≡ ok (fh, b)
      → HoldsFor fh b (register counted ino (fs.next_fh + 1) r).1
  register-holds (err e) fh b h = cc h
  register-holds (ok id) fh b h =
      let c : Backed = record { rc = fs.next_rc; id = id } in
      hold-holds
        (record counted {
          next_rc = fs.next_rc + 1;
          backing_by_inode = insert fs.backing_by_inode ino c;
        })
        (fs.next_fh + 1) c (ground arith) refl fh b h

  register_file-holds :
      (r : Result IoError ℕ) (fh : ℕ) (b : Backed)
      → (register_file dirs counted ino node (fs.next_fh + 1) r).0 ≡ ok (fh, b)
      → HoldsFor fh b (register_file dirs counted ino node (fs.next_fh + 1) r).1
  register_file-holds (err e) fh b h = cc h
  register_file-holds (ok f) fh b h =
      register-holds ((dir_for dirs node.backing).open_backing f) fh b h

  upgrade-eq_some :
      (o : Option Backed) (handles : List (ℕ × Backed)) (b : Backed)
      → upgrade o handles ≡ some b
      → o ≡ some b
  unfolding upgrade
  upgrade-eq_some none handles b h = h
  upgrade-eq_some (some c) handles b h = ground arith

  share_or_open-holds :
      (o : Option Backed)
      → ((c : Backed) → o ≡ some c → fs.backing_by_inode ino ≡ some c)
      → (fh : ℕ) (b : Backed)
      → (share_or_open dirs counted ino node (fs.next_fh + 1) o).0 ≡ ok (fh, b)
      → HoldsFor fh b (share_or_open dirs counted ino node (fs.next_fh + 1) o).1
  share_or_open-holds none i fh b h = register_file-holds (open_backing_file dirs node) fh b h
  share_or_open-holds (some c) i fh b h =
      hold-holds counted (fs.next_fh + 1) c (i c refl) refl fh b h

  pub backing_get_or-holds :
      (fh : ℕ) (b : Backed)
      → (backing_get_or dirs fs ino node).0 ≡ ok (fh, b)
      → HoldsFor fh b (backing_get_or dirs fs ino node).1
  unfolding backing_get_or
  backing_get_or-holds fh b h =
      elim (Bool-cases (leb fs.max_open_files (length fs.backing_by_handle))) [
        | inl e ↦ absurd (ground (arith, e))
        | inr e ↦ elim (Bool-cases (leb (2 ^ 64 - 1) fs.next_fh)) [
          | inl e' ↦ absurd (ground (arith, e, e'))
          | inr e' ↦
              let o = upgrade (fs.backing_by_inode ino) fs.backing_by_handle in
              let s : (share_or_open dirs counted ino node (fs.next_fh + 1) o).0 ≡ ok (fh, b) =
                rw (e', if◌then◌else◌) at (rw (e, if◌then◌else◌) at h) in
              rw (e, if◌then◌else◌)
                (rw (e', if◌then◌else◌)
                  (share_or_open-holds o
                    (upgrade-eq_some (fs.backing_by_inode ino) fs.backing_by_handle) fh b s))
        ]
      ]

held-shares :
    (dirs : Dirs) (fs : StoreFs) (ino : ℕ) (node : Node) (b : Backed)
    → fs.backing_by_inode ino ≡ some b
    → is_held b.rc fs.backing_by_handle ≡ true
    → (fh' : ℕ) (b' : Backed) → (backing_get_or dirs fs ino node).0 ≡ ok (fh', b')
    → (b' ≡ b) × (fh' ≡ fs.next_fh + 1)
unfolding backing_get_or upgrade
held-shares dirs fs ino node b i held fh' b' h =
    elim (Bool-cases (leb fs.max_open_files (length fs.backing_by_handle))) [
      | inl e ↦ absurd (ground (arith, e))
      | inr e ↦ elim (Bool-cases (leb (2 ^ 64 - 1) fs.next_fh)) [
        | inl e' ↦ absurd (ground (arith, e, e'))
        | inr e' ↦
            let s : Path Opened (ok (fs.next_fh + 1, b)) (ok (fh', b')) =
              ground (arith, e, e', i, held) in
            (cc s, cc s)
      ]
    ]

held_up :
    (b : Backed) (handles : List (ℕ × Backed))
    → is_held b.rc handles ≡ true
    → upgrade (some b) handles ≡ none
    → ⊥
unfolding upgrade
held_up b handles h u = ground arith

-- The inode's file id is `b`, and the handle `fh` holds it.
abbrev Holds : ℕ → ℕ → Backed → StoreFs → Type 0
Holds ino fh b f =
    (f.backing_by_inode ino ≡ some b) × Has fh b f.backing_by_handle × (fh ≤ f.next_fh)

module _ (ino fh : ℕ) (b : Backed) (dirs : Dirs) (f : StoreFs) (other : ℕ) (node : Node)
    (h : Holds ino fh b f) where
  counted-Holds : Holds ino fh b (record f { next_fh = f.next_fh + 1 })
  counted-Holds = (h.0, h.1, omega (arith, h.2))

  -- A file id of another inode is registered.
  register-Holds :
      (r : Result IoError ℕ)
      → other ≢ ino
      → Holds ino fh b (register (record f { next_fh = f.next_fh + 1 }) other (f.next_fh + 1) r).1
  register-Holds (err e) d = counted-Holds
  register-Holds (ok id) d =
      let apart : (ino == other) ≡ false = ground (arith, d) in
      (ground (arith, apart, h.0), inr h.1, omega (arith, h.2))

  register_file-Holds :
      (r : Result IoError ℕ)
      → other ≢ ino
      → Holds ino fh b
          (register_file dirs (record f { next_fh = f.next_fh + 1 }) other node (f.next_fh + 1) r).1
  register_file-Holds (err e) d = counted-Holds
  register_file-Holds (ok file) d = register-Holds ((dir_for dirs node.backing).open_backing file) d

  share_or_open-Holds :
      (o : Option Backed)
      → (o ≡ none → other ≢ ino)
      → Holds ino fh b
          (share_or_open dirs (record f { next_fh = f.next_fh + 1 }) other node (f.next_fh + 1) o).1
  share_or_open-Holds (some c) d = (h.0, inr h.1, omega (arith, h.2))
  share_or_open-Holds none d = register_file-Holds (open_backing_file dirs node) (d refl)

  backing_get_or-Holds : Holds ino fh b (backing_get_or dirs f other node).1
  unfolding backing_get_or
  backing_get_or-Holds = elim (Bool-cases (leb f.max_open_files (length f.backing_by_handle))) [
    | inl e ↦ rw (e, if◌then◌else◌) h
    | inr e ↦ elim (Bool-cases (leb (2 ^ 64 - 1) f.next_fh)) [
      | inl e' ↦ rw (e, if◌then◌else◌) (rw (e', if◌then◌else◌) h)
      | inr e' ↦
          rw (e, if◌then◌else◌)
            (rw (e', if◌then◌else◌)
              (share_or_open-Holds (upgrade (f.backing_by_inode other) f.backing_by_handle) shut))
    ]
  ]
    where
      shut : upgrade (f.backing_by_inode other) f.backing_by_handle ≡ none → other ≢ ino
      shut u e =
          let here : upgrade (f.backing_by_inode ino) f.backing_by_handle ≡ none =
            subst (λ n. upgrade (f.backing_by_inode n) f.backing_by_handle ≡ none) e u in
          held_up b f.backing_by_handle (is_held-Has fh b f.backing_by_handle h.1)
            (ap (λ o. upgrade o f.backing_by_handle) (sym h.0) ∙ here)

-- What may happen to the table of the open files while the handle `fh` is open: any inode is opened, with
-- or without success, any other handle is released, and nodes are interned.
pub data Between (fh : ℕ) (fs : StoreFs) : StoreFs → Type 0 where
  nothing : Between fh fs fs
  opens :
      {f : StoreFs} (dirs : Dirs) (ino : ℕ) (node : Node)
      → Between fh fs f
      → Between fh fs (backing_get_or dirs f ino node).1
  releases :
      {f : StoreFs} (other : ℕ) → other ≢ fh → Between fh fs f → Between fh fs (backing_put f other)
  interns :
      {f : StoreFs} (parent : ℕ) (name : Text) (node : Node)
      → Between fh fs f
      → Between fh fs (intern f parent name node).1

intern-Holds :
    (ino fh : ℕ) (b : Backed) (f : StoreFs) (parent : ℕ) (name : Text) (node : Node)
    → Holds ino fh b f
    → Holds ino fh b (intern f parent name node).1
unfolding intern
intern-Holds ino fh b f parent name node h = interned (f.lookup_cache parent name)
  where
    interned : (o : Option ℕ) → Holds ino fh b (intern_at f parent name node o).1
    interned none = h
    interned (some i) = h

Between-Holds :
    (ino fh : ℕ) (b : Backed) {fs f : StoreFs}
    → Holds ino fh b fs
    → Between fh fs f
    → Holds ino fh b f
unfolding backing_put
Between-Holds ino fh b h nothing = h
Between-Holds ino fh b h (opens {f} dirs other node m) =
    backing_get_or-Holds ino fh b dirs f other node (Between-Holds ino fh b h m)
Between-Holds ino fh b h (releases {f} other d m) =
    let k = Between-Holds ino fh b h m in
    (k.0, Has-remove_handle fh other b f.backing_by_handle d k.1, k.2)
Between-Holds ino fh b h (interns {f} parent name node m) =
    intern-Holds ino fh b f parent name node (Between-Holds ino fh b h m)

-- While a handle from an open of an inode is open, whatever other inodes are opened, other handles released
-- and nodes interned, each open of the inode that succeeds hands out the same file id under a later number,
-- whatever node the inode has by then and whatever the directories answer.
pub backing_get_or-shares :
    (dirs : Dirs) (fs : StoreFs) (ino : ℕ) (node : Node) (fh : ℕ) (b : Backed)
    → (backing_get_or dirs fs ino node).0 ≡ ok (fh, b)
    → (f : StoreFs) → Between fh (backing_get_or dirs fs ino node).1 f
    → (dirs' : Dirs) (node' : Node) (fh' : ℕ) (b' : Backed)
    → (backing_get_or dirs' f ino node').0 ≡ ok (fh', b')
    → (b' ≡ b) × (fh < fh')
backing_get_or-shares dirs fs ino node fh b h f between dirs' node' fh' b' h' =
    let (inode, holds, n) = backing_get_or-holds dirs fs ino node fh b h in
    let k = Between-Holds ino fh b (inode, holds, omega (arith, n)) between in
    let (same, next) =
      held-shares dirs' f ino node' b k.0 (is_held-Has fh b f.backing_by_handle k.1) fh' b' h' in
    (same, omega (arith, k.2, next))
