-- ===== src/StoreFs/State/Handles.antt =====
-- Open handles: how many there are, and which backing file they share.
use nix_os_container_podman.Common.{
  ℕ, ◌+◌, ◌-◌, ◌≤◌, ◌<◌, ◌^◌, ◌≡◌, refl, ap, sym, subst, List, [], ◌∷◌, Option, none, some,
  Bool-cases, inl, inr, arith, if◌then◌else◌, ◌==◌, leb, length, Result, ok, err, All, Text,
}
use nix_os_container_podman.StoreFs.Realize.{PathBuf}
use nix_os_container_podman.StoreFs.Dirs.{IoError}
use nix_os_container_podman.StoreFs.State.Inodes.{SameTable}
use nix_os_container_podman.StoreFs.State.{
  Node, Backed, StoreFs, Dirs, dir_for, open_backing_file, insert, upgrade, backing_get_or,
  backing_put, remove_handle, hold, register, register_file, share_or_open, new, intern, intern_at,
}

-- No more handles are open than may be, and each was numbered by the counter.
pub record IsBounded (fs : StoreFs) : Type 0 where
  pub few : length fs.backing_by_handle ≤ fs.max_open_files
  pub numbered : All (λ h. h.0 ≤ fs.next_fh) fs.backing_by_handle

pub new-IsBounded :
    (resolution_root bind_target : PathBuf) (max_open_files : ℕ)
    → IsBounded (new resolution_root bind_target max_open_files)
new-IsBounded r b m = record { few = omega arith; numbered = tt }

length-remove :
    (fh : ℕ) (handles : List (ℕ × Backed)) → length (remove_handle fh handles) ≤ length handles
length-remove fh [] = omega arith
length-remove fh ((f, b) ∷ handles) = ground (arith, length-remove fh handles)

All-remove :
    (P : ℕ × Backed → Type 0) (fh : ℕ) (handles : List (ℕ × Backed))
    → All P handles
    → All P (remove_handle fh handles)
All-remove P fh [] h = tt
All-remove P fh ((f, b) ∷ handles) h = elim (Bool-cases (f == fh)) [
  | inl e ↦ rw (e, if◌then◌else◌) (All-remove P fh handles h.1)
  | inr e ↦ rw (e, if◌then◌else◌) (h.0, All-remove P fh handles h.1)
]

pub backing_put-IsBounded : (fs : StoreFs) (fh : ℕ) → IsBounded fs → IsBounded (backing_put fs fh)
unfolding backing_put
backing_put-IsBounded fs fh k = record {
  few = omega (arith, k.few, length-remove fh fs.backing_by_handle);
  numbered = All-remove (λ h. h.0 ≤ fs.next_fh) fh fs.backing_by_handle k.numbered;
}

All-raise :
    (n : ℕ) (handles : List (ℕ × Backed))
    → All (λ h. h.0 ≤ n) handles
    → All (λ h. h.0 ≤ n + 1) handles
All-raise n [] h = tt
All-raise n (x ∷ handles) h = (omega (arith, h.0), All-raise n handles h.1)

pub intern-IsBounded :
    (fs : StoreFs) (parent : ℕ) (name : Text) (node : Node)
    → IsBounded fs
    → IsBounded (intern fs parent name node).1
unfolding intern
intern-IsBounded fs parent name node k = interned (fs.lookup_cache parent name)
  where
    interned : (o : Option ℕ) → IsBounded (intern_at fs parent name node o).1
    interned none = record { few = k.few; numbered = k.numbered }
    interned (some ino) = record { few = k.few; numbered = k.numbered }

module _ (dirs : Dirs) (fs : StoreFs) (ino : ℕ) (node : Node) where
  abbrev counted : StoreFs
  counted = record fs { next_fh = fs.next_fh + 1 }

  raised : IsBounded fs → IsBounded counted
  raised k = record { few = k.few; numbered = All-raise fs.next_fh fs.backing_by_handle k.numbered }

  held :
      (f : StoreFs)
      → f.backing_by_handle ≡ fs.backing_by_handle
      → f.max_open_files ≡ fs.max_open_files
      → f.next_fh ≡ fs.next_fh + 1
      → IsBounded fs
      → length fs.backing_by_handle < fs.max_open_files
      → (b : Backed) → IsBounded (hold f (fs.next_fh + 1) b).1
  held f eh em en k h b = record {
    few = omega (arith, ap length eh, em);
    numbered = (
      omega (arith, en),
      subst (All (λ h. h.0 ≤ f.next_fh)) (sym eh) (
          subst (λ n. All (λ h. h.0 ≤ n) fs.backing_by_handle) (sym en)
            (All-raise fs.next_fh fs.backing_by_handle k.numbered)),
    );
  }

  opened_file :
      IsBounded fs
      → length fs.backing_by_handle < fs.max_open_files
      → (r : Result IoError ℕ) → IsBounded (register counted ino (fs.next_fh + 1) r).1
  opened_file k h (err e) = raised k
  opened_file k h (ok id) =
      held
        (record counted {
          next_rc = fs.next_rc + 1;
          backing_by_inode = insert fs.backing_by_inode ino (record { rc = fs.next_rc; id = id });
        })
        refl refl refl k h (record { rc = fs.next_rc; id = id })

  got_file :
      IsBounded fs
      → length fs.backing_by_handle < fs.max_open_files
      → (r : Result IoError ℕ)
      → IsBounded (register_file dirs counted ino node (fs.next_fh + 1) r).1
  got_file k h (err e) = raised k
  got_file k h (ok f) = opened_file k h ((dir_for dirs node.backing).open_backing f)

  shared_or_opened :
      IsBounded fs
      → length fs.backing_by_handle < fs.max_open_files
      → (o : Option Backed) → IsBounded (share_or_open dirs counted ino node (fs.next_fh + 1) o).1
  shared_or_opened k h (some b) = held counted refl refl refl k h b
  shared_or_opened k h none = got_file k h (open_backing_file dirs node)

  pub backing_get_or-IsBounded : IsBounded fs → IsBounded (backing_get_or dirs fs ino node).1
  unfolding backing_get_or
  backing_get_or-IsBounded k =
      elim (Bool-cases (leb fs.max_open_files (length fs.backing_by_handle))) [
        | inl e ↦ rw (e, if◌then◌else◌) k
        | inr e ↦ elim (Bool-cases (leb (2 ^ 64 - 1) fs.next_fh)) [
          | inl e' ↦ rw (e, if◌then◌else◌) (rw (e', if◌then◌else◌) k)
          | inr e' ↦
              rw (e, if◌then◌else◌)
                (rw (e', if◌then◌else◌)
                  (shared_or_opened k (ground arith)
                    (upgrade (fs.backing_by_inode ino) fs.backing_by_handle)))
        ]
      ]

  register_file-same :
      (r : Result IoError ℕ)
      → SameTable (register_file dirs counted ino node (fs.next_fh + 1) r).1 fs
  register_file-same (err e) = (refl, refl, refl, refl, refl)
  register_file-same (ok f) = registered ((dir_for dirs node.backing).open_backing f)
    where
      registered : (r : Result IoError ℕ) → SameTable (register counted ino (fs.next_fh + 1) r).1 fs
      registered (err e) = (refl, refl, refl, refl, refl)
      registered (ok id) = (refl, refl, refl, refl, refl)

  share_or_open-same :
      (o : Option Backed) → SameTable (share_or_open dirs counted ino node (fs.next_fh + 1) o).1 fs
  share_or_open-same (some b) = (refl, refl, refl, refl, refl)
  share_or_open-same none = register_file-same (open_backing_file dirs node)

  pub backing_get_or-same : SameTable (backing_get_or dirs fs ino node).1 fs
  unfolding backing_get_or
  backing_get_or-same = elim (Bool-cases (leb fs.max_open_files (length fs.backing_by_handle))) [
    | inl e ↦ rw (e, if◌then◌else◌) (refl, refl, refl, refl, refl)
    | inr e ↦ elim (Bool-cases (leb (2 ^ 64 - 1) fs.next_fh)) [
      | inl e' ↦ rw (e, if◌then◌else◌) (rw (e', if◌then◌else◌) (refl, refl, refl, refl, refl))
      | inr e' ↦
          rw (e, if◌then◌else◌)
            (rw (e', if◌then◌else◌)
              (share_or_open-same (upgrade (fs.backing_by_inode ino) fs.backing_by_handle)))
    ]
  ]
