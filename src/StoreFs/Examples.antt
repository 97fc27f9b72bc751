-- ===== src/StoreFs/Examples.antt =====
-- Runs of the store file system on a small farm.
use nix_os_container_podman.Common.{
  ◌*◌, ◌≤◌, ◌<◌, ◌≡◌, ◌⊎◌, refl, Bool, true, false, List, [], ◌∷◌, Option, some, Text, Result,
  subst, codes, bytes_eq, split, All, ok, length, arith,
}
use nix_os_container_podman.StoreFs.Realize.{
  PathBuf, path_of, normalize, collapse, is_inside, strip_parts, parts_eq, realize, keep_symlink,
  classify, resolve_target,
}
use nix_os_container_podman.StoreFs.Realize.Normal.{IsName}
use nix_os_container_podman.StoreFs.Realize.Classify.{IsBehind, classify_lem}
use nix_os_container_podman.StoreFs.Dirs.{
  Dir, IoError, Metadata, DiskType, file_type, symlink_type, pos, negsuc,
}
use nix_os_container_podman.StoreFs.State.{
  Node, redirect, file, Backed, Dirs, StoreFs, new, intern, backing_get_or, backing_put,
  open_readonly, upgrade, is_held,
}
use nix_os_container_podman.StoreFs.State.Inodes.{IsKept}
use nix_os_container_podman.StoreFs.State.Handles.{IsBounded}
use nix_os_container_podman.StoreFs.State.Shared.{nothing, opens, releases, backing_get_or-shares}
use nix_os_container_podman.StoreFs.Nodes.{system_time, attr_for, resolve_bind_child}
use nix_os_container_podman.StoreFs.Nodes.Times.{instant, further, system_time_early}
use nix_os_container_podman.StoreFs.Operations.{Entry, lookup_request, open_request, serve, lookup}
use nix_os_container_podman.StoreFs.Operations.Runs.{Run, Run-IsKept, Run-IsStable}
use nix_os_container_podman.StoreFs.Operations.Runs
use nix_os_container_podman.StoreFs.Operations.Confined.{IsFileName, IsConfined}
use nix_os_container_podman.StoreFs.Operations.Within.{IsEntry, stay, step, nodes-IsConfined}

abbrev metadata_of : DiskType → Metadata
metadata_of t = record {
  disk_type = t;
  size = 7;
  blocks = 8;
  atime = pos 1;
  atime_nsec = pos 0;
  mtime = pos 1;
  mtime_nsec = pos 0;
  ctime = pos 1;
  ctime_nsec = pos 0;
  mode = 0o100444;
  nlink = 1;
  uid = 0;
  gid = 0;
  rdev = 0;
  blksize = 4096;
}

-- The farm's one link is absolute; the redirect root has regular files only.
abbrev pub farm : Dir
farm = record {
  symlink_metadata = λ p. ok (metadata_of symlink_type);
  metadata = λ p. ok (metadata_of file_type);
  read_link_contents = λ p. ok (path_of (codes "/nix/store/x"));
  read_dir = λ p. ok (some (codes "x") ∷ []);
  open_nofollow = λ p. ok 3;
  open_backing = λ f. ok 40;
}

abbrev dirs : Dirs
dirs = record { bind_dir = farm; redirect_dir = farm }

abbrev store_root : PathBuf
store_root = path_of (codes "/nix/store")

abbrev pub farm_root : PathBuf
farm_root = path_of (codes "/farm")

abbrev mounted : StoreFs
mounted = new store_root farm_root 16

abbrev never_full : List Entry → Entry → Bool
never_full added e = false

after_lookup : StoreFs
after_lookup = (serve dirs never_full (lookup_request 1 (codes "x")) mounted).1

looked_up : Run mounted after_lookup
unfolding after_lookup
looked_up = Runs.step dirs never_full (lookup_request 1 (codes "x")) Runs.stay

Run-IsKept_example :
    IsKept after_lookup × (length after_lookup.backing_by_handle ≤ 16) × IsBounded after_lookup
Run-IsKept_example = Run-IsKept store_root farm_root 16 after_lookup looked_up

Run-IsStable_example :
    (serve dirs never_full (open_request 2 true) after_lookup).1.lookup_cache 1 (codes "x") ≡ some 2
unfolding after_lookup serve lookup resolve_bind_child classify resolve_target normalize collapse
    split is_inside strip_parts parts_eq bytes_eq attr_for intern
Run-IsStable_example =
    Run-IsStable after_lookup (serve dirs never_full (open_request 2 true) after_lookup).1 1
      (codes "x") 2 (Runs.step dirs never_full (open_request 2 true) Runs.stay) refl

abbrev plain_file : Node
plain_file = record { backing = redirect; rel = path_of (codes "x"); kind = file }

abbrev first_id : Backed
first_id = record { rc = 0; id = 40 }

-- Another inode is opened and closed before the first one is opened again.
abbrev after_other : StoreFs
after_other =
    backing_put (backing_get_or dirs (backing_get_or dirs mounted 2 plain_file).1 3 plain_file).1 2

backing_get_or-shares_example : (◌≡◌ {A = Backed} first_id first_id) × (1 < 3)
unfolding backing_get_or open_readonly upgrade is_held split bytes_eq backing_put
backing_get_or-shares_example =
    backing_get_or-shares dirs mounted 2 plain_file 1 first_id refl after_other
      (releases 2 (λ e. absurd (omega (arith, e))) (opens dirs 3 plain_file nothing)) dirs
      plain_file 3 first_id refl

system_time_early_example :
    (system_time (pos 3) (pos 5) ≡ instant (pos 3) 5)
    × (system_time (negsuc 3) (pos 5) ≡ further (instant (negsuc 3) 5) (2 * 5))
system_time_early_example = system_time_early 3 5 (omega arith)

abbrev target : PathBuf
target = path_of (codes "/nix/store/a/../x")

classify_lem_example :
    ((rel : PathBuf) × (classify target store_root farm_root ≡ realize rel)
      × (is_inside target store_root ≡ true)
      × (is_inside target farm_root ≡ false)
      × All IsName rel.parts
      × IsBehind (normalize store_root) (normalize target) rel)
    ⊎ ((classify target store_root farm_root ≡ keep_symlink)
        × ((is_inside target store_root ≡ false) ⊎ (is_inside target farm_root ≡ true)))
unfolding split bytes_eq
classify_lem_example = classify_lem target store_root farm_root refl

plain_x : IsFileName (codes "x")
unfolding bytes_eq
plain_x = record { no_slash = refl; is_something = refl; not_here = refl; not_up = refl }

listed_plain :
    (names : List (Option Text))
    → ◌≡◌ {A = Result IoError (List (Option Text))} (ok (some (codes "x") ∷ [])) (ok names)
    → All IsEntry names
listed_plain names e =
    let same : some (codes "x") ∷ [] ≡ names = cc in subst (All IsEntry) same (plain_x, tt)

nodes-IsConfined_example : IsConfined plain_file.rel
unfolding after_lookup serve lookup resolve_bind_child classify resolve_target normalize collapse
    split is_inside strip_parts parts_eq bytes_eq attr_for intern
nodes-IsConfined_example =
    nodes-IsConfined store_root farm_root 16 after_lookup 2 plain_file refl
      (step dirs never_full (lookup_request 1 (codes "x"))
        (record { bound = λ p. listed_plain; redirected = λ p. listed_plain }) plain_x stay)
      refl
