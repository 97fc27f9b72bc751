-- ===== src/StoreFs/Main/Mounted.antt =====
-- nix-store-shared-fuse/src/main.rs: what is mounted, and what it keeps while it is.
use nix_os_container_podman.Common.{
  ◌≤◌, ◌<◌, ◌≡◌, refl, sym, ap, ◌∙◌, subst, Bool, true, false, ◌++◌, any, Option, none, some,
  Result, ok, err, Bool-cases, inl, inr, ltb, ltb→lt, length, if◌then◌else◌,
}
use nix_os_container_podman.StoreFs.Realize.{normalize}
use nix_os_container_podman.StoreFs.Dirs.{Dir}
use nix_os_container_podman.StoreFs.State.{StoreFs}
use nix_os_container_podman.StoreFs.State.Inodes.{IsKept}
use nix_os_container_podman.StoreFs.Operations.Runs.{Run, Run-IsKept}
use nix_os_container_podman.StoreFs.Main.{
  Error, Args, Machine, Mount, has_cap_sys_admin, require_bit, require_cap_sys_admin,
  redirect_root_of, mount_of, options_of, prepare, opened, ◌>>?◌, main, opening_bind_target,
  opening_redirect_root, no_open_files, MountOption, read_only, no_dev, no_suid, allow_others,
  if_set, run_mount,
}

>>?-eq-ok :
    {A B : Type 0} (r : Result Error A) (f : A → Result Error B) {b : B}
    → (r >>? f) ≡ ok b
    → (a : A) × (r ≡ ok a) × (f a ≡ ok b)
>>?-eq-ok (err e) f h = cc
>>?-eq-ok (ok a) f h = (a, refl, h)

opened-eq-ok : (o : Option Dir) (e : Error) {d : Dir} → opened o e ≡ ok d → o ≡ some d
opened-eq-ok none e h = cc
opened-eq-ok (some d) e h = cc

require_bit-eq-ok : (o : Option Bool) {u : Unit {0}} → require_bit o ≡ ok u → o ≡ some true
require_bit-eq-ok none h = cc
require_bit-eq-ok (some true) h = refl
require_bit-eq-ok (some false) h = cc

unless : (b : Bool) (e : Error) {u : Unit {0}} → (if b then ok tt else err e) ≡ ok u → b ≡ true
unless true e h = refl
unless false e h = cc

abbrev pub is_read_only : MountOption → Bool
is_read_only read_only = true
is_read_only _ = false

abbrev pub is_no_dev : MountOption → Bool
is_no_dev no_dev = true
is_no_dev _ = false

abbrev pub is_no_suid : MountOption → Bool
is_no_suid no_suid = true
is_no_suid _ = false

abbrev pub is_allow_others : MountOption → Bool
is_allow_others allow_others = true
is_allow_others _ = false

-- The options that the kernel gets, by those of the command line.
options_lem :
    (args : Args)
    → (any is_read_only (options_of args) ≡ true)
      × (any is_no_dev (options_of args) ≡ true)
      × (any is_no_suid (options_of args) ≡ args.nosuid)
      × (any is_allow_others (options_of args) ≡ args.allow_other)
options_lem args =
    (refl, refl, suid args.nosuid args.allow_other, others args.nosuid args.allow_other)
  where
    suid : (n o : Bool) → any is_no_suid (if_set n no_suid ++ if_set o allow_others) ≡ n
    suid true o = refl
    suid false true = refl
    suid false false = refl

    others : (n o : Bool) → any is_allow_others (if_set n no_suid ++ if_set o allow_others) ≡ o
    others true true = refl
    others true false = refl
    others false true = refl
    others false false = refl

-- What stands behind a mount that was prepared.
abbrev IsPrepared : Machine → Args → Mount → Type 0
IsPrepared m args mount =
    (has_cap_sys_admin m.status ≡ some true)
    × (0 < args.max_open_files)
    × ((bind_dir : Dir) × (redirect_dir : Dir) × (m.open_dir args.bind_target ≡ some bind_dir)
        × (m.open_dir (redirect_root_of args) ≡ some redirect_dir)
        × (mount ≡ mount_of args bind_dir redirect_dir))

prepare-IsPrepared :
    (m : Machine) (args : Args) (mount : Mount)
    → prepare m args ≡ ok mount
    → IsPrepared m args mount
unfolding prepare require_cap_sys_admin
prepare-IsPrepared m args mount h =
    let (u, cap, h₁) = >>?-eq-ok (require_cap_sys_admin m.status) _ h in
    let (v, some_files, h₂) =
      >>?-eq-ok (if ltb 0 args.max_open_files then ok tt else err no_open_files) _ h₁ in
    let (b, found, h₃) =
      >>?-eq-ok (opened (m.open_dir args.bind_target) opening_bind_target) _ h₂ in
    let (r, redirected, h₄) =
      >>?-eq-ok (opened (m.open_dir (redirect_root_of args)) opening_redirect_root) _ h₃ in
    (
      require_bit-eq-ok (has_cap_sys_admin m.status) cap,
      ltb→lt 0 args.max_open_files (unless _ no_open_files some_files),
      (
        b,
        r,
        opened-eq-ok (m.open_dir args.bind_target) opening_bind_target found,
        opened-eq-ok (m.open_dir (redirect_root_of args)) opening_redirect_root redirected,
        cc h₄,
      ),
    )

mounted : (m : Machine) (mount : Mount) {run : Mount} → run_mount m mount ≡ ok run → mount ≡ run
mounted m mount h = elim (Bool-cases (m.mount mount)) [
  | inl runs ↦ cc (rw runs at h)
  | inr fails ↦ absurd (cc (rw fails at h))
]

main-IsPrepared :
    (m : Machine) (args : Args) (mount : Mount) → main m args ≡ ok mount → IsPrepared m args mount
unfolding main
main-IsPrepared m args mount h =
    let (before, e, h') = >>?-eq-ok (prepare m args) _ h in
    subst (IsPrepared m args) (mounted m before h') (prepare-IsPrepared m args before e)

-- If the program mounts, it holds CAP_SYS_ADMIN; the roots are the two directories of the command line,
-- the redirect root being the resolution root if none is given; the kernel is told read-only and no
-- devices always, and no set-user-ID and access by others exactly as the command line asks. Whatever
-- requests the file system has served since, no more handles are open than the limit, which is at least
-- 1, and two names never share an inode.
pub main_mounts :
    (m : Machine) (args : Args) (mount : Mount) (fs : StoreFs)
    → main m args ≡ ok mount
    → Run mount.filesystem fs
    → (has_cap_sys_admin m.status ≡ some true)
      × (m.open_dir args.bind_target ≡ some mount.dirs.bind_dir)
      × (m.open_dir (redirect_root_of args) ≡ some mount.dirs.redirect_dir)
      × ((any is_read_only mount.options ≡ true)
          × (any is_no_dev mount.options ≡ true)
          × (any is_no_suid mount.options ≡ args.nosuid)
          × (any is_allow_others mount.options ≡ args.allow_other))
      × (0 < args.max_open_files)
      × (length fs.backing_by_handle ≤ args.max_open_files)
      × IsKept fs
main_mounts m args mount fs h run =
    let (cap, files, found) = main-IsPrepared m args mount h in
    let (b, r, bind_found, redirect_found, e) = found in
    let kept =
      Run-IsKept (normalize args.resolution_root) (normalize args.bind_target) args.max_open_files
        fs (subst (λ x. Run x.filesystem fs) e run) in
    (
      cap,
      bind_found ∙ ap (λ x. some x.dirs.bind_dir) (sym e),
      redirect_found ∙ ap (λ x. some x.dirs.redirect_dir) (sym e),
      subst
          (λ x.
            (any is_read_only x.options ≡ true)
            × (any is_no_dev x.options ≡ true)
            × (any is_no_suid x.options ≡ args.nosuid)
            × (any is_allow_others x.options ≡ args.allow_other))
          (sym e) (options_lem args),
      files,
      kept.1,
      kept.0,
    )
