-- ===== src/StoreCheck/Examples.antt =====
-- Runs of prison-store-check on concrete hosts.
use nix_os_container_podman.Common.{
  ℕ, ◌+◌, ◌-◌, ◌^◌, ◌≡◌, ◌≢◌, ◌⊎◌, refl, true, [], ◌∷◌, some, Text, codes, bytes_eq, strip_prefix,
  All, ok, min, arith,
}
use nix_os_container_podman.StoreCheck.Units.{is_unit_name, check_unit_name}
use nix_os_container_podman.StoreCheck.Argv.{bind_target_flag, bind_target}
use nix_os_container_podman.StoreCheck.Check.{
  Host, World, View, Outcome, fresh, restarting, absent, count, bump, check, served, stale_units,
  settle, skip, file_count,
}
use nix_os_container_podman.StoreCheck.Check.Skips.{bump_raises}
use nix_os_container_podman.StoreCheck.Check.Outcomes.{
  serves_view, stale_of, Skipped, check-Outcome,
}
use nix_os_container_podman.StoreCheck.Check.Repeated.{starts, starts_lem}

abbrev unit_name : Text
unit_name = codes "p-s.service"

abbrev view : View
view = record { unit = codes "p-store-s.service"; target = codes "/new" }

-- A host whose one daemon serves `target`.
abbrev host_of : Text → Host
host_of target = record {
  main_pid = λ unit. ok 10;
  cmdline = λ pid. some (codes "fuse" ∷ bind_target_flag ∷ target ∷ []);
  active_state = λ unit. ok (codes "inactive");
  restart = λ units. ok tt;
  start = λ unit. ok tt;
  arm_recheck = λ unit. ok tt;
  can_record = λ unit. true;
  can_clear = λ unit. true;
}

abbrev no_skips : World
no_skips = record { skips = λ unit. absent; commands = [] }

abbrev old_host : Host
old_host = host_of (codes "/old")

abbrev new_host : Host
new_host = host_of (codes "/new")

check-Outcome_example :
    let w = (check old_host unit_name (view ∷ []) no_skips).1 in
    ((◌≡◌ {A = Outcome} (restarting (view.unit ∷ [])) fresh)
      × All (λ v. serves_view old_host v ≡ true) (view ∷ [])
      × (w.commands ≡ [])
      × ((count unit_name w).0 ≡ ok 0))
    ⊎ ((stale_of old_host (view ∷ []) ≢ [])
        × Skipped old_host unit_name
            (stale_of old_host (view ∷ []))
            no_skips
            (restarting (view.unit ∷ []))
            w)
unfolding check stale_units served bind_target bytes_eq strip_prefix settle skip bump
    check_unit_name file_count
check-Outcome_example =
    check-Outcome old_host unit_name (view ∷ []) no_skips (restarting (view.unit ∷ [])) refl

unit_name-valid : is_unit_name unit_name ≡ true
unfolding is_unit_name strip_prefix
unit_name-valid = refl

starts_lem_example : starts 5 old_host unit_name (view ∷ []) no_skips ≡ 1 ∷ 1 ∷ 1 ∷ 255 ∷ 255 ∷ []
unfolding stale_units served bind_target bytes_eq strip_prefix count check_unit_name file_count
starts_lem_example =
    starts_lem old_host unit_name (view ∷ []) view.unit []
      (record { name = unit_name-valid; restarts = λ units. refl; arms = refl; records = refl })
      refl 2 no_skips refl (omega arith)

bump_raises_example :
    (m : ℕ) × ((count unit_name no_skips).0 ≡ ok m)
    × (1 ≡ min (m + 1) (2 ^ 32 - 1))
    × ((count unit_name (bump old_host unit_name no_skips).1).0 ≡ ok 1)
    × ((bump old_host unit_name no_skips).1.skips view.unit ≡ absent)
    × ((bump old_host unit_name no_skips).1.commands ≡ [])
unfolding bump count check_unit_name is_unit_name strip_prefix file_count
bump_raises_example = bump_raises old_host unit_name no_skips 1 view.unit refl (λ e. cc e)
