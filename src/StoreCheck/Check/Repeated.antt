-- ===== src/StoreCheck/Check/Repeated.antt =====
-- Starts that are skipped again and again.
use nix_os_container_podman.Common.{
  ℕ, zero, suc, ◌+◌, ◌-◌, ◌≤◌, ◌<◌, ◌^◌, ◌≡◌, refl, true, List, [], ◌∷◌, ◌++◌, replicate, Text, ok,
  ltb, arith, if◌then◌else◌,
}
use nix_os_container_podman.StoreCheck.Units.{check_unit_name, is_unit_name}
use nix_os_container_podman.StoreCheck.Check.{
  Host, World, View, restarted, took_recheck, count, bump, skip, skip_counted, settle, check,
  stale_units, exit_status, max_skips, continue,
}
use nix_os_container_podman.StoreCheck.Check.Skips.{bump_lem}
use nix_os_container_podman.StoreCheck.Check.Outcomes.{count-commands}

-- The host takes every command for the unit, and the runtime directory every count.
pub record IsWilling (host : Host) (unit : Text) : Type 0 where
  pub name : is_unit_name unit ≡ true
  pub restarts : (units : List Text) → host.restart units ≡ ok tt
  pub arms : host.arm_recheck unit ≡ ok tt
  pub records : host.can_record unit ≡ true

-- The exit statuses of `n` starts in a row.
abbrev pub starts : ℕ → Host → Text → List View → World → List ℕ
starts zero host unit views w = []
starts (suc n) host unit views w =
    exit_status (check host unit views w).0 ∷ starts n host unit views (check host unit views w).1

module _ (host : Host) (unit : Text) (views : List View) (s : Text) (stale : List Text)
    (willing : IsWilling host unit) (is_stale : stale_units host views ≡ ok (s ∷ stale)) where
  bump_goes :
      (w : World) (n : ℕ)
      → (count unit w).0 ≡ ok n
      → n < 2 ^ 32 - 1
      → (bump host unit w).0 ≡ ok (n + 1)
  unfolding bump count check_unit_name
  bump_goes w n c h = ground (arith, willing.name, willing.records)

  verdict : (n : ℕ) → ℕ
  verdict n = if ltb n max_skips then 1 else 255

  counted :
      (w : World) (n : ℕ)
      → (count unit w).0 ≡ ok (n + 1)
      → (exit_status (skip_counted host unit (s ∷ stale) (n + 1) w).0 ≡ verdict n)
        × ((count unit (skip_counted host unit (s ∷ stale) (n + 1) w).1).0 ≡ ok (n + 1))
  unfolding skip_counted exit_status verdict
  counted w n c = (
    ground (arith, willing.restarts ((s ∷ stale) ++ unit ∷ []), willing.arms),
    ground (
      arith,
      willing.restarts ((s ∷ stale) ++ unit ∷ []),
      willing.arms,
      count-commands host unit w (restarted ((s ∷ stale) ++ unit ∷ []) ∷ w.commands),
      count-commands host unit w
          (took_recheck unit ∷ restarted ((s ∷ stale) ++ unit ∷ []) ∷ w.commands),
    ),
  )

  one_start :
      (w : World) (n : ℕ)
      → (count unit w).0 ≡ ok n
      → n < 2 ^ 32 - 1
      → (exit_status (check host unit views w).0 ≡ verdict n)
        × ((count unit (check host unit views w).1).0 ≡ ok (n + 1))
  unfolding check settle skip
  one_start w n c h =
      let b = bump_goes w n c h in
      let (m, was, is, now, others, same) = bump_lem host unit w (n + 1) b in
      rw (is_stale, continue) (rw (b, continue) (counted (bump host unit w).1 n now))

  given_up :
      (k : ℕ) (w : World) (n : ℕ)
      → (count unit w).0 ≡ ok n
      → max_skips ≤ n
      → n + k ≤ 2 ^ 32 - 1
      → starts k host unit views w ≡ replicate k 255
  unfolding verdict
  given_up zero w n c m h = refl
  given_up (suc k) w n c m h =
      let (status, next) = one_start w n c (omega arith) in
      let failed : verdict n ≡ 255 = ground arith in
      cc (
        status,
        failed,
        given_up k (check host unit views w).1 (n + 1) next (omega arith) (omega arith),
      )

  -- While a view stays stale and the host takes every command, the first three starts from a count of
  -- 0 are skipped (status 1), and each one after them fails (status 255), up to 2 ^ 32 - 1 starts.
  pub starts_lem :
      (k : ℕ) (w : World)
      → (count unit w).0 ≡ ok 0
      → 3 + k ≤ 2 ^ 32 - 1
      → starts (suc (suc (suc k))) host unit views w ≡ 1 ∷ 1 ∷ 1 ∷ replicate k 255
  unfolding verdict
  starts_lem k w c h =
      let (status0, next0) = one_start w 0 c (omega arith) in
      let w1 = (check host unit views w).1 in
      let (status1, next1) = one_start w1 1 next0 (omega arith) in
      let w2 = (check host unit views w1).1 in
      let (status2, next2) = one_start w2 2 next1 (omega arith) in
      cc (
        status0,
        status1,
        status2,
        given_up k (check host unit views w2).1 3 next2 (omega arith) (omega arith),
      )
