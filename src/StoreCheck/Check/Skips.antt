-- ===== src/StoreCheck/Check/Skips.antt =====
-- The skip count of a unit, as its file keeps it between starts.
use nix_os_container_podman.Common.{
  ℕ, ◌+◌, ◌-◌, ◌<◌, ◌^◌, ◌≡◌, ◌≢◌, ap, [], ◌∷◌, ◌++◌, Text, bytes_eq_refl, bytes_eq_iff,
  Result-cases, inl, inr, ok, min, arith,
}
use nix_os_container_podman.StoreCheck.Units.{check_unit_name}
use nix_os_container_podman.StoreCheck.Decimal.{to_string}
use nix_os_container_podman.StoreCheck.Decimal.RoundTrip.{parse_u32-to_string}
use nix_os_container_podman.StoreCheck.Check.{
  Host, World, text, file_count, count, bump, clear, or_zero,
}

file_count-to_string :
    (unit : Text) (n : ℕ) → n < 2 ^ 32 → file_count unit (text (to_string n ++ b'\n' ∷ [])) ≡ ok n
unfolding file_count
file_count-to_string unit n h = ap (λ o. ok (or_zero o)) (parse_u32-to_string n h)

module _ (host : Host) (unit : Text) (w : World) where
  pub bump-commands : (bump host unit w).1.commands ≡ w.commands
  unfolding bump count check_unit_name file_count
  bump-commands = ground arith

  pub clear-commands : (clear host unit w).1.commands ≡ w.commands
  unfolding clear check_unit_name
  clear-commands = ground arith

  pub bump_lem :
      (n : ℕ)
      → (bump host unit w).0 ≡ ok n
      → (m : ℕ) × ((count unit w).0 ≡ ok m)
        × (n ≡ min (m + 1) (2 ^ 32 - 1))
        × ((count unit (bump host unit w).1).0 ≡ ok n)
        × ((other : Text) → other ≢ unit → (bump host unit w).1.skips other ≡ w.skips other)
        × ((bump host unit w).1.commands ≡ w.commands)
  unfolding bump count check_unit_name
  bump_lem n h = elim (Result-cases (file_count unit (w.skips unit))) [
    | inl (m, e) ↦
        let bound : min (m + 1) (2 ^ 32 - 1) < 2 ^ 32 = omega arith in
        (
          m,
          ground (arith, e),
          ground (arith, e),
          ground (
            arith,
            e,
            bytes_eq_refl unit,
            file_count-to_string unit (min (m + 1) (2 ^ 32 - 1)) bound,
          ),
          λ other ne. ground (arith, bytes_eq_iff other unit),
          ground (arith, e),
        )
    | inr (e, broken) ↦ absurd (ground (arith, broken))
  ]

  pub clear_lem :
      (clear host unit w).0 ≡ ok tt
      → ((count unit (clear host unit w).1).0 ≡ ok 0)
        × ((other : Text) → other ≢ unit → (clear host unit w).1.skips other ≡ w.skips other)
        × ((clear host unit w).1.commands ≡ w.commands)
  unfolding clear count file_count check_unit_name
  clear_lem h = (
    ground (arith, bytes_eq_refl unit),
    λ other ne. ground (arith, bytes_eq_iff other unit),
    ground arith,
  )

-- A bump that returns has raised the count by one, up to `u32::MAX`; the new count is what is read
-- from then on, the count of another unit is as it was, and no command was given.
pub bump_raises :
    (host : Host) (unit : Text) (w : World) (n : ℕ) (other : Text)
    → (bump host unit w).0 ≡ ok n
    → other ≢ unit
    → (m : ℕ) × ((count unit w).0 ≡ ok m)
      × (n ≡ min (m + 1) (2 ^ 32 - 1))
      × ((count unit (bump host unit w).1).0 ≡ ok n)
      × ((bump host unit w).1.skips other ≡ w.skips other)
      × ((bump host unit w).1.commands ≡ w.commands)
bump_raises host unit w n other h ne =
    let (m, was, is, now, others, same) = bump_lem host unit w n h in
    (m, was, is, now, others other ne, same)
