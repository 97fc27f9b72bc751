-- ===== src/Prison/Examples.antt =====
-- Runs of prison-start and of the generator of user managers.
use nix_os_container_podman.Common.{
  ◌≡◌, refl, true, false, List, [], ◌∷◌, some, codes, bytes_eq, split, err, arith,
}
use nix_os_container_podman.Runner.Texts.{lines}
use nix_os_container_podman.StoreCheck.Decimal.{parse_u32}
use nix_os_container_podman.Prison.Start.{
  Start, exited, dies_by, over, term, step, main, main_from, advance, on_term,
}
use nix_os_container_podman.Prison.Start.Stopped.{end_of, main_lem}
use nix_os_container_podman.Prison.Users.{
  duplicate_account, uids_of, account_uid, generate, generate_user, write_drop_in,
}
use nix_os_container_podman.Prison.Users.Accounts.{
  Account, passwd_of, named_uids, Tells, account_uid-accounts,
}
use nix_os_container_podman.Prison.Users.DropIns.{Writes, generate-Writes}

-- podman that ends with status 1.
abbrev failing : Start
failing = record { has_program = true; child = some (exited 1); is_harmless = λ sig. false }

stopped : main failing (step ∷ term ∷ step ∷ step ∷ []) ≡ over (dies_by 15)
unfolding main main_from advance on_term
stopped = refl

main_lem_example :
    main failing (step ∷ term ∷ step ∷ step ∷ [])
    ≡ over (end_of failing (step ∷ term ∷ step ∷ step ∷ []))
main_lem_example = main_lem failing (step ∷ term ∷ step ∷ step ∷ []) (omega arith)

abbrev bridge : Account
bridge = record {
  name = codes "bridge";
  password = codes "x";
  uid = codes "994";
  rest = codes "994::/:/bin/sh";
}

abbrev accounts : List Account
accounts = record bridge { name = codes "root"; uid = codes "0" } ∷ bridge ∷ []

account_uid-accounts_example :
    Tells
      (codes "bridge")
      (named_uids (codes "bridge") accounts)
      (account_uid (passwd_of accounts) (codes "bridge"))
account_uid-accounts_example = account_uid-accounts (codes "bridge") accounts (
  record { name = refl; password = refl; uid = refl; no_newline = refl; no_return = refl },
  (record { name = refl; password = refl; uid = refl; no_newline = refl; no_return = refl }, tt),
)

twice :
    account_uid (passwd_of (bridge ∷ bridge ∷ [])) (codes "bridge")
    ≡ err (duplicate_account (codes "bridge"))
unfolding account_uid uids_of lines split bytes_eq parse_u32
twice = refl

-- A disk that takes every change.
generate-Writes_example :
    Writes
      (codes "/run")
      (passwd_of accounts)
      (codes "bridge" ∷ [])
      true
      (generate (λ c. true) (codes "/run") (passwd_of accounts) (codes "bridge" ∷ []) []).1
unfolding generate generate_user account_uid uids_of lines split bytes_eq parse_u32 write_drop_in
generate-Writes_example =
    generate-Writes (λ c. true) (codes "/run") (passwd_of accounts) (codes "bridge" ∷ [])
