-- ===== src/StoreCheck/Main/Exits.antt =====
-- prison-store-check/src/main.rs: what the exit status says.
use nix_os_container_podman.Common.{
  ℕ, ◌≡◌, ◌≢◌, refl, sym, ◌∙◌, subst, true, false, List, [], ◌∷◌, ◌++◌, none, some, Bytes, Text,
  All, Result, ok, err, Result-cases, Bool-cases, ◌⊎◌, inl, inr, arith,
}
use nix_os_container_podman.StoreCheck.Units.{Error}
use nix_os_container_podman.StoreCheck.Check.{
  Host, World, View, Outcome, fresh, restarting, gave_up, restarted, took_recheck, started, count,
  bump, skip, skip_counted, settle, check, clear, continue, stale_units, recheck, is_running,
  exit_status,
}
use nix_os_container_podman.StoreCheck.Check.Skips.{bump-commands, clear-commands}
use nix_os_container_podman.StoreCheck.Check.Outcomes.{
  serves_view, stale_of, Skipped, check-Outcome,
}
use nix_os_container_podman.StoreCheck.System.{Machine, active_state, start, host_of}
use nix_os_container_podman.StoreCheck.Main.{
  Usage, Job, checks, rechecks, command_line, system, perform, recheck_status, main,
}

module _ (host : Host) (unit : Text) where
  -- The commands of a check that failed: none, or the restart that stood before what failed.
  abbrev pub FailedBehind : World → World → Type 0
  FailedBehind w w' =
      (w'.commands ≡ w.commands)
      ⊎ ((units : List Text) × (w'.commands ≡ restarted units ∷ w.commands))

  FailedBehind-commands :
      (w w₁ w' : World) → w₁.commands ≡ w.commands → FailedBehind w₁ w' → FailedBehind w w'
  FailedBehind-commands w w₁ w' e (inl same) = inl (same ∙ e)
  FailedBehind-commands w w₁ w' e (inr (units, more)) = inr (units, cc (more, e))

  skip_counted-FailedBehind :
      (stale : List Text) (n : ℕ) (w : World) (e : Error)
      → (skip_counted host unit stale n w).0 ≡ err e
      → FailedBehind w (skip_counted host unit stale n w).1
  unfolding skip_counted
  skip_counted-FailedBehind stale n w e h =
      elim (Result-cases (host.restart (stale ++ unit ∷ []))) [
        | inl (u, r) ↦ inr (stale ++ unit ∷ [], ground (arith, r))
        | inr (x, r) ↦ inl (ground (arith, r))
      ]

  skip-FailedBehind :
      (stale : List Text) (w : World) (e : Error)
      → (skip host unit stale w).0 ≡ err e
      → FailedBehind w (skip host unit stale w).1
  unfolding skip
  skip-FailedBehind stale w e h = elim (Result-cases (bump host unit w).0) [
    | inl (n, r) ↦
        rw (r, continue)
          (FailedBehind-commands w (bump host unit w).1
            (skip_counted host unit stale n (bump host unit w).1).1 (bump-commands host unit w)
            (skip_counted-FailedBehind stale n (bump host unit w).1 e (rw (r, continue) at h)))
    | inr (x, r) ↦ inl (rw (r, continue) (bump-commands host unit w))
  ]

  check-FailedBehind :
      (views : List View) (w : World) (e : Error)
      → (check host unit views w).0 ≡ err e
      → FailedBehind w (check host unit views w).1
  unfolding check settle
  check-FailedBehind views w e h = elim (Result-cases (stale_units host views)) [
    | inl ([], r) ↦ elim (Result-cases (clear host unit w).0) [
      | inl (u, c) ↦ inl (rw (r, continue) (rw (c, continue) (clear-commands host unit w)))
      | inr (x, c) ↦ inl (rw (r, continue) (rw (c, continue) (clear-commands host unit w)))
    ]
    | inl (s ∷ stale, r) ↦
        rw (r, continue) (skip-FailedBehind (s ∷ stale) w e (rw (r, continue) at h))
    | inr (x, r) ↦ inl (rw (r, continue))
  ]

module _ (m : Machine) (w : World) where
  abbrev pub IsRefused : Bytes → Text → Type 0
  IsRefused systemctl unit =
      ((e : Error) × (active_state m (system systemctl none) unit ≡ err e))
      ⊎ ((state : Text) × (e : Error) × (active_state m (system systemctl none) unit ≡ ok state)
          × (is_running state ≡ false)
          × (start m (system systemctl none) unit ≡ err e))

  -- What each exit status says of the job, from the world `w` to `w'`.
  pub data Exits : Result Usage Job → ℕ → World → Type 0 where
    -- the unit may start
    fresh_start :
        {systemctl systemd_run dir : Bytes} {unit : Text} {views : List View} {w' : World}
        → All
            (λ v. serves_view (host_of m (system systemctl (some systemd_run)) dir) v ≡ true)
            views
        → w'.commands ≡ w.commands
        → Exits (ok (checks systemctl systemd_run unit dir views)) 0 w'
    -- the start is skipped: a restart is queued, and then `arm_recheck` returned `Ok`
    skipped_start :
        {systemctl systemd_run dir : Bytes} {unit : Text} {views : List View} {w' : World}
        → (stale : List Text)
        → stale ≡ stale_of (host_of m (system systemctl (some systemd_run)) dir) views
        → stale ≢ []
        → w'.commands ≡ took_recheck unit ∷ restarted (stale ++ unit ∷ []) ∷ w.commands
        → Exits (ok (checks systemctl systemd_run unit dir views)) 1 w'
    -- the start fails: `arm_recheck` has not returned `Ok`
    failed_start :
        {systemctl systemd_run dir : Bytes} {unit : Text} {views : List View} {w' : World}
        → FailedBehind (host_of m (system systemctl (some systemd_run)) dir) unit w w'
        → Exits (ok (checks systemctl systemd_run unit dir views)) 255 w'
    runs_already :
        {systemctl : Bytes} {unit state : Text}
        → active_state m (system systemctl none) unit ≡ ok state
        → is_running state ≡ true
        → Exits (ok (rechecks systemctl unit)) 0 w
    started_again :
        {systemctl : Bytes} {unit state : Text} {w' : World}
        → active_state m (system systemctl none) unit ≡ ok state
        → is_running state ≡ false
        → w'.commands ≡ started unit ∷ w.commands
        → Exits (ok (rechecks systemctl unit)) 0 w'
    -- the state of the unit cannot be read, or it is not a running one and its start is refused
    failed_recheck :
        {systemctl : Bytes} {unit : Text}
        → IsRefused systemctl unit
        → Exits (ok (rechecks systemctl unit)) 255 w
    wrong_usage : {u : Usage} → Exits (err u) 255 w

  module _ (systemctl systemd_run dir : Bytes) (unit : Text) (views : List View) (w' : World) where
    abbrev host : Host
    host = host_of m (system systemctl (some systemd_run)) dir

    Exits-outcome :
        (o : Outcome)
        → ((o ≡ fresh)
            × All (λ v. serves_view host v ≡ true) views
            × (w'.commands ≡ w.commands)
            × ((count unit w').0 ≡ ok 0))
          ⊎ ((stale_of host views ≢ []) × Skipped host unit (stale_of host views) w o w')
        → Exits (ok (checks systemctl systemd_run unit dir views)) (exit_status (ok o)) w'
    unfolding exit_status
    Exits-outcome fresh (inl (e, all, same, zeroed)) = fresh_start all same
    Exits-outcome fresh (inr (some_stale, none_skipped)) = absurd none_skipped
    Exits-outcome (restarting units) (inl (e, all, same, zeroed)) = absurd (cc e)
    Exits-outcome (restarting units) (inr (some_stale, (u, c, n))) =
        skipped_start (stale_of host views) refl some_stale c
    Exits-outcome (gave_up units) (inl (e, all, same, zeroed)) = absurd (cc e)
    Exits-outcome (gave_up units) (inr (some_stale, (u, c, n))) =
        failed_start (inr (stale_of host views ++ unit ∷ [], c))

  rechecked-Exits :
      (systemctl : Bytes) (unit : Text)
      → Exits
          (ok (rechecks systemctl unit))
          (perform m (ok (rechecks systemctl unit)) w).0
          (perform m (ok (rechecks systemctl unit)) w).1
  unfolding perform recheck host_of recheck_status
  rechecked-Exits systemctl unit =
      elim (Result-cases (active_state m (system systemctl none) unit)) [
        | inr (x, e) ↦ rw (e, continue) (failed_recheck (inl (x, e)))
        | inl (state, e) ↦ elim (Bool-cases (is_running state)) [
          | inl runs ↦ rw (e, continue, runs) (runs_already e runs)
          | inr idle ↦ elim (Result-cases (start m (system systemctl none) unit)) [
            | inl (u, taken) ↦ rw (e, continue, idle, taken) (started_again e idle refl)
            | inr (x, refused) ↦
                rw (e, continue, idle, refused) (failed_recheck (inr (state, x, e, idle, refused)))
          ]
        ]
      ]

  perform-Exits : (job : Result Usage Job) → Exits job (perform m job w).0 (perform m job w).1
  unfolding perform exit_status
  perform-Exits (err u) = wrong_usage
  perform-Exits (ok (rechecks systemctl unit)) = rechecked-Exits systemctl unit
  perform-Exits (ok (checks systemctl systemd_run unit dir views)) =
      let host = host_of m (system systemctl (some systemd_run)) dir in
      let (r, w') = check host unit views w in
      elim (Result-cases r) [
        | inl (o, e) ↦
            subst (λ r. Exits (ok (checks systemctl systemd_run unit dir views)) (exit_status r) w')
              (sym e)
              (Exits-outcome systemctl systemd_run dir unit views w' o
                (check-Outcome host unit views w o e))
        | inr (x, e) ↦
            subst (λ r. Exits (ok (checks systemctl systemd_run unit dir views)) (exit_status r) w')
              (sym e) (failed_start (check-FailedBehind host unit views w x e))
      ]

  -- Every run of the program ends with status 0, 1 or 255. A check ends with 0 only if every view
  -- serves what is expected, and gave no command; with 1 only if some do not, and then their restart
  -- with the unit was queued and then `arm_recheck` returned `Ok`; and with 255 otherwise, at most a
  -- restart queued and no `Ok` of `arm_recheck`. A recheck ends with 0 only if the unit runs, with no
  -- command, or if it does not and its start was queued; and with 255 only if its state cannot be read or
  -- it does not run and its start is refused, and then with no command. A wrong command line
  -- ends with 255 and changes nothing.
  pub main-Exits :
      (args : List Bytes) → Exits (command_line args) (main m args w).0 (main m args w).1
  unfolding main
  main-Exits args = perform-Exits (command_line args)
