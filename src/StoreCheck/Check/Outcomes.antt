-- ===== src/StoreCheck/Check/Outcomes.antt =====
-- What each outcome of `check` means.
use nix_os_container_podman.Common.{
  ℕ, ◌+◌, ◌-◌, ◌^◌, min, ◌≤◌, ◌<◌, ◌≡◌, ◌≢◌, refl, sym, subst, Bool, true, false, not, List, [],
  ◌∷◌, ◌++◌, map, filter, All, Text, Result, Result-cases, ok, inl, inr, ◌⊎◌, arith,
}
use nix_os_container_podman.StoreCheck.Units.{Error}
use nix_os_container_podman.StoreCheck.Check.{
  Host, World, View, Served, expected, Outcome, fresh, restarting, gave_up, Command, restarted,
  took_recheck, count, bump, clear, skip, skip_counted, settle, check, stale_units, served,
  exit_status, max_skips, continue,
}
use nix_os_container_podman.StoreCheck.Check.Skips.{bump_lem, clear_lem}

-- The view serves what its unit expects.
abbrev pub serves : Result Error Served → Bool
serves (ok expected) = true
serves _ = false

abbrev pub serves_view : Host → View → Bool
serves_view host v = serves (served host v)

-- The views that do not serve what is expected of them, in order.
abbrev pub stale_of : Host → List View → List Text
stale_of host views = map (λ v. v.unit) (filter (λ v. not (serves_view host v)) views)

stale_units_lem :
    (host : Host) (views : List View) (stale : List Text)
    → stale_units host views ≡ ok stale
    → stale ≡ stale_of host views
unfolding stale_units
stale_units_lem host [] stale h = cc
stale_units_lem host (v ∷ views) stale h = elim (Result-cases (stale_units host views)) [
  | inl (rest, e) ↦ ground (arith, e, stale_units_lem host views rest e)
  | inr (e, broken) ↦ absurd (ground (arith, broken))
]

All-serves_view :
    (host : Host) (views : List View)
    → stale_of host views ≡ []
    → All (λ v. serves_view host v ≡ true) views
All-serves_view host [] h = tt
All-serves_view host (v ∷ views) h = ground (arith, All-serves_view host views)

stale_units-nil :
    (host : Host) (views : List View)
    → All (λ v. serves_view host v ≡ true) views
    → stale_units host views ≡ ok []
unfolding stale_units
stale_units-nil host [] h = refl
stale_units-nil host (v ∷ views) h = ground (arith, stale_units-nil host views h.1)

module _ (host : Host) (unit : Text) where
  -- What `skip_counted` has done on stale views and the new count `n`, from the world `w` to `w'`, by its
  -- outcome. It never says that the start is fresh.
  abbrev Counted : List Text → World → ℕ → Outcome → World → Type 0
  Counted stale w n fresh w' = ⊥
  Counted stale w n (restarting units) w' =
      (units ≡ stale)
      × (w'.commands ≡ took_recheck unit ∷ restarted (stale ++ unit ∷ []) ∷ w.commands)
      × ((count unit w').0 ≡ ok n)
      × (n ≤ max_skips)
  Counted stale w n (gave_up units) w' =
      (units ≡ stale)
      × (w'.commands ≡ restarted (stale ++ unit ∷ []) ∷ w.commands)
      × ((count unit w').0 ≡ ok n)
      × (max_skips < n)

  -- The count has been raised by one, as far as a `u32` goes.
  abbrev pub Raised : World → World → (ℕ → Type 0) → Type 0
  Raised w w' P =
      (m : ℕ) × (n : ℕ) × ((count unit w).0 ≡ ok m)
      × (n ≡ min (m + 1) (2 ^ 32 - 1))
      × ((count unit w').0 ≡ ok n)
      × P n

  -- What `check` has done on stale views.
  abbrev pub Skipped : List Text → World → Outcome → World → Type 0
  Skipped stale w fresh w' = ⊥
  Skipped stale w (restarting units) w' =
      (units ≡ stale)
      × (w'.commands ≡ took_recheck unit ∷ restarted (stale ++ unit ∷ []) ∷ w.commands)
      × Raised w w' (λ n. n ≤ max_skips)
  Skipped stale w (gave_up units) w' =
      (units ≡ stale)
      × (w'.commands ≡ restarted (stale ++ unit ∷ []) ∷ w.commands)
      × Raised w w' (λ n. max_skips < n)

  pub count-commands :
      (w : World) (cs : List Command)
      → (count unit (record w { commands = cs })).0 ≡ (count unit w).0
  unfolding count
  count-commands w cs = ground arith

  skip_counted-Counted :
      (stale : List Text) (w : World) (n : ℕ) (o : Outcome)
      → (count unit w).0 ≡ ok n
      → (skip_counted host unit stale n w).0 ≡ ok o
      → Counted stale w n o (skip_counted host unit stale n w).1
  unfolding skip_counted
  skip_counted-Counted stale w n fresh c h = absurd (ground arith)
  skip_counted-Counted stale w n (restarting units) c h = (
    ground arith,
    ground arith,
    ground
        (arith, count-commands w (took_recheck unit ∷ restarted (stale ++ unit ∷ []) ∷ w.commands)),
    ground arith,
  )
  skip_counted-Counted stale w n (gave_up units) c h = (
    ground arith,
    ground arith,
    ground (arith, count-commands w (restarted (stale ++ unit ∷ []) ∷ w.commands)),
    ground arith,
  )

  Skipped-of :
      (stale : List Text) (w w₁ w' : World) (m n : ℕ) (o : Outcome)
      → w₁.commands ≡ w.commands
      → (count unit w).0 ≡ ok m
      → n ≡ min (m + 1) (2 ^ 32 - 1)
      → Counted stale w₁ n o w'
      → Skipped stale w o w'
  Skipped-of stale w w₁ w' m n fresh e c i h = h
  Skipped-of stale w w₁ w' m n (restarting units) e c i (u, d, now, few) =
      (u, cc (d, e), (m, n, c, i, now, few))
  Skipped-of stale w w₁ w' m n (gave_up units) e c i (u, d, now, many) =
      (u, cc (d, e), (m, n, c, i, now, many))

  skip-Skipped :
      (stale : List Text) (w : World) (o : Outcome)
      → (skip host unit stale w).0 ≡ ok o
      → Skipped stale w o (skip host unit stale w).1
  unfolding skip
  skip-Skipped stale w o h = elim (Result-cases (bump host unit w).0) [
    | inl (n, e) ↦
        let (m, was, is, now, others, same) = bump_lem host unit w n e in
        rw (e, continue)
          (Skipped-of stale w (bump host unit w).1 _ m n o same was is
            (skip_counted-Counted stale (bump host unit w).1 n o now (rw (e, continue) at h)))
    | inr (e, broken) ↦ absurd (ground (arith, broken))
  ]

  -- An outcome of `check` on any views. It is `Fresh` only if every view serves what is expected, and
  -- then no command was given and the unit's skip count reads 0. It is `Restarting` or `GaveUp` only
  -- with the views that do not serve what is expected, at least one, in order, and then one restart of
  -- them together with the unit was queued, and the skip count that is read afterwards is the one before
  -- and one more, up to `u32::MAX`: at most 3, and then `arm_recheck` was called after the restart and
  -- returned `Ok`; or past 3, and then it was not called.
  pub check-Outcome :
      (views : List View) (w : World) (o : Outcome)
      → (check host unit views w).0 ≡ ok o
      → ((o ≡ fresh)
          × All (λ v. serves_view host v ≡ true) views
          × ((check host unit views w).1.commands ≡ w.commands)
          × ((count unit (check host unit views w).1).0 ≡ ok 0))
        ⊎ ((stale_of host views ≢ [])
            × Skipped (stale_of host views) w o (check host unit views w).1)
  unfolding check settle
  check-Outcome views w o h = elim (Result-cases (stale_units host views)) [
    | inl ([], e) ↦ elim (Result-cases (clear host unit w).0) [
      | inl (u, c) ↦
          let (zeroed, others, same) = clear_lem host unit w c in
          inl (
            cc (rw (e, c, continue) at h),
            All-serves_view host views (sym (stale_units_lem host views [] e)),
            rw (e, continue) (rw (c, continue) same),
            rw (e, continue) (rw (c, continue) zeroed),
          )
      | inr (x, broken) ↦ absurd (ground (arith, e, broken))
    ]
    | inl (s ∷ stale, e) ↦
        let q = stale_units_lem host views (s ∷ stale) e in
        inr (
          λ none_stale. cc (q, none_stale),
          subst (λ st. Skipped st w o (check host unit views w).1) q
              (rw (e, continue) (skip-Skipped (s ∷ stale) w o (rw (e, continue) at h))),
        )
    | inr (e, broken) ↦ absurd (ground (arith, broken))
  ]

  -- If every view serves what is expected and the skip count can be cleared, the start goes on.
  pub check-fresh :
      (views : List View) (w : World)
      → All (λ v. serves_view host v ≡ true) views
      → (clear host unit w).0 ≡ ok tt
      → exit_status (check host unit views w).0 ≡ 0
  unfolding check settle exit_status
  check-fresh views w h c = rw (stale_units-nil host views h, continue) (rw (c, continue))
