-- ===== src/Agent/Main/Admitted.antt =====
-- ssh-agent-filter/src/main.rs: whose connections are kept.
use nix_os_container_podman.Common.{
  ℕ, ◌/◌, ◌%◌, ◌≡◌, refl, sym, ap, ◌∙◌, subst, ◌⊎◌, inl, inr, Bool, true, false, not, ◌||◌,
  is_empty, List, [], ◌∷◌, All, All-append, Result, ok, err, Bool-cases, ◌==◌, arith,
}
use nix_os_container_podman.Agent.Policy.{Policy, PolicyError, new_policy}
use nix_os_container_podman.Agent.Main.{
  Class, owner, group, other, write_bit, may_write, bound_mode, Start, Phase, entered, permitted,
  cleared, bound, serving, ended, Connection, Socket, has_policy, go_on, advance_from, connect_in,
  Event, step, connect, main_from, no_socket, main,
}

-- `0o777 & !umask` has the bits that the mask lacks.
may_write-bound_mode :
    (umask : ℕ) (c : Class) → may_write (bound_mode umask) c ≡ not (umask / write_bit c % 2 == 1)
may_write-bound_mode umask owner = ground arith
may_write-bound_mode umask group = ground arith
may_write-bound_mode umask other = ground arith

module _ (start : Start) where
  -- A connection of the owner, or one that was made before the mode was set and that the umask allows.
  abbrev pub IsAdmitted : Connection → Type 0
  IsAdmitted c =
      (c.by ≡ owner) ⊎ ((c.restricted ≡ false) × ((start.umask / write_bit c.by % 2 == 1) ≡ false))

  abbrev ModeAt : Phase → ℕ → Type 0
  ModeAt bound mode = mode ≡ bound_mode start.umask
  ModeAt serving mode = mode ≡ 0o600
  ModeAt _ mode = Unit

  abbrev IsGuarded : Socket → Type 0
  IsGuarded s = ModeAt s.phase s.mode × All IsAdmitted s.connections

  go_on-IsGuarded :
      (b : Bool) (s t : Socket)
      → All IsAdmitted s.connections
      → IsGuarded t
      → IsGuarded (go_on b s t)
  go_on-IsGuarded true s t all g = g
  go_on-IsGuarded false s t all g = (tt, all)

  advance_from-IsGuarded :
      (p : Phase) (s : Socket) → s.phase ≡ p → IsGuarded s → IsGuarded (advance_from start p s)
  unfolding advance_from
  advance_from-IsGuarded entered s e g = (by_policy (new_policy start.allow start.deny), g.1)
    where
      by_policy : (r : Result PolicyError Policy) → ModeAt (has_policy r) s.mode
      by_policy (err x) = tt
      by_policy (ok policy) = tt
  advance_from-IsGuarded permitted s e g = elim (Bool-cases start.exists) [
    | inl there ↦
        simp there (go_on-IsGuarded start.can_remove s (record s { phase = cleared }) g.1 (tt, g.1))
    | inr none_there ↦ simp none_there (tt, g.1)
  ]
  advance_from-IsGuarded cleared s e g = go_on-IsGuarded start.can_bind s _ g.1 (refl, g.1)
  advance_from-IsGuarded bound s e g = go_on-IsGuarded start.can_restrict s _ g.1 (refl, g.1)
  advance_from-IsGuarded serving s e g = g
  advance_from-IsGuarded ended s e g = g

  IsAdmitted-before :
      (c : Class)
      → may_write (bound_mode start.umask) c ≡ true
      → IsAdmitted (record { by = c; restricted = false })
  IsAdmitted-before c h = inr (refl, ground (arith, sym (may_write-bound_mode start.umask c) ∙ h))

  IsAdmitted-later :
      (c : Class) → may_write 0o600 c ≡ true → IsAdmitted (record { by = c; restricted = true })
  IsAdmitted-later owner h = inl refl
  IsAdmitted-later group h = cc h
  IsAdmitted-later other h = cc h

  connect_in-IsGuarded :
      (p : Phase) (c : Class) (s : Socket)
      → s.phase ≡ p
      → IsGuarded s
      → IsGuarded (connect_in p c s)
  unfolding connect_in
  connect_in-IsGuarded bound c s e g = elim (Bool-cases (may_write s.mode c)) [
    | inr closed ↦ simp closed g
    | inl open_to ↦
        let mode : s.mode ≡ bound_mode start.umask = subst (λ p. ModeAt p s.mode) e g.0 in
        simp open_to (
          g.0,
          All-append IsAdmitted s.connections (record { by = c; restricted = false } ∷ []) g.1
              (IsAdmitted-before c (ap (λ m. may_write m c) (sym mode) ∙ open_to), tt),
        )
  ]
  connect_in-IsGuarded serving c s e g = elim (Bool-cases (may_write s.mode c)) [
    | inr closed ↦ simp closed g
    | inl open_to ↦
        let mode : s.mode ≡ 0o600 = subst (λ p. ModeAt p s.mode) e g.0 in
        simp open_to (
          g.0,
          All-append IsAdmitted s.connections (record { by = c; restricted = true } ∷ []) g.1
              (IsAdmitted-later c (ap (λ m. may_write m c) (sym mode) ∙ open_to), tt),
        )
  ]
  connect_in-IsGuarded entered c s e g = g
  connect_in-IsGuarded permitted c s e g = g
  connect_in-IsGuarded cleared c s e g = g
  connect_in-IsGuarded ended c s e g = g

  main_from-IsGuarded :
      (events : List Event) (s : Socket) → IsGuarded s → IsGuarded (main_from start events s)
  unfolding main_from
  main_from-IsGuarded [] s g = g
  main_from-IsGuarded (step ∷ events) s g =
      main_from-IsGuarded events _ (advance_from-IsGuarded s.phase s refl g)
  main_from-IsGuarded (connect c ∷ events) s g =
      main_from-IsGuarded events _ (connect_in-IsGuarded s.phase c s refl g)

  -- Whoever tries to connect, and whenever: each connection that is kept is the owner's, or it was made
  -- before the mode of the socket was set, by someone whose write bit the umask does not take away.
  pub main_admits : (events : List Event) → All IsAdmitted (main start events).connections
  unfolding main
  main_admits events = (main_from-IsGuarded events no_socket (tt, tt)).1

-- Nothing stands in the way of `main`.
pub record IsWilling (start : Start) : Type 0 where
  pub allows : is_empty start.allow || is_empty start.deny ≡ true
  pub removes : start.exists ≡ false
  pub binds : start.can_bind ≡ true
  pub restricts : start.can_restrict ≡ true

-- Some connect, one after the other, before what follows.
abbrev pub connects : List Class → List Event → List Event
connects [] events = events
connects (c ∷ cs) events = connect c ∷ connects cs events

abbrev connected : Bool → Class → Connection
connected restricted c = record { by = c; restricted = restricted }

module _ (start : Start) (events : List Event) (mode : ℕ) where
  abbrev bound_with : List Connection → Socket
  bound_with kept = record { phase = bound; mode = mode; connections = kept }

  abbrev serving_with : List Connection → Socket
  serving_with kept = record { phase = serving; mode = mode; connections = kept }

-- The umask leaves the write bit of the class.
abbrev pub leaves : ℕ → Class → Bool
leaves umask c = not (umask / write_bit c % 2 == 1)

abbrev pub is_owner : Class → Bool
is_owner owner = true
is_owner group = false
is_owner other = false
