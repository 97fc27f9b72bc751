-- ===== src/Runner/Lease/Invariant.antt =====
-- nix/app/runner.rs: the invariant of any number of launches at once.
use nix_os_container_podman.Common.{
  ℕ, ◌≡◌, ◌≢◌, ◌⊎◌, inl, inr, refl, sym, subst, ◌∙◌, ap, Bool, true, false, Option, some, Text,
  ◌==◌, ok, ==_iff, arith, Bool-cases,
}
use nix_os_container_podman.Runner.Holder.{Op, share_lease, Answer, Prog, ask, Launch}
use nix_os_container_podman.Runner.Lease.{lock_paths}
use nix_os_container_podman.Runner.Lease.Rules.{
  unlocked, exclusive, Locks, after, Allowed, Keeps, ended, asked,
}
use nix_os_container_podman.Runner.Lease.Claims.{Over, run_entry-Over}
use nix_os_container_podman.Runner.Lease.Launches.{
  Process, System, update, Step, answered, converts, dies, Reaches, begins, goes,
}
use nix_os_container_podman.Runner.Lease.Lawful.{IsSafe, IsLawful, after-IsLawful}

at-update :
    (s : System) (i : ℕ) (p : Process) (j : ℕ)
    → ((j ≡ i) × (update s i p j ≡ p)) ⊎ ((j ≢ i) × (update s i p j ≡ s j))
at-update s i p j = elim (Bool-cases (i == j)) [
  | inl e ↦ inl (sym ((==_iff i j).0 e), simp e refl)
  | inr e ↦ inr (λ d. ground (arith, e, d), simp e refl)
]

module _ (own : ℕ → Text × Text) (s : System) (safe : IsSafe own s) (i : ℕ) (p : Process)
    (law : IsLawful own s i p.locks) where
  update_one_guard :
      (j k : ℕ)
      → (own j).0 ≡ (own k).0
      → (update s i p j).locks.guard ≡ true
      → (update s i p k).locks.guard ≡ true
      → j ≡ k
  update_one_guard j k o h q = elim (at-update s i p j) [
    | inl (e, u) ↦ elim (at-update s i p k) [
      | inl (f, v) ↦ e ∙ sym f
      | inr (f, v) ↦
          e
          ∙ first (ap (λ r. r.locks.guard) (sym u) ∙ h) k f (ap (λ n. (own n).0) (sym e) ∙ o)
              (ap (λ r. r.locks.guard) (sym v) ∙ q)
    ]
    | inr (e, u) ↦ elim (at-update s i p k) [
      | inl (f, v) ↦ sym (
          f
          ∙ first (ap (λ r. r.locks.guard) (sym v) ∙ q) j e (ap (λ n. (own n).0) (sym f) ∙ sym o)
              (ap (λ r. r.locks.guard) (sym u) ∙ h))
      | inr (f, v) ↦
          safe.one_guard j k o (ap (λ r. r.locks.guard) (sym u) ∙ h)
            (ap (λ r. r.locks.guard) (sym v) ∙ q)
    ]
  ]
    where
      first :
          p.locks.guard ≡ true
          → (m : ℕ) → m ≢ i
          → (own i).0 ≡ (own m).0
          → (s m).locks.guard ≡ true
          → i ≡ m
      first g m d o h = elim (law.guard_law g) [
        | inl has ↦ safe.one_guard i m o has h
        | inr f ↦ let n = f m d o in cc
      ]

  update_alone :
      (j k : ℕ)
      → (own j).1 ≡ (own k).1
      → (update s i p j).locks.lease ≡ exclusive
      → k ≢ j
      → (update s i p k).locks.lease ≡ unlocked
  update_alone j k o x d = elim (at-update s i p j) [
    | inl (e, u) ↦ elim (at-update s i p k) [
      | inl (f, v) ↦ absurd (d (f ∙ sym e))
      | inr (f, v) ↦
          ap (λ r. r.locks.lease) v
          ∙ others (ap (λ r. r.locks.lease) (sym u) ∙ x) k f (ap (λ n. (own n).1) (sym e) ∙ o)
    ]
    | inr (e, u) ↦ elim (at-update s i p k) [
      | inl (f, v) ↦
          ap (λ r. r.locks.lease) v
          ∙ its j e (o ∙ ap (λ n. (own n).1) f) (ap (λ r. r.locks.lease) (sym u) ∙ x)
      | inr (f, v) ↦
          ap (λ r. r.locks.lease) v ∙ safe.alone j k o (ap (λ r. r.locks.lease) (sym u) ∙ x) d
    ]
  ]
    where
      others :
          p.locks.lease ≡ exclusive
          → (m : ℕ) → m ≢ i
          → (own i).1 ≡ (own m).1
          → (s m).locks.lease ≡ unlocked
      others x m d o = elim (law.exclusive_law x) [
        | inl has ↦ safe.alone i m o has d
        | inr f ↦ f m d o
      ]

      its :
          (m : ℕ)
          → m ≢ i
          → (own m).1 ≡ (own i).1
          → (s m).locks.lease ≡ exclusive
          → p.locks.lease ≡ unlocked
      its m d o x = elim law.other_law [
        | inl u ↦ u
        | inr (inl e) ↦ e ∙ safe.alone m i o x (λ f. d (sym f))
        | inr (inr f) ↦ absurd (f m d (sym o) x)
      ]

  update-IsSafe : Keeps (own i) Over p.prog p.locks → IsSafe own (update s i p)
  update-IsSafe kept = record {
    keeps = λ j. elim (at-update s i p j) [
      | inl (e, u) ↦
          subst (λ r. Keeps (own j) Over r.prog r.locks) (sym u)
            (subst (λ n. Keeps (own n) Over p.prog p.locks) (sym e) kept)
      | inr (e, u) ↦ subst (λ r. Keeps (own j) Over r.prog r.locks) (sym u) (safe.keeps j)
    ];
    guard_own = λ j h. elim (at-update s i p j) [
      | inl (e, u) ↦
          ap (λ r. r.locks.guard_file) u
          ∙ law.guard_kept (ap (λ r. r.locks.guard) (sym u) ∙ h)
          ∙ ap (λ n. some (own n).0) (sym e)
      | inr (e, u) ↦
          ap (λ r. r.locks.guard_file) u ∙ safe.guard_own j (ap (λ r. r.locks.guard) (sym u) ∙ h)
    ];
    lease_own = λ j h. elim (at-update s i p j) [
      | inl (e, u) ↦
          ap (λ r. r.locks.lease_file) u
          ∙ law.lease_kept (λ q. h (ap (λ r. r.locks.lease) u ∙ q))
          ∙ ap (λ n. some (own n).1) (sym e)
      | inr (e, u) ↦
          ap (λ r. r.locks.lease_file) u ∙ safe.lease_own j (λ q. h (ap (λ r. r.locks.lease) u ∙ q))
    ];
    one_guard = update_one_guard;
    alone = update_alone;
  }

rest_of :
    {own : Text × Text} {op : Op} {k : Answer op → Prog (Option ℕ)} {l : Locks}
    → Keeps own Over (ask op k) l
    → (a : Answer op) → Keeps own Over (k a) (after op a l)
rest_of (asked h rest) = rest

allowed_of :
    {own : Text × Text} {op : Op} {k : Answer op → Prog (Option ℕ)} {l : Locks}
    → Keeps own Over (ask op k) l
    → Allowed own op l
allowed_of (asked h rest) = h

converted :
    {own : Text × Text} {k : Bool → Prog (Option ℕ)} (l : Locks)
    → Keeps own Over (ask share_lease k) l
    → Keeps own Over (ask share_lease k) (record l { lease = unlocked })
converted {own} {k} l h = asked (allowed_of h) shares
  where
    shares : (a : Bool) → Keeps own Over (k a) (after share_lease a (record l { lease = unlocked }))
    shares true = rest_of h true
    shares false = rest_of h false

module _ (own : ℕ → Text × Text) where
  Step-IsSafe : {s t : System} → IsSafe own s → Step s t → IsSafe own t
  Step-IsSafe {s} safe (answered i op k a e g) =
      let kept = subst (λ p. Keeps (own i) Over p (s i).locks) e (safe.keeps i) in
      update-IsSafe own s safe i _ (after-IsLawful own s safe i op a (allowed_of kept) g)
        (rest_of kept a)
  Step-IsSafe {s} safe (converts i k e) =
      update-IsSafe own s safe i _
        (record {
          guard_kept = safe.guard_own i;
          lease_kept = λ h. absurd (h refl);
          guard_law = λ h. inl h;
          exclusive_law = λ h. cc;
          other_law = inl refl;
        })
        (converted (s i).locks (subst (λ p. Keeps (own i) Over p (s i).locks) e (safe.keeps i)))
  Step-IsSafe {s} safe (dies i) =
      update-IsSafe own s safe i _
        (record {
          guard_kept = λ h. cc;
          lease_kept = λ h. absurd (h refl);
          guard_law = λ h. cc;
          exclusive_law = λ h. cc;
          other_law = inl refl;
        })
        (ended (refl, refl))

  pub Reaches-IsSafe :
      (launches : ℕ → Launch) (names : ℕ → Text) {s : System}
      → ((i : ℕ) → (launches i).plan.holder ≡ some (names i))
      → ((i : ℕ) (p : Text × Text) → lock_paths (names i) (launches i).vars ≡ ok p → p ≡ own i)
      → Reaches launches s
      → IsSafe own s
  Reaches-IsSafe launches names h its begins = record {
    keeps = λ i. run_entry-Over (launches i) (names i) (h i) (its i);
    guard_own = λ i g. cc;
    lease_own = λ i u. absurd (u refl);
    one_guard = λ i j o g q. cc;
    alone = λ i j o x d. refl;
  }
  Reaches-IsSafe launches names h its (goes r step) =
      Step-IsSafe (Reaches-IsSafe launches names h its r) step
