-- ===== src/Runner/Lease/Kept.antt =====
-- nix/app/runner.rs: the steps of a launch, each with the locks that it needs.
use nix_os_container_podman.Common.{
  ℕ, ◌≡◌, sym, subst, refl, Bool, true, false, List, [], ◌∷◌, Option, none, some, Text, Result, ok,
  err, bytes_eq, ◌==◌, if◌then◌else◌, codes,
}
use nix_os_container_podman.StoreCheck.Decimal.{parse_u32}
use nix_os_container_podman.Runner.Template.{Error}
use nix_os_container_podman.Runner.Mounts.{resolve}
use nix_os_container_podman.Runner.Plan.{Plan}
use nix_os_container_podman.Runner.Holder.{
  Call, exists, start, create, Ended, not_spawned, timed_out, ended as has_ended, podman,
  HolderError, Task, on_ok, ◌>>=◌, throw, Launch, podman_with, process_is, alive_pid, alive_words,
  alive_from, split_whitespace, holder_alive, created, create_from, create_holder, start_holder,
}
use nix_os_container_podman.Runner.Lease.{replace_dead, clean_existing, clean_leftover}
use nix_os_container_podman.Runner.Lease.Rules.{
  exclusive, Locks, Allowed, Keeps, ended, asked, Keeps-and_then,
}

-- The program ends with the locks that it began with.
abbrev pub Same : {A : Type 0} → Locks → A → Locks → Type 0
Same l a l' = l' ≡ l

-- A task between whose beginning and end nothing is locked or closed.
abbrev pub Calls : Text × Text → {A : Type 0} → Task A → Locks → Type 0
Calls own p l = Keeps own (Same l) p l

module _ {own : Text × Text} where
  pub Keeps-bind :
      {A B : Type 0} {l : Locks} {Q : Result HolderError B → Locks → Type 0} {p : Task A}
      {f : A → Task B}
      → Keeps own (Same l) p l
      → ((e : HolderError) → Q (err e) l)
      → ((a : A) → Keeps own Q (f a) l)
      → Keeps own Q (p >>= f) l
  Keeps-bind {l} {Q} {f} h e g = Keeps-and_then h bound
    where
      bound : (r : Result HolderError _) (l' : Locks) → l' ≡ l → Keeps own Q (on_ok f r) l'
      bound (ok a) l' same = subst (Keeps own Q (f a)) (sym same) (g a)
      bound (err x) l' same = subst (Keeps own Q (throw x)) (sym same) (ended (e x))

  Calls-bind :
      {A B : Type 0} {l : Locks} {p : Task A} {f : A → Task B}
      → Calls own p l
      → ((a : A) → Calls own (f a) l)
      → Calls own (p >>= f) l
  Calls-bind h g = Keeps-bind h (λ e. refl) g

  Calls-if :
      {A : Type 0} {l : Locks} (b : Bool) {p q : Task A}
      → Calls own p l
      → Calls own q l
      → Calls own (if b then p else q) l
  Calls-if true h g = h
  Calls-if false h g = g

  podman_with-Calls :
      (c : Call) {l : Locks} → Allowed own (podman c) l → Calls own (podman_with c) l
  unfolding podman_with
  podman_with-Calls c h = asked h λ e. ended refl

  process_is-Calls : (pid : ℕ) (comm : Option Text) {l : Locks} → Calls own (process_is pid comm) l
  unfolding process_is
  process_is-Calls pid none =
      Calls-if (pid == 0) (ended refl) (asked tt λ b. Calls-if b (ended refl) (ended refl))
  process_is-Calls pid (some name) =
      Calls-if (pid == 0) (ended refl)
        (asked tt λ b. Calls-if b (asked tt λ c. ended refl) (ended refl))

  alive_words-Calls :
      (comm : Option Text) (ws : List Text) {l : Locks} → Calls own (alive_words comm ws) l
  alive_words-Calls comm [] {l} = ended refl
  alive_words-Calls comm (w ∷ []) {l} = ended refl
  alive_words-Calls comm (status ∷ pid ∷ ws) {l} =
      Calls-if (bytes_eq status (codes "running")) (alive (parse_u32 pid)) (ended refl)
    where
      alive : (o : Option ℕ) → Calls own (alive_pid comm o) l
      alive none = ended refl
      alive (some n) = process_is-Calls n comm

  pub holder_alive-Calls :
      (plan : Plan) (name : Text) {l : Locks} → Calls own (holder_alive plan name) l
  unfolding holder_alive
  holder_alive-Calls plan name {l} = asked tt alive
    where
      alive : (e : Ended) → Calls own (alive_from plan.holder_process e) l
      alive not_spawned = ended refl
      alive timed_out = ended refl
      alive (has_ended true out) = alive_words-Calls plan.holder_process (split_whitespace out)
      alive (has_ended false out) = ended refl

  module _ {l : Locks} (has_guard : l.guard ≡ true) where
    create_holder-Calls : (r : Launch) (name : Text) → Calls own (create_holder r name) l
    unfolding create_holder
    create_holder-Calls r name = from (resolve r.fs r.plan.holder_argv r.plan.providers r.vars)
      where
        race : (s : Bool) → Calls own (created name s) l
        race true = ended refl
        race false =
            Calls-bind (podman_with-Calls (exists name) tt)
              λ there. Calls-if there (ended refl) (ended refl)

        from : (q : Result Error (List Text)) → Calls own (create_from name q) l
        from (err e) = ended refl
        from (ok []) = ended refl
        from (ok (a ∷ args)) = Calls-bind (podman_with-Calls (create args) has_guard) race

    pub start_holder-Calls : (r : Launch) (name : Text) → Calls own (start_holder r name) l
    unfolding start_holder
    start_holder-Calls r name = Calls-bind (podman_with-Calls (exists name) tt) λ there.
        Calls-bind (Calls-if there (ended refl) (create_holder-Calls r name)) λ u.
          Calls-bind (podman_with-Calls (start name) has_guard)
            λ started. Calls-if started (ended refl) (ended refl)

    pub clean_leftover-Calls :
        (plan : Plan) (name : Text) → l.lease ≡ exclusive → Calls own (clean_leftover plan name) l
    unfolding clean_leftover
    clean_leftover-Calls plan name x = Calls-bind (podman_with-Calls (exists name) tt) existing
      where
        dead : (b : Bool) → Calls own (replace_dead name b) l
        dead true = ended refl
        dead false = asked (has_guard, x) λ e. ended refl

        existing : (b : Bool) → Calls own (clean_existing plan name b) l
        existing false = ended refl
        existing true = Calls-bind (holder_alive-Calls plan name) dead
