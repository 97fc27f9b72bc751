-- ===== src/Runner/Session/Bus.antt =====
-- nix/app/runner.rs: the steps of `start_dbus_proxy`, and of actions one after the other.
use nix_os_container_podman.Common.{
  ◌≡◌, refl, subst, Bool, List, [], ◌∷◌, ◌++◌, Option, none, some, Text, codes, Result, ok, err,
  Bool-cases, inl, inr, if◌then◌else◌,
}
use nix_os_container_podman.Runner.Template.{Vars, expand}
use nix_os_container_podman.Runner.Plan.{Plan, Dbus}
use nix_os_container_podman.Runner.Launch.{RunError, ensure_dir, expand_all, value}
use nix_os_container_podman.Runner.Session.{
  Step, made_dir, removed_file, Stop, replaced, World, Exec, pure, note, run_error, continue, ◌>>=◌,
  dropping, drop_proxy, Proxied, await_proxy, spawn_proxy, ensure_parent, parent, wait_socket,
  proxy_tries, start_proxy, clear_socket, safe_socket, connect_at, connect_bus, if_bus, proxy_for,
  ◌>>◌, start_dbus_proxy,
}
use nix_os_container_podman.Runner.Session.Steps.{
  off, up, Held, held, Takes, makes_dir, clears, spawns, kills, waits, removes, Runs, end, next,
  Runs-append, Runs-one,
}

-- A process that has a claim is not replaced.
abbrev pub Fair : Bool → Stop → Type 0
Fair l replaced = if l then ⊥ else Unit
Fair l _ = Unit

abbrev pub Stops : {A : Type 0} → Bool → Result Stop A → Type 0
Stops l (ok a) = Unit
Stops l (err e) = Fair l e

module _ (start : Held) (l : Bool) where
  -- An action that is entered with `before` held leaves what `after` says of its result.
  abbrev pub Ends : {A : Type 0} → Held → (Result Stop A → Held) → Exec A → Type 0
  Ends before after m =
      (log : List Step)
      → Runs start log before
      → Runs start (m log).1 (after (m log).0) × Stops l (m log).0

  abbrev pub idle : Held
  idle = held off l

  pub Ends->>= :
      {A B : Type 0} (m : Exec A) (f : A → Exec B) (h : Held) (mid : Result Stop A → Held)
      → (after : Result Stop B → Held) → Ends h mid m
      → ((a : A) → Ends (mid (ok a)) after (f a))
      → ((e : Stop) → mid (err e) ≡ after (err e))
      → Ends h after (m >>= f)
  Ends->>= {A} {B} m f h mid after hm hf he log r =
      let (q, s) = hm log r in rest (m log).0 (m log).1 q s
    where
      rest :
          (x : Result Stop A) (log' : List Step)
          → Runs start log' (mid x)
          → Stops l x
          → Runs start (continue x f log').1 (after (continue x f log').0)
            × Stops l (continue x f log').0
      rest (ok a) log' q s = hf a log' q
      rest (err e) log' q s = (subst (Runs start log') (he e) q, s)

  -- An action that leaves what was held, whatever comes of it.
  abbrev pub Keeps : {A : Type 0} → Held → Exec A → Type 0
  Keeps h m = Ends h (λ x. h) m

  pub Keeps->>= :
      {A B : Type 0} (m : Exec A) (f : A → Exec B) (h : Held)
      → Keeps h m
      → ((a : A) → Keeps h (f a))
      → Keeps h (m >>= f)
  Keeps->>= m f h hm hf = Ends->>= m f h (λ x. h) (λ x. h) hm hf (λ e. refl)

  pub Keeps-pure : {A : Type 0} (h : Held) (a : A) → Keeps h (pure a)
  Keeps-pure h a log r = (r, tt)

  pub Keeps-run_error : {A : Type 0} (h : Held) (x : Result RunError A) → Keeps h (run_error x)
  Keeps-run_error h (ok a) log r = (r, tt)
  Keeps-run_error h (err e) log r = (r, tt)

  pub Keeps-note : (h : Held) (s : Step) → Takes h s h → Keeps h (note s)
  Keeps-note h s t log r = (Runs-one log s r t, tt)

  -- `drop` of the proxy's guard.
  pub dropping-Ends :
      {A : Type 0} (socket : Text) (m : Exec A)
      → Keeps (held (up socket) l) m
      → Ends (held (up socket) l) (λ x. idle) (dropping socket m)
  dropping-Ends socket m h log r =
      let (q, s) = h log r in
      (
        Runs-append (m log).1 (drop_proxy socket) q
            (next (kills socket) (next (waits socket) (next (removes socket) end))),
        s,
      )

  -- What `start_dbus_proxy` leaves.
  abbrev pub proxied : Result Stop Proxied → Held
  proxied (ok (some socket, vars)) = held (up socket) l
  proxied (ok (none, vars)) = idle
  proxied (err e) = idle

  -- A step before the proxy runs.
  proxied->>= :
      {A : Type 0} (m : Exec A) (f : A → Exec Proxied)
      → Keeps idle m
      → ((a : A) → Ends idle proxied (f a))
      → Ends idle proxied (m >>= f)
  proxied->>= m f hm hf = Ends->>= m f idle (λ x. idle) proxied hm hf (λ e. refl)

  await_proxy-Ends :
      (w : World) (socket : Text) (vars : Vars)
      → Ends (held (up socket) l) proxied (await_proxy w socket vars)
  unfolding await_proxy
  await_proxy-Ends w socket vars log r = elim (Bool-cases (wait_socket w proxy_tries 0)) [
    | inl there ↦ simp there (r, tt)
    | inr never ↦ simp never (
        dropping-Ends {A = Proxied} socket (pure (none, vars))
          (Keeps-pure {A = Proxied} (held (up socket) l) (none, vars)) log r)
  ]

  abbrev spawned : Text → Result Stop (Unit {0}) → Held
  spawned socket (ok u) = held (up socket) l
  spawned socket (err e) = idle

  spawn_proxy-Ends :
      (w : World) (socket program : Text) (args : List Text)
      → Ends idle (spawned socket) (spawn_proxy w socket program args)
  spawn_proxy-Ends w socket program args log r = elim (Bool-cases (w.spawn program args)) [
    | inl runs ↦ simp runs (Runs-one log _ r (spawns socket program args), tt)
    | inr fails ↦ simp fails (r, tt)
  ]

  ensure_parent-Keeps : (w : World) (dir : Option Text) → Keeps idle (ensure_parent w dir)
  ensure_parent-Keeps w none = Keeps-pure idle tt
  ensure_parent-Keeps w (some dir) =
      Keeps->>= (run_error (ensure_dir w.host 0o700 dir)) (λ u. note (made_dir dir)) idle
        (Keeps-run_error idle (ensure_dir w.host 0o700 dir))
        (λ u. Keeps-note idle (made_dir dir) (makes_dir dir))

  start_proxy-Ends :
      (w : World) (dbus : Dbus) (upstream : Text) (vars : Vars) (socket : Text) (args : List Text)
      → Ends idle proxied (start_proxy w dbus upstream vars socket args)
  unfolding start_proxy
  start_proxy-Ends w dbus upstream vars socket args =
      let all = (codes "unix:path=" ++ upstream) ∷ socket ∷ (args ++ codes "--fd=0" ∷ []) in
      Ends->>= (spawn_proxy w socket dbus.proxy all) (λ u. await_proxy w socket vars) idle
        (spawned socket) proxied (spawn_proxy-Ends w socket dbus.proxy all)
        (λ u. await_proxy-Ends w socket vars) (λ e. refl)

  clear_socket-Ends :
      (w : World) (dbus : Dbus) (upstream : Text) (vars : Vars) (socket : Text)
      → Ends idle proxied (clear_socket w dbus upstream vars socket)
  unfolding clear_socket
  clear_socket-Ends w dbus upstream vars socket =
      let start_it =
        run_error (expand_all dbus.args vars) >>= start_proxy w dbus upstream vars socket in
      proxied->>= (ensure_parent w (parent socket)) (λ u. note (removed_file socket) >> start_it)
        (ensure_parent-Keeps w (parent socket))
        (λ u.
          proxied->>= (note (removed_file socket)) (λ v. start_it)
            (Keeps-note idle (removed_file socket) (clears socket))
            (λ v.
              proxied->>= (run_error (expand_all dbus.args vars))
                (start_proxy w dbus upstream vars socket)
                (Keeps-run_error idle (expand_all dbus.args vars))
                (start_proxy-Ends w dbus upstream vars socket)))

  connect_bus-Ends :
      (w : World) (dbus : Dbus) (upstream : Text) (vars : Vars)
      → Ends idle proxied (connect_bus w dbus upstream vars)
  unfolding connect_bus connect_at
  connect_bus-Ends w dbus upstream vars =
      proxied->>= (run_error (value (expand dbus.socket vars))) (connect_at w dbus upstream vars)
        (Keeps-run_error idle (value (expand dbus.socket vars)))
        (λ socket.
          proxied->>= (run_error (safe_socket socket))
            (λ u. clear_socket w dbus upstream vars socket)
            (Keeps-run_error idle (safe_socket socket))
            (λ u. clear_socket-Ends w dbus upstream vars socket))

  pub start_dbus_proxy-Ends :
      (w : World) (plan : Plan) (vars : Vars) → Ends idle proxied (start_dbus_proxy w plan vars)
  unfolding start_dbus_proxy
  start_dbus_proxy-Ends w plan vars = proxy_for-Ends plan.dbus
    where
      bus : (dbus : Dbus) (upstream : Text) → Ends idle proxied (if_bus w dbus vars upstream)
      bus dbus upstream log r = elim (Bool-cases (w.host.exists upstream)) [
        | inl there ↦ simp there (connect_bus-Ends w dbus upstream vars log r)
        | inr none_there ↦ simp none_there (r, tt)
      ]

      proxy_for-Ends : (dbus : Option Dbus) → Ends idle proxied (proxy_for w dbus vars)
      proxy_for-Ends none = λ log r. (r, tt)
      proxy_for-Ends (some dbus) =
          proxied->>= (run_error (value (expand dbus.upstream vars))) (if_bus w dbus vars)
            (Keeps-run_error idle (value (expand dbus.upstream vars))) (bus dbus)
