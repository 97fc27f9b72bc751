-- ===== src/Runner/Launch/Prepared.antt =====
-- nix/app/runner.rs: what holds when a launch goes on to the holder and to podman.
use nix_os_container_podman.Common.{
  ◌≡◌, inl, inr, refl, sym, subst, Bool, true, false, ◌&&◌, List, [], ◌∷◌, ◌++◌, Option, none, some,
  Text, codes, bytes_eq, split, any, is_empty, leb, length, All, if◌then◌else◌, arith, Bool-cases,
  Result, ok, err,
}
use nix_os_container_podman.Runner.Texts.{split-none, split-append}
use nix_os_container_podman.Runner.Template.{Error, Vars, get, expand}
use nix_os_container_podman.Runner.Plan.{Plan}
use nix_os_container_podman.Runner.Plan.Parse.{PlanError, parse_plan}
use nix_os_container_podman.Runner.Plan.Accepted.{
  IsAccepted, IsEnvName, Accepts, accepted, parse_plan-Accepts,
}
use nix_os_container_podman.Runner.Launch.{
  Host, RunError, Run, ◌>>=◌, value, parsed, host_vars, is_missing, required, check_required,
  ensure_dirs, expand_all, expand_env, resolve_podman, prepare, wrappers, with_wrappers, but_first,
  insert_tty, launch_args,
}

>>=-eq-ok :
    {A B : Type 0} (m : Run A) (f : A → Run B) {b : B}
    → (m >>= f) ≡ ok b
    → (a : A) × (m ≡ ok a) × (f a ≡ ok b)
>>=-eq-ok (err e) f h = cc
>>=-eq-ok (ok a) f h = (a, refl, h)

value-eq-ok : {A : Type 0} (r : Result Error A) {a : A} → value r ≡ ok a → r ≡ ok a
value-eq-ok (err e) h = cc
value-eq-ok (ok a) h = cc

-- A variable with a value that is not empty.
abbrev pub HasValue : Vars → Text → Type 0
HasValue vars name = (v : Text) × (get vars name ≡ some v) × (is_empty v ≡ false)

HasValue-of :
    (vars : Vars) (name : Text) (o : Option Text)
    → get vars name ≡ o
    → is_missing o ≡ false
    → HasValue vars name
HasValue-of vars name none e h = cc
HasValue-of vars name (some v) e h = (v, e, h)

unless :
    (b : Bool) (e : RunError) (r : Run (Unit {0})) {u : Unit {0}}
    → (if b then err e else r) ≡ ok u
    → (b ≡ false) × (r ≡ ok u)
unless true e r h = cc
unless false e r h = (refl, h)

check_required-HasValue :
    (needed : List (Text × Text)) (vars : Vars) {u : Unit {0}}
    → check_required needed vars ≡ ok u
    → All (λ n. HasValue vars n.0) needed
unfolding check_required
check_required-HasValue [] vars h = tt
check_required-HasValue ((name, message) ∷ needed) vars h =
    let (there, rest) =
      unless (is_missing (get vars name)) (required message) (check_required needed vars) h in
    (HasValue-of vars name (get vars name) refl there, check_required-HasValue needed vars rest)

expand_env-IsEnvName :
    (env : List (Text × Text)) (vars : Vars) {out : List (Text × Text)}
    → All (λ e. IsEnvName e.0) env
    → expand_env env vars ≡ ok out
    → All (λ e. IsEnvName e.0) out
unfolding expand_env
expand_env-IsEnvName [] vars {out} h e = let n : out ≡ [] = cc in rw n tt
expand_env-IsEnvName ((name, t) ∷ env) vars {out} h e =
    let (v, _, e1) = >>=-eq-ok (value (expand t vars)) _ e in
    let (vs, r, e2) = >>=-eq-ok (expand_env env vars) _ e1 in
    let n : out ≡ (name, v) ∷ vs = cc in rw n (h.0, expand_env-IsEnvName env vars h.1 r)

resolve_podman-IsAccepted :
    (plan : Plan) (vars : Vars) {out : Plan}
    → IsAccepted plan
    → resolve_podman plan vars ≡ ok out
    → IsAccepted out × (out.require ≡ plan.require)
unfolding resolve_podman
resolve_podman-IsAccepted plan vars {out} a e =
    let (args, _, e1) = >>=-eq-ok (expand_all plan.podman_args vars) _ e in
    let (env, r, e2) = >>=-eq-ok (expand_env plan.podman_env vars) _ e1 in
    let n : out ≡ record plan { podman_args = args; podman_env = env } = cc in
    rw n (
      record {
        absolute_podman = a.absolute_podman;
        some_command = a.some_command;
        holder = a.holder;
        process = a.process;
        derived = a.derived;
        modes = a.modes;
        rules = a.rules;
        bus = a.bus;
        env = expand_env-IsEnvName plan.podman_env vars a.env r;
      },
      refl,
    )

IsAccepted-of :
    (r : Result PlanError Plan) {plan : Plan} → Accepts r → parsed r ≡ ok plan → IsAccepted plan
IsAccepted-of (err e) a h = cc
IsAccepted-of (ok plan) (accepted a) h = subst IsAccepted (ok_of h) a
  where
    ok_of : {q : Plan} → ◌≡◌ {A = Run Plan} (ok plan) (ok q) → plan ≡ q
    ok_of h = cc

-- Each template is filled in with the values of the variables.
abbrev pub Filled : Vars → List Text → List Text → Type 0
Filled vars [] [] = Unit
Filled vars (t ∷ ts) (s ∷ ss) = (expand t vars ≡ ok s) × Filled vars ts ss
Filled vars _ _ = ⊥

abbrev pub FilledEnv : Vars → List (Text × Text) → List (Text × Text) → Type 0
FilledEnv vars [] [] = Unit
FilledEnv vars (t ∷ ts) (s ∷ ss) =
    (s.0 ≡ t.0) × (expand (t.1) vars ≡ ok (s.1)) × FilledEnv vars ts ss
FilledEnv vars _ _ = ⊥

expand_all-Filled :
    (vars : Vars) (ts : List Text) {out : List Text}
    → expand_all ts vars ≡ ok out
    → Filled vars ts out
unfolding expand_all
expand_all-Filled vars [] {out} e = let n : out ≡ [] = cc in rw n tt
expand_all-Filled vars (t ∷ ts) {out} e =
    let (v, filled, e1) = >>=-eq-ok (value (expand t vars)) _ e in
    let (vs, rest, e2) = >>=-eq-ok (expand_all ts vars) _ e1 in
    let n : out ≡ v ∷ vs = cc in
    rw n (value-eq-ok (expand t vars) filled, expand_all-Filled vars ts rest)

expand_env-FilledEnv :
    (vars : Vars) (env : List (Text × Text)) {out : List (Text × Text)}
    → expand_env env vars ≡ ok out
    → FilledEnv vars env out
unfolding expand_env
expand_env-FilledEnv vars [] {out} e = let n : out ≡ [] = cc in rw n tt
expand_env-FilledEnv vars ((name, t) ∷ env) {out} e =
    let (v, filled, e1) = >>=-eq-ok (value (expand t vars)) _ e in
    let (vs, rest, e2) = >>=-eq-ok (expand_env env vars) _ e1 in
    let n : out ≡ (name, v) ∷ vs = cc in
    rw n (refl, value-eq-ok (expand t vars) filled, expand_env-FilledEnv vars env rest)

-- The plan `p` with the templates of podman filled in, and nothing else changed.
pub IsFilled : Vars → Plan → Plan → Type 0
IsFilled vars p plan =
    Filled vars p.podman_args plan.podman_args
    × FilledEnv vars p.podman_env plan.podman_env
    × (plan ≡ record p { podman_args = plan.podman_args; podman_env = plan.podman_env })

resolve_podman-IsFilled :
    (vars : Vars) (p : Plan) {out : Plan} → resolve_podman p vars ≡ ok out → IsFilled vars p out
unfolding resolve_podman IsFilled
resolve_podman-IsFilled vars p {out} e =
    let (args, filled_args, e1) = >>=-eq-ok (expand_all p.podman_args vars) _ e in
    let (env, filled_env, e2) = >>=-eq-ok (expand_env p.podman_env vars) _ e1 in
    let n : out ≡ record p { podman_args = args; podman_env = env } = cc in
    rw n (
      expand_all-Filled vars p.podman_args filled_args,
      expand_env-FilledEnv vars p.podman_env filled_env,
      refl,
    )

abbrev IsReady : Text → Plan × Vars → Type 0
IsReady text (plan, vars) =
    IsAccepted plan
    × All (λ n. HasValue vars n.0) plan.require
    × ((p : Plan) × (parse_plan text ≡ ok p) × IsFilled vars p plan)

IsReady-of :
    (text : Text) {a b : Plan × Vars}
    → ◌≡◌ {A = Run (Plan × Vars)} (ok a) (ok b)
    → IsReady text a
    → IsReady text b
IsReady-of text h r = subst (IsReady text) (pair_of h) r
  where
    pair_of : {a b : Plan × Vars} → ◌≡◌ {A = Run (Plan × Vars)} (ok a) (ok b) → a ≡ b
    pair_of h = cc

parsed-eq-ok : (r : Result PlanError Plan) {p : Plan} → parsed r ≡ ok p → r ≡ ok p
parsed-eq-ok (err e) h = cc
parsed-eq-ok (ok q) h = cc

-- A launch goes on to the holder and to podman only with a plan that is accepted, and with a value that is
-- not empty for every variable that the plan requires. The plan is the one that the text parses to, with
-- each template of podman's arguments and of its environment filled in, and nothing else changed.
pub prepare-IsAccepted :
    (h : Host) (text : Text) (plan : Plan) (vars : Vars)
    → prepare h text ≡ ok (plan, vars)
    → IsAccepted plan
      × All (λ n. HasValue vars n.0) plan.require
      × ((p : Plan) × (parse_plan text ≡ ok p) × IsFilled vars p plan)
unfolding prepare
prepare-IsAccepted h text plan vars e =
    let (p, e0, e1) = >>=-eq-ok (parsed (parse_plan text)) _ e in
    let (vs, _, e2) = >>=-eq-ok (host_vars h p) _ e1 in
    let (u, needed, e3) = >>=-eq-ok (check_required p.require vs) _ e2 in
    let (w, _, e4) = >>=-eq-ok (ensure_dirs h p.ensure_dirs vs) _ e3 in
    let (q, filled, e5) = >>=-eq-ok (resolve_podman p vs) _ e4 in
    let (good, same) =
      resolve_podman-IsAccepted p vs (IsAccepted-of (parse_plan text) (parse_plan-Accepts text) e0)
        filled in
    IsReady-of text e5 (
      good,
      subst (All (λ n. HasValue vs n.0)) (sym same) (check_required-HasValue p.require vs needed),
      (p, parsed-eq-ok (parse_plan text) e0, resolve_podman-IsFilled vs p filled),
    )

-- The PATH that podman gets has the wrappers' directory as one of its entries, and otherwise the entries
-- that it had, in their order; it is not changed again.
pub with_wrappers_lem :
    (path : Text)
    → (any (λ p. bytes_eq p wrappers) (split b':' (with_wrappers path)) ≡ true)
      × (split b':' (with_wrappers path) ≡ (
          if any (λ p. bytes_eq p wrappers) (split b':' path)
          then split b':' path
          else if is_empty path
          then wrappers ∷ []
          else wrappers ∷ split b':' path))
      × (with_wrappers (with_wrappers path) ≡ with_wrappers path)
unfolding with_wrappers bytes_eq
with_wrappers_lem path = elim (Bool-cases (any (λ p. bytes_eq p wrappers) (split b':' path))) [
  | inl e ↦ simp e (refl, refl, refl)
  | inr e ↦ elim (Bool-cases (is_empty path)) [
    | inl d ↦ simp (e, d, split-none b':' wrappers refl) (refl, refl, refl)
    | inr d ↦ simp (e, d, split-append b':' wrappers path refl) (refl, refl, refl)
  ]
]

-- For an entry's command of a program and a subcommand at least, podman gets the subcommand, `-t` if the
-- plan leaves it to the terminal and there is one, the rest of the command, and last the user's arguments,
-- none changed.
pub launch_args_lem :
    (plan : Plan) (is_terminal : Bool) (program subcommand : Text) (rest user_args : List Text)
    → launch_args plan is_terminal (program ∷ subcommand ∷ rest) user_args
      ≡ some (
          subcommand
          ∷ ((if plan.tty_auto && is_terminal then codes "-t" ∷ [] else []) ++ (rest ++ user_args)))
unfolding launch_args
launch_args_lem plan is_terminal program subcommand rest user_args =
    at plan.tty_auto is_terminal (leb 2 (length (program ∷ subcommand ∷ rest))) (ground arith)
  where
    at :
        (t i l : Bool)
        → l ≡ true
        → but_first (
            (if t && i && l
              then insert_tty (program ∷ subcommand ∷ rest)
              else (program ∷ subcommand ∷ rest))
            ++ user_args)
          ≡ some (subcommand ∷ ((if t && i then codes "-t" ∷ [] else []) ++ (rest ++ user_args)))
    at true true l h = rw h refl
    at true false l h = refl
    at false i l h = refl
