-- ===== src/Runner/Plan/Lines.antt =====
-- nix/app/runner.rs: what every line keeps true of the plan so far.
use nix_os_container_podman.Common.{
  ℕ, ◌+◌, ◌<◌, ◌^◌, ◌*◌, ◌-◌, ◌≡◌, refl, Bool, true, false, not, ◌&&◌, ◌||◌, List, [], ◌∷◌, Option,
  none, some, Text, codes, bytes_eq, contains, is_empty, All, All-append, if◌then◌else◌, arith, ok,
  err,
}
use nix_os_container_podman.Runner.Texts.{rsplit_once}
use nix_os_container_podman.Runner.Mounts.{Rule, mount, mount_as, Providers}
use nix_os_container_podman.Runner.Plan.{
  Plan, LineError, panicked, Line, is_holder_name, is_process_name, is_env_name, meta_line,
  vars_line, require_line, ensure_dir_line, podman_line, parse_octal, octal_digits, octal_unsigned,
  push_dir,
}

-- A result that is no panic, and what a success satisfies.
abbrev pub IsExpected : LineError → Type 0
IsExpected panicked = ⊥
IsExpected _ = Unit

pub data Gives {A : Type 0} (P : A → Type 0) : Line A → Type 0 where
  failed : {e : LineError} → IsExpected e → Gives P (err e)
  gave : {a : A} → P a → Gives P (ok a)

pub Gives-if :
    {A : Type 0} (P : A → Type 0) (b : Bool) {r q : Line A}
    → (b ≡ true → Gives P r)
    → (b ≡ false → Gives P q)
    → Gives P (if b then r else q)
Gives-if P true f g = f refl
Gives-if P false f g = g refl

abbrev pub Holds : (Text → Bool) → Option Text → Type 0
Holds test none = Unit
Holds test (some t) = test t ≡ true

-- Only the last component of a mount's pattern has wildcards.
abbrev pub IsLastWild : Rule → Type 0
IsLastWild (mount pattern options) =
    (dir : Text) × (name : Text) × (rsplit_once b'/' pattern ≡ some (dir, name))
    × (contains b'*' dir || contains b'?' dir ≡ false)
IsLastWild (mount_as source destination options) = Unit

abbrev pub AllRules : Providers → Type 0
AllRules ps = All (λ p. All IsLastWild p.1) ps

-- What the lines check on their own.
abbrev pub IsSound : Plan → Type 0
IsSound plan =
    Holds is_holder_name plan.holder
    × Holds is_process_name plan.holder_process
    × All (λ d. is_empty d.0 ≡ false) plan.derived
    × All (λ d. d.0 < 2 ^ 32) plan.ensure_dirs
    × AllRules plan.providers
    × All (λ e. is_env_name e.0 ≡ true) plan.podman_env

pub meta_line-IsSound :
    (plan : Plan) (fields : List Text) → IsSound plan → Gives IsSound (meta_line plan fields)
unfolding meta_line
meta_line-IsSound plan [] h = failed tt
meta_line-IsSound plan (key ∷ []) h = failed tt
meta_line-IsSound plan (key ∷ v ∷ []) h =
    Gives-if IsSound (bytes_eq key (codes "name")) (λ e. gave h)
      λ e.
        Gives-if IsSound (bytes_eq key (codes "podman")) (λ e. gave h)
          λ e.
            Gives-if IsSound (bytes_eq key (codes "holder"))
              (λ e.
                Gives-if IsSound (is_holder_name v) (λ e. gave (e, h.1, h.2, h.3, h.4, h.5))
                  λ e. failed tt)
              λ e.
                Gives-if IsSound (bytes_eq key (codes "holder-process"))
                  (λ e.
                    Gives-if IsSound (is_process_name v) (λ e. gave (h.0, e, h.2, h.3, h.4, h.5))
                      λ e. failed tt)
                  λ e.
                    Gives-if IsSound (bytes_eq key (codes "tty"))
                      (λ e.
                        Gives-if IsSound (bytes_eq v (codes "auto")) (λ e. gave h)
                          λ e.
                            Gives-if IsSound (bytes_eq v (codes "never")) (λ e. gave h)
                              λ e. failed tt)
                      λ e. failed tt
meta_line-IsSound plan (key ∷ v ∷ w ∷ fields) h = failed tt

pub vars_line-IsSound :
    (plan : Plan) (fields : List Text) → IsSound plan → Gives IsSound (vars_line plan fields)
unfolding vars_line
vars_line-IsSound plan [] h = failed tt
vars_line-IsSound plan (name ∷ []) h = failed tt
vars_line-IsSound plan (name ∷ template ∷ []) h =
    Gives-if IsSound (not (is_empty name))
      (λ e. gave (h.0, h.1, All-append _ plan.derived _ h.2 (ground (arith, e), tt), h.3, h.4, h.5))
      λ e. failed tt
vars_line-IsSound plan (name ∷ template ∷ v ∷ fields) h = failed tt

pub require_line-IsSound :
    (plan : Plan) (fields : List Text) → IsSound plan → Gives IsSound (require_line plan fields)
unfolding require_line
require_line-IsSound plan [] h = failed tt
require_line-IsSound plan (name ∷ []) h = failed tt
require_line-IsSound plan (name ∷ message ∷ []) h = gave h
require_line-IsSound plan (name ∷ message ∷ v ∷ fields) h = failed tt

octal_digits-bound :
    (acc : ℕ) (t : Text) (n : ℕ) → acc < 2 ^ 32 → octal_digits acc t ≡ some n → n < 2 ^ 32
unfolding octal_digits
octal_digits-bound acc [] n a h = ground (arith, a, h)
octal_digits-bound acc (c ∷ cs) n a h =
    ground (arith, h, octal_digits-bound (acc * 8 + (c - b'0')) cs n)

octal_unsigned-bound : (t : Text) (n : ℕ) → octal_unsigned t ≡ some n → n < 2 ^ 32
octal_unsigned-bound [] n h = cc
octal_unsigned-bound (c ∷ cs) n h = octal_digits-bound 0 (c ∷ cs) n (omega arith) h

parse_octal-bound : (t : Text) (n : ℕ) → parse_octal t ≡ some n → n < 2 ^ 32
unfolding parse_octal
parse_octal-bound [] n h = cc
parse_octal-bound (c ∷ cs) n h =
    ground (arith, h, octal_unsigned-bound cs n, octal_unsigned-bound (c ∷ cs) n)

pub ensure_dir_line-IsSound :
    (plan : Plan) (fields : List Text) → IsSound plan → Gives IsSound (ensure_dir_line plan fields)
unfolding ensure_dir_line
ensure_dir_line-IsSound plan [] h = failed tt
ensure_dir_line-IsSound plan (mode ∷ []) h = failed tt
ensure_dir_line-IsSound plan (mode ∷ template ∷ []) h =
    pushed (parse_octal mode) (parse_octal-bound mode)
  where
    pushed :
        (o : Option ℕ)
        → ((n : ℕ) → o ≡ some n → n < 2 ^ 32)
        → Gives IsSound (push_dir plan template o)
    pushed none f = failed tt
    pushed (some n) f =
        gave (h.0, h.1, h.2, All-append _ plan.ensure_dirs _ h.3 (f n refl, tt), h.4, h.5)
ensure_dir_line-IsSound plan (mode ∷ template ∷ v ∷ fields) h = failed tt

pub podman_line-IsSound :
    (plan : Plan) (fields : List Text) → IsSound plan → Gives IsSound (podman_line plan fields)
unfolding podman_line
podman_line-IsSound plan [] h = failed tt
podman_line-IsSound plan (key ∷ []) h = failed tt
podman_line-IsSound plan (key ∷ v ∷ []) h =
    Gives-if IsSound (bytes_eq key (codes "arg")) (λ e. gave h) λ e. failed tt
podman_line-IsSound plan (key ∷ name ∷ v ∷ []) (a, b, c, d, rules, env) =
    Gives-if IsSound (bytes_eq key (codes "env") && is_env_name name)
      (λ e. gave (a, b, c, d, rules, All-append _ plan.podman_env _ env (ground (arith, e), tt)))
      λ e. failed tt
podman_line-IsSound plan (key ∷ name ∷ v ∷ w ∷ fields) h = failed tt
