-- ===== src/Runner/Plan/Sections.antt =====
-- nix/app/runner.rs: the sections that stand for a part of the plan, which their header makes.
use nix_os_container_podman.Common.{
  ◌≡◌, refl, Bool, true, ◌||◌, List, [], ◌∷◌, Option, none, some, Bool-cases, inl, inr, Text, codes,
  bytes_eq, bytes_eq_refl, contains, any, All-append, arith,
}
use nix_os_container_podman.Runner.Texts.{rsplit_once}
use nix_os_container_podman.Runner.Mounts.{Rule, Providers}
use nix_os_container_podman.Runner.Plan.{
  Plan, Dbus, Section, provider, dbus_section, Line, mount_rule, rule_line, push_rule, or_default,
  put_providers, put_rule, provider_line, dbus_at, put_dbus, dbus_line,
}
use nix_os_container_podman.Runner.Plan.Lines.{
  Gives, failed, gave, Gives-if, IsLastWild, AllRules, IsSound,
}

abbrev pub has_provider : Providers → Text → Bool
has_provider ps name = any (λ p. bytes_eq p.0 name) ps

abbrev pub IsSome : {A : Type 0} → Option A → Type 0
IsSome none = ⊥
IsSome (some a) = Unit

-- What the lines of a section take for granted.
abbrev pub IsReady : Section → Text → Plan → Type 0
IsReady provider name plan = has_provider plan.providers name ≡ true
IsReady dbus_section name plan = IsSome plan.dbus
IsReady _ name plan = Unit

mount_rule-IsLastWild :
    (pattern options : Text) (o : Option (Text × Text))
    → rsplit_once b'/' pattern ≡ o
    → Gives IsLastWild (mount_rule pattern options o)
mount_rule-IsLastWild pattern options none e = failed tt
mount_rule-IsLastWild pattern options (some (dir, name)) e =
    Gives-if IsLastWild (contains b'*' dir || contains b'?' dir) (λ w. failed tt)
      λ w. gave (dir, name, e, w)

rule_line-IsLastWild : (fields : List Text) → Gives IsLastWild (rule_line fields)
unfolding rule_line
rule_line-IsLastWild [] = failed tt
rule_line-IsLastWild (key ∷ []) = failed tt
rule_line-IsLastWild (key ∷ a ∷ []) = failed tt
rule_line-IsLastWild (key ∷ a ∷ b ∷ []) =
    Gives-if IsLastWild (bytes_eq key (codes "mount"))
      (λ e. mount_rule-IsLastWild a b (rsplit_once b'/' a) refl) λ e. failed tt
rule_line-IsLastWild (key ∷ a ∷ b ∷ c ∷ []) =
    Gives-if IsLastWild (bytes_eq key (codes "mount-as")) (λ e. gave tt) λ e. failed tt
rule_line-IsLastWild (key ∷ a ∷ b ∷ c ∷ d ∷ fields) = failed tt

-- The providers with one rule more.
abbrev IsPushed : Text → Option Providers → Type 0
IsPushed name none = ⊥
IsPushed name (some qs) = AllRules qs × (has_provider qs name ≡ true)

push_rule-IsPushed :
    (ps : Providers) (name : Text) (rule : Rule)
    → AllRules ps
    → IsLastWild rule
    → has_provider ps name ≡ true
    → IsPushed name (push_rule ps name rule)
unfolding push_rule
push_rule-IsPushed [] name rule a r h = cc
push_rule-IsPushed ((k, rules) ∷ ps) name rule a r h = elim (Bool-cases (bytes_eq k name)) [
  | inl e ↦ simp e ((All-append IsLastWild rules _ a.0 (r, tt), a.1), ground (arith, e))
  | inr e ↦ simp e (
      behind (push_rule ps name rule)
        (push_rule-IsPushed ps name rule a.1 r (ground (arith, h, e))))
]
  where
    behind :
        (o : Option Providers)
        → IsPushed name o
        → IsPushed name (elim o [ none ↦ none | some qs ↦ some ((k, rules) ∷ qs) ])
    behind none h = h
    behind (some qs) h = ((a.0, h.0), ground (arith, h.1))

pub or_default-IsPushed :
    (ps : Providers) (name : Text)
    → AllRules ps
    → AllRules (or_default ps name) × (has_provider (or_default ps name) name ≡ true)
unfolding or_default
or_default-IsPushed [] name a = ((tt, tt), ground (arith, bytes_eq_refl name))
or_default-IsPushed ((k, rules) ∷ ps) name a = elim (Bool-cases (bytes_eq k name)) [
  | inl e ↦ simp e (a, ground (arith, e))
  | inr e ↦
      let rest = or_default-IsPushed ps name a.1 in simp e ((a.0, rest.0), ground (arith, rest.1))
]

-- What a line leaves of the plan: sound, and ready for the next line of the section.
abbrev pub IsKept : Section → Text → Plan → Type 0
IsKept section name plan = IsSound plan × IsReady section name plan

pub provider_line-IsKept :
    (plan : Plan) (name : Text) (fields : List Text)
    → IsKept provider name plan
    → Gives (IsKept provider name) (provider_line plan name fields)
unfolding provider_line
provider_line-IsKept plan name fields (h, ready) = put (rule_line-IsLastWild fields)
  where
    put_pushed :
        (o : Option Providers)
        → IsPushed name o
        → Gives (IsKept provider name) (put_providers plan o)
    put_pushed none p = absurd p
    put_pushed (some qs) p = gave ((h.0, h.1, h.2, h.3, p.0, h.5), p.1)

    put : {r : Line Rule} → Gives IsLastWild r → Gives (IsKept provider name) (put_rule plan name r)
    put (failed e) = failed e
    put (gave {a = rule} w) = put_pushed _ (push_rule-IsPushed plan.providers name rule h.4 w ready)

pub dbus_line-IsKept :
    (plan : Plan) (name : Text) (fields : List Text)
    → IsKept dbus_section name plan
    → Gives (IsKept dbus_section name) (dbus_line plan fields)
unfolding dbus_line
dbus_line-IsKept plan name fields (h, ready) = at plan.dbus ready fields
  where
    put :
        {r : Line Dbus}
        → Gives (λ d. Unit {0}) r
        → Gives (IsKept dbus_section name) (put_dbus plan r)
    put (failed e) = failed e
    put (gave d) = gave (h, tt)

    at :
        (o : Option Dbus)
        → IsSome o
        → (fields : List Text) → Gives (IsKept dbus_section name) (dbus_at plan o fields)
    at none s fields = absurd s
    at (some d) s [] = failed tt
    at (some d) s (key ∷ []) = failed tt
    at (some d) s (key ∷ v ∷ []) = put (
        Gives-if _ (bytes_eq key (codes "proxy")) (λ e. gave tt)
          λ e.
            Gives-if _ (bytes_eq key (codes "upstream")) (λ e. gave tt)
              λ e.
                Gives-if _ (bytes_eq key (codes "socket")) (λ e. gave tt)
                  λ e. Gives-if _ (bytes_eq key (codes "arg")) (λ e. gave tt) λ e. failed tt)
    at (some d) s (key ∷ v ∷ w ∷ fields) = failed tt
