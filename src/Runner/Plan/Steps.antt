-- ===== src/Runner/Plan/Steps.antt =====
-- nix/app/runner.rs: what one line, and the loop over all lines, keeps.
use nix_os_container_podman.Common.{
  ℕ, ◌+◌, ◌≡◌, refl, sym, subst, ◌||◌, List, [], ◌∷◌, Option, none, some, Text, codes, bytes_eq,
  starts_with, is_empty, split, strip_prefix, Result, ok, err,
}
use nix_os_container_podman.Runner.Texts.{split_once}
use nix_os_container_podman.Runner.Mounts.{Item}
use nix_os_container_podman.Runner.Plan.{
  Plan, Section, before_any, meta, vars, require, ensure_dir, provider, dbus_section,
  podman_section, holder, run, Line, item_line,
}
use nix_os_container_podman.Runner.Plan.Lines.{
  IsExpected, Gives, failed, gave, Gives-if, IsSound, meta_line-IsSound, vars_line-IsSound,
  require_line-IsSound, ensure_dir_line-IsSound, podman_line-IsSound,
}
use nix_os_container_podman.Runner.Plan.Sections.{
  IsReady, IsKept, or_default-IsPushed, provider_line-IsKept, dbus_line-IsKept,
}
use nix_os_container_podman.Runner.Plan.Parse.{
  Parser, PlanError, bad_line, open_provider, open_section, head_and_rest, open_inner, inner_of,
  section_line, with_plan, push_holder, push_run, field_line, parse_line, at_line, parse_lines,
}

abbrev pub IsParser : Parser → Type 0
IsParser p = IsKept p.section p.provider_name p.plan

section_line-IsParser : (p : Parser) (raw : Text) → IsParser p → Gives IsParser (section_line p raw)
unfolding section_line
section_line-IsParser p raw h = inner (inner_of (strip_prefix (codes "[") raw))
  where
    provided : (rest : Text) → Gives IsParser (open_provider p rest)
    provided rest =
        Gives-if IsParser (is_empty rest) (λ e. failed tt)
          λ e.
            let (rules, there) = or_default-IsPushed p.plan.providers rest h.0.4 in
            gave ((h.0.0, h.0.1, h.0.2, h.0.3, rules, h.0.5), there)

    opened : (head rest : Text) → Gives IsParser (open_section p head rest)
    opened head rest =
        Gives-if _ (bytes_eq head (codes "meta")) (λ e. gave (h.0, tt))
          λ e.
            Gives-if _ (bytes_eq head (codes "vars")) (λ e. gave (h.0, tt))
              λ e.
                Gives-if _ (bytes_eq head (codes "require")) (λ e. gave (h.0, tt))
                  λ e.
                    Gives-if _ (bytes_eq head (codes "ensure-dir")) (λ e. gave (h.0, tt))
                      λ e.
                        Gives-if _ (bytes_eq head (codes "holder")) (λ e. gave (h.0, tt))
                          λ e.
                            Gives-if _ (bytes_eq head (codes "podman")) (λ e. gave (h.0, tt))
                              λ e.
                                Gives-if _ (bytes_eq head (codes "dbus")) (λ e. gave (h.0, tt))
                                  λ e.
                                    Gives-if _ (bytes_eq head (codes "run")) (λ e. gave (h.0, tt))
                                      λ e.
                                        Gives-if _ (bytes_eq head (codes "provider"))
                                          (λ e. provided rest) λ e. failed tt

    inner : (o : Option Text) → Gives IsParser (open_inner p o)
    inner none = failed tt
    inner (some t) =
        opened (head_and_rest t (split_once b' ' t)).0 (head_and_rest t (split_once b' ' t)).1

module _ (p : Parser) where
  with_plan-IsParser :
      (s : Section) {r : Line Plan}
      → p.section ≡ s
      → Gives (IsKept s p.provider_name) r
      → Gives IsParser (with_plan p r)
  with_plan-IsParser s e (failed f) = failed f
  with_plan-IsParser s e (gave {a = plan} k) =
      gave (subst (λ t. IsKept t p.provider_name plan) (sym e) k)

  -- In a section that takes nothing for granted.
  with_plan-plain :
      (s : Section) {r : Line Plan}
      → p.section ≡ s
      → ((plan : Plan) → IsReady s p.provider_name plan)
      → Gives IsSound r
      → Gives IsParser (with_plan p r)
  with_plan-plain s e f (failed g) = failed g
  with_plan-plain s e f (gave {a = plan} k) =
      gave (subst (λ t. IsKept t p.provider_name plan) (sym e) (k, f plan))

  push_holder-IsSound :
      (r : Line Item)
      → Gives (λ i. Unit {0}) r
      → IsSound p.plan
      → Gives IsSound (push_holder p.plan r)
  push_holder-IsSound (err e) (failed f) h = failed f
  push_holder-IsSound (ok i) g h = gave h

  push_run-IsSound :
      (r : Line Item) → Gives (λ i. Unit {0}) r → IsSound p.plan → Gives IsSound (push_run p.plan r)
  push_run-IsSound (err e) (failed f) h = failed f
  push_run-IsSound (ok i) g h = gave h

item_line-Gives : (fields : List Text) → Gives (λ i. Unit {0}) (item_line fields)
unfolding item_line
item_line-Gives [] = failed tt
item_line-Gives (key ∷ []) = Gives-if _ (bytes_eq key (codes "s")) (λ e. gave tt) λ e. failed tt
item_line-Gives (key ∷ a ∷ []) =
    Gives-if _ (bytes_eq key (codes "s")) (λ e. gave tt)
      λ e. Gives-if _ (bytes_eq key (codes "a")) (λ e. gave tt) λ e. failed tt
item_line-Gives (key ∷ a ∷ b ∷ []) = failed tt
item_line-Gives (key ∷ a ∷ b ∷ c ∷ []) =
    Gives-if _ (bytes_eq key (codes "r")) (λ e. gave tt) λ e. failed tt
item_line-Gives (key ∷ a ∷ b ∷ c ∷ d ∷ fields) = failed tt

field_line-IsParser :
    (p : Parser) (s : Section) (raw : Text) (fields : List Text)
    → p.section ≡ s
    → IsParser p
    → Gives IsParser (field_line p s raw fields)
field_line-IsParser p before_any raw fields e h =
    Gives-if _ (bytes_eq raw (codes "plan 1")) (λ e. gave h) λ e. failed tt
field_line-IsParser p meta raw fields e h =
    with_plan-plain p meta e (λ plan. tt) (meta_line-IsSound p.plan fields h.0)
field_line-IsParser p vars raw fields e h =
    with_plan-plain p vars e (λ plan. tt) (vars_line-IsSound p.plan fields h.0)
field_line-IsParser p require raw fields e h =
    with_plan-plain p require e (λ plan. tt) (require_line-IsSound p.plan fields h.0)
field_line-IsParser p ensure_dir raw fields e h =
    with_plan-plain p ensure_dir e (λ plan. tt) (ensure_dir_line-IsSound p.plan fields h.0)
field_line-IsParser p provider raw fields e h = with_plan-IsParser p provider e (
    provider_line-IsKept p.plan p.provider_name fields
      (subst (λ t. IsKept t p.provider_name p.plan) e h))
field_line-IsParser p dbus_section raw fields e h = with_plan-IsParser p dbus_section e (
    dbus_line-IsKept p.plan p.provider_name fields
      (subst (λ t. IsKept t p.provider_name p.plan) e h))
field_line-IsParser p podman_section raw fields e h =
    with_plan-plain p podman_section e (λ plan. tt) (podman_line-IsSound p.plan fields h.0)
field_line-IsParser p holder raw fields e h =
    with_plan-plain p holder e (λ plan. tt)
      (push_holder-IsSound p (item_line fields) (item_line-Gives fields) h.0)
field_line-IsParser p run raw fields e h =
    with_plan-plain p run e (λ plan. tt)
      (push_run-IsSound p (item_line fields) (item_line-Gives fields) h.0)

parse_line-IsParser : (p : Parser) (raw : Text) → IsParser p → Gives IsParser (parse_line p raw)
unfolding parse_line
parse_line-IsParser p raw h =
    Gives-if IsParser (is_empty raw || starts_with (codes "#") raw) (λ e. gave h)
      λ e.
        Gives-if IsParser (starts_with (codes "[") raw) (λ e. section_line-IsParser p raw h)
          λ e. field_line-IsParser p p.section raw (split b'\t' raw) refl h

-- The loop's result: a parser that kept all, or an error that is no panic.
abbrev pub Parsed : Result PlanError Parser → Type 0
Parsed (err (bad_line n e)) = IsExpected e
Parsed (err _) = Unit
Parsed (ok p) = IsParser p

pub parse_lines-Parsed :
    (n : ℕ) (rest : List Text) (p : Parser) → IsParser p → Parsed (parse_lines n rest p)
unfolding parse_lines
parse_lines-Parsed n [] p h = h
parse_lines-Parsed n (raw ∷ rest) p h =
    at (parse_line-IsParser p raw h) λ q k. parse_lines-Parsed (n + 1) rest q k
  where
    at :
        {r : Line Parser}
        → Gives IsParser r
        → ((q : Parser) → IsParser q → Parsed (parse_lines (n + 1) rest q))
        → Parsed (at_line n (parse_lines (n + 1) rest) r)
    at (failed e) f = e
    at (gave {a = q} k) f = f q k
