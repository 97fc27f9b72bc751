-- ===== src/Runner/Plan/Parse.antt =====
-- nix/app/runner.rs: `parse_plan`, its loop over the lines and the checks behind it.
use nix_os_container_podman.Common.{
  ℕ, ◌+◌, Bool, true, false, not, ◌&&◌, ◌||◌, List, [], ◌∷◌, Option, none, some, Text, codes,
  bytes_eq, split, starts_with, strip_prefix, is_empty, length, ltb, if◌then◌else◌, Result, ok, err,
}
use nix_os_container_podman.Runner.Texts.{split_once, strip_suffix, lines}
use nix_os_container_podman.Runner.Mounts.{Item}
use nix_os_container_podman.Runner.Plan.{
  Plan, Dbus, default_plan, default_dbus, Section, before_any, meta, vars, require, ensure_dir,
  provider, dbus_section, podman_section, holder, run, Line, LineError, unterminated_header,
  unnamed_provider, expected_header, unknown_section, push, or_default, meta_line, vars_line,
  require_line, ensure_dir_line, provider_line, dbus_line, podman_line, item_line,
}

-- The variables of the loop.
pub record Parser : Type 0 where
  pub plan : Plan
  pub section : Section
  pub provider_name : Text
  pub saw_header : Bool

pub data PlanError : Type 0 where
  bad_line : ℕ → LineError → PlanError
  missing_header incomplete_dbus no_podman empty_run no_holder_command : PlanError

abbrev pub start : Parser
start = record { plan = default_plan; section = before_any; provider_name = []; saw_header = false }

abbrev pub in_section : Parser → Section → Line Parser
in_section p s = ok (record p { section = s })

-- `plan.dbus.get_or_insert_with(Dbus::default)`
abbrev pub or_default_dbus : Option Dbus → Dbus
or_default_dbus none = default_dbus
or_default_dbus (some d) = d

abbrev pub open_provider : Parser → Text → Line Parser
open_provider p rest =
    if is_empty rest
    then err unnamed_provider
    else ok (record p {
      plan = record (p.plan) { providers = or_default p.plan.providers rest };
      section = provider;
      provider_name = rest;
    })

abbrev pub open_dbus : Parser → Line Parser
open_dbus p = ok (record p {
  plan = record (p.plan) { dbus = some (or_default_dbus p.plan.dbus) };
  section = dbus_section;
})

abbrev pub open_section : Parser → Text → Text → Line Parser
open_section p head rest =
    if bytes_eq head (codes "meta")
    then in_section p meta
    else if bytes_eq head (codes "vars")
    then in_section p vars
    else if bytes_eq head (codes "require")
    then in_section p require
    else if bytes_eq head (codes "ensure-dir")
    then in_section p ensure_dir
    else if bytes_eq head (codes "holder")
    then in_section p holder
    else if bytes_eq head (codes "podman")
    then in_section p podman_section
    else if bytes_eq head (codes "dbus")
    then open_dbus p
    else if bytes_eq head (codes "run")
    then in_section p run
    else if bytes_eq head (codes "provider")
    then open_provider p rest
    else err (unknown_section head)

-- `inner.split_once(' ').unwrap_or((inner, ""))`
abbrev pub head_and_rest : Text → Option (Text × Text) → Text × Text
head_and_rest inner none = (inner, [])
head_and_rest inner (some p) = p

abbrev pub open_inner : Parser → Option Text → Line Parser
open_inner p none = err unterminated_header
open_inner p (some inner) =
    let (head, rest) = head_and_rest inner (split_once b' ' inner) in open_section p head rest

-- `raw.strip_prefix('[').and_then(|s| s.strip_suffix(']'))`
abbrev pub inner_of : Option Text → Option Text
inner_of none = none
inner_of (some s) = strip_suffix b']' s

unfoldable pub section_line : Parser → Text → Line Parser
unfolding bytes_eq strip_prefix split_once strip_suffix or_default
section_line p raw = open_inner p (inner_of (strip_prefix (codes "[") raw))

abbrev pub with_plan : Parser → Line Plan → Line Parser
with_plan p (err e) = err e
with_plan p (ok plan) = ok (record p { plan = plan })

abbrev pub push_holder : Plan → Line Item → Line Plan
push_holder plan (err e) = err e
push_holder plan (ok item) = ok (record plan { holder_argv = push plan.holder_argv item })

abbrev pub push_run : Plan → Line Item → Line Plan
push_run plan (err e) = err e
push_run plan (ok item) = ok (record plan { run_argv = push plan.run_argv item })

-- The match on the section.
abbrev pub field_line : Parser → Section → Text → List Text → Line Parser
field_line p before_any raw fields =
    if bytes_eq raw (codes "plan 1")
    then ok (record p { saw_header = true })
    else err expected_header
field_line p meta raw fields = with_plan p (meta_line p.plan fields)
field_line p vars raw fields = with_plan p (vars_line p.plan fields)
field_line p require raw fields = with_plan p (require_line p.plan fields)
field_line p ensure_dir raw fields = with_plan p (ensure_dir_line p.plan fields)
field_line p provider raw fields = with_plan p (provider_line p.plan p.provider_name fields)
field_line p dbus_section raw fields = with_plan p (dbus_line p.plan fields)
field_line p podman_section raw fields = with_plan p (podman_line p.plan fields)
field_line p holder raw fields = with_plan p (push_holder p.plan (item_line fields))
field_line p run raw fields = with_plan p (push_run p.plan (item_line fields))

-- One round of the loop.
unfoldable pub parse_line : Parser → Text → Line Parser
unfolding section_line strip_prefix bytes_eq split meta_line vars_line require_line ensure_dir_line
    provider_line dbus_line podman_line item_line
parse_line p raw =
    if is_empty raw || starts_with (codes "#") raw
    then ok p
    else if starts_with (codes "[") raw
    then section_line p raw
    else field_line p p.section raw (split b'\t' raw)

abbrev pub at_line : ℕ → (Parser → Result PlanError Parser) → Line Parser → Result PlanError Parser
at_line n next (err e) = err (bad_line n e)
at_line n next (ok p) = next p

-- The loop; the first line is number 1.
unfoldable pub parse_lines : ℕ → List Text → Parser → Result PlanError Parser
unfolding parse_line
parse_lines n [] p = ok p
parse_lines n (raw ∷ rest) p = at_line n (parse_lines (n + 1) rest) (parse_line p raw)

abbrev pub is_complete : Option Dbus → Bool
is_complete none = true
is_complete (some d) =
    starts_with (codes "/") d.proxy && not (is_empty d.upstream) && not (is_empty d.socket)

abbrev pub is_some : Option Text → Bool
is_some none = false
is_some (some t) = true

-- The checks behind the loop.
unfoldable pub finish : Parser → Result PlanError Plan
unfolding strip_prefix
finish p =
    if not p.saw_header
    then err missing_header
    else if not (is_complete p.plan.dbus)
    then err incomplete_dbus
    else if not (starts_with (codes "/") p.plan.podman)
    then err no_podman
    else if is_empty p.plan.run_argv
    then err empty_run
    else if is_some p.plan.holder && ltb (length p.plan.holder_argv) 2
    then err no_holder_command
    else ok p.plan

abbrev pub finish_parsed : Result PlanError Parser → Result PlanError Plan
finish_parsed (err e) = err e
finish_parsed (ok p) = finish p

unfoldable pub parse_plan : Text → Result PlanError Plan
unfolding lines parse_lines finish
parse_plan text = finish_parsed (parse_lines 1 (lines text) start)
