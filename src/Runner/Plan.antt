-- ===== src/Runner/Plan.antt =====
-- nix/app/runner.rs: `Plan`, and what `parse_plan` does with one line of each section. A line's number is
-- its error's; the error's text is a name here.
pub mod Parse
pub mod Lines
pub mod Sections
pub mod Steps
pub mod Accepted
use nix_os_container_podman.Common.{
  ℕ, zero, suc, ◌+◌, ◌-◌, ◌*◌, ◌^◌, Bool, true, false, not, ◌&&◌, ◌||◌, List, [], ◌∷◌, ◌++◌, Option,
  none, some, Text, codes, bytes_eq, contains, starts_with, is_empty, ltb, leb, ◌==◌, if◌then◌else◌,
  Result, ok, err,
}
use nix_os_container_podman.StoreCheck.Units.{len}
use nix_os_container_podman.Runner.Texts.{rsplit_once}
use nix_os_container_podman.Runner.Mounts.{Rule, mount, mount_as, Item, lit, splice, var, Providers}

pub record Dbus : Type 0 where
  pub proxy : Text
  pub upstream : Text
  pub socket : Text
  pub args : List Text

pub record Plan : Type 0 where
  pub name : Text
  pub podman : Text
  pub holder : Option Text
  pub holder_process : Option Text
  pub tty_auto : Bool
  pub require : List (Text × Text)
  pub derived : List (Text × Text)
  pub ensure_dirs : List (ℕ × Text)
  pub providers : Providers
  pub dbus : Option Dbus
  pub podman_args : List Text
  pub podman_env : List (Text × Text)
  pub holder_argv : List Item
  pub run_argv : List Item

-- `Plan::default`, `Dbus::default`
abbrev pub default_plan : Plan
default_plan = record {
  name = [];
  podman = [];
  holder = none;
  holder_process = none;
  tty_auto = false;
  require = [];
  derived = [];
  ensure_dirs = [];
  providers = [];
  dbus = none;
  podman_args = [];
  podman_env = [];
  holder_argv = [];
  run_argv = [];
}

abbrev pub default_dbus : Dbus
default_dbus = record { proxy = []; upstream = []; socket = []; args = [] }

pub data Section : Type 0 where
  before_any meta vars require ensure_dir provider dbus_section podman_section holder run : Section

pub data LineError : Type 0 where
  unterminated_header unnamed_provider expected_header : LineError
  unknown_section : Text → LineError
  bad_meta bad_holder bad_holder_process bad_vars bad_require bad_mode bad_ensure_dir : LineError
  not_absolute_pattern wild_directory bad_rule bad_dbus bad_podman bad_item : LineError
  -- the failure of an `expect` or of `unreachable!`
  panicked : LineError

abbrev pub Line : Type 0 → Type 0
Line A = Result LineError A

-- `[meta]`
abbrev pub is_holder_name : Text → Bool
is_holder_name v = not (is_empty v) && not (contains b'/' v) && not (contains 0 v)

abbrev pub is_process_name : Text → Bool
is_process_name v = not (is_empty v) && not (contains b'/' v) && leb (len v) 15

abbrev meta_holder : Plan → Text → Line Plan
meta_holder plan v =
    if is_holder_name v then ok (record plan { holder = some v }) else err bad_holder

abbrev meta_process : Plan → Text → Line Plan
meta_process plan v =
    if is_process_name v
    then ok (record plan { holder_process = some v })
    else err bad_holder_process

abbrev meta_tty : Plan → Text → Line Plan
meta_tty plan v =
    if bytes_eq v (codes "auto")
    then ok (record plan { tty_auto = true })
    else if bytes_eq v (codes "never")
    then ok (record plan { tty_auto = false })
    else err bad_meta

unfoldable pub meta_line : Plan → List Text → Line Plan
unfolding bytes_eq
meta_line plan (key ∷ v ∷ []) =
    if bytes_eq key (codes "name")
    then ok (record plan { name = v })
    else if bytes_eq key (codes "podman")
    then ok (record plan { podman = v })
    else if bytes_eq key (codes "holder")
    then meta_holder plan v
    else if bytes_eq key (codes "holder-process")
    then meta_process plan v
    else if bytes_eq key (codes "tty")
    then meta_tty plan v
    else err bad_meta
meta_line plan _ = err bad_meta

-- `Vec::push`
abbrev pub push {ℓ} : {A : Type ℓ} → List A → A → List A
push xs x = xs ++ (x ∷ [])

-- `[vars]`
unfoldable pub vars_line : Plan → List Text → Line Plan
vars_line plan (name ∷ template ∷ []) =
    if not (is_empty name)
    then ok (record plan { derived = push plan.derived (name, template) })
    else err bad_vars
vars_line plan _ = err bad_vars

-- `[require]`
unfoldable pub require_line : Plan → List Text → Line Plan
require_line plan (name ∷ message ∷ []) =
    ok (record plan { require = push plan.require (name, message) })
require_line plan _ = err bad_require

-- `u32::from_str_radix(mode, 8)`
unfoldable octal_digits : ℕ → Text → Option ℕ
octal_digits acc [] = some acc
octal_digits acc (c ∷ cs) =
    let acc' = acc * 8 + (c - b'0') in
    let more = octal_digits acc' cs in
    if leb b'0' c && leb c b'7' then (if ltb acc' (2 ^ 32) then more else none) else none

abbrev octal_unsigned : Text → Option ℕ
octal_unsigned [] = none
octal_unsigned (c ∷ cs) = octal_digits 0 (c ∷ cs)

unfoldable pub parse_octal : Text → Option ℕ
unfolding octal_digits
parse_octal [] = none
parse_octal (c ∷ cs) = if c == b'+' then octal_unsigned cs else octal_unsigned (c ∷ cs)

-- `[ensure-dir]`
abbrev pub push_dir : Plan → Text → Option ℕ → Line Plan
push_dir plan template none = err bad_mode
push_dir plan template (some mode) =
    ok (record plan { ensure_dirs = push plan.ensure_dirs (mode, template) })

unfoldable pub ensure_dir_line : Plan → List Text → Line Plan
unfolding parse_octal
ensure_dir_line plan (mode ∷ template ∷ []) = push_dir plan template (parse_octal mode)
ensure_dir_line plan _ = err bad_ensure_dir

-- `[provider NAME]`
abbrev pub mount_rule : Text → Text → Option (Text × Text) → Line Rule
mount_rule pattern options none = err not_absolute_pattern
mount_rule pattern options (some (dir, last)) =
    if contains b'*' dir || contains b'?' dir
    then err wild_directory
    else ok (mount pattern options)

unfoldable pub rule_line : List Text → Line Rule
unfolding bytes_eq rsplit_once
rule_line (key ∷ a ∷ b ∷ []) =
    if bytes_eq key (codes "mount") then mount_rule a b (rsplit_once b'/' a) else err bad_rule
rule_line (key ∷ a ∷ b ∷ c ∷ []) =
    if bytes_eq key (codes "mount-as") then ok (mount_as a b c) else err bad_rule
rule_line _ = err bad_rule

-- `providers.get_mut(name).expect(..).push(rule)`
unfoldable pub push_rule : Providers → Text → Rule → Option Providers
push_rule [] name rule = none
push_rule ((k, rules) ∷ ps) name rule =
    let rest = push_rule ps name rule in
    if bytes_eq k name
    then some ((k, push rules rule) ∷ ps)
    else elim rest [ none ↦ none | some qs ↦ some ((k, rules) ∷ qs) ]

-- `providers.entry(name).or_default()`
unfoldable pub or_default : Providers → Text → Providers
or_default [] name = (name, []) ∷ []
or_default ((k, rules) ∷ ps) name =
    let rest = (k, rules) ∷ or_default ps name in if bytes_eq k name then (k, rules) ∷ ps else rest

abbrev pub put_providers : Plan → Option Providers → Line Plan
put_providers plan none = err panicked
put_providers plan (some ps) = ok (record plan { providers = ps })

abbrev pub put_rule : Plan → Text → Line Rule → Line Plan
put_rule plan name (err e) = err e
put_rule plan name (ok rule) = put_providers plan (push_rule plan.providers name rule)

unfoldable pub provider_line : Plan → Text → List Text → Line Plan
unfolding rule_line push_rule
provider_line plan name fields = put_rule plan name (rule_line fields)

-- `[dbus]`
abbrev pub dbus_field : Dbus → Text → Text → Line Dbus
dbus_field d key v =
    if bytes_eq key (codes "proxy")
    then ok (record d { proxy = v })
    else if bytes_eq key (codes "upstream")
    then ok (record d { upstream = v })
    else if bytes_eq key (codes "socket")
    then ok (record d { socket = v })
    else if bytes_eq key (codes "arg")
    then ok (record d { args = push d.args v })
    else err bad_dbus

abbrev pub put_dbus : Plan → Line Dbus → Line Plan
put_dbus plan (err e) = err e
put_dbus plan (ok d) = ok (record plan { dbus = some d })

abbrev pub dbus_at : Plan → Option Dbus → List Text → Line Plan
dbus_at plan none fields = err panicked
dbus_at plan (some d) (key ∷ v ∷ []) = put_dbus plan (dbus_field d key v)
dbus_at plan (some d) _ = err bad_dbus

unfoldable pub dbus_line : Plan → List Text → Line Plan
unfolding bytes_eq
dbus_line plan fields = dbus_at plan plan.dbus fields

-- `[podman]`
abbrev pub is_env_name : Text → Bool
is_env_name name = not (is_empty name) && not (contains b'=' name) && not (contains 0 name)

unfoldable pub podman_line : Plan → List Text → Line Plan
unfolding bytes_eq
podman_line plan (key ∷ v ∷ []) =
    if bytes_eq key (codes "arg")
    then ok (record plan { podman_args = push plan.podman_args v })
    else err bad_podman
podman_line plan (key ∷ name ∷ v ∷ []) =
    if bytes_eq key (codes "env") && is_env_name name
    then ok (record plan { podman_env = push plan.podman_env (name, v) })
    else err bad_podman
podman_line plan _ = err bad_podman

-- `[holder]` and `[run]`
unfoldable pub item_line : List Text → Line Item
unfolding bytes_eq
item_line (key ∷ []) = if bytes_eq key (codes "s") then ok (lit []) else err bad_item
item_line (key ∷ a ∷ []) =
    if bytes_eq key (codes "s")
    then ok (lit a)
    else if bytes_eq key (codes "a")
    then ok (splice a)
    else err bad_item
item_line (key ∷ a ∷ b ∷ c ∷ []) = if bytes_eq key (codes "r") then ok (var a b c) else err bad_item
item_line _ = err bad_item
