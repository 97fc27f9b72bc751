-- ===== src/Runner/Examples.antt =====
-- Runs of nix/app/runner.rs on concrete texts and file systems.
use nix_os_container_podman.Common.{
  ◌*◌, ◌≤◌, ◌≡◌, ◌↔◌, ◌⊎◌, inl, refl, true, false, List, [], ◌∷◌, ◌++◌, some, Text, codes, bytes_eq,
  split, strip_prefix, length, ok, err,
}
use nix_os_container_podman.Runner.Texts.{
  split_once, rsplit_once, drop_leading, trim_end_matches, lines, lines_of, strip_suffix,
}
use nix_os_container_podman.Runner.Wild.{
  Stands, IsHidden, glob_match, wild, any_skip, glob_match_lem,
}
use nix_os_container_podman.Runner.Template.{
  Error, unsafe_path, Vars, Reads, expand, expand_loop, get, meaning, expand_lem,
}
use nix_os_container_podman.Runner.Mounts.{
  FileSystem, regular, Rule, mount, expand_rule, max_binds, drop_duplicate_mounts, mount_safe,
  mount_value, bind, before, insert_sorted, sort, bindable, matching, found, bind_all, lit,
  mount_destination, destination_in, drop_seen,
}
use nix_os_container_podman.Runner.Mounts.Options.{Binds}
use nix_os_container_podman.Runner.Mounts.Rules.{IsGranted, options_of, expand_rule-Binds}
use nix_os_container_podman.Runner.Mounts.Complete.{lists}
use nix_os_container_podman.Runner.Mounts.Refused.{Refuses, expand_rule_lem}
use nix_os_container_podman.Runner.Mounts.Duplicates.{
  read_args, print_args, firsts, drop_duplicate_mounts_lem,
}
use nix_os_container_podman.Runner.Plan.{default_plan, meta_line, item_line}
use nix_os_container_podman.Runner.Plan.Parse.{
  parse_line, parse_lines, section_line, finish, parse_plan,
}
use nix_os_container_podman.Runner.Plan.Accepted.{Accepts, parse_plan-Accepts}
use nix_os_container_podman.Common.{reverse, arith}
use nix_os_container_podman.Runner.Signals.{
  sigint, sigterm, Signal, Gaps, exited, killed_by, supervise,
}
use nix_os_container_podman.Runner.Signals.Forwarded.{
  early_only, supervise_forwards, early_signals_lost,
}

glob_match_lem_example : (glob_match (codes "*.tx?") (codes "a.txt") ≡ true) ↔ (
    Stands (codes "*.tx?") (codes "a.txt") × (IsHidden (codes "a.txt") → IsHidden (codes "*.tx?")))
glob_match_lem_example = glob_match_lem (codes "*.tx?") (codes "a.txt")

glob_match-hidden : glob_match (codes "*") (codes ".ssh") ≡ false
unfolding glob_match wild any_skip strip_prefix
glob_match-hidden = refl

abbrev home_vars : Vars
home_vars = (codes "home", codes "/home/u") ∷ []

expand_lem_example :
    (r : Reads (codes "{home}/x")) × (expand (codes "{home}/x") home_vars
      ≡ meaning (codes "{home}/x") home_vars r)
expand_lem_example = expand_lem (codes "{home}/x") home_vars

expand_home : expand (codes "{home}/x") home_vars ≡ ok (codes "/home/u/x")
unfolding expand expand_loop split_once get bytes_eq
expand_home = refl

-- Three names in the home directory, one of them hidden.
abbrev home_files : FileSystem
home_files = record {
  metadata = λ path. some regular;
  read_dir = λ dir. some (codes "b" ∷ codes ".ssh" ∷ codes "a" ∷ []);
}

abbrev home_rule : Rule
home_rule = mount (codes "{home}/*") (codes "ro")

abbrev home_args : List Text
home_args =
    codes "--mount"
    ∷ codes "type=bind,source=/home/u/a,destination=/home/u/a,ro"
    ∷ codes "--mount"
    ∷ codes "type=bind,source=/home/u/b,destination=/home/u/b,ro"
    ∷ []

expand_home_rule : expand_rule home_files home_rule home_vars ≡ ok home_args
unfolding expand_rule expand expand_loop split_once rsplit_once drop_leading trim_end_matches get
    bytes_eq glob_match wild any_skip strip_prefix mount_safe mount_value bind before insert_sorted
    sort bindable matching found bind_all
expand_home_rule = refl

expand_rule-Binds_example :
    Binds (IsGranted home_files home_vars home_rule) (options_of home_rule) home_args
    × (length home_args ≤ 2 * max_binds)
expand_rule-Binds_example =
    expand_rule-Binds home_files home_rule home_vars home_args expand_home_rule

home-IsGranted : IsGranted home_files home_vars home_rule (codes "/home/u/b") (codes "/home/u/b")
unfolding IsGranted expand expand_loop split_once rsplit_once drop_leading trim_end_matches get
    bytes_eq bindable glob_match wild any_skip strip_prefix
home-IsGranted =
    let (stands, hidden) = (glob_match_lem (codes "*") (codes "b")).0 refl in
    (
      codes "/home/u/*",
      codes "/home/u",
      codes "*",
      refl,
      refl,
      inl (refl, (codes "b", refl, refl, stands, hidden, refl)),
      refl,
    )

expand_rule_lem_example :
    ((args : List Text) × (expand_rule home_files home_rule home_vars ≡ ok args)
      × (lists args (mount_value (codes "/home/u/b") (codes "/home/u/b") (options_of home_rule))
          ≡ true))
    ⊎ ((e : Error) × (expand_rule home_files home_rule home_vars ≡ err e)
        × Refuses home_files home_vars home_rule e)
expand_rule_lem_example =
    expand_rule_lem home_files home_rule home_vars (codes "/home/u/b") (codes "/home/u/b")
      home-IsGranted

-- A file name with a comma makes an error of the whole rule.
abbrev comma_files : FileSystem
comma_files = record home_files { read_dir = λ dir. some (codes "a" ∷ codes "b,c" ∷ []) }

expand_rule-comma :
    expand_rule comma_files home_rule home_vars ≡ err (unsafe_path (codes "/home/u/b,c"))
unfolding expand_rule expand expand_loop split_once rsplit_once drop_leading trim_end_matches get
    bytes_eq glob_match wild any_skip strip_prefix mount_safe mount_value bind before insert_sorted
    sort bindable matching found bind_all
expand_rule-comma = refl

drop_duplicate_mounts_lem_example :
    (print_args (read_args (home_args ++ home_args)) ≡ home_args ++ home_args)
    × (drop_duplicate_mounts (home_args ++ home_args)
        ≡ print_args (firsts (read_args (home_args ++ home_args))))
drop_duplicate_mounts_lem_example = drop_duplicate_mounts_lem (home_args ++ home_args)

drop_duplicate_mounts-twice : drop_duplicate_mounts (home_args ++ home_args) ≡ home_args
unfolding drop_duplicate_mounts drop_seen mount_destination destination_in split strip_prefix
    bytes_eq
drop_duplicate_mounts-twice = refl

-- Lines of fields.
abbrev line : List Text → Text
line [] = b'\n' ∷ []
line (f ∷ []) = f ++ (b'\n' ∷ [])
line (f ∷ g ∷ fs) = f ++ (b'\t' ∷ line (g ∷ fs))

abbrev small_plan : Text
small_plan =
    line (codes "plan 1" ∷ [])
    ++ line (codes "[meta]" ∷ [])
    ++ line (codes "podman" ∷ codes "/bin/podman" ∷ [])
    ++ line (codes "[run]" ∷ [])
    ++ line (codes "s" ∷ codes "run" ∷ [])

parse_plan-Accepts_example : Accepts (parse_plan small_plan)
parse_plan-Accepts_example = parse_plan-Accepts small_plan

parse_plan-small :
    parse_plan small_plan
    ≡ ok (record default_plan { podman = codes "/bin/podman"; run_argv = lit (codes "run") ∷ [] })
unfolding parse_plan parse_lines parse_line section_line finish meta_line item_line lines lines_of
    strip_suffix split split_once strip_prefix bytes_eq
parse_plan-small = refl

-- A SIGTERM while podman runs, and one that a Ctrl-C overtakes before its start.
abbrev stop : Signal
stop = record { sig = sigterm; foreground = true }

abbrev interrupt : Signal
interrupt = record { sig = sigint; foreground = true }

abbrev stopped : Gaps
stopped = record (early_only []) { running = interrupt ∷ stop ∷ [] }

supervise_forwards_example :
    ((supervise 7 stopped (killed_by 15)).0 ≡ 143)
    × ((supervise 7 stopped (killed_by 15)).1.child ≡ 0)
    × ((supervise 7 stopped (killed_by 15)).1.early ≡ 0)
    × (reverse (supervise 7 stopped (killed_by 15)).1.kills ≡ (7, sigterm) ∷ [])
supervise_forwards_example = supervise_forwards 7 stopped (killed_by 15) λ h. absurd (omega arith)

early_signals_lost_example :
    (supervise 7 (early_only (stop ∷ interrupt ∷ [])) (exited 0)).1.kills ≡ []
early_signals_lost_example =
    early_signals_lost 7 (stop ∷ []) interrupt (exited 0) (λ h. absurd (omega arith))
      λ h. absurd (omega arith)
