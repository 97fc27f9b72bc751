-- ===== src/StoreFs/Realize.antt =====
-- nix-store-shared-fuse/src/realize.rs: normalization and containment of paths, and which symlink of the
-- farm is realized. A `PathBuf` is what Rust's `components` gives: `absolute` is the `RootDir`.
pub mod Normal
pub mod Classify
use nix_os_container_podman.Common.{
  ℕ, Bool, true, false, not, ◌&&◌, ◌||◌, List, [], ◌∷◌, ◌++◌, Option, none, some, reverse, Text,
  bytes_eq, split, is_empty, if◌then◌else◌,
}

pub data Component : Type 0 where
  cur_dir parent_dir : Component
  normal : Text → Component

pub record PathBuf : Type 0 where
  pub absolute : Bool
  pub parts : List Component

-- `Path::components`: a `.` counts at the head of a relative path only, and empty parts never do.
abbrev is_dot : Text → Bool
is_dot t = bytes_eq t (b'.' ∷ [])

abbrev component_of : Text → Component
component_of t = if bytes_eq t (b'.' ∷ b'.' ∷ []) then parent_dir else normal t

abbrev inner_parts : List Text → List Component
inner_parts [] = []
inner_parts (t ∷ ts) =
    let rest = inner_parts ts in if is_empty t || is_dot t then rest else component_of t ∷ rest

abbrev relative_parts : List Text → List Component
relative_parts [] = []
relative_parts (t ∷ ts) = if is_dot t then cur_dir ∷ inner_parts ts else inner_parts (t ∷ ts)

abbrev pub path_of : Text → PathBuf
path_of [] = record { absolute = false; parts = [] }
path_of (c ∷ t) =
    if bytes_eq (c ∷ []) (b'/' ∷ [])
    then record { absolute = true; parts = inner_parts (split b'/' t) }
    else record { absolute = false; parts = relative_parts (split b'/' (c ∷ t)) }

abbrev pub component_eq : Component → Component → Bool
component_eq cur_dir cur_dir = true
component_eq parent_dir parent_dir = true
component_eq (normal a) (normal b) = bytes_eq a b
component_eq _ _ = false

-- `as_os_str().is_empty()`
abbrev pub is_empty_path : PathBuf → Bool
is_empty_path p = not p.absolute && is_empty p.parts

abbrev drop_cur_dir : List Component → List Component
drop_cur_dir (cur_dir ∷ cs) = cs
drop_cur_dir cs = cs

-- `Path::join`
abbrev pub join : PathBuf → PathBuf → PathBuf
join p q =
    if q.absolute || is_empty_path p
    then q
    else record { absolute = p.absolute; parts = p.parts ++ drop_cur_dir q.parts }

-- The parts behind a prefix, and `Path::strip_prefix`.
unfoldable pub strip_parts : List Component → List Component → Option (List Component)
strip_parts [] cs = some cs
strip_parts (b ∷ bs) [] = none
strip_parts (b ∷ bs) (c ∷ cs) =
    let rest = strip_parts bs cs in if component_eq b c then rest else none

abbrev same_kind : Bool → Bool → Bool
same_kind true b = b
same_kind false b = not b

abbrev relative : Option (List Component) → Option PathBuf
relative none = none
relative (some cs) = some (record { absolute = false; parts = cs })

abbrev pub strip_base : PathBuf → PathBuf → Option PathBuf
strip_base base p =
    let rest = relative (strip_parts base.parts p.parts) in
    if same_kind base.absolute p.absolute then rest else none

abbrev pub is_some_path : Option PathBuf → Bool
is_some_path none = false
is_some_path (some p) = true

-- `Path::starts_with`
abbrev pub starts_with : PathBuf → PathBuf → Bool
starts_with p base = is_some_path (strip_base base p)

unfoldable pub parts_eq : List Component → List Component → Bool
parts_eq [] [] = true
parts_eq (a ∷ rest) (b ∷ bs) = component_eq a b && parts_eq rest bs
parts_eq _ _ = false

abbrev path_eq : PathBuf → PathBuf → Bool
path_eq p q = same_kind p.absolute q.absolute && parts_eq p.parts q.parts

-- `..` on `out`, whose last component stands first here. A `.` is never pushed on `out`, so the last
-- clause stands for the code's `unreachable!`.
abbrev pub go_up : Bool → List Component → List Component
go_up absolute (normal n ∷ out) = out
go_up true [] = []
go_up false [] = parent_dir ∷ []
go_up absolute (parent_dir ∷ out) = parent_dir ∷ parent_dir ∷ out
go_up absolute (cur_dir ∷ out) = cur_dir ∷ out

abbrev pub push_part : Bool → List Component → Component → List Component
push_part absolute out cur_dir = out
push_part absolute out parent_dir = go_up absolute out
push_part absolute out (normal n) = normal n ∷ out

unfoldable pub collapse : Bool → List Component → List Component → List Component
collapse absolute out [] = out
collapse absolute out (c ∷ cs) = collapse absolute (push_part absolute out c) cs

abbrev pub or_dot : Bool → List Component → List Component
or_dot true out = out
or_dot false [] = cur_dir ∷ []
or_dot false (c ∷ out) = c ∷ out

-- `normalize`. The root stays at the bottom of `out`, so an absolute path's result has a root.
unfoldable pub normalize : PathBuf → PathBuf
normalize p = record {
  absolute = p.absolute;
  parts = or_dot p.absolute (reverse (collapse p.absolute [] p.parts));
}

-- `is_inside`
unfoldable pub is_inside : PathBuf → PathBuf → Bool
is_inside candidate base =
    path_eq (normalize candidate) (normalize base)
    || starts_with (normalize candidate) (normalize base)

-- `panicked` is the failure of the `expect` in `classify`.
pub data Realization : Type 0 where
  realize : PathBuf → Realization
  keep_symlink panicked : Realization

abbrev pub expected : Option PathBuf → Realization
expected none = panicked
expected (some rel) = realize rel

abbrev classify_normal : PathBuf → PathBuf → PathBuf → Realization
classify_normal target resolution_root bind_target =
    if not (is_inside target resolution_root)
    then keep_symlink
    else if is_inside target bind_target
    then keep_symlink
    else expected (strip_base resolution_root target)

-- `classify`
unfoldable pub classify : PathBuf → PathBuf → PathBuf → Realization
classify target resolution_root bind_target =
    classify_normal (normalize target) (normalize resolution_root) (normalize bind_target)

-- `resolve_target`
unfoldable pub resolve_target : PathBuf → PathBuf → PathBuf
resolve_target link_dir target =
    if target.absolute then normalize target else normalize (join link_dir target)
