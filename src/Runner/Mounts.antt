-- ===== src/Runner/Mounts.antt =====
-- nix/app/runner.rs: a provider's rules, the `--mount` options they become, and a plan's argument list. What
-- the file system answers is a parameter.
pub mod Options
pub mod Found
pub mod Rules
pub mod Duplicates
pub mod Complete
pub mod Refused
use nix_os_container_podman.Common.{
  ℕ, suc, Bool, true, false, not, ◌&&◌, ◌||◌, List, [], ◌∷◌, ◌++◌, map, Option, none, some, Text,
  codes, bytes_eq, contains, split, starts_with, strip_prefix, any, filter, is_empty, ltb, ◌==◌,
  length, if◌then◌else◌, Result, ok, err,
}
use nix_os_container_podman.Runner.Texts.{rsplit_once, trim_end_matches}
use nix_os_container_podman.Runner.Wild.{glob_match}
use nix_os_container_podman.Runner.Template.{
  Error, unsafe_path, not_absolute, too_many_binds, unknown_value, unknown_provider, Vars, get,
  expand,
}

pub data FileType : Type 0 where
  directory regular char_device other : FileType

-- `metadata` follows links. `read_dir` has the names of the entries that can be read.
pub record FileSystem : Type 0 where
  pub metadata : Text → Option FileType
  pub read_dir : Text → Option (List Text)

pub data Rule : Type 0 where
  mount : Text → Text → Rule
  mount_as : Text → Text → Text → Rule

pub data Item : Type 0 where
  lit splice : Text → Item
  var : Text → Text → Text → Item

abbrev pub max_binds : ℕ
max_binds = 512

-- `Path::exists`
abbrev pub exists : FileSystem → Text → Bool
exists fs path = elim (fs.metadata path) [ none ↦ false | some t ↦ true ]

abbrev is_content : Option FileType → Bool
is_content none = false
is_content (some other) = false
is_content (some t) = true

unfoldable pub bindable : FileSystem → Text → Bool
bindable fs path = is_content (fs.metadata path)

abbrev pub is_mount_safe : Text → Bool
is_mount_safe path = not (
    contains b',' path
    || contains 0 path
    || contains b'\n' path
    || not (starts_with (codes "/") path))

unfoldable pub mount_safe : Text → Result Error (Unit {0})
unfolding strip_prefix
mount_safe path = if is_mount_safe path then ok tt else err (unsafe_path path)

infixl 5 ◌>>=◌ ◌>>◌
abbrev pub ◌>>=◌ : {A B : Type 0} → Result Error A → (A → Result Error B) → Result Error B
err e >>= f = err e
ok a >>= f = f a

abbrev pub ◌>>◌ : {A B : Type 0} → Result Error A → Result Error B → Result Error B
m >> k = m >>= λ _. k

-- The tail of a `--mount` value.
abbrev tail : Text → Text
tail options = if is_empty options then [] else b',' ∷ options

unfoldable pub mount_value : Text → Text → Text → Text
mount_value source destination options =
    codes "type=bind,source="
    ++ (source ++ (codes ",destination=" ++ (destination ++ tail options)))

unfoldable pub bind : Text → Text → Text → Result Error (List Text)
unfolding mount_safe mount_value
bind source destination options = do
  mount_safe source
  mount_safe destination
  ok (codes "--mount" ∷ mount_value source destination options ∷ [])

-- Texts in the order of their code points, which is that of their UTF-8.
unfoldable pub before : Text → Text → Bool
before [] t = true
before (x ∷ s) [] = false
before (x ∷ s) (y ∷ t) = ltb x y || (x == y && before s t)

unfoldable pub insert_sorted : Text → List Text → List Text
unfolding before
insert_sorted s [] = s ∷ []
insert_sorted s (t ∷ ts) =
    let rest = t ∷ insert_sorted s ts in if before s t then s ∷ t ∷ ts else rest

-- `found.sort()`
unfoldable pub sort : List Text → List Text
unfolding insert_sorted
sort [] = []
sort (s ∷ ts) = insert_sorted s (sort ts)

abbrev or_root : Text → Text
or_root dir = if is_empty dir then codes "/" else dir

abbrev entries : Option (List Text) → List Text
entries none = []
entries (some names) = names

abbrev path_in : Text → Text → Text
path_in dir file = trim_end_matches b'/' dir ++ (b'/' ∷ file)

abbrev pub is_wild : Text → Bool
is_wild name = contains b'*' name || contains b'?' name

-- The loop over the entries of a wildcard's directory.
unfoldable pub matching : FileSystem → Text → Text → List Text → List Text
unfolding trim_end_matches glob_match bindable
matching fs dir name [] = []
matching fs dir name (file ∷ files) =
    let rest = matching fs dir name files in
    if glob_match name file && bindable fs (path_in dir file) then path_in dir file ∷ rest else rest

unfoldable pub found : FileSystem → Text → Text → Text → List Text
unfolding matching
found fs pattern dir name =
    if is_wild name
    then matching fs (or_root dir) name (entries (fs.read_dir (or_root dir)))
    else if exists fs pattern
    then pattern ∷ []
    else []

-- The loop over what was found.
unfoldable pub bind_all : Text → List Text → Result Error (List Text)
unfolding bind
bind_all options [] = ok []
bind_all options (path ∷ paths) = do
  args ← bind path path options
  rest ← bind_all options paths
  ok (args ++ rest)

abbrev bind_found : Text → Text → List Text → Result Error (List Text)
bind_found pattern options paths =
    if ltb max_binds (length paths) then err (too_many_binds pattern) else bind_all options paths

abbrev mount_found : FileSystem → Text → Text → Option (Text × Text) → Result Error (List Text)
mount_found fs pattern options none = err not_absolute
mount_found fs pattern options (some (dir, name)) =
    bind_found pattern options (sort (found fs pattern dir name))

abbrev bind_source : Text → Text → Vars → Text → Result Error (List Text)
bind_source source template vars options = do
  destination ← expand template vars
  bind source destination options

unfoldable pub expand_rule : FileSystem → Rule → Vars → Result Error (List Text)
unfolding expand rsplit_once found sort bind_all bind
expand_rule fs (mount template options) vars = do
  pattern ← expand template vars
  mount_found fs pattern options (rsplit_once b'/' pattern)
expand_rule fs (mount_as source_template destination_template options) vars = do
  source ← expand source_template vars
  if exists fs source then bind_source source destination_template vars options else ok []

-- `mount_destination`
abbrev find_destination : Option Text → Option Text → Option Text
find_destination none rest = rest
find_destination (some d) rest = some d

unfoldable pub destination_in : List Text → Option Text
destination_in [] = none
destination_in (part ∷ parts) =
    find_destination (strip_prefix (codes "destination=") part) (destination_in parts)

unfoldable pub mount_destination : Text → Option Text
unfolding destination_in split
mount_destination spec = destination_in (split b',' spec)

abbrev pub seen_in : List Text → Text → Bool
seen_in seen d = any (bytes_eq d) seen

-- What `seen.insert` says of a mount and makes of the set.
abbrev is_fresh : List Text → Option Text → Bool
is_fresh seen none = true
is_fresh seen (some d) = not (seen_in seen d)

abbrev seen_with : List Text → Option Text → List Text
seen_with seen none = seen
seen_with seen (some d) = d ∷ seen

-- The loop of `drop_duplicate_mounts`, on what is left of `argv`.
unfoldable pub drop_seen : List Text → List Text → List Text
unfolding mount_destination bytes_eq
drop_seen seen [] = []
drop_seen seen (a ∷ []) = a ∷ []
drop_seen seen (a ∷ b ∷ argv) = elim (bytes_eq a (codes "--mount")) [
  | true ↦
      let rest = drop_seen (seen_with seen (mount_destination b)) argv in
      if is_fresh seen (mount_destination b) then a ∷ b ∷ rest else rest
  | false ↦ a ∷ drop_seen seen (b ∷ argv)
]

unfoldable pub drop_duplicate_mounts : List Text → List Text
unfolding drop_seen
drop_duplicate_mounts argv = drop_seen [] argv

abbrev pub Providers : Type 0
Providers = List (Text × List Rule)

unfoldable pub provider : Providers → Text → Option (List Rule)
provider [] name = none
provider ((k, rules) ∷ ps) name =
    let rest = provider ps name in if bytes_eq k name then some rules else rest

unfoldable pub expand_rules : FileSystem → List Rule → Vars → Result Error (List Text)
unfolding expand_rule
expand_rules fs [] vars = ok []
expand_rules fs (rule ∷ rules) vars = do
  args ← expand_rule fs rule vars
  rest ← expand_rules fs rules vars
  ok (args ++ rest)

abbrev resolve_var : Text → Text → Text → Option Text → Result Error (List Text)
resolve_var name prefix suffix none = err (unknown_value name)
resolve_var name prefix suffix (some value) = ok ((prefix ++ (value ++ suffix)) ∷ [])

abbrev resolve_splice : FileSystem → Text → Vars → Option (List Rule) → Result Error (List Text)
resolve_splice fs name vars none = err (unknown_provider name)
resolve_splice fs name vars (some rules) = expand_rules fs rules vars

unfoldable pub resolve_item : FileSystem → Providers → Vars → Item → Result Error (List Text)
unfolding get provider expand_rules
resolve_item fs providers vars (lit t) = ok (t ∷ [])
resolve_item fs providers vars (var name prefix suffix) =
    resolve_var name prefix suffix (get vars name)
resolve_item fs providers vars (splice name) = resolve_splice fs name vars (provider providers name)

unfoldable pub resolve_items : FileSystem → Providers → Vars → List Item → Result Error (List Text)
unfolding resolve_item
resolve_items fs providers vars [] = ok []
resolve_items fs providers vars (item ∷ items) = do
  args ← resolve_item fs providers vars item
  rest ← resolve_items fs providers vars items
  ok (args ++ rest)

unfoldable pub resolve : FileSystem → List Item → Providers → Vars → Result Error (List Text)
unfolding resolve_items drop_duplicate_mounts
resolve fs items providers vars = do
  argv ← resolve_items fs providers vars items
  ok (drop_duplicate_mounts argv)
