-- ===== src/Agent/Policy.antt =====
-- ssh-agent-filter/src/policy.rs: which keys a client may see and use. Specs, fingerprints and decoded
-- comments are lists of code points.
pub mod Lossy
pub mod Glob
pub mod Rules
pub mod Deny
unfoldable pub use Lossy.{from_utf8_lossy}
use nix_os_container_podman.Common.{
  ℕ, Bool, true, false, not, ◌&&◌, ◌||◌, List, [], ◌∷◌, ◌++◌, Option, none, some, Bytes, Text,
  is_empty, any, if◌then◌else◌, ◌==◌, bytes_eq, contains, split, strip_prefix, find_after, Result,
  ok, err,
}
use nix_os_container_podman.Agent.Sha.{fingerprint, prefix}

-- `pattern.ends_with('*')`
abbrev ends_with_star : Text → Bool
ends_with_star [] = false
ends_with_star (c ∷ []) = c == b'*'
ends_with_star (c ∷ d ∷ cs) = ends_with_star (d ∷ cs)

-- The match on `last` behind the loop.
unfoldable pub glob_end : Bool → Text → Option Text → Bool
glob_end ends rest none = is_empty rest
glob_end ends rest (some p) = if not (is_empty p) then is_empty rest || ends else true

-- `for part in parts`; `ends` is `pattern.ends_with('*')`.
unfoldable pub glob_parts : Bool → List Text → Text → Option Text → Bool
unfolding glob_end
glob_parts ends [] rest last = glob_end ends rest last
glob_parts ends ([] ∷ parts) rest last = glob_parts ends parts rest (some [])
glob_parts ends ((c ∷ part) ∷ parts) rest last = elim (find_after (c ∷ part) rest) [
  | some behind ↦ glob_parts ends parts behind (some (c ∷ part))
  | none ↦ false
]

-- The first piece is a prefix of the text; the loop takes the others.
unfoldable pub glob_pieces : Bool → List Text → Text → Bool
unfolding glob_parts
glob_pieces ends [] text = glob_parts ends [] text none
glob_pieces ends (first ∷ parts) text = elim (strip_prefix first text) [
  | some rest ↦ glob_parts ends parts rest none
  | none ↦ false
]

unfoldable pub glob : Text → Text → Bool
unfolding glob_pieces
glob pattern text = glob_pieces (ends_with_star pattern) (split b'*' pattern) text

pub data Mode : Type 0 where
  pass_all allow deny : Mode

pub record Policy : Type 0 where
  pub mode : Mode
  pub specs : List Text

pub data PolicyError : Type 0 where
  mutually_exclusive : PolicyError

-- `Policy::new`
unfoldable pub new_policy : List Text → List Text → Result PolicyError Policy
new_policy [] [] = ok (record { mode = pass_all; specs = [] })
new_policy (a ∷ allows) [] = ok (record { mode = allow; specs = a ∷ allows })
new_policy [] (d ∷ denies) = ok (record { mode = deny; specs = d ∷ denies })
new_policy (a ∷ allows) (d ∷ denies) = err mutually_exclusive

-- The closure of `matches`, on one spec.
unfoldable pub spec_matches : Text → Text → Text → Bool
spec_matches fp comment s =
    bytes_eq s fp
    || bytes_eq (prefix ++ s) fp
    || (contains b'*' s && glob s comment)
    || bytes_eq s comment

unfoldable pub matches : Policy → Bytes → Bytes → Bool
matches p blob comment = any (spec_matches (fingerprint blob) (from_utf8_lossy comment)) p.specs

unfoldable pub permits : Policy → Bytes → Bytes → Bool
permits p blob comment = elim p.mode [
  | pass_all ↦ true
  | allow ↦ matches p blob comment
  | deny ↦ not (matches p blob comment)
]

-- blob and comment, as the last identities answer listed them
abbrev pub Known : Type 0
Known = List (Bytes × Bytes)

-- The comment of the first entry for the blob, else an empty one.
unfoldable pub comment_of : Bytes → Known → Bytes
comment_of blob [] = []
comment_of blob ((b, c) ∷ known) = if bytes_eq b blob then c else comment_of blob known

unfoldable pub permits_blob : Policy → Bytes → Known → Bool
permits_blob p blob known = permits p blob (comment_of blob known)
