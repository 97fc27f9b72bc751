-- ===== src/Runner/Mounts/Refused.antt =====
-- nix/app/runner.rs: when a provider's rule becomes an error, though it grants a path.
use nix_os_container_podman.Common.{
  ◌≡◌, ◌<◌, ◌∙◌, ◌⊎◌, inl, inr, refl, sym, Bool, true, false, List, [], ◌∷◌, ◌++◌, some, Text, All,
  All-map_of, length, arith, ltb, if◌then◌else◌, Result, ok, err, codes,
}
use nix_os_container_podman.Runner.Texts.{rsplit_once}
use nix_os_container_podman.Runner.Template.{Error, Vars, expand, too_many_binds, unsafe_path}
use nix_os_container_podman.Runner.Mounts.{
  FileSystem, Rule, mount, mount_as, sort, found, bind, mount_safe, is_mount_safe, mount_value,
  ◌>>◌, ◌>>=◌, bind_all, mount_found, expand_rule, max_binds,
}
use nix_os_container_podman.Runner.Mounts.Found.{IsAllowed, All-sort, length-sort, found-IsAllowed}
use nix_os_container_podman.Runner.Mounts.Rules.{IsGranted, options_of}
use nix_os_container_podman.Runner.Mounts.Complete.{lists, expand_rule_complete}

-- The error names a path of the given kind that has a comma, a line end or a NUL in it, or no `/` first.
abbrev IsUnsafe : (Text → Type 0) → Error → Type 0
IsUnsafe P e = (path : Text) × (e ≡ unsafe_path path) × (is_mount_safe path ≡ false) × P path

abbrev verdict : Bool → Text → Result Error (Unit {0})
verdict safe path = if safe then ok tt else err (unsafe_path path)

mount_safe-IsUnsafe :
    (P : Text → Type 0) (path : Text) {e : Error} → P path → mount_safe path ≡ err e → IsUnsafe P e
unfolding mount_safe
mount_safe-IsUnsafe P path {e} p h = tested (is_mount_safe path) refl h
  where
    tested : (b : Bool) → is_mount_safe path ≡ b → verdict b path ≡ err e → IsUnsafe P e
    tested true b h = cc
    tested false b h = (path, cc, b, p)

bind-IsUnsafe :
    (P : Text → Type 0) (source destination options : Text) {e : Error}
    → P source
    → P destination
    → bind source destination options ≡ err e
    → IsUnsafe P e
unfolding bind
bind-IsUnsafe P source destination options {e} s d h =
    tested (mount_safe source) refl (mount_safe destination) refl h
  where
    tested :
        (r : Result Error (Unit {0}))
        → mount_safe source ≡ r
        → (q : Result Error (Unit {0})) → mount_safe destination ≡ q
        → (r >> (q >> ok (codes "--mount" ∷ mount_value source destination options ∷ []))) ≡ err e
        → IsUnsafe P e
    tested (err f) r q k h = mount_safe-IsUnsafe P source s (r ∙ cc)
    tested (ok u) r (err f) k h = mount_safe-IsUnsafe P destination d (k ∙ cc)
    tested (ok u) r (ok w) k h = cc

bind_all-IsUnsafe :
    (P : Text → Type 0) (options : Text) (paths : List Text) {e : Error}
    → All P paths
    → bind_all options paths ≡ err e
    → IsUnsafe P e
unfolding bind_all
bind_all-IsUnsafe P options [] a h = cc
bind_all-IsUnsafe P options (path ∷ paths) {e} a h =
    tested (bind path path options) refl (bind_all options paths) h
      (λ q. bind_all-IsUnsafe P options paths a.1 q)
  where
    tested :
        (r : Result Error (List Text))
        → bind path path options ≡ r
        → (q : Result Error (List Text)) → (r >>= λ xs. q >>= λ ys. ok (xs ++ ys)) ≡ err e
        → (q ≡ err e → IsUnsafe P e)
        → IsUnsafe P e
    tested (err f) r q h rest = bind-IsUnsafe P path path options a.0 a.0 (r ∙ cc)
    tested (ok xs) r (err f) h rest = rest cc
    tested (ok xs) r (ok ys) h rest = cc

-- The error of a pattern that finds more paths than the limit.
pub IsOverfull : FileSystem → Vars → Rule → Error → Type 0
IsOverfull fs vars (mount template options) e =
    (pattern : Text) × (dir : Text) × (name : Text) × (e ≡ too_many_binds pattern)
    × (expand template vars ≡ ok pattern)
    × (rsplit_once b'/' pattern ≡ some (dir, name))
    × (max_binds < length (found fs pattern dir name))
IsOverfull fs vars (mount_as source_template destination_template options) e = ⊥

-- A path that a rule grants, as a source or as a destination.
pub IsEnd : FileSystem → Vars → Rule → Text → Type 0
IsEnd fs vars rule path =
    (other : Text) × (IsGranted fs vars rule path other ⊎ IsGranted fs vars rule other path)

pub Refuses : FileSystem → Vars → Rule → Error → Type 0
Refuses fs vars rule e = IsUnsafe (IsEnd fs vars rule) e ⊎ IsOverfull fs vars rule e

mount_found-Refuses :
    (fs : FileSystem) (vars : Vars) (template options pattern dir name : Text) {e : Error}
    → expand template vars ≡ ok pattern
    → rsplit_once b'/' pattern ≡ some (dir, name)
    → mount_found fs pattern options (some (dir, name)) ≡ err e
    → Refuses fs vars (mount template options) e
unfolding IsGranted IsOverfull IsEnd Refuses
mount_found-Refuses fs vars template options pattern dir name {e} x o h =
    limited (ltb max_binds (length (sort (found fs pattern dir name)))) refl h
  where
    granted :
        (path : Text)
        → IsAllowed fs pattern dir name path
        → IsEnd fs vars (mount template options) path
    granted path a = (path, inl (pattern, dir, name, x, o, a, refl))

    limited :
        (b : Bool)
        → ltb max_binds (length (sort (found fs pattern dir name))) ≡ b
        → (if b
            then err (too_many_binds pattern)
            else bind_all options (sort (found fs pattern dir name)))
          ≡ err e
        → Refuses fs vars (mount template options) e
    limited true b h =
        inr
          (pattern, dir, name, cc, x, o, ground (arith, b, length-sort (found fs pattern dir name)))
    limited false b h = inl (
        bind_all-IsUnsafe (IsEnd fs vars (mount template options)) options
          (sort (found fs pattern dir name))
          (All-sort (IsEnd fs vars (mount template options)) (found fs pattern dir name) (
            All-map_of (IsAllowed fs pattern dir name) (IsEnd fs vars (mount template options))
              granted (found fs pattern dir name) (found-IsAllowed fs pattern dir name)))
          h)

expand_rule-Refuses :
    (fs : FileSystem) (rule : Rule) (vars : Vars) (source destination : Text) {e : Error}
    → IsGranted fs vars rule source destination
    → expand_rule fs rule vars ≡ err e
    → Refuses fs vars rule e
unfolding expand_rule IsGranted IsEnd Refuses
expand_rule-Refuses fs (mount template options) vars source destination
      (pattern, dir, name, x, o, a, same) h =
    let q : expand_rule fs (mount template options) vars
        ≡ mount_found fs pattern options (some (dir, name)) =
      simp (x, o) in
    mount_found-Refuses fs vars template options pattern dir name x o (sym q ∙ h)
expand_rule-Refuses fs (mount_as source_template destination_template options) vars source
      destination (s, d, x) h =
    let q : expand_rule fs (mount_as source_template destination_template options) vars
        ≡ bind source destination options =
      simp (s, x, d) in
    inl (
      bind-IsUnsafe (IsEnd fs vars (mount_as source_template destination_template options)) source
        destination options (destination, inl (s, d, x)) (source, inr (s, d, x)) (sym q ∙ h))

-- What becomes of a source and a destination that a rule grants for the launch's values: the rule becomes
-- arguments and the mount from the one to the other, with the rule's options, is among them; or it is an
-- error, and the error names a granted path with a comma, a line end or a NUL in it or no `/` first, or
-- the pattern, which then finds more than 512 paths.
pub expand_rule_lem :
    (fs : FileSystem) (rule : Rule) (vars : Vars) (source destination : Text)
    → IsGranted fs vars rule source destination
    → ((args : List Text) × (expand_rule fs rule vars ≡ ok args)
        × (lists args (mount_value source destination (options_of rule)) ≡ true))
      ⊎ ((e : Error) × (expand_rule fs rule vars ≡ err e) × Refuses fs vars rule e)
expand_rule_lem fs rule vars source destination g = ended (expand_rule fs rule vars) refl
  where
    ended :
        (r : Result Error (List Text))
        → expand_rule fs rule vars ≡ r
        → ((args : List Text) × (expand_rule fs rule vars ≡ ok args)
            × (lists args (mount_value source destination (options_of rule)) ≡ true))
          ⊎ ((e : Error) × (expand_rule fs rule vars ≡ err e) × Refuses fs vars rule e)
    ended (ok args) h = inl (args, h, expand_rule_complete fs rule vars args source destination h g)
    ended (err e) h = inr (e, h, expand_rule-Refuses fs rule vars source destination g h)
