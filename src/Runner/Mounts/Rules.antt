-- ===== src/Runner/Mounts/Rules.antt =====
-- nix/app/runner.rs: which paths a provider's rule binds.
use nix_os_container_podman.Common.{
  ◌+◌, ◌*◌, ◌≤◌, ◌≡◌, refl, Bool, true, false, List, [], ◌∷◌, ◌++◌, Option, none, some, Text, All,
  All-map_of, subst, append-nil, length, length-append, arith, ltb, if◌then◌else◌, Result, ok, err,
  codes,
}
use nix_os_container_podman.Runner.Texts.{rsplit_once}
use nix_os_container_podman.Runner.Template.{Error, too_many_binds, Vars, expand}
use nix_os_container_podman.Runner.Mounts.{
  FileSystem, Rule, mount, mount_as, exists, sort, found, bind, mount_safe, mount_value, ◌>>◌,
  bind_all, mount_found, expand_rule, bind_source, ◌>>=◌, max_binds,
}
use nix_os_container_podman.Runner.Mounts.Options.{Binds, done, bind-Binds}
use nix_os_container_podman.Runner.Mounts.Found.{IsAllowed, All-sort, found-IsAllowed}

bind-length :
    (source destination options : Text) {args : List Text}
    → bind source destination options ≡ ok args
    → length args ≡ 2
unfolding bind
bind-length source destination options {args} h =
    counted (mount_safe source) (mount_safe destination) h
  where
    counted :
        (r q : Result Error (Unit {0}))
        → (r >> (q >> ok (codes "--mount" ∷ mount_value source destination options ∷ []))) ≡ ok args
        → length args ≡ 2
    counted (err e) q h = cc
    counted (ok u) (err e) h = cc
    counted (ok u) (ok w) h =
        let e : args ≡ codes "--mount" ∷ mount_value source destination options ∷ [] = cc in
        rw e refl

bind_all-Binds :
    (Allowed : Text → Text → Type 0) (options : Text) (paths : List Text) {args : List Text}
    → All (λ path. Allowed path path) paths
    → bind_all options paths ≡ ok args
    → Binds Allowed options args × (length args ≡ 2 * length paths)
unfolding bind_all
bind_all-Binds Allowed options [] {args} a h = let e : args ≡ [] = cc in rw e (done, refl)
bind_all-Binds Allowed options (path ∷ paths) {args} a h =
    bound (bind path path options) refl (bind_all options paths) h
      (λ rest e. bind_all-Binds Allowed options paths a.1 e)
  where
    bound :
        (r : Result Error (List Text))
        → bind path path options ≡ r
        → (q : Result Error (List Text)) → (r >>= λ xs. q >>= λ ys. ok (xs ++ ys)) ≡ ok args
        → ((rest : List Text)
            → q ≡ ok rest
            → Binds Allowed options rest × (length rest ≡ 2 * length paths))
        → Binds Allowed options args × (length args ≡ 2 * length (path ∷ paths))
    bound (err e) r q h f = cc
    bound (ok xs) r (err e) h f = cc
    bound (ok xs) r (ok ys) h f =
        let e : args ≡ xs ++ ys = cc in
        let (binds, n) = f ys refl in
        let m : length (xs ++ ys) ≡ length xs + length ys = length-append xs ys in
        let two : length xs ≡ 2 = bind-length path path options r in
        rw e (bind-Binds Allowed path path options r a.0 binds, omega (arith, m, two, n))

abbrev pub options_of : Rule → Text
options_of (mount template options) = options
options_of (mount_as source destination options) = options

-- What a rule says of a source and a destination, for the values of a launch.
unfoldable pub IsGranted : FileSystem → Vars → Rule → Text → Text → Type 0
IsGranted fs vars (mount template options) source destination =
    (pattern : Text) × (dir : Text) × (name : Text) × (expand template vars ≡ ok pattern)
    × (rsplit_once b'/' pattern ≡ some (dir, name))
    × IsAllowed fs pattern dir name source
    × (destination ≡ source)
IsGranted fs vars (mount_as source_template destination_template options) source destination =
    (expand source_template vars ≡ ok source)
    × (expand destination_template vars ≡ ok destination)
    × (exists fs source ≡ true)

module _ (fs : FileSystem) (vars : Vars) (template options : Text) where
  -- Behind the pattern's expansion.
  mount_found-Binds :
      (pattern : Text) {args : List Text} (o : Option (Text × Text))
      → expand template vars ≡ ok pattern
      → rsplit_once b'/' pattern ≡ o
      → mount_found fs pattern options o ≡ ok args
      → Binds (IsGranted fs vars (mount template options)) options args
        × (length args ≤ 2 * max_binds)
  unfolding IsGranted
  mount_found-Binds pattern none e o h = cc
  mount_found-Binds pattern {args} (some (dir, name)) e o h =
      limited (ltb max_binds (length (sort (found fs pattern dir name)))) refl h
    where
      granted :
          (path : Text)
          → IsAllowed fs pattern dir name path
          → IsGranted fs vars (mount template options) path path
      granted path a = (pattern, dir, name, e, o, a, refl)

      limited :
          (b : Bool)
          → ltb max_binds (length (sort (found fs pattern dir name))) ≡ b
          → (if b
              then err (too_many_binds pattern)
              else bind_all options (sort (found fs pattern dir name)))
            ≡ ok args
          → Binds (IsGranted fs vars (mount template options)) options args
            × (length args ≤ 2 * max_binds)
      limited true b h = cc
      limited false b h =
          let paths = sort (found fs pattern dir name) in
          let allowed =
            All-map_of (IsAllowed fs pattern dir name)
              (λ path. IsGranted fs vars (mount template options) path path) granted paths
              (All-sort (IsAllowed fs pattern dir name) (found fs pattern dir name)
                (found-IsAllowed fs pattern dir name)) in
          let (binds, n) =
            bind_all-Binds (IsGranted fs vars (mount template options)) options paths allowed h in
          (binds, ground (arith, n, b))

module _ (fs : FileSystem) (vars : Vars) (source_template destination_template options : Text) where
  -- Behind the source's expansion.
  source-Binds :
      (source : Text) {args : List Text}
      → expand source_template vars ≡ ok source
      → (if exists fs source then bind_source source destination_template vars options else ok [])
        ≡ ok args
      → Binds
          (IsGranted fs vars (mount_as source_template destination_template options))
          options
          args
        × (length args ≤ 2 * max_binds)
  unfolding IsGranted
  source-Binds source {args} e h =
      there (exists fs source) refl (expand destination_template vars) refl h
    where
      there :
          (b : Bool)
          → exists fs source ≡ b
          → (r : Result Error Text) → expand destination_template vars ≡ r
          → (if b then (r >>= λ destination. bind source destination options) else ok []) ≡ ok args
          → Binds
              (IsGranted fs vars (mount_as source_template destination_template options))
              options
              args
            × (length args ≤ 2 * max_binds)
      there false b r d h = let n : args ≡ [] = cc in rw n (done, omega arith)
      there true b (err f) d h = cc
      there true b (ok destination) d h =
          let two : length args ≡ 2 = bind-length source destination options h in
          let binds =
            bind-Binds (IsGranted fs vars (mount_as source_template destination_template options))
              source destination options {rest = []} h (e, d, b) done in
          (subst (Binds _ options) (append-nil args) binds, omega (arith, two))

-- The mounts that a rule becomes go from a source to a destination that the rule grants for the launch's
-- values: an entry of the directory that the wildcard stands for, hidden only if the pattern says so, and
-- a directory, regular file or character device; or the one path that is named, if it is there. Split at
-- each `,`, the values have the type, the source, the destination and the rule's options and no part more;
-- and there are at most 512.
pub expand_rule-Binds :
    (fs : FileSystem) (rule : Rule) (vars : Vars) (args : List Text)
    → expand_rule fs rule vars ≡ ok args
    → Binds (IsGranted fs vars rule) (options_of rule) args × (length args ≤ 2 * max_binds)
unfolding expand_rule
expand_rule-Binds fs (mount template options) vars args h = filled (expand template vars) refl h
  where
    filled :
        (r : Result Error Text)
        → expand template vars ≡ r
        → (r >>= λ pattern. mount_found fs pattern options (rsplit_once b'/' pattern)) ≡ ok args
        → Binds (IsGranted fs vars (mount template options)) options args
          × (length args ≤ 2 * max_binds)
    filled (err e) r h = cc
    filled (ok pattern) r h =
        mount_found-Binds fs vars template options pattern (rsplit_once b'/' pattern) r refl h
expand_rule-Binds fs (mount_as source_template destination_template options) vars args h =
    filled (expand source_template vars) refl h
  where
    filled :
        (r : Result Error Text)
        → expand source_template vars ≡ r
        → (r >>= λ source.
            if exists fs source
            then bind_source source destination_template vars options
            else ok [])
          ≡ ok args
        → Binds
            (IsGranted fs vars (mount_as source_template destination_template options))
            options
            args
          × (length args ≤ 2 * max_binds)
    filled (err e) r h = cc
    filled (ok source) r h =
        source-Binds fs vars source_template destination_template options source r h
