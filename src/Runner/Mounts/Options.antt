-- ===== src/Runner/Mounts/Options.antt =====
-- nix/app/runner.rs: what podman reads in a `--mount` value, which is split at each `,`.
use nix_os_container_podman.Common.{
  ◌≡◌, refl, ap, ◌∙◌, true, false, List, [], ◌∷◌, ◌++◌, append-nil, some, Text, codes, contains,
  split, starts_with, strip_prefix, is_empty, if◌then◌else◌, arith, Result, ok, err,
}
use nix_os_container_podman.Runner.Texts.{split-none, split-append, contains-append}
use nix_os_container_podman.Runner.Template.{Error}
use nix_os_container_podman.Runner.Mounts.{
  mount_safe, mount_value, bind, mount_destination, destination_in, tail, ◌>>◌,
}

-- What podman takes for the options that stand behind a value's first three.
abbrev pub parts_of : Text → List Text
parts_of options = if is_empty options then [] else split b',' options

pub IsSafe : Text → Type 0
IsSafe path =
    (contains b',' path ≡ false)
    × (contains 0 path ≡ false)
    × (contains b'\n' path ≡ false)
    × (starts_with (codes "/") path ≡ true)

mount_safe-IsSafe : (path : Text) {u : Unit {0}} → mount_safe path ≡ ok u → IsSafe path
unfolding mount_safe IsSafe
mount_safe-IsSafe path h = ground (arith, h)

key_value :
    (key path : Text)
    → contains b',' key ≡ false
    → contains b',' path ≡ false
    → contains b',' (key ++ path) ≡ false
key_value key path k p = ground (arith, k, p, contains-append b',' key path)

split_tail :
    (l options : Text)
    → contains b',' l ≡ false
    → split b',' (l ++ (if is_empty options then [] else (b',' ∷ options))) ≡ l ∷ parts_of options
split_tail l [] h = ap (split b',') (append-nil l) ∙ split-none b',' l h
split_tail l (x ∷ options) h = split-append b',' l (x ∷ options) h

-- The parts of a value whose two paths have no comma: the options' commas are the only others.
split-mount_value :
    (source destination options : Text)
    → contains b',' source ≡ false
    → contains b',' destination ≡ false
    → split b',' (mount_value source destination options)
      ≡ codes "type=bind"
        ∷ (codes "source=" ++ source)
        ∷ (codes "destination=" ++ destination)
        ∷ parts_of options
unfolding mount_value
split-mount_value source destination options s d =
    split-append b',' (codes "type=bind")
      (codes "source=" ++ (source ++ (codes ",destination=" ++ end))) refl
    ∙ ap (λ r. codes "type=bind" ∷ r)
        (split-append b',' (codes "source=" ++ source) (codes "destination=" ++ end)
            (key_value (codes "source=") source refl s)
          ∙ ap (λ r. (codes "source=" ++ source) ∷ r)
              (split_tail (codes "destination=" ++ destination) options
                (key_value (codes "destination=") destination refl d)))
  where
    end : Text
    end = destination ++ tail options

-- The `--mount` options of an argument list that has no others: `Allowed` of source and destination, and
-- no part of a value but the three that `bind` writes and the plan's own options.
pub data Binds (Allowed : Text → Text → Type 0) (options : Text) : List Text → Type 0 where
  done : Binds Allowed options []
  one_more :
      (source destination value : Text) (args : List Text)
      → Allowed source destination
      → IsSafe source
      → IsSafe destination
      → split b',' value
        ≡ codes "type=bind"
          ∷ (codes "source=" ++ source)
          ∷ (codes "destination=" ++ destination)
          ∷ parts_of options
      → Binds Allowed options args
      → Binds Allowed options (codes "--mount" ∷ value ∷ args)

pub bind-Binds :
    (Allowed : Text → Text → Type 0) (source destination options : Text) {args rest : List Text}
    → bind source destination options ≡ ok args
    → Allowed source destination
    → Binds Allowed options rest
    → Binds Allowed options (args ++ rest)
unfolding bind IsSafe
bind-Binds Allowed source destination options {args} {rest} h a binds =
    opened (mount_safe source) refl (mount_safe destination) refl h
  where
    opened :
        (r : Result Error (Unit {0}))
        → mount_safe source ≡ r
        → (q : Result Error (Unit {0})) → mount_safe destination ≡ q
        → (r >> (q >> ok (codes "--mount" ∷ mount_value source destination options ∷ []))) ≡ ok args
        → Binds Allowed options (args ++ rest)
    opened (err e) r q d h = cc
    opened (ok u) r (err e) d h = cc
    opened (ok u) r (ok w) d h =
        let safe_source = mount_safe-IsSafe source r in
        let safe_destination = mount_safe-IsSafe destination d in
        let e : args ≡ codes "--mount" ∷ mount_value source destination options ∷ [] = cc in
        rw e (
          one_more source destination (mount_value source destination options) rest a safe_source
            safe_destination
            (split-mount_value source destination options safe_source.0 safe_destination.0) binds)

pub mount_destination-mount_value :
    (source destination options : Text)
    → contains b',' source ≡ false
    → contains b',' destination ≡ false
    → mount_destination (mount_value source destination options) ≡ some destination
unfolding mount_destination destination_in strip_prefix
mount_destination-mount_value source destination options s d =
    rw (split-mount_value source destination options s d) refl
