-- ===== src/Runner/Mounts/Found.antt =====
-- nix/app/runner.rs: which paths a rule finds.
use nix_os_container_podman.Common.{
  suc, ◌≡◌, ◌⊎◌, inl, inr, refl, Bool, true, false, ◌&&◌, List, [], ◌∷◌, Text, bytes_eq, any,
  bytes_eq_refl, All, length, arith, if◌then◌else◌, Bool-cases,
}
use nix_os_container_podman.Runner.Wild.{Stands, IsHidden, glob_match, glob_match_lem}
use nix_os_container_podman.Runner.Mounts.{
  FileSystem, exists, bindable, is_wild, or_root, path_in, entries, before, insert_sorted, sort,
  matching, found,
}

-- An entry of the directory that the wildcard stands for and that can be bound.
abbrev pub IsMatch : FileSystem → Text → Text → Text → Type 0
IsMatch fs dir name path =
    (file : Text) × (path ≡ path_in dir file)
    × (any (bytes_eq file) (entries (fs.read_dir dir)) ≡ true)
    × Stands name file
    × (IsHidden file → IsHidden name)
    × (bindable fs path ≡ true)

-- What the rule's pattern, already filled in, lets be bound.
abbrev pub IsAllowed : FileSystem → Text → Text → Text → Text → Type 0
IsAllowed fs pattern dir name path =
    ((is_wild name ≡ true) × IsMatch fs (or_root dir) name path)
    ⊎ ((is_wild name ≡ false) × (path ≡ pattern) × (exists fs pattern ≡ true))

module _ (P : Text → Type 0) where
  All-insert_sorted : (s : Text) (ts : List Text) → P s → All P ts → All P (insert_sorted s ts)
  unfolding insert_sorted
  All-insert_sorted s [] p h = (p, tt)
  All-insert_sorted s (t ∷ ts) p h =
      elim (before s t) as (λ b. All P (if b then s ∷ t ∷ ts else (t ∷ insert_sorted s ts))) [
        | true ↦ (p, h)
        | false ↦ (h.0, All-insert_sorted s ts p h.1)
      ]

  pub All-sort : (ts : List Text) → All P ts → All P (sort ts)
  unfolding sort
  All-sort [] h = tt
  All-sort (t ∷ ts) h = All-insert_sorted t (sort ts) h.0 (All-sort ts h.1)

module _ (fs : FileSystem) (dir name : Text) where
  All-matching :
      (P : Text → Type 0) (files : List Text)
      → ((file : Text)
          → any (bytes_eq file) files ≡ true
          → glob_match name file ≡ true
          → bindable fs (path_in dir file) ≡ true
          → P (path_in dir file))
      → All P (matching fs dir name files)
  unfolding matching
  All-matching P [] f = tt
  All-matching P (file ∷ files) f =
      tested (glob_match name file) refl (bindable fs (path_in dir file)) refl
        (All-matching P files λ other listed. f other (ground (arith, listed)))
    where
      tested :
          (g : Bool)
          → glob_match name file ≡ g
          → (b : Bool) → bindable fs (path_in dir file) ≡ b
          → All P (matching fs dir name files)
          → All P (
              if g && b
              then path_in dir file ∷ matching fs dir name files
              else matching fs dir name files)
      tested true g true b rest = (f file (ground (arith, bytes_eq_refl file)) g b, rest)
      tested true g false b rest = rest
      tested false g b c rest = rest

pub found-IsAllowed :
    (fs : FileSystem) (pattern dir name : Text)
    → All (IsAllowed fs pattern dir name) (found fs pattern dir name)
unfolding found
found-IsAllowed fs pattern dir name = elim (Bool-cases (is_wild name)) [
  | inl w ↦ simp w (
      All-matching fs (or_root dir) name (IsAllowed fs pattern dir name)
        (entries (fs.read_dir (or_root dir)))
        λ file listed g b.
          let (stands, hidden) = (glob_match_lem name file).0 g in
          inl (w, (file, refl, listed, stands, hidden, b)))
  | inr w ↦ simp w (plain (exists fs pattern) refl w)
]
  where
    plain :
        (b : Bool)
        → exists fs pattern ≡ b
        → is_wild name ≡ false
        → All (IsAllowed fs pattern dir name) (if b then pattern ∷ [] else [])
    plain true e w = (inr (w, refl, e), tt)
    plain false e w = tt

length-insert_sorted : (s : Text) (ts : List Text) → length (insert_sorted s ts) ≡ suc (length ts)
unfolding insert_sorted
length-insert_sorted s [] = refl
length-insert_sorted s (t ∷ ts) = ground (arith, length-insert_sorted s ts)

pub length-sort : (ts : List Text) → length (sort ts) ≡ length ts
unfolding sort
length-sort [] = refl
length-sort (t ∷ ts) = omega (arith, length-insert_sorted t (sort ts), length-sort ts)
