-- ===== src/Common/Strings.antt =====
-- Byte strings and texts as lists of numbers: a text is the list of its code points. Rust's
-- `str::starts_with`, `find` and `split` on UTF-8 agree with these on the code points.
use Prim.Native.Char.{code}
use Prim.Native.String.{String}
use Prim.Native.Nat.{ℕ}
use mathlib.Core.Path.{◌≡◌, refl, ap, sym, ◌∙◌}
use mathlib.Core.Logic.{◌↔◌}
use mathlib.Core.Bool.{Bool, true, false, ◌&&◌}
use mathlib.Core.List.{List, [], ◌∷◌, ◌++◌, reverse}
use mathlib.Core.Option.{Option, none, some}
use native.Mathlib.Omega.{arith}
use nix_os_container_podman.Common.Numbers.{if◌then◌else◌, ◌==◌}
use nix_os_container_podman.Common.Lists.{any}

abbrev pub Bytes : Type 0
Bytes = List ℕ

abbrev pub Text : Type 0
Text = List ℕ

-- The code points of a literal.
abbrev pub codes : String → Text
codes String.[] = []
codes (String.◌∷◌ c s) = code c ∷ codes s

unfoldable pub bytes_eq : Bytes → Bytes → Bool
bytes_eq [] [] = true
bytes_eq [] (y ∷ ys) = false
bytes_eq (x ∷ xs) [] = false
bytes_eq (x ∷ xs) (y ∷ ys) = x == y && bytes_eq xs ys

pub bytes_eq_refl : (xs : Bytes) → bytes_eq xs xs ≡ true
unfolding bytes_eq
bytes_eq_refl [] = refl
bytes_eq_refl (x ∷ xs) = ground (arith, bytes_eq_refl xs)

pub bytes_eq→eq : (xs ys : Bytes) → bytes_eq xs ys ≡ true → xs ≡ ys
unfolding bytes_eq
bytes_eq→eq [] [] h = refl
bytes_eq→eq [] (y ∷ ys) h = cc
bytes_eq→eq (x ∷ xs) [] h = cc
bytes_eq→eq (x ∷ xs) (y ∷ ys) h = ground (arith, bytes_eq→eq xs ys)

pub bytes_eq_iff : (xs ys : Bytes) → (bytes_eq xs ys ≡ true) ↔ (xs ≡ ys)
bytes_eq_iff xs ys = (bytes_eq→eq xs ys, λ e. ap (bytes_eq xs) (sym e) ∙ bytes_eq_refl xs)

-- `s.strip_prefix(p)`; `starts_with` is its success.
unfoldable pub strip_prefix : Bytes → Bytes → Option Bytes
strip_prefix [] s = some s
strip_prefix (x ∷ p) [] = none
strip_prefix (x ∷ p) (y ∷ s) = let rest = strip_prefix p s in if x == y then rest else none

pub strip_prefix_sound : (p s r : Bytes) → strip_prefix p s ≡ some r → s ≡ p ++ r
unfolding strip_prefix
strip_prefix_sound [] s r h = ground arith
strip_prefix_sound (x ∷ p) [] r h = cc
strip_prefix_sound (x ∷ p) (y ∷ s) r h = ground (arith, strip_prefix_sound p s r)

pub strip_prefix-append : (p r : Bytes) → strip_prefix p (p ++ r) ≡ some r
unfolding strip_prefix
strip_prefix-append [] r = refl
strip_prefix-append (x ∷ p) r = ground (arith, strip_prefix-append p r)

abbrev pub starts_with : Bytes → Bytes → Bool
starts_with p s = elim (strip_prefix p s) [ none ↦ false | some r ↦ true ]

abbrev pub contains : ℕ → Bytes → Bool
contains c = any (λ x. x == c)

-- The pieces between the occurrences of `c`: `str::split`, `slice::split`.
abbrev pub onto_head : ℕ → List Bytes → List Bytes
onto_head x [] = (x ∷ []) ∷ []
onto_head x (p ∷ ps) = (x ∷ p) ∷ ps

unfoldable pub split : ℕ → Bytes → List Bytes
split c [] = [] ∷ []
split c (x ∷ xs) = let rest = split c xs in if x == c then [] ∷ rest else onto_head x rest

-- What stands behind the first occurrence of `p`.
unfoldable pub find_after : Bytes → Bytes → Option Bytes
find_after p [] = strip_prefix p []
find_after p (x ∷ s) = elim (strip_prefix p (x ∷ s)) [ some r ↦ some r | none ↦ find_after p s ]

-- `Path::join` with a relative path.
abbrev join_onto : Bytes → Bytes → Bytes → Bytes
join_onto base rel [] = rel
join_onto base rel (c ∷ rest) = if c == b'/' then base ++ rel else base ++ (b'/' ∷ rel)

abbrev pub join : Bytes → Bytes → Bytes
join base rel = join_onto base rel (reverse base)
