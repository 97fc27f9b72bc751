-- ===== src/Runner/Texts.antt =====
-- The functions of `str` that nix/app/runner.rs uses, on lists of code points.
use nix_os_container_podman.Common.{
  ℕ, ◌≡◌, refl, ap, false, ◌||◌, List, [], ◌∷◌, ◌++◌, Option, none, some, reverse, Text, contains,
  split, is_empty, ◌==◌, ==_iff, if◌then◌else◌, arith, Bool-cases, inl, inr,
}

-- `s.split_once(c)`
abbrev before_first : ℕ → Option (Text × Text) → Option (Text × Text)
before_first x none = none
before_first x (some (l, r)) = some (x ∷ l, r)

unfoldable pub split_once : ℕ → Text → Option (Text × Text)
split_once c [] = none
split_once c (x ∷ s) =
    let rest = before_first x (split_once c s) in if x == c then some ([], s) else rest

abbrev swap_reversed : Option (Text × Text) → Option (Text × Text)
swap_reversed none = none
swap_reversed (some (l, r)) = some (reverse r, reverse l)

-- `s.rsplit_once(c)`
unfoldable pub rsplit_once : ℕ → Text → Option (Text × Text)
unfolding split_once
rsplit_once c s = swap_reversed (split_once c (reverse s))

unfoldable pub drop_leading : ℕ → Text → Text
drop_leading c [] = []
drop_leading c (x ∷ s) = let rest = drop_leading c s in if x == c then rest else x ∷ s

-- `s.trim_end_matches(c)`
unfoldable pub trim_end_matches : ℕ → Text → Text
unfolding drop_leading
trim_end_matches c s = reverse (drop_leading c (reverse s))

-- `s.strip_suffix(c)`
abbrev pub strip_first : ℕ → Text → Option Text
strip_first c [] = none
strip_first c (x ∷ s) = if x == c then some (reverse s) else none

unfoldable pub strip_suffix : ℕ → Text → Option Text
strip_suffix c s = strip_first c (reverse s)

abbrev pub or_text : Text → Option Text → Text
or_text s none = s
or_text s (some t) = t

-- `s.lines()`: a line that no newline ends keeps its carriage return, and an empty one is left out.
unfoldable pub lines_of : List Text → List Text
unfolding strip_suffix
lines_of [] = []
lines_of (last ∷ []) = if is_empty last then [] else last ∷ []
lines_of (line ∷ next ∷ rest) = or_text line (strip_suffix b'\r' line) ∷ lines_of (next ∷ rest)

unfoldable pub lines : Text → List Text
unfolding lines_of split
lines s = lines_of (split b'\n' s)

-- What `split_once` gives, on every text.
pub data Splits (c : ℕ) (s : Text) : Option (Text × Text) → Type 0 where
  never : contains c s ≡ false → Splits c s none
  once : (l r : Text) → s ≡ l ++ (c ∷ r) → contains c l ≡ false → Splits c s (some (l, r))

Splits-before_first :
    (c x : ℕ) (s : Text) {o : Option (Text × Text)}
    → (x == c) ≡ false
    → Splits c s o
    → Splits c (x ∷ s) (before_first x o)
Splits-before_first c x s d (never h) = never (ground (arith, d, h))
Splits-before_first c x s d (once l r e h) =
    once (x ∷ l) r (ap (λ t. x ∷ t) e) (ground (arith, d, h))

pub split_once-Splits : (c : ℕ) (s : Text) → Splits c s (split_once c s)
unfolding split_once
split_once-Splits c [] = never refl
split_once-Splits c (x ∷ s) = elim (Bool-cases (x == c)) [
  | inl h ↦ simp h (once [] s (ap (λ y. y ∷ s) ((==_iff x c).0 h)) refl)
  | inr h ↦ simp h (Splits-before_first c x s h (split_once-Splits c s))
]

pub split_once-none : (c : ℕ) (s : Text) → contains c s ≡ false → split_once c s ≡ none
unfolding split_once
split_once-none c [] h = refl
split_once-none c (x ∷ s) h = ground (arith, h, split_once-none c s)

pub split_once-append :
    (c : ℕ) (l r : Text) → contains c l ≡ false → split_once c (l ++ (c ∷ r)) ≡ some (l, r)
unfolding split_once
split_once-append c [] r h = ground arith
split_once-append c (x ∷ l) r h =
    let rest : split_once c (l ++ (c ∷ r)) ≡ some (l, r) =
      split_once-append c l r (ground (arith, h)) in
    simp rest (ground (arith, h))

pub split-none : (c : ℕ) (s : Text) → contains c s ≡ false → split c s ≡ s ∷ []
unfolding split
split-none c [] h = refl
split-none c (x ∷ s) h =
    let rest : split c s ≡ s ∷ [] = split-none c s (ground (arith, h)) in
    simp rest (ground (arith, h))

pub split-append :
    (c : ℕ) (l r : Text) → contains c l ≡ false → split c (l ++ (c ∷ r)) ≡ l ∷ split c r
unfolding split
split-append c [] r h = ground arith
split-append c (x ∷ l) r h =
    let rest : split c (l ++ (c ∷ r)) ≡ l ∷ split c r = split-append c l r (ground (arith, h)) in
    simp rest (ground (arith, h))

pub contains-append : (c : ℕ) (l r : Text) → contains c (l ++ r) ≡ contains c l || contains c r
contains-append c [] r = refl
contains-append c (x ∷ l) r = ground (arith, contains-append c l r)
