-- ===== src/Agent/Policy/Glob.antt =====
-- Shared by the proofs about `glob`: the language that its documentation describes, where `*` matches
-- any run, and the pieces of a pattern.
-- the language that its documentation describes: `*` matches any run.
use nix_os_container_podman.Common.{
  ℕ, ◌≡◌, refl, sym, ap, ◌∙◌, subst, Bool, true, false, List, [], ◌∷◌, ◌++◌, Option, none, some,
  Text, contains, split, onto_head, arith, Bool-cases, inl, inr, ◌==◌, All,
}
use nix_os_container_podman.Agent.Policy.{ends_with_star}

-- The texts that a pattern stands for.
pub data Matches : Text → Text → Type 0 where
  nil : Matches [] []
  char : (c : ℕ) {p t : Text} → Matches p t → Matches (c ∷ p) (c ∷ t)
  skip : {c : ℕ} {p t : Text} → c ≡ b'*' → Matches p t → Matches (c ∷ p) t
  take : {c : ℕ} {p t : Text} → c ≡ b'*' → (d : ℕ) → Matches (c ∷ p) t → Matches (c ∷ p) (d ∷ t)

pub Matches-literal : (l : Text) {p t : Text} → Matches p t → Matches (l ++ p) (l ++ t)
Matches-literal [] m = m
Matches-literal (c ∷ l) m = char c (Matches-literal l m)

pub Matches-star : {p t : Text} (u : Text) → Matches p t → Matches (b'*' ∷ p) (u ++ t)
Matches-star [] m = skip refl m
Matches-star (d ∷ u) m = take refl d (Matches-star u m)

-- A pattern from its pieces: `*` stands before each.
abbrev pub starred : List Text → Text
starred [] = []
starred (p ∷ ps) = b'*' ∷ (p ++ starred ps)

abbrev pub joined : List Text → Text
joined [] = []
joined (p ∷ ps) = p ++ starred ps

joined-onto_head : (x : ℕ) (ps : List Text) → joined (onto_head x ps) ≡ x ∷ joined ps
joined-onto_head x [] = refl
joined-onto_head x (p ∷ ps) = refl

pub split-cons : (p : Text) → (q : Text) × (qs : List Text) × (split b'*' p ≡ q ∷ qs)
unfolding split
split-cons [] = ([], [], refl)
split-cons (x ∷ p) = elim (Bool-cases (x == b'*')) [
  | inl star ↦ ([], split b'*' p, rw star)
  | inr other ↦ let (q, qs, e) = split-cons p in (x ∷ q, qs, rw (other, e))
]

pub joined-split : (p : Text) → joined (split b'*' p) ≡ p
unfolding split
joined-split [] = refl
joined-split (x ∷ p) = elim (Bool-cases (x == b'*')) [
  | inl star ↦
      let (q, qs, e) = split-cons p in ground (arith, e, ap joined e, ap starred e, joined-split p)
  | inr other ↦ rw other (joined-onto_head x (split b'*' p) ∙ ap (λ r. x ∷ r) (joined-split p))
]

-- No piece holds a `*`.
abbrev pub IsLiteral : Text → Type 0
IsLiteral p = contains b'*' p ≡ false

pub split-IsLiteral : (p : Text) → All IsLiteral (split b'*' p)
unfolding split
split-IsLiteral [] = (refl, tt)
split-IsLiteral (x ∷ p) =
    let (q, qs, e) = split-cons p in
    let ih : All IsLiteral (q ∷ qs) = subst (All IsLiteral) e (split-IsLiteral p) in
    elim (Bool-cases (x == b'*')) [
      | inl star ↦ rw star (refl, split-IsLiteral p)
      | inr other ↦ rw (other, e) (rw other ih.0, ih.1)
    ]

-- The loop's `last` at its end.
abbrev pub last_piece : List Text → Option Text → Option Text
last_piece [] last = last
last_piece (p ∷ ps) last = last_piece ps (some p)

abbrev pub EndsRight : Bool → Option Text → Type 0
EndsRight ends (some (c ∷ cs)) = ends ≡ false
EndsRight ends _ = Unit

-- A pattern that ends in `*` has an empty last piece.
pub last_piece-split :
    (p : Text) → ends_with_star p ≡ true → last_piece (split b'*' p) none ≡ some []
unfolding split
last_piece-split [] h = cc
last_piece-split (c ∷ []) h = ground arith
last_piece-split (c ∷ d ∷ cs) h =
    let (q, qs, e) = split-cons (d ∷ cs) in
    let ih : last_piece (q ∷ qs) none ≡ some [] =
      subst (λ ps. last_piece ps none ≡ some []) e (last_piece-split (d ∷ cs) h) in
    let whole : joined (q ∷ qs) ≡ d ∷ cs = sym (ap joined e) ∙ joined-split (d ∷ cs) in
    elim (Bool-cases (c == b'*')) [
      | inl star ↦ rw (star, e) ih
      | inr other ↦ rw (other, e) (grown q qs whole ih)
    ]
  where
    grown :
        (q : Text) (qs : List Text)
        → joined (q ∷ qs) ≡ d ∷ cs
        → last_piece qs (some q) ≡ some []
        → last_piece qs (some (c ∷ q)) ≡ some []
    grown [] [] whole ih = cc
    grown (x ∷ q) [] whole ih = cc
    grown q (r ∷ rs) whole ih = ih

pub EndsRight-of :
    (ends : Bool) (last : Option Text) → (ends ≡ true → last ≡ some []) → EndsRight ends last
EndsRight-of ends none h = tt
EndsRight-of ends (some []) h = tt
EndsRight-of true (some (c ∷ cs)) h = cc (h refl)
EndsRight-of false (some (c ∷ cs)) h = refl
