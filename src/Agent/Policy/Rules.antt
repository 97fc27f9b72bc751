-- ===== src/Agent/Policy/Rules.antt =====
-- What `glob` accepts.
use nix_os_container_podman.Common.{
  ℕ, ◌≤◌, ◌≡◌, ◌≢◌, refl, sym, ap, ◌∙◌, subst, Bool, true, false, List, [], ◌∷◌, ◌++◌, Option, none,
  some, Text, split, strip_prefix, strip_prefix_sound, strip_prefix-append, find_after, arith,
  append_assoc, append-nil, Option-cases, inl, inr, All, ◌⊎◌, length, length-append,
}
use nix_os_container_podman.Agent.Policy.{glob_end, glob_parts, glob_pieces, glob, ends_with_star}
use nix_os_container_podman.Agent.Policy.Glob.{
  Matches, nil, char, skip, take, Matches-literal, Matches-star, starred, joined, joined-split,
  split-cons, IsLiteral, split-IsLiteral, last_piece, EndsRight, last_piece-split, EndsRight-of,
}

find_after_sound : (p s r : Text) → find_after p s ≡ some r → (u : Text) × (s ≡ u ++ (p ++ r))
unfolding find_after
find_after_sound p [] r h = ([], strip_prefix_sound p [] r h)
find_after_sound p (x ∷ s) r h = elim (Option-cases (strip_prefix p (x ∷ s))) [
  | inl e ↦
      let (u, q) = find_after_sound p s r (rw (e, find_after) at h) in (x ∷ u, ap (λ t. x ∷ t) q)
  | inr (r', e) ↦ ([], strip_prefix_sound p (x ∷ s) r (ground arith))
]

-- Where the piece before was empty, a star is still open.
abbrev open_star : Option Text → Text → Text
open_star (some []) p = b'*' ∷ p
open_star _ p = p

Matches-open_star :
    (last : Option Text) (p t : Text) → Matches (b'*' ∷ p) t → Matches (open_star last (b'*' ∷ p)) t
Matches-open_star none p t m = m
Matches-open_star (some []) p t m = skip refl m
Matches-open_star (some (c ∷ cs)) p t m = m

glob_end_sound :
    (ends : Bool) (rest : Text) (last : Option Text)
    → EndsRight ends last
    → glob_end ends rest last ≡ true
    → Matches (open_star last []) rest
unfolding glob_end
glob_end_sound ends [] none e h = nil
glob_end_sound ends (x ∷ rest) none e h = cc
glob_end_sound ends rest (some []) e h =
    subst (Matches (b'*' ∷ [])) (append-nil rest) (Matches-star rest nil)
glob_end_sound ends [] (some (c ∷ cs)) e h = nil
glob_end_sound ends (x ∷ rest) (some (c ∷ cs)) e h = cc

glob_parts_sound :
    (ends : Bool) (parts : List Text) (rest : Text) (last : Option Text)
    → EndsRight ends (last_piece parts last)
    → glob_parts ends parts rest last ≡ true
    → Matches (open_star last (starred parts)) rest
unfolding glob_parts
glob_parts_sound ends [] rest last e h = glob_end_sound ends rest last e h
glob_parts_sound ends ([] ∷ parts) rest last e h =
    Matches-open_star last _ rest (glob_parts_sound ends parts rest (some []) e h)
glob_parts_sound ends ((c ∷ part) ∷ parts) rest last e h =
    elim (Option-cases (find_after (c ∷ part) rest)) [
      | inl lost ↦ cc (rw (lost, glob_parts) at h)
      | inr (behind, found) ↦
          let (u, around) = find_after_sound (c ∷ part) rest behind found in
          let tail : Matches (starred parts) behind =
            glob_parts_sound ends parts behind (some (c ∷ part)) e (rw (found, glob_parts) at h) in
          Matches-open_star last _ rest
            (rw around (Matches-star u (Matches-literal (c ∷ part) tail)))
    ]

glob_pieces_sound :
    (ends : Bool) (ps : List Text) (text : Text)
    → ps ≢ []
    → EndsRight ends (last_piece ps none)
    → glob_pieces ends ps text ≡ true
    → Matches (joined ps) text
unfolding glob_pieces
glob_pieces_sound ends [] text n e h = absurd (n refl)
glob_pieces_sound ends (first ∷ parts) text n e h = elim (Option-cases (strip_prefix first text)) [
  | inl lost ↦ cc (rw (lost, glob_pieces) at h)
  | inr (rest, found) ↦ rw (strip_prefix_sound first text rest found) (
      Matches-literal first
        (glob_parts_sound ends parts rest none (tail_ends parts e) (rw (found, glob_pieces) at h)))
]
  where
    tail_ends :
        (parts : List Text)
        → EndsRight ends (last_piece (first ∷ parts) none)
        → EndsRight ends (last_piece parts none)
    tail_ends [] e = tt
    tail_ends (p ∷ ps) e = e

-- Whatever `glob` accepts, the pattern stands for.
pub glob_sound : (pattern text : Text) → glob pattern text ≡ true → Matches pattern text
unfolding glob
glob_sound pattern text h =
    let (q, qs, e) = split-cons pattern in
    subst (λ p. Matches p text) (joined-split pattern)
      (glob_pieces_sound (ends_with_star pattern) (split b'*' pattern) text (λ empty. cc (e, empty))
        (EndsRight-of _ _ (last_piece-split pattern)) h)

-- Completeness. A star takes any run, so what it matches it matches behind more text.
Matches-behind : (u : Text) {p t : Text} → Matches (b'*' ∷ p) t → Matches (b'*' ∷ p) (u ++ t)
Matches-behind [] m = m
Matches-behind (d ∷ u) m = take refl d (Matches-behind u m)

Matches-star_inv :
    {p t : Text} → Matches (b'*' ∷ p) t → (u : Text) × (v : Text) × (t ≡ u ++ v) × Matches p v
Matches-star_inv (char c {t = t} m) = (c ∷ [], t, refl, m)
Matches-star_inv {t} (skip e m) = ([], t, refl, m)
Matches-star_inv (take e d m) =
    let (u, v, around, m') = Matches-star_inv m in (d ∷ u, v, ap (λ t. d ∷ t) around, m')

Matches-literal_inv :
    (l : Text) {p t : Text}
    → IsLiteral l
    → Matches (l ++ p) t
    → (w : Text) × (t ≡ l ++ w) × Matches p w
Matches-literal_inv [] {t} h m = (t, refl, m)
Matches-literal_inv (c ∷ l) h (char c' m) =
    let (w, around, m') = Matches-literal_inv l (ground arith) m in (w, ap (λ t. c ∷ t) around, m')
Matches-literal_inv (c ∷ l) h (skip e m) = absurd (ground (arith, e))
Matches-literal_inv (c ∷ l) h (take e d m) = absurd (ground (arith, e))

suffix_of_append :
    (p r a w : Text) → p ++ r ≡ a ++ w → length p ≤ length a → (u : Text) × (r ≡ u ++ w)
suffix_of_append [] r a w e h = (a, e)
suffix_of_append (x ∷ p) r [] w e h = absurd (omega arith)
suffix_of_append (x ∷ p) r (y ∷ a) w e h = suffix_of_append p r a w (cc e) (omega arith)

find_after_of_prefix : (p s r : Text) → strip_prefix p s ≡ some r → find_after p s ≡ some r
unfolding find_after
find_after_of_prefix p [] r h = h
find_after_of_prefix p (x ∷ s) r h = rw (h, find_after)

find_after_of_later :
    (p : Text) (x : ℕ) (s : Text)
    → strip_prefix p (x ∷ s) ≡ none
    → find_after p (x ∷ s) ≡ find_after p s
unfolding find_after
find_after_of_later p x s h = rw (h, find_after)

-- A piece that occurs is found, and no less than what follows that occurrence is left.
find_after_complete :
    (p u w : Text)
    → (r : Text) × (v : Text) × (find_after p (u ++ (p ++ w)) ≡ some r) × (r ≡ v ++ w)
find_after_complete p [] w =
    (w, [], find_after_of_prefix p (p ++ w) w (strip_prefix-append p w), refl)
find_after_complete p (x ∷ u) w = elim (Option-cases (strip_prefix p (x ∷ (u ++ (p ++ w))))) [
  | inl none_here ↦
      let (r, v, found, e) = find_after_complete p u w in
      (r, v, find_after_of_later p x _ none_here ∙ found, e)
  | inr (r, here) ↦
      let (v, e) =
        suffix_of_append p r ((x ∷ u) ++ p) w
          (sym (strip_prefix_sound p _ r here) ∙ ap (λ t. x ∷ t) (sym (append_assoc u p w)))
          (omega (arith, length-append (x ∷ u) p)) in
      (r, v, find_after_of_prefix p _ r here, e)
]

glob_parts_complete :
    (ends : Bool) (parts : List Text) (rest : Text) (last : Option Text)
    → All IsLiteral parts
    → last_piece parts last ≡ some []
    → ((parts ≡ []) ⊎ Matches (starred parts) rest)
    → glob_parts ends parts rest last ≡ true
unfolding glob_parts glob_end
glob_parts_complete ends [] rest last l e m = rw e
glob_parts_complete ends ([] ∷ parts) rest last l e (inl n) = cc
glob_parts_complete ends ([] ∷ parts) rest last l e (inr m) =
    glob_parts_complete ends parts rest (some []) l.1 e (behind parts (Matches-star_inv m))
  where
    behind :
        (ps : List Text)
        → ((u : Text) × (v : Text) × (rest ≡ u ++ v) × Matches (starred ps) v)
        → (ps ≡ []) ⊎ Matches (starred ps) rest
    behind [] f = inl refl
    behind (p ∷ ps) (u, v, around, m') = inr (rw around (Matches-behind u m'))
glob_parts_complete ends ((c ∷ part) ∷ parts) rest last l e (inl n) = cc
glob_parts_complete ends ((c ∷ part) ∷ parts) rest last l e (inr m) =
    let (u, v, around, m') = Matches-star_inv m in
    let (w, split_v, m'') = Matches-literal_inv (c ∷ part) l.0 m' in
    let (r, u', found, tail) = find_after_complete (c ∷ part) u w in
    rw (around, split_v, found, glob_parts)
      (glob_parts_complete ends parts r (some (c ∷ part)) l.1 e (behind parts r u' w e tail m''))
  where
    behind :
        (ps : List Text) (r u' w : Text)
        → last_piece ps (some (c ∷ part)) ≡ some []
        → r ≡ u' ++ w
        → Matches (starred ps) w
        → (ps ≡ []) ⊎ Matches (starred ps) r
    behind [] r u' w e tail m' = inl refl
    behind (p ∷ ps) r u' w e tail m' = inr (rw tail (Matches-behind u' m'))

glob_pieces_complete :
    (ends : Bool) (q r : Text) (rs : List Text) (text : Text)
    → All IsLiteral (q ∷ r ∷ rs)
    → last_piece (r ∷ rs) none ≡ some []
    → Matches (joined (q ∷ r ∷ rs)) text
    → glob_pieces ends (q ∷ r ∷ rs) text ≡ true
unfolding glob_pieces
glob_pieces_complete ends q r rs text l e m =
    let (w, around, m') = Matches-literal_inv q l.0 m in
    rw (around, strip_prefix-append q w, glob_pieces)
      (glob_parts_complete ends (r ∷ rs) w none l.1 e (inr m'))

-- On a pattern that ends in `*`, `glob` accepts every text that the pattern stands for.
pub glob_complete :
    (pattern text : Text)
    → ends_with_star pattern ≡ true
    → Matches pattern text
    → glob pattern text ≡ true
unfolding glob
glob_complete pattern text h m = let (q, qs, e) = split-cons pattern in whole q qs e
  where
    whole :
        (q : Text) (qs : List Text)
        → split b'*' pattern ≡ q ∷ qs
        → glob_pieces (ends_with_star pattern) (split b'*' pattern) text ≡ true
    whole [] [] e = cc (h, sym (joined-split pattern) ∙ ap joined e)
    whole (c ∷ q) [] e = cc (sym (ap (λ ps. last_piece ps none) e) ∙ last_piece-split pattern h)
    whole q (r ∷ rs) e = rw e (
        glob_pieces_complete (ends_with_star pattern) q r rs text
          (subst (All IsLiteral) e (split-IsLiteral pattern))
          (sym (ap (λ ps. last_piece ps none) e) ∙ last_piece-split pattern h)
          (subst (λ p. Matches p text) (sym (joined-split pattern) ∙ ap joined e) m))

split_literal : (p : Text) → IsLiteral p → split b'*' p ≡ p ∷ []
unfolding split
split_literal [] h = refl
split_literal (x ∷ p) h = ground (arith, split_literal p)

ends_with_star-literal : (c : ℕ) (p : Text) → IsLiteral p → p ≢ [] → ends_with_star (c ∷ p) ≡ false
ends_with_star-literal c [] h n = absurd (n refl)
ends_with_star-literal c (x ∷ []) h n = ground arith
ends_with_star-literal c (x ∷ y ∷ p) h n =
    ends_with_star-literal x (y ∷ p) (ground arith) (λ e. cc e)

split_star : (p : Text) → split b'*' (b'*' ∷ p) ≡ [] ∷ split b'*' p
unfolding split
split_star p = refl

glob_parts_misses :
    (ends : Bool) (c : ℕ) (piece : Text)
    → ends ≡ false
    → glob_parts ends ((c ∷ piece) ∷ []) ((c ∷ piece) ++ (c ∷ piece)) none ≡ false
unfolding glob_parts
glob_parts_misses ends c piece e =
    rw
      (
        find_after_of_prefix (c ∷ piece) _ _ (strip_prefix-append (c ∷ piece) (c ∷ piece)),
        glob_parts,
      )
      (rw e)

glob_misses :
    (c : ℕ) (piece : Text)
    → IsLiteral (c ∷ piece)
    → glob (b'*' ∷ c ∷ piece) ((c ∷ piece) ++ (c ∷ piece)) ≡ false
unfolding glob glob_pieces strip_prefix
glob_misses c piece l =
    rw (split_star (c ∷ piece) ∙ ap (λ ps. [] ∷ ps) (split_literal (c ∷ piece) l)) (
      glob_parts_misses (ends_with_star (b'*' ∷ c ∷ piece)) c piece
        (ends_with_star-literal b'*' (c ∷ piece) l (λ e. cc e)))

-- The pattern `*` followed by a non-empty piece without `*` stands for the piece written twice, and
-- `glob` refuses it: it commits to the first occurrence and finds text left over.
pub glob_incomplete :
    (piece : Text)
    → IsLiteral piece
    → piece ≢ []
    → Matches (b'*' ∷ piece) (piece ++ piece) × (glob (b'*' ∷ piece) (piece ++ piece) ≡ false)
glob_incomplete [] l n = absurd (n refl)
glob_incomplete (c ∷ piece) l n = (
  subst (λ p. Matches (b'*' ∷ p) ((c ∷ piece) ++ p)) (append-nil (c ∷ piece))
      (Matches-star (c ∷ piece) (Matches-literal (c ∷ piece) nil)),
  glob_misses c piece l,
)
