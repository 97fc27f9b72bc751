-- ===== src/Runner/Mounts/Duplicates.antt =====
-- nix/app/runner.rs: `drop_duplicate_mounts` against a definition that keeps no set.
use nix_os_container_podman.Common.{
  ◌≡◌, inl, inr, refl, ap, sym, ◌∙◌, Bool, true, false, not, ◌&&◌, List, [], ◌∷◌, ◌++◌, Option,
  none, some, Text, codes, bytes_eq, bytes_eq→eq, filter, if◌then◌else◌, arith, Bool-cases,
}
use nix_os_container_podman.Runner.Mounts.{
  mount_destination, seen_in, is_fresh, seen_with, drop_seen, drop_duplicate_mounts,
}

-- One argument, or `--mount` with the value behind it.
pub data Arg : Type 0 where
  word mounted : Text → Arg

unfoldable pub read_args : List Text → List Arg
unfolding bytes_eq
read_args [] = []
read_args (a ∷ []) = word a ∷ []
read_args (a ∷ b ∷ argv) = elim (bytes_eq a (codes "--mount")) [
  | true ↦ mounted b ∷ read_args argv
  | false ↦ word a ∷ read_args (b ∷ argv)
]

abbrev print_arg : Arg → List Text
print_arg (word a) = a ∷ []
print_arg (mounted value) = codes "--mount" ∷ value ∷ []

unfoldable pub print_args : List Arg → List Text
print_args [] = []
print_args (a ∷ args) = print_arg a ++ print_args args

abbrev destination : Arg → Option Text
destination (word a) = none
destination (mounted value) = mount_destination value

abbrev same_text : Option Text → Option Text → Bool
same_text none o = false
same_text (some d) none = false
same_text (some d) (some e) = bytes_eq e d

-- Two mounts of one destination.
abbrev clashes : Arg → Arg → Bool
clashes a b = same_text (destination a) (destination b)

-- The arguments without the mounts that clash with an earlier one.
unfoldable pub firsts : List Arg → List Arg
unfolding mount_destination bytes_eq
firsts [] = []
firsts (a ∷ args) = a ∷ filter (λ b. not (clashes a b)) (firsts args)

filter-filter :
    {A : Type 0} (p q r : A → Bool)
    → ((x : A) → p x && q x ≡ r x)
    → (xs : List A) → filter p (filter q xs) ≡ filter r xs
filter-filter p q r f [] = refl
filter-filter p q r f (x ∷ xs) = ground (arith, f x, filter-filter p q r f xs)

filter_all : {A : Type 0} (p : A → Bool) → ((x : A) → p x ≡ true) → (xs : List A) → filter p xs ≡ xs
filter_all p f [] = refl
filter_all p f (x ∷ xs) = ground (arith, f x, filter_all p f xs)

abbrev fresh_arg : List Text → Arg → Bool
fresh_arg seen a = is_fresh seen (destination a)

seen_again :
    (seen : List Text) (d e : Text)
    → seen_in seen d ≡ true
    → bytes_eq e d ≡ true
    → seen_in seen e ≡ true
seen_again seen d e h q = rw (bytes_eq→eq e d q) h

-- A mount that is not fresh clashes with nothing that is.
fresh_clash :
    (seen : List Text) (d o : Option Text)
    → is_fresh seen d ≡ false
    → is_fresh seen o && not (same_text d o) ≡ is_fresh seen o
fresh_clash seen none o h = cc
fresh_clash seen (some d) none h = refl
fresh_clash seen (some d) (some e) h = elim (Bool-cases (bytes_eq e d)) [
  | inl q ↦ let again = seen_again seen d e (ground (arith, h)) q in ground (arith, again, q)
  | inr q ↦ ground (arith, q)
]

fresh_with :
    (seen : List Text) (d o : Option Text)
    → is_fresh seen o && not (same_text d o) ≡ is_fresh (seen_with seen d) o
fresh_with seen none none = refl
fresh_with seen none (some e) = ground arith
fresh_with seen (some d) none = refl
fresh_with seen (some d) (some e) = ground arith

-- A mount: kept if it is fresh, and its destination seen from here on.
mounted_step :
    (seen : List Text) (value : Text) (args : List Arg) (rest : List Text)
    → rest
      ≡ print_args (filter (fresh_arg (seen_with seen (mount_destination value))) (firsts args))
    → (if is_fresh seen (mount_destination value) then codes "--mount" ∷ value ∷ rest else rest)
      ≡ print_args (filter (fresh_arg seen) (firsts (mounted value ∷ args)))
unfolding print_args firsts
mounted_step seen value args rest h = elim (Bool-cases (is_fresh seen (mount_destination value))) [
  | inl e ↦
      let f =
        filter-filter (fresh_arg seen) (λ b. not (clashes (mounted value) b))
          (fresh_arg (seen_with seen (mount_destination value)))
          (λ b. fresh_with seen (mount_destination value) (destination b)) (firsts args) in
      simp (e, f, h) refl
  | inr e ↦
      let f =
        filter-filter (fresh_arg seen) (λ b. not (clashes (mounted value) b)) (fresh_arg seen)
          (λ b. fresh_clash seen (mount_destination value) (destination b) e) (firsts args) in
      let g =
        filter-filter (fresh_arg seen) (λ b. not (clashes (mounted value) b))
          (fresh_arg (seen_with seen (mount_destination value)))
          (λ b. fresh_with seen (mount_destination value) (destination b)) (firsts args) in
      simp (e, h) (ap print_args (sym g))
]

word_step :
    (seen : List Text) (a : Text) (args : List Arg) (rest : List Text)
    → rest ≡ print_args (filter (fresh_arg seen) (firsts args))
    → a ∷ rest ≡ print_args (filter (fresh_arg seen) (firsts (word a ∷ args)))
unfolding print_args firsts
word_step seen a args rest h = simp (h, filter_all (λ b. true) (λ b. refl) (firsts args)) refl

drop_seen_lem :
    (seen argv : List Text)
    → drop_seen seen argv ≡ print_args (filter (fresh_arg seen) (firsts (read_args argv)))
unfolding drop_seen read_args print_args firsts
drop_seen_lem seen [] = refl
drop_seen_lem seen (a ∷ []) = refl
drop_seen_lem seen (a ∷ b ∷ argv) = elim (Bool-cases (bytes_eq a (codes "--mount"))) [
  | inl e ↦
      let step =
        mounted_step seen b (read_args argv) _
          (drop_seen_lem (seen_with seen (mount_destination b)) argv) in
      rw (drop_seen, read_args, e) (rw (bytes_eq→eq a (codes "--mount") e) step)
  | inr e ↦
      rw (drop_seen, read_args, e)
        (word_step seen a (read_args (b ∷ argv)) _ (drop_seen_lem seen (b ∷ argv)))
]

print_args-read_args : (argv : List Text) → print_args (read_args argv) ≡ argv
unfolding read_args print_args
print_args-read_args [] = refl
print_args-read_args (a ∷ []) = refl
print_args-read_args (a ∷ b ∷ argv) = elim (Bool-cases (bytes_eq a (codes "--mount"))) [
  | inl e ↦
      rw (read_args, e, print_args-read_args argv)
        (ap (λ t. t ∷ b ∷ argv) (sym (bytes_eq→eq a (codes "--mount") e)))
  | inr e ↦ rw (read_args, e) (ap (λ t. a ∷ t) (print_args-read_args (b ∷ argv)))
]

-- Read as words and `--mount` options, an argument list loses exactly the mounts whose destination an
-- earlier mount has; all else stays as it is and in its order.
pub drop_duplicate_mounts_lem :
    (argv : List Text)
    → (print_args (read_args argv) ≡ argv)
      × (drop_duplicate_mounts argv ≡ print_args (firsts (read_args argv)))
unfolding drop_duplicate_mounts
drop_duplicate_mounts_lem argv = (
  print_args-read_args argv,
  drop_seen_lem [] argv ∙ ap print_args (filter_all (fresh_arg []) fresh (firsts (read_args argv))),
)
  where
    fresh : (a : Arg) → fresh_arg [] a ≡ true
    fresh a = elim (destination a) as (λ o. is_fresh [] o ≡ true) [ none ↦ refl | some d ↦ refl ]
