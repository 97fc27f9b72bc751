-- ===== src/Runner/Template.antt =====
-- nix/app/runner.rs: `expand`, which fills a template's `{name}` in, and `Vars`.
use nix_os_container_podman.Common.{
  ℕ, zero, suc, ◌<◌, ◌≡◌, refl, ap, sym, ◌∙◌, false, List, [], ◌∷◌, ◌++◌, append_assoc, Option,
  none, some, Text, bytes_eq, contains, subst, if◌then◌else◌, length, length-append, arith, Result,
  ok, err,
}
use nix_os_container_podman.Runner.Texts.{
  split_once, Splits, never, once, split_once-Splits, split_once-none, split_once-append,
}

pub data Error : Type 0 where
  -- of a template
  unterminated : Text → Error
  unknown_variable : Text → Text → Error
  -- of a rule or a plan's item
  unsafe_path too_many_binds unknown_value unknown_provider : Text → Error
  not_absolute : Error
  -- the fuel of a loop, which is never used up
  out_of_fuel : Error

-- `Vars`: an insertion stands before what it replaces.
abbrev pub Vars : Type 0
Vars = List (Text × Text)

unfoldable pub get : Vars → Text → Option Text
get [] name = none
get ((k, v) ∷ vars) name = let rest = get vars name in if bytes_eq k name then some v else rest

-- The loop of `expand` behind its three searches; `again` is the next round.
abbrev fill :
    (Text → Text → Result Error Text) → Text → Text → Text → Text → Option Text → Result Error Text
fill again template out rest name none = err (unknown_variable name template)
fill again template out rest name (some value) = again (out ++ value) rest

abbrev close_brace :
    (Text → Text → Result Error Text)
    → Vars
    → Text
    → Text
    → Option (Text × Text)
    → Result Error Text
close_brace again vars template out none = err (unterminated template)
close_brace again vars template out (some (name, rest)) =
    fill again template out rest name (get vars name)

abbrev open_brace :
    (Text → Text → Result Error Text)
    → Vars
    → Text
    → Text
    → Text
    → Option (Text × Text)
    → Result Error Text
open_brace again vars template out rest none = ok (out ++ rest)
open_brace again vars template out rest (some (before, after)) =
    close_brace again vars template (out ++ before) (split_once b'}' after)

unfoldable pub expand_loop : ℕ → Vars → Text → Text → Text → Result Error Text
unfolding split_once get
expand_loop zero vars template out rest = err out_of_fuel
expand_loop (suc fuel) vars template out rest =
    open_brace (expand_loop fuel vars template) vars template out rest (split_once b'{' rest)

-- Each round takes at least two characters off `rest`, so its length is enough fuel.
unfoldable pub expand : Text → Vars → Result Error Text
unfolding expand_loop
expand template vars = expand_loop (suc (length template)) vars template [] template

-- How a text reads as a template.
pub data Reads : Text → Type 0 where
  plain : (t : Text) → contains b'{' t ≡ false → Reads t
  unclosed :
      (before after : Text)
      → contains b'{' before ≡ false
      → contains b'}' after ≡ false
      → Reads (before ++ (b'{' ∷ after))
  hole :
      (before name rest : Text)
      → contains b'{' before ≡ false
      → contains b'}' name ≡ false
      → Reads rest
      → Reads (before ++ (b'{' ∷ (name ++ (b'}' ∷ rest))))

abbrev pub onto : Text → Result Error Text → Result Error Text
onto before (ok t) = ok (before ++ t)
onto before (err e) = err e

abbrev pub filled : Text → Text → Option Text → Result Error Text → Result Error Text
filled template name none rest = err (unknown_variable name template)
filled template name (some value) rest = onto value rest

-- What a template means, by the way it reads.
unfoldable pub meaning : Text → Vars → {t : Text} → Reads t → Result Error Text
meaning template vars (plain t _) = ok t
meaning template vars (unclosed _ _ _ _) = err (unterminated template)
meaning template vars (hole before name rest _ _ r) =
    onto before (filled template name (get vars name) (meaning template vars r))

onto-onto : (a b : Text) (r : Result Error Text) → onto a (onto b r) ≡ onto (a ++ b) r
onto-onto a b (ok t) = ap ok (sym (append_assoc a b t))
onto-onto a b (err e) = refl

shorter :
    (before name rest : Text) → length rest < length (before ++ (b'{' ∷ (name ++ (b'}' ∷ rest))))
shorter before name rest =
    let e = length-append before (b'{' ∷ (name ++ (b'}' ∷ rest))) in
    omega (arith, e, length-append name (b'}' ∷ rest))

expand_loop_lem :
    (fuel : ℕ) (vars : Vars) (template out : Text) {rest : Text} (r : Reads rest)
    → length rest < fuel
    → expand_loop fuel vars template out rest ≡ onto out (meaning template vars r)
unfolding expand_loop meaning
expand_loop_lem zero vars template out r h = absurd (omega arith)
expand_loop_lem (suc fuel) vars template out (plain t c) h = rw (split_once-none b'{' t c) refl
expand_loop_lem (suc fuel) vars template out (unclosed before after b c) h =
    rw (split_once-append b'{' before after b, split_once-none b'}' after c) refl
expand_loop_lem (suc fuel) vars template out (hole before name rest b c r) h =
    rw (split_once-append b'{' before (name ++ (b'}' ∷ rest)) b, split_once-append b'}' name rest c)
      (looked_up (get vars name) λ out'.
        expand_loop_lem fuel vars template out' r (omega (arith, h, shorter before name rest)))
  where
    looked_up :
        (o : Option Text)
        → ((out' : Text)
            → expand_loop fuel vars template out' rest ≡ onto out' (meaning template vars r))
        → fill (expand_loop fuel vars template) template (out ++ before) rest name o
          ≡ onto out (onto before (filled template name o (meaning template vars r)))
    looked_up none again = refl
    looked_up (some value) again =
        again ((out ++ before) ++ value)
        ∙ sym (onto-onto (out ++ before) value (meaning template vars r))
        ∙ sym (onto-onto out before (onto value (meaning template vars r)))

Reads-split :
    (t : Text) {o : Option (Text × Text)}
    → Splits b'{' t o
    → ((rest : Text) → length rest < length t → Reads rest)
    → Reads t
Reads-split t (never h) shorter_reads = plain t h
Reads-split t (once before after e c) shorter_reads =
    subst Reads (sym e) (closed after refl (split_once-Splits b'}' after))
  where
    closed :
        (a : Text)
        → a ≡ after
        → {o : Option (Text × Text)} → Splits b'}' a o
        → Reads (before ++ (b'{' ∷ a))
    closed a d (never h) = unclosed before a c h
    closed a d (once name rest f h) =
        subst (λ a. Reads (before ++ (b'{' ∷ a))) (sym f)
          (hole before name rest c h
            (shorter_reads rest (rw (e, sym d, f) (shorter before name rest))))

Reads-within : (n : ℕ) (t : Text) → length t < n → Reads t
Reads-within zero t h = absurd (omega arith)
Reads-within (suc n) t h =
    Reads-split t (split_once-Splits b'{' t) λ rest d. Reads-within n rest (omega (arith, h, d))

onto_nil : (r : Result Error Text) → onto [] r ≡ r
onto_nil (ok t) = refl
onto_nil (err e) = refl

-- `expand` ends on every template, with what the template's own reading means: each `{name}` becomes the
-- variable's value, all else stays, and the first name that is not known or brace that is not closed is
-- the error.
pub expand_lem :
    (template : Text) (vars : Vars)
    → (r : Reads template) × (expand template vars ≡ meaning template vars r)
unfolding expand
expand_lem template vars =
    let r = Reads-within (suc (length template)) template (omega arith) in
    (
      r,
      expand_loop_lem (suc (length template)) vars template [] r (omega arith)
          ∙ onto_nil (meaning template vars r),
    )
