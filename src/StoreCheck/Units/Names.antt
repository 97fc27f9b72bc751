-- ===== src/StoreCheck/Units/Names.antt =====
-- Unit names, and the names of their recheck timers.
use nix_os_container_podman.Common.{
  ℕ, ◌≡◌, refl, ap, sym, ◌∙◌, true, [], ◌∷◌, ◌++◌, map, reverse, some, ok, err, Text, codes, All,
  strip_prefix, strip_prefix-append, ◌==◌, is_ascii_alphanumeric, arith, Bool-cases, inl, inr, ◌||◌,
  append_assoc,
}
use mathlib.Core.List.{reverse-append, reverse-reverse, map-append}
use nix_os_container_podman.StoreCheck.Units.{
  invalid_unit_name, is_unit_name, check_unit_name, recheck_unit, timer_stem, timer_char,
  strip_suffix, reversed,
}

examples :
    (recheck_unit (codes "authoritative-dns-prepare.service")
      ≡ ok (codes "prison-store-recheck-authoritative-dns-prepare"))
    × (recheck_unit (codes "a@b.service") ≡ ok (codes "prison-store-recheck-a-b"))
    × (check_unit_name (codes "../x") ≡ err (invalid_unit_name (codes "../x")))
unfolding recheck_unit check_unit_name strip_prefix is_unit_name timer_stem
examples = (refl, refl, refl)

strip_suffix-append : (x s : Text) → strip_suffix x (s ++ x) ≡ some s
strip_suffix-append x s =
    ap reversed (
      ap (strip_prefix (reverse x)) (reverse-append s x)
      ∙ strip_prefix-append (reverse x) (reverse s))
    ∙ ap some (reverse-reverse s)

abbrev service : Text
service = codes ".service"

timer_stem-service : (s : Text) → timer_stem (s ++ service) ≡ map timer_char s
unfolding timer_stem
timer_stem-service s = rw (strip_suffix-append service s)

abbrev pub IsTimerChar : ℕ → Type 0
IsTimerChar c = is_ascii_alphanumeric c || c == b'-' || c == b'_' ≡ true

timer_char-IsTimerChar : (c : ℕ) → IsTimerChar (timer_char c)
timer_char-IsTimerChar c = ground arith

All-map-timer_char : (s : Text) → All IsTimerChar (map timer_char s)
All-map-timer_char [] = tt
All-map-timer_char (c ∷ s) = (timer_char-IsTimerChar c, All-map-timer_char s)

-- A recheck unit is named only for a valid unit name, and its name is `prison-store-recheck-` with
-- ASCII letters, digits, `-` and `_` behind it.
pub recheck_unit_safe :
    (unit name : Text)
    → recheck_unit unit ≡ ok name
    → (is_unit_name unit ≡ true)
      × ((stem : Text) × (name ≡ codes "prison-store-recheck-" ++ stem) × All IsTimerChar stem)
unfolding recheck_unit
recheck_unit_safe unit name h = elim (Bool-cases (is_unit_name unit)) [
  | inl valid ↦ (valid, (timer_stem unit, cc (rw (valid, recheck_unit) at h), stem))
  | inr broken ↦ cc (rw (broken, recheck_unit) at h)
]
  where
    stem : All IsTimerChar (timer_stem unit)
    stem = unfold timer_stem in All-map-timer_char _

-- The timers of two different units, which differ in a `.` against a `-`, have one name.
pub recheck_unit_collides :
    (before after : Text)
    → is_unit_name (before ++ (b'.' ∷ (after ++ service))) ≡ true
    → is_unit_name (before ++ (b'-' ∷ (after ++ service))) ≡ true
    → recheck_unit (before ++ (b'.' ∷ (after ++ service)))
      ≡ recheck_unit (before ++ (b'-' ∷ (after ++ service)))
unfolding recheck_unit
recheck_unit_collides before after hd hm =
    rw (hd, hm) (ap (λ s. ok (codes "prison-store-recheck-" ++ s)) stems)
  where
    whole :
        (c : ℕ)
        → timer_stem (before ++ (c ∷ (after ++ service))) ≡ map timer_char (before ++ (c ∷ after))
    whole c =
        ap timer_stem (sym (append_assoc before (c ∷ after) service))
        ∙ timer_stem-service (before ++ (c ∷ after))

    stems :
        timer_stem (before ++ (b'.' ∷ (after ++ service)))
        ≡ timer_stem (before ++ (b'-' ∷ (after ++ service)))
    stems =
        whole b'.'
        ∙ map-append timer_char before (b'.' ∷ after)
        ∙ sym (map-append timer_char before (b'-' ∷ after))
        ∙ sym (whole b'-')
