-- ===== src/StoreCheck/Decimal/RoundTrip.antt =====
-- A number that is written is read back, also from a line.
use mathlib.Core.List.{reverse-append, reverse-cons, reverse-reverse}
use native.Mathlib.Nat.{pow-suc}
use nix_os_container_podman.Common.{
  ℕ, zero, suc, ◌+◌, ◌-◌, ◌*◌, ◌/◌, ◌%◌, ◌^◌, ◌<◌, ◌≡◌, ◌≢◌, refl, ap, ◌∙◌, true, [], ◌∷◌, ◌++◌,
  reverse, some, Text, All, All-append, ltb, lt→ltb, is_ascii_digit, arith, Bool-cases, inl, inr,
}
use nix_os_container_podman.StoreCheck.Units.{trim, trim_start}
use nix_os_container_podman.StoreCheck.Decimal.{parse_digits, parse_u32, decimal, to_string}

parse_digits-digit :
    (acc d : ℕ) (tail : Text)
    → d < 10
    → acc * 10 + d < 2 ^ 32
    → parse_digits acc ((b'0' + d) ∷ tail) ≡ parse_digits (acc * 10 + d) tail
unfolding parse_digits
parse_digits-digit acc d tail h small =
    let e : b'0' + d - b'0' ≡ d = omega arith in ground (arith, e)

parse_digits-decimal :
    (fuel n : ℕ) (tail : Text)
    → n < 10 ^ suc fuel
    → n < 2 ^ 32
    → parse_digits 0 (decimal (suc fuel) n tail) ≡ parse_digits n tail
unfolding decimal
parse_digits-decimal zero n tail h small = rw (lt→ltb n 10 h) (
    parse_digits-digit 0 n tail h (omega arith) ∙ ap (λ (k : ℕ). parse_digits k tail) (omega arith))
parse_digits-decimal (suc fuel) n tail h small = elim (Bool-cases (ltb n 10)) [
  | inl one ↦ rw one (
      parse_digits-digit 0 n tail (ground arith) (omega arith)
      ∙ ap (λ (k : ℕ). parse_digits k tail) (omega arith))
  | inr more ↦ rw more (
      parse_digits-decimal fuel (n / 10) _ (omega (arith, pow-suc 10 (suc fuel))) (omega arith)
      ∙ parse_digits-digit (n / 10) (n % 10) tail (omega arith) (omega arith)
      ∙ ap (λ (k : ℕ). parse_digits k tail) (omega arith))
]

abbrev pub IsDigit : ℕ → Type 0
IsDigit c = is_ascii_digit c ≡ true

IsDigit-add : (d : ℕ) → d < 10 → IsDigit (b'0' + d)
IsDigit-add d h = ground arith

decimal-IsDigit : (fuel n : ℕ) (tail : Text) → All IsDigit tail → All IsDigit (decimal fuel n tail)
unfolding decimal
decimal-IsDigit zero n tail h = h
decimal-IsDigit (suc fuel) n tail h = elim (Bool-cases (ltb n 10)) [
  | inl one ↦ rw one (IsDigit-add n (ground arith), h)
  | inr more ↦ rw more (decimal-IsDigit fuel (n / 10) _ (IsDigit-add (n % 10) (omega arith), h))
]

All-reverse : (xs : Text) → All IsDigit xs → All IsDigit (reverse xs)
All-reverse [] h = tt
All-reverse (x ∷ xs) h =
    rw (reverse-cons x xs) (All-append IsDigit (reverse xs) (x ∷ []) (All-reverse xs h.1) (h.0, tt))

trim_start-digits : (xs : Text) → All IsDigit xs → trim_start xs ≡ xs
unfolding trim_start
trim_start-digits [] h = refl
trim_start-digits (x ∷ xs) h = ground arith

-- A line of digits, without its end.
trim-line : (xs : Text) → All IsDigit xs → trim (xs ++ b'\n' ∷ []) ≡ xs
unfolding trim
trim-line [] h = refl
trim-line (x ∷ xs) h =
    ap (λ s. reverse (trim_start (reverse s))) (front x h.0)
    ∙ ap (λ s. reverse (trim_start s)) (reverse-append (x ∷ xs) (b'\n' ∷ []))
    ∙ ap reverse (trim_start-digits (reverse (x ∷ xs)) (All-reverse (x ∷ xs) h))
    ∙ reverse-reverse (x ∷ xs)
  where
    front : (x : ℕ) → IsDigit x → trim_start (x ∷ (xs ++ b'\n' ∷ [])) ≡ x ∷ (xs ++ b'\n' ∷ [])
    front x h = ground arith

decimal_nonempty : (fuel n x : ℕ) (tail : Text) → decimal fuel n (x ∷ tail) ≢ []
unfolding decimal
decimal_nonempty zero n x tail e = cc
decimal_nonempty (suc fuel) n x tail e = elim (Bool-cases (ltb n 10)) [
  | inl one ↦ cc (rw (one, decimal) at e)
  | inr more ↦ decimal_nonempty fuel (n / 10) (b'0' + n % 10) (x ∷ tail) (rw (more, decimal) at e)
]

pub to_string-IsDigit : (n : ℕ) → All IsDigit (to_string n)
unfolding to_string
to_string-IsDigit n = decimal-IsDigit 10 n [] tt

to_string_nonempty : (n : ℕ) → to_string n ≢ []
unfolding to_string
to_string_nonempty n e = elim (Bool-cases (ltb n 10)) [
  | inl one ↦ cc (rw (one, decimal) at e)
  | inr more ↦ decimal_nonempty 9 (n / 10) (b'0' + n % 10) [] (rw (more, decimal) at e)
]

parse_u32-digits : (xs : Text) → All IsDigit xs → xs ≢ [] → parse_u32 xs ≡ parse_digits 0 xs
unfolding parse_u32
parse_u32-digits [] h n = absurd (n refl)
parse_u32-digits (x ∷ xs) h n = ground arith

-- A `u32` that is written in decimal on a line of its own is read back.
pub parse_u32-to_string :
    (n : ℕ) → n < 2 ^ 32 → parse_u32 (trim (to_string n ++ b'\n' ∷ [])) ≡ some n
parse_u32-to_string n h =
    ap parse_u32 (trim-line (to_string n) (to_string-IsDigit n))
    ∙ parse_u32-digits (to_string n) (to_string-IsDigit n) (to_string_nonempty n)
    ∙ (unfold to_string parse_digits in parse_digits-decimal 9 n [] (omega arith) h)
