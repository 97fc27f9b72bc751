-- ===== src/StoreFs/Main/Capability.antt =====
-- nix-store-shared-fuse/src/main.rs: the capability set as the kernel prints it.
use native.Mathlib.Nat.{pow-suc}
use nix_os_container_podman.Common.{
  ℕ, zero, suc, ◌+◌, ◌-◌, ◌*◌, ◌/◌, ◌%◌, ◌^◌, ◌≤◌, ◌<◌, ◌≡◌, refl, ap, ◌∙◌, ◌≢◌, true, false, ◌&&◌,
  ◌||◌, reverse, reverse-cons, reverse-reverse, All-append, List, [], ◌∷◌, ◌++◌, none, some, Text,
  strip_prefix, strip_prefix-append, All, ltb, lt→ltb, leb, ◌==◌, if◌then◌else◌, is_ascii_digit,
  arith,
}
use nix_os_container_podman.Runner.Texts.{lines}
use nix_os_container_podman.StoreCheck.Units.{trim, trim_start}
use nix_os_container_podman.StoreFs.Main.{
  hex_digit, shift_in, parse_hex, from_str_radix_16, has_bit, cap_eff, cap_in, has_cap_sys_admin,
}

-- A digit and a number in `k` of them, as `%0kx` prints.
abbrev pub digit_of : ℕ → ℕ
digit_of d = if ltb d 10 then b'0' + d else b'a' + (d - 10)

unfoldable pub hex_of : ℕ → ℕ → Text → Text
hex_of zero n tail = tail
hex_of (suc k) n tail = hex_of k (n / 16) (digit_of (n % 16) ∷ tail)

hex_digit-digit_of : (d : ℕ) → d < 16 → hex_digit (digit_of d) ≡ some d
hex_digit-digit_of d h = ground arith

parse_hex-hex_of :
    (k n : ℕ) (tail : Text)
    → n < 16 ^ k
    → n < 2 ^ 64
    → parse_hex 0 (hex_of k n tail) ≡ parse_hex n tail
unfolding hex_of parse_hex
parse_hex-hex_of zero n tail h small = ap (λ m. parse_hex m tail) (omega arith)
parse_hex-hex_of (suc k) n tail h small =
    let whole : n / 16 * 16 + n % 16 ≡ n = omega arith in
    parse_hex-hex_of k (n / 16) _ (omega (arith, pow-suc 16 k)) (omega arith)
    ∙ simp (hex_digit-digit_of (n % 16) (omega arith), whole, lt→ltb n (2 ^ 64) small)

abbrev IsHex : ℕ → Type 0
IsHex c = is_ascii_digit c || (leb b'a' c && leb c b'f') ≡ true

IsHex-digit_of : (d : ℕ) → d < 16 → IsHex (digit_of d)
IsHex-digit_of d h = ground arith

hex_of-IsHex : (k n : ℕ) (tail : Text) → All IsHex tail → All IsHex (hex_of k n tail)
unfolding hex_of
hex_of-IsHex zero n tail h = h
hex_of-IsHex (suc k) n tail h = hex_of-IsHex k (n / 16) _ (IsHex-digit_of (n % 16) (omega arith), h)

hex_of_nonempty : (k n x : ℕ) (tail : Text) → hex_of k n (x ∷ tail) ≢ []
unfolding hex_of
hex_of_nonempty zero n x tail e = cc
hex_of_nonempty (suc k) n x tail e = hex_of_nonempty k (n / 16) (digit_of (n % 16)) (x ∷ tail) e

from_str_radix_16-hex : (xs : Text) → All IsHex xs → xs ≢ [] → from_str_radix_16 xs ≡ parse_hex 0 xs
unfolding from_str_radix_16
from_str_radix_16-hex [] h n = absurd (n refl)
from_str_radix_16-hex (x ∷ xs) h n =
    let no_sign : (x == b'+') ≡ false = ground (arith, h.0) in simp no_sign

All-reverse : (xs : Text) → All IsHex xs → All IsHex (reverse xs)
All-reverse [] h = tt
All-reverse (x ∷ xs) h =
    rw (reverse-cons x xs) (All-append IsHex (reverse xs) (x ∷ []) (All-reverse xs h.1) (h.0, tt))

trim_start-hex : (xs : Text) → All IsHex xs → trim_start xs ≡ xs
unfolding trim_start
trim_start-hex [] h = refl
trim_start-hex (x ∷ xs) h = ground arith

trim-tab : (xs : Text) → All IsHex xs → trim (b'\t' ∷ xs) ≡ xs
unfolding trim trim_start
trim-tab xs h =
    ap (λ s. reverse (trim_start (reverse s))) (trim_start-hex xs h)
    ∙ ap reverse (trim_start-hex (reverse xs) (All-reverse xs h))
    ∙ reverse-reverse xs

-- The line of /proc/<pid>/status, by the kernel's `%016llx`.
abbrev pub cap_line : ℕ → Text
cap_line caps = cap_eff ++ (b'\t' ∷ hex_of 16 caps [])

read_hex : (caps : ℕ) → caps < 2 ^ 64 → from_str_radix_16 (hex_of 16 caps []) ≡ some caps
read_hex caps h =
    from_str_radix_16-hex (hex_of 16 caps []) (hex_of-IsHex 16 caps [] tt)
      (unfold hex_of in hex_of_nonempty 15 (caps / 16) (digit_of (caps % 16)) [])
    ∙ parse_hex-hex_of 16 caps [] (omega arith) h
    ∙ (unfold parse_hex in refl)

cap_in-line :
    (caps : ℕ) (more : List Text)
    → caps < 2 ^ 64
    → cap_in (cap_line caps ∷ more) ≡ some (has_bit caps)
unfolding cap_in strip_prefix
cap_in-line caps more h = simp (
  strip_prefix-append cap_eff (b'\t' ∷ hex_of 16 caps []),
  trim-tab (hex_of 16 caps []) (hex_of-IsHex 16 caps [] tt),
  read_hex caps h,
)

cap_in-others :
    (before more : List Text)
    → All (λ line. strip_prefix cap_eff line ≡ none) before
    → cap_in (before ++ more) ≡ cap_in more
unfolding cap_in strip_prefix
cap_in-others [] more h = refl
cap_in-others (line ∷ before) more h = simp h.0 (cap_in-others before more h.1)

-- On a status whose first CapEff line shows a set of 64 capabilities as the kernel prints it, the
-- program finds that it holds CAP_SYS_ADMIN exactly when bit 21 of the set is 1.
pub has_cap_sys_admin-shown :
    (text : Text) (before after : List Text) (caps : ℕ)
    → caps < 2 ^ 64
    → All (λ line. strip_prefix cap_eff line ≡ none) before
    → lines text ≡ before ++ cap_line caps ∷ after
    → has_cap_sys_admin (some text) ≡ some (caps / 2 ^ 21 % 2 == 1)
unfolding has_cap_sys_admin
has_cap_sys_admin-shown text before after caps h none_before e =
    ap cap_in e
    ∙ cap_in-others before (cap_line caps ∷ after) none_before
    ∙ cap_in-line caps after h

-- A number past 64 bits is no capability set: `from_str_radix` refuses it.
pub shift_in-overflow : (acc d : ℕ) → 2 ^ 64 ≤ acc * 16 + d → shift_in acc d ≡ none
shift_in-overflow acc d h = ground arith
