-- ===== src/StoreCheck/Decimal.antt =====
-- The decimal numbers of the standard library: `u32`'s `FromStr` and `Display`.
pub mod RoundTrip
use nix_os_container_podman.Common.{
  ℕ, zero, suc, ◌+◌, ◌-◌, ◌*◌, ◌/◌, ◌%◌, ◌^◌, Bool, true, false, List, [], ◌∷◌, Option, none, some,
  Text, ltb, ◌==◌, if◌then◌else◌, is_ascii_digit,
}

-- The digits, from an accumulator; `none` at another character or past `u32::MAX`.
unfoldable pub parse_digits : ℕ → Text → Option ℕ
parse_digits acc [] = some acc
parse_digits acc (c ∷ cs) =
    let acc' = acc * 10 + (c - b'0') in
    let more = parse_digits acc' cs in
    if is_ascii_digit c then (if ltb acc' (2 ^ 32) then more else none) else none

unfoldable pub parse_unsigned : Text → Option ℕ
unfolding parse_digits
parse_unsigned [] = none
parse_unsigned (c ∷ cs) = parse_digits 0 (c ∷ cs)

-- `str::parse::<u32>`: one leading `+` may stand.
unfoldable pub parse_u32 : Text → Option ℕ
unfolding parse_unsigned
parse_u32 [] = none
parse_u32 (c ∷ cs) = if c == b'+' then parse_unsigned cs else parse_unsigned (c ∷ cs)

unfoldable pub decimal : ℕ → ℕ → Text → Text
decimal zero n tail = tail
decimal (suc fuel) n tail =
    let more = decimal fuel (n / 10) ((b'0' + n % 10) ∷ tail) in
    if ltb n 10 then (b'0' + n) ∷ tail else more

-- Ten digits are enough for a `u32`.
unfoldable pub to_string : ℕ → Text
unfolding decimal
to_string n = decimal 10 n []
