-- ===== src/Agent/Policy/Lossy.antt =====
-- `String::from_utf8_lossy`: each maximal broken piece of a sequence becomes U+FFFD.
use nix_os_container_podman.Common.{
  ℕ, ◌+◌, ◌-◌, ◌*◌, ◌%◌, ◌≡◌, refl, [], ◌∷◌, ◌++◌, ◌&&◌, Option, none, some, Bytes, Text, codes,
  ltb, leb, ◌==◌, if◌then◌else◌,
}

-- A sequence that wants `need` more bytes, the next of them in `lo..=hi`.
record Pending : Type 0 where
  need : ℕ
  lo : ℕ
  hi : ℕ
  value : ℕ

abbrev State : Type 0
State = Option Pending

abbrev wants : ℕ → ℕ → ℕ → ℕ → State
wants need lo hi value = some (record { need = need; lo = lo; hi = hi; value = value })

abbrev replacement : ℕ
replacement = 0xFFFD

-- A byte at the start of a sequence.
fresh : ℕ → Text × State
fresh b =
    if ltb b 0x80
    then (b ∷ [], none)
    else if leb 0xC2 b && leb b 0xDF
    then ([], wants 1 0x80 0xBF (b % 32))
    else if b == 0xE0
    then ([], wants 2 0xA0 0xBF 0)
    else if b == 0xED
    then ([], wants 2 0x80 0x9F 13)
    else if leb 0xE1 b && leb b 0xEF
    then ([], wants 2 0x80 0xBF (b % 16))
    else if b == 0xF0
    then ([], wants 3 0x90 0xBF 0)
    else if b == 0xF4
    then ([], wants 3 0x80 0x8F 4)
    else if leb 0xF1 b && leb b 0xF3
    then ([], wants 3 0x80 0xBF (b % 8))
    else (replacement ∷ [], none)

advance : Pending → ℕ → Text × State
advance p b =
    let value = p.value * 64 + b % 64 in
    if p.need == 1 then (value ∷ [], none) else ([], wants (p.need - 1) 0x80 0xBF value)

step : State → ℕ → Text × State
unfolding fresh advance
step none b = fresh b
step (some p) b =
    if leb p.lo b && leb b p.hi
    then advance p b
    else let (out, next) = fresh b in (replacement ∷ out, next)

decode_from : State → Bytes → Text
unfolding step
decode_from none [] = []
decode_from (some p) [] = replacement ∷ []
decode_from s (b ∷ bs) = let (out, next) = step s b in out ++ decode_from next bs

unfoldable pub from_utf8_lossy : Bytes → Text
unfolding decode_from
from_utf8_lossy bytes = decode_from none bytes

valid_utf8 :
    from_utf8_lossy (0x61 ∷ 0xC3 ∷ 0xA9 ∷ 0xE2 ∷ 0x82 ∷ 0xAC ∷ 0xF0 ∷ 0x9F ∷ 0x98 ∷ 0x80 ∷ [])
    ≡ codes "aé€😀"
unfolding from_utf8_lossy
valid_utf8 = refl

broken_utf8 :
    from_utf8_lossy (0x61 ∷ 0xE2 ∷ 0x82 ∷ 0x62 ∷ 0xFF ∷ 0xC3 ∷ [])
    ≡ 0x61 ∷ 0xFFFD ∷ 0x62 ∷ 0xFFFD ∷ 0xFFFD ∷ []
unfolding from_utf8_lossy
broken_utf8 = refl
