-- ===== src/StoreCheck/Utf8.antt =====
-- UTF-8 of the standard library, as prison-store-check uses it: a `&str` argument given to a program,
-- and `String::from_utf8` and `OsStr::to_str` on what a program printed and on arguments.
use nix_os_container_podman.Common.{
  ℕ, ◌+◌, ◌-◌, ◌*◌, ◌/◌, ◌%◌, ◌<◌, ◌≡◌, refl, true, false, ◌&&◌, [], ◌∷◌, ◌++◌, Option, none, some,
  Bytes, Text, All, ltb, leb, lt→ltb, ◌==◌, if◌then◌else◌, arith,
}

abbrev encode_char : ℕ → Bytes
encode_char c =
    if ltb c 0x80
    then c ∷ []
    else if ltb c 0x800
    then (0xC0 + c / 64) ∷ (0x80 + c % 64) ∷ []
    else if ltb c 0x10000
    then (0xE0 + c / 4096) ∷ (0x80 + c / 64 % 64) ∷ (0x80 + c % 64) ∷ []
    else (0xF0 + c / 262144) ∷ (0x80 + c / 4096 % 64) ∷ (0x80 + c / 64 % 64) ∷ (0x80 + c % 64) ∷ []

unfoldable pub encode : Text → Bytes
encode [] = []
encode (c ∷ cs) = encode_char c ++ encode cs

-- A sequence that wants `need` more bytes, the next of them in `lo..=hi`.
record Pending : Type 0 where
  need : ℕ
  lo : ℕ
  hi : ℕ
  value : ℕ

abbrev wants : ℕ → ℕ → ℕ → ℕ → Option Pending
wants need lo hi value = some (record { need = need; lo = lo; hi = hi; value = value })

-- What the first byte of a longer sequence wants.
abbrev lead : ℕ → Option Pending
lead b =
    if leb 0xC2 b && leb b 0xDF
    then wants 1 0x80 0xBF (b % 32)
    else if b == 0xE0
    then wants 2 0xA0 0xBF 0
    else if b == 0xED
    then wants 2 0x80 0x9F 13
    else if leb 0xE1 b && leb b 0xEF
    then wants 2 0x80 0xBF (b % 16)
    else if b == 0xF0
    then wants 3 0x90 0xBF 0
    else if b == 0xF4
    then wants 3 0x80 0x8F 4
    else if leb 0xF1 b && leb b 0xF3
    then wants 3 0x80 0xBF (b % 8)
    else none

abbrev onto : ℕ → Option Text → Option Text
onto c none = none
onto c (some cs) = some (c ∷ cs)

unfoldable decode_from : Option Pending → Bytes → Option Text
decode_from none [] = some []
decode_from (some p) [] = none
decode_from none (b ∷ bs) = elim (ltb b 0x80) [
  | true ↦ onto b (decode_from none bs)
  | false ↦ elim (lead b) [ none ↦ none | some p ↦ decode_from (some p) bs ]
]
decode_from (some p) (b ∷ bs) =
    let value = p.value * 64 + b % 64 in
    elim (leb p.lo b && leb b p.hi) [
      | false ↦ none
      | true ↦ elim (p.need == 1) [
        | true ↦ onto value (decode_from none bs)
        | false ↦ decode_from (wants (p.need - 1) 0x80 0xBF value) bs
      ]
    ]

unfoldable pub decode : Bytes → Option Text
unfolding decode_from
decode bytes = decode_from none bytes

abbrev pub IsAscii : ℕ → Type 0
IsAscii c = c < 0x80

pub encode-ascii : (s : Text) → All IsAscii s → encode s ≡ s
unfolding encode
encode-ascii [] h = refl
encode-ascii (c ∷ cs) h = simp (lt→ltb c 0x80 h.0, encode-ascii cs h.1)

pub decode-ascii : (s : Bytes) → All IsAscii s → decode s ≡ some s
unfolding decode decode_from
decode-ascii [] h = refl
decode-ascii (b ∷ bs) h = ground (arith, decode-ascii bs h.1)

four_lengths :
    decode (encode (0x61 ∷ 0xE9 ∷ 0x20AC ∷ 0x1F600 ∷ []))
    ≡ some (0x61 ∷ 0xE9 ∷ 0x20AC ∷ 0x1F600 ∷ [])
unfolding decode encode
four_lengths = refl

decode-broken : decode (0x61 ∷ 0xC0 ∷ 0x80 ∷ []) ≡ none
unfolding decode
decode-broken = refl
