-- ===== src/Agent/Sha/Base64.antt =====
-- Unpadded base64 loses nothing: a decoder, and the round trip.
use nix_os_container_podman.Common.{
  ℕ, zero, suc, ◌+◌, ◌-◌, ◌*◌, ◌/◌, ◌%◌, ◌^◌, ◌<◌, ◌≡◌, refl, Bool, true, ◌&&◌, [], ◌∷◌, Bytes,
  Text, All, arith, ◌≤◌, ◌==◌, leb, if◌then◌else◌, ==_iff,
}
use nix_os_container_podman.Agent.Sha.{base64_nopad, letter, digit}

-- RFC 4648, table 1.
pub index : ℕ → ℕ
index c =
    if leb b'A' c && leb c b'Z'
    then c - b'A'
    else if leb b'a' c && leb c b'z'
    then c - b'a' + 26
    else if leb b'0' c && leb c b'9'
    then c - b'0' + 52
    else if c == b'+'
    then 62
    else 63

pub decode : Text → Bytes
decode (w ∷ x ∷ y ∷ z ∷ rest) =
    (index w * 4 + index x / 16)
    ∷ (index x % 16 * 16 + index y / 4)
    ∷ (index y % 4 * 64 + index z)
    ∷ decode rest
decode (w ∷ x ∷ y ∷ []) = (index w * 4 + index x / 16) ∷ (index x % 16 * 16 + index y / 4) ∷ []
decode (w ∷ x ∷ []) = (index w * 4 + index x / 16) ∷ []
decode _ = []

-- A test passes on 0, ..., n.
unfoldable pub passes_to : (ℕ → Bool) → ℕ → Bool
passes_to test zero = test 0
passes_to test (suc n) = passes_to test n && test (suc n)

pub passes_to-le : (test : ℕ → Bool) (n i : ℕ) → passes_to test n ≡ true → i ≤ n → test i ≡ true
unfolding passes_to
passes_to-le test zero i done bound = let first : i ≡ 0 = omega arith in rw first done
passes_to-le test (suc n) i done bound = ground (arith, passes_to-le test n i)

index_table : passes_to (λ i. index (letter i) == i) 63 ≡ true
unfolding passes_to index
index_table = refl

index-digit : (n shift : ℕ) → index (digit n shift) ≡ n / 2 ^ shift % 64
index-digit n shift =
    (==_iff _ _).0 (passes_to-le (λ i. index (letter i) == i) 63 _ index_table (omega arith))

two : {x x' : ℕ} {r r' : Bytes} → x ≡ x' → r ≡ r' → ◌≡◌ {A = Bytes} (x ∷ r) (x' ∷ r')
two p q = cc

-- Decoding the encoding of a byte string gives the byte string back.
pub decode-base64_nopad :
    (bytes : Bytes) → All (λ b. b < 256) bytes → decode (base64_nopad bytes) ≡ bytes
unfolding base64_nopad decode
decode-base64_nopad [] h = refl
decode-base64_nopad (a ∷ []) h = simp index-digit (two (omega arith) refl)
decode-base64_nopad (a ∷ b ∷ []) h = simp index-digit (two (omega arith) (two (omega arith) refl))
decode-base64_nopad (a ∷ b ∷ c ∷ rest) h =
    simp index-digit
      (two (omega arith) (two (omega arith) (two (omega arith) (decode-base64_nopad rest h.1.1.1))))
