-- ===== src/Agent/Sha/Shape.antt =====
-- The padding of FIPS 180-4, the length of a digest, and that base64 loses nothing.
use nix_os_container_podman.Common.{
  ℕ, zero, suc, ◌+◌, ◌*◌, ◌/◌, ◌%◌, ◌^◌, ◌<◌, ◌≡◌, refl, ap, sym, ◌∙◌, List, [], ◌∷◌, ◌++◌, Bytes,
  length, All, length-append, arith, ◌==◌, Bool-cases, inl, inr, replicate, append_assoc,
  append-nil,
}
use nix_os_container_podman.Agent.Sha.{
  pad_zeros, padded, sha256, compress_chunks, big_endian, to_be_bytes, initial_hash, add_working,
}

-- The loop appends zeros only, and ends by its own test while 64 rounds are left.
pad_zeros_lem :
    (fuel : ℕ) (msg : Bytes)
    → (56 + 63 * length msg) % 64 < fuel
    → (n : ℕ) × (pad_zeros fuel msg ≡ msg ++ replicate n 0)
      × (n < fuel)
      × ((length msg + n) % 64 ≡ 56)
unfolding pad_zeros
pad_zeros_lem zero msg h = absurd (omega arith)
pad_zeros_lem (suc fuel) msg h = elim (Bool-cases (length msg % 64 == 56)) [
  | inl done ↦ (0, rw done (sym (append-nil msg)), omega arith, ground arith)
  | inr more ↦
      let (n, e, lt, size) =
        pad_zeros_lem fuel (msg ++ (0 ∷ [])) (ground (arith, length-append msg (0 ∷ []))) in
      (
        suc n,
        rw more (e ∙ append_assoc msg (0 ∷ []) (replicate n 0)),
        omega arith,
        omega (arith, length-append msg (0 ∷ [])),
      )
]

length-replicate : (n : ℕ) → length (replicate {A = ℕ} n 0) ≡ n
length-replicate zero = refl
length-replicate (suc n) = ap suc (length-replicate n)

-- The padded message is the input, the byte 0x80, fewer than 64 zeros and the input's length in
-- bits in eight bytes, and its length is a multiple of 64.
pub padded_lem :
    (input : Bytes)
    → (n : ℕ) × (padded input
        ≡ ((input ++ (0x80 ∷ [])) ++ replicate n 0)
          ++ (to_be_bytes (length input * 8 % 2 ^ 64 / 2 ^ 32)
              ++ to_be_bytes (length input * 8 % 2 ^ 64)))
      × (n < 64)
      × (length (padded input) % 64 ≡ 0)
unfolding padded
padded_lem input =
    let start : Bytes = input ++ (0x80 ∷ []) in
    let bits : ℕ = length input * 8 % 2 ^ 64 in
    let (n, e, lt, size) = pad_zeros_lem 64 start (omega arith) in
    (
      n,
      ap (λ m. m ++ (to_be_bytes (bits / 2 ^ 32) ++ to_be_bytes bits)) e,
      lt,
      omega (
        arith,
        ap length e,
        length-append start (replicate n 0),
        length-replicate n,
        length-append (pad_zeros 64 start) (to_be_bytes (bits / 2 ^ 32) ++ to_be_bytes bits),
      ),
    )

length-compress_chunks :
    (n : ℕ) (msg : Bytes) (h : List ℕ) → length h ≡ 8 → length (compress_chunks n msg h) ≡ 8
unfolding compress_chunks add_working
length-compress_chunks zero msg h e = e
length-compress_chunks (suc n) msg h e = length-compress_chunks n _ _ refl

length-big_endian : (vs : List ℕ) → length (big_endian vs) ≡ 4 * length vs
unfolding big_endian
length-big_endian [] = refl
length-big_endian (v ∷ vs) = omega (arith, length-big_endian vs)

IsBytes-big_endian : (vs : List ℕ) → All (λ b. b < 256) (big_endian vs)
unfolding big_endian
IsBytes-big_endian [] = tt
IsBytes-big_endian (v ∷ vs) =
    (omega arith, (omega arith, (omega arith, (omega arith, IsBytes-big_endian vs))))

-- A digest has 32 elements, each of them a byte.
pub sha256_shape :
    (input : Bytes) → (length (sha256 input) ≡ 32) × All (λ b. b < 256) (sha256 input)
unfolding sha256
sha256_shape input = (
  omega (
    arith,
    length-big_endian (compress_chunks (length (padded input) / 64) (padded input) initial_hash),
    length-compress_chunks (length (padded input) / 64) (padded input) initial_hash refl,
  ),
  IsBytes-big_endian _,
)
