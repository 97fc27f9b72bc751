-- ===== src/Agent/Sha.antt =====
-- ssh-agent-filter/src/policy.rs: SHA-256, base64 and the fingerprint of a key. A `u32` is a number
-- below 2 ^ 32, and `wrapping_add` is the sum `% 2 ^ 32`.
pub mod Shape
mod Vectors
pub mod Base64
use Prim.Native.Nat.{bit_and, bit_or, bit_xor}
use nix_os_container_podman.Common.{
  ℕ, zero, suc, ◌+◌, ◌-◌, ◌*◌, ◌/◌, ◌%◌, ◌^◌, List, [], ◌∷◌, ◌++◌, Bytes, Text, codes, length, take,
  drop, replicate, get_or, Bool, true, false, ◌==◌, if◌then◌else◌,
}

abbrev round_constants : List ℕ
round_constants =
    0x428a2f98 ∷ 0x71374491 ∷ 0xb5c0fbcf ∷ 0xe9b5dba5 ∷ 0x3956c25b ∷ 0x59f111f1 ∷ 0x923f82a4
    ∷ 0xab1c5ed5 ∷ 0xd807aa98 ∷ 0x12835b01 ∷ 0x243185be ∷ 0x550c7dc3 ∷ 0x72be5d74 ∷ 0x80deb1fe
    ∷ 0x9bdc06a7 ∷ 0xc19bf174 ∷ 0xe49b69c1 ∷ 0xefbe4786 ∷ 0x0fc19dc6 ∷ 0x240ca1cc ∷ 0x2de92c6f
    ∷ 0x4a7484aa ∷ 0x5cb0a9dc ∷ 0x76f988da ∷ 0x983e5152 ∷ 0xa831c66d ∷ 0xb00327c8 ∷ 0xbf597fc7
    ∷ 0xc6e00bf3 ∷ 0xd5a79147 ∷ 0x06ca6351 ∷ 0x14292967 ∷ 0x27b70a85 ∷ 0x2e1b2138 ∷ 0x4d2c6dfc
    ∷ 0x53380d13 ∷ 0x650a7354 ∷ 0x766a0abb ∷ 0x81c2c92e ∷ 0x92722c85 ∷ 0xa2bfe8a1 ∷ 0xa81a664b
    ∷ 0xc24b8b70 ∷ 0xc76c51a3 ∷ 0xd192e819 ∷ 0xd6990624 ∷ 0xf40e3585 ∷ 0x106aa070 ∷ 0x19a4c116
    ∷ 0x1e376c08 ∷ 0x2748774c ∷ 0x34b0bcb5 ∷ 0x391c0cb3 ∷ 0x4ed8aa4a ∷ 0x5b9cca4f ∷ 0x682e6ff3
    ∷ 0x748f82ee ∷ 0x78a5636f ∷ 0x84c87814 ∷ 0x8cc70208 ∷ 0x90befffa ∷ 0xa4506ceb ∷ 0xbef9a3f7
    ∷ 0xc67178f2 ∷ []

abbrev initial_hash : List ℕ
initial_hash =
    0x6a09e667 ∷ 0xbb67ae85 ∷ 0x3c6ef372 ∷ 0xa54ff53a ∷ 0x510e527f ∷ 0x9b05688c ∷ 0x1f83d9ab
    ∷ 0x5be0cd19 ∷ []

abbrev rotate_right : ℕ → ℕ → ℕ
rotate_right x k = bit_or (x / 2 ^ k) (x * 2 ^ (32 - k) % 2 ^ 32)

abbrev xor : ℕ → ℕ → ℕ → ℕ
xor x y z = bit_xor (bit_xor x y) z

abbrev wrapping_add : ℕ → ℕ → ℕ
wrapping_add x y = (x + y) % 2 ^ 32

-- `while msg.len() % 64 != 56 { msg.push(0) }`, on fuel.
unfoldable pub pad_zeros : ℕ → Bytes → Bytes
pad_zeros zero msg = msg
pad_zeros (suc fuel) msg =
    let more = pad_zeros fuel (msg ++ (0 ∷ [])) in if length msg % 64 == 56 then msg else more

abbrev pub to_be_bytes : ℕ → Bytes
to_be_bytes n = n / 2 ^ 24 % 256 ∷ n / 2 ^ 16 % 256 ∷ n / 2 ^ 8 % 256 ∷ n % 256 ∷ []

unfoldable pub padded : Bytes → Bytes
unfolding pad_zeros
padded input =
    let bits = length input * 8 % 2 ^ 64 in
    pad_zeros 64 (input ++ (0x80 ∷ [])) ++ (to_be_bytes (bits / 2 ^ 32) ++ to_be_bytes bits)

-- The words of a chunk: `chunk.chunks_exact(4)` by `u32::from_be_bytes`.
unfoldable pub words : Bytes → List ℕ
words (a ∷ b ∷ c ∷ d ∷ rest) = (a * 2 ^ 24 + b * 2 ^ 16 + c * 2 ^ 8 + d) ∷ words rest
words _ = []

-- The new word at index `i`.
unfoldable pub next_word : List ℕ → ℕ → ℕ
next_word w i =
    let w15 = get_or w (i - 15) 0 in
    let w2 = get_or w (i - 2) 0 in
    let s0 = xor (rotate_right w15 7) (rotate_right w15 18) (w15 / 2 ^ 3) in
    let s1 = xor (rotate_right w2 17) (rotate_right w2 19) (w2 / 2 ^ 10) in
    wrapping_add (wrapping_add (wrapping_add (get_or w (i - 16) 0) s0) (get_or w (i - 7) 0)) s1

-- `for i in 16..64`, with `n` rounds left.
unfoldable pub extend_words : ℕ → ℕ → List ℕ → List ℕ
unfolding next_word
extend_words zero i w = w
extend_words (suc n) i w = extend_words n (i + 1) (w ++ (next_word w i ∷ []))

pub record Working : Type 0 where
  pub a : ℕ
  pub b : ℕ
  pub c : ℕ
  pub d : ℕ
  pub e : ℕ
  pub f : ℕ
  pub g : ℕ
  pub hh : ℕ

unfoldable pub compress_round : Working → ℕ → ℕ → Working
compress_round v k w =
    let s1 = xor (rotate_right v.e 6) (rotate_right v.e 11) (rotate_right v.e 25) in
    let ch = bit_xor (bit_and v.e v.f) (bit_and (2 ^ 32 - 1 - v.e) v.g) in
    let t1 = wrapping_add (wrapping_add (wrapping_add (wrapping_add v.hh s1) ch) k) w in
    let s0 = xor (rotate_right v.a 2) (rotate_right v.a 13) (rotate_right v.a 22) in
    let maj = xor (bit_and v.a v.b) (bit_and v.a v.c) (bit_and v.b v.c) in
    let t2 = wrapping_add s0 maj in
    record {
      a = wrapping_add t1 t2;
      b = v.a;
      c = v.b;
      d = v.c;
      e = wrapping_add v.d t1;
      f = v.e;
      g = v.f;
      hh = v.g;
    }

-- `for i in 0..64` over the constants and the words.
unfoldable pub compress_rounds : List ℕ → List ℕ → Working → Working
unfolding compress_round
compress_rounds (k ∷ ks) (w ∷ ws) v = compress_rounds ks ws (compress_round v k w)
compress_rounds _ _ v = v

abbrev start : List ℕ → Working
start h = record {
  a = get_or h 0 0;
  b = get_or h 1 0;
  c = get_or h 2 0;
  d = get_or h 3 0;
  e = get_or h 4 0;
  f = get_or h 5 0;
  g = get_or h 6 0;
  hh = get_or h 7 0;
}

unfoldable pub add_working : List ℕ → Working → List ℕ
add_working h v =
    wrapping_add (get_or h 0 0) v.a
    ∷ wrapping_add (get_or h 1 0) v.b
    ∷ wrapping_add (get_or h 2 0) v.c
    ∷ wrapping_add (get_or h 3 0) v.d
    ∷ wrapping_add (get_or h 4 0) v.e
    ∷ wrapping_add (get_or h 5 0) v.f
    ∷ wrapping_add (get_or h 6 0) v.g
    ∷ wrapping_add (get_or h 7 0) v.hh
    ∷ []

-- One round of `for chunk in msg.chunks_exact(64)`.
unfoldable pub compress : List ℕ → Bytes → List ℕ
unfolding words extend_words compress_rounds add_working
compress h chunk =
    add_working h (compress_rounds round_constants (extend_words 48 16 (words chunk)) (start h))

-- The loop over the chunks, `n` of them.
unfoldable pub compress_chunks : ℕ → Bytes → List ℕ → List ℕ
unfolding compress
compress_chunks zero msg h = h
compress_chunks (suc n) msg h = compress_chunks n (drop 64 msg) (compress h (take 64 msg))

unfoldable pub big_endian : List ℕ → Bytes
big_endian [] = []
big_endian (v ∷ vs) = to_be_bytes v ++ big_endian vs

unfoldable pub sha256 : Bytes → Bytes
unfolding padded compress_chunks big_endian
sha256 input =
    let msg = padded input in big_endian (compress_chunks (length msg / 64) msg initial_hash)

abbrev pub alphabet : Text
alphabet = codes "ABCDEFGHIJKLMNOPQRSTUVWXYZabcdefghijklmnopqrstuvwxyz0123456789+/"

abbrev pub letter : ℕ → ℕ
letter i = get_or alphabet i 0

-- `A[((n >> (18 - 6 * i)) & 0x3f)]`
abbrev pub digit : ℕ → ℕ → ℕ
digit n shift = letter (n / 2 ^ shift % 64)

-- The three bytes share no bits after their shifts, so their `|` is the sum.
abbrev pub group : ℕ → ℕ → ℕ → ℕ
group a b c = a * 2 ^ 16 + b * 2 ^ 8 + c

unfoldable pub base64_nopad : Bytes → Text
base64_nopad [] = []
base64_nopad (a ∷ []) = let n = group a 0 0 in digit n 18 ∷ digit n 12 ∷ []
base64_nopad (a ∷ b ∷ []) = let n = group a b 0 in digit n 18 ∷ digit n 12 ∷ digit n 6 ∷ []
base64_nopad (a ∷ b ∷ c ∷ rest) =
    let n = group a b c in digit n 18 ∷ digit n 12 ∷ digit n 6 ∷ digit n 0 ∷ base64_nopad rest

abbrev pub prefix : Text
prefix = codes "SHA256:"

unfoldable pub fingerprint : Bytes → Text
unfolding sha256 base64_nopad
fingerprint blob = prefix ++ base64_nopad (sha256 blob)
