-- ===== src/Agent/Proto/RoundTrip.antt =====
-- Framing and identity lists survive the wire.
use nix_os_container_podman.Common.{
  ℕ, ◌+◌, ◌-◌, ◌*◌, ◌^◌, ◌≤◌, ◌<◌, ◌≡◌, refl, sym, ap, ◌∙◌, subst, Bool, List, [], ◌∷◌, ◌++◌, some,
  Bytes, length, take, drop, All, arith, append_assoc, append-nil, length-append, take_of_append,
  drop_of_append, drop-drop,
}
use nix_os_container_podman.Agent.Proto.{
  Message, message, read, read_body, read_after, write, max_message, to_be_bytes, from_be_bytes,
  as_u32, Reader, u32, string, put_string, Identity, read_identities, parse_identities,
  put_identities, build_identities, payload, new, get_range,
}

from_be_bytes-to_be_bytes : (n : ℕ) → n < 2 ^ 32 → from_be_bytes (to_be_bytes n) ≡ some n
unfolding from_be_bytes to_be_bytes
from_be_bytes-to_be_bytes n h = ap some (omega arith)

as_u32_of_lt : (n : ℕ) → n < 2 ^ 32 → as_u32 n ≡ n
as_u32_of_lt n h = omega arith

read_after_frame :
    (len : ℕ) (body rest : Bytes) (broken : Bool)
    → length body ≡ len
    → 0 < len
    → len ≤ max_message
    → read_after (some len) (body ++ rest) broken
      ≡ message (record { body = body }) (record { bytes = rest; broken = broken })
unfolding read_after read_body
read_after_frame len body rest broken e pos fits =
    subst
      (λ (n : ℕ).
        read_after (some n) (body ++ rest) broken
        ≡ message (record { body = body }) (record { bytes = rest; broken = broken }))
      e
      (ground (arith, length-append body rest, take_of_append body rest, drop_of_append body rest))

-- A message of an admissible length is read back whole, and exactly it is taken off the stream.
pub read-write :
    (m : Message) (rest : Bytes) (broken : Bool)
    → 0 < length m.body
    → length m.body ≤ max_message
    → read (record { bytes = write m ++ rest; broken = broken })
      ≡ message m (record { bytes = rest; broken = broken })
unfolding read write to_be_bytes
read-write m rest broken pos fits =
    ap (λ o. read_after o (m.body ++ rest) broken)
      (ap (λ (n : ℕ). from_be_bytes (to_be_bytes n)) (as_u32_of_lt _ (omega arith))
        ∙ from_be_bytes-to_be_bytes (length m.body) (omega arith))
    ∙ read_after_frame (length m.body) m.body rest broken refl pos fits

length-to_be_bytes : (n : ℕ) → length (to_be_bytes n) ≡ 4
unfolding to_be_bytes
length-to_be_bytes n = refl

-- What is left to read behind the cursor.
record Left (r : Reader) (xs : Bytes) : Type 0 where
  behind : drop r.pos r.buf ≡ xs
  bound : r.pos + length xs ≡ length r.buf
  small : length r.buf < 2 ^ 64

Left-advance :
    (r : Reader) (s xs : Bytes) (end : ℕ)
    → Left r (s ++ xs)
    → r.pos + length s ≡ end
    → Left (record r { pos = end }) xs
Left-advance r s xs end l e = record {
  behind =
      sym (drop-drop r.pos (length s) end r.buf e)
      ∙ ap (drop (length s)) l.behind
      ∙ drop_of_append s xs;
  bound = omega (arith, l.bound, length-append s xs);
  small = l.small;
}

get_range-Left :
    (r : Reader) (s xs : Bytes) (end : ℕ)
    → Left r (s ++ xs)
    → r.pos + length s ≡ end
    → get_range r.buf r.pos end ≡ some s
get_range-Left r s xs end l e =
    let n : end - r.pos ≡ length s = omega arith in
    ground (
      arith,
      l.bound,
      length-append s xs,
      n,
      ap (take (end - r.pos)) l.behind,
      ap (λ (k : ℕ). take k (s ++ xs)) n,
      take_of_append s xs,
    )

u32-Left :
    (r : Reader) (n : ℕ) (xs : Bytes)
    → n < 2 ^ 32
    → Left r (to_be_bytes n ++ xs)
    → (u32 r ≡ some (n, record r { pos = r.pos + 4 })) × Left (record r { pos = r.pos + 4 }) xs
unfolding u32
u32-Left r n xs h l = (
  ground (
    arith,
    l.bound,
    l.small,
    length-append (to_be_bytes n) xs,
    length-to_be_bytes n,
    get_range-Left r (to_be_bytes n) xs (r.pos + 4) l (rw length-to_be_bytes),
    from_be_bytes-to_be_bytes n,
  ),
  Left-advance r (to_be_bytes n) xs (r.pos + 4) l (rw length-to_be_bytes),
)

-- The format of a string and of the entries of an answer, with what follows them.
abbrev field : Bytes → Bytes → Bytes
field s rest = to_be_bytes (as_u32 (length s)) ++ (s ++ rest)

abbrev entries : List Identity → Bytes → Bytes
entries [] rest = rest
entries (id ∷ ids) rest = field id.blob (field id.comment (entries ids rest))

pub record IsWire (id : Identity) : Type 0 where
  pub blob : length id.blob < 2 ^ 32
  pub comment : length id.comment < 2 ^ 32

string-Left :
    (r : Reader) (s xs : Bytes)
    → length s < 2 ^ 32
    → Left r (field s xs)
    → (r' : Reader) × (string r ≡ some (s, r')) × Left r' xs
unfolding string
string-Left r s xs h l =
    let (read, left) = u32-Left r (as_u32 (length s)) (s ++ xs) (omega arith) l in
    let r₁ : Reader = record r { pos = r.pos + 4 } in
    let end : ℕ = r.pos + 4 + length s in
    let n : as_u32 (length s) ≡ length s = as_u32_of_lt (length s) h in
    (
      record r { pos = end },
      ground (
        arith,
        read,
        n,
        left.bound,
        left.small,
        length-append s xs,
        get_range-Left r₁ s xs end left refl,
      ),
      Left-advance r₁ s xs end left refl,
    )

read_identities-Left :
    (ids : List Identity) (r : Reader) (xs : Bytes)
    → All IsWire ids
    → Left r (entries ids xs)
    → read_identities (length ids) r ≡ some ids
unfolding read_identities
read_identities-Left [] r xs h l = refl
read_identities-Left (id ∷ ids) r xs h l =
    let (r₁, blob, l₁) = string-Left r id.blob (field id.comment (entries ids xs)) h.0.blob l in
    let (r₂, comment, l₂) = string-Left r₁ id.comment (entries ids xs) h.0.comment l₁ in
    rw (blob, comment, read_identities-Left ids r₂ xs h.1 l₂)

regroup :
    (a b c d e f : Bytes) → ((((a ++ b) ++ c) ++ d) ++ e) ++ f ≡ a ++ (b ++ (c ++ (d ++ (e ++ f))))
regroup a b c d e f = simp append_assoc

put_identities-entries :
    (body : Bytes) (ids : List Identity) → put_identities body ids ≡ body ++ entries ids []
unfolding put_identities put_string
put_identities-entries body [] = sym (append-nil body)
put_identities-entries body (id ∷ ids) =
    put_identities-entries (put_string (put_string body id.blob) id.comment) ids
    ∙ regroup body (to_be_bytes (as_u32 (length id.blob))) id.blob
        (to_be_bytes (as_u32 (length id.comment))) id.comment (entries ids [])

length-entries : (ids : List Identity) → 8 * length ids ≤ length (entries ids [])
unfolding to_be_bytes
length-entries [] = omega arith
length-entries (id ∷ ids) = omega (
  arith,
  length-entries ids,
  length-append id.blob (field id.comment (entries ids [])),
  length-append id.comment (entries ids []),
)

payload-build_identities :
    (ids : List Identity)
    → payload (build_identities ids) ≡ to_be_bytes (as_u32 (length ids)) ++ entries ids []
unfolding payload build_identities
payload-build_identities ids = ap (drop 1) (put_identities-entries _ ids)

parse-entries :
    (ids : List Identity) (p : Bytes)
    → All IsWire ids
    → length ids < 2 ^ 32
    → p ≡ to_be_bytes (length ids) ++ entries ids []
    → length p < 2 ^ 64
    → parse_identities p ≡ some ids
unfolding parse_identities
parse-entries ids p h n e small =
    let start : Left (new p) (to_be_bytes (length ids) ++ entries ids []) = record {
      behind = e;
      bound = omega (arith, ap length e);
      small = small;
    } in
    let (read, left) = u32-Left (new p) (length ids) (entries ids []) n start in
    ground (
      arith,
      read,
      ap length e,
      length-append (to_be_bytes (length ids)) (entries ids []),
      length-to_be_bytes (length ids),
      length-entries ids,
      read_identities-Left ids (record { buf = p; pos = 0 + 4 }) [] h left,
    )

-- An identities answer that is built from entries which fit their 32-bit lengths is parsed back to
-- the same entries in the same order.
pub parse_identities-build_identities :
    (ids : List Identity)
    → All IsWire ids
    → length ids < 2 ^ 32
    → length (payload (build_identities ids)) < 2 ^ 64
    → parse_identities (payload (build_identities ids)) ≡ some ids
parse_identities-build_identities ids h n small =
    parse-entries ids _ h n
      (payload-build_identities ids
        ∙ ap (λ (k : ℕ). to_be_bytes k ++ entries ids []) (as_u32_of_lt (length ids) n))
      small
