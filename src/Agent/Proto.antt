-- ===== src/Agent/Proto.antt =====
-- ssh-agent-filter/src/proto.rs: the wire format of the agent protocol. `usize` has 64 bits, and a
-- slice is a list of bytes. What a `Read` still has to give is a `Stream`.
pub mod RoundTrip
use nix_os_container_podman.Common.{
  ℕ, zero, suc, ◌+◌, ◌-◌, ◌*◌, ◌/◌, ◌%◌, ◌^◌, ◌≤◌, ◌<◌, Bool, true, false, ◌&&◌, ◌||◌, List, [],
  ◌∷◌, ◌++◌, Option, none, some, Bytes, length, take, drop, ltb, leb, ◌==◌, if◌then◌else◌, ◌>>=◌,
}

abbrev pub request_identities : ℕ
request_identities = 11

abbrev pub sign_request : ℕ
sign_request = 13

abbrev pub agent_failure : ℕ
agent_failure = 5

abbrev pub identities_answer : ℕ
identities_answer = 12

abbrev pub extension : ℕ
extension = 27

unfoldable pub is_mutating : ℕ → Bool
is_mutating kind =
    kind == 17
    || kind == 25
    || kind == 18
    || kind == 19
    || kind == 20
    || kind == 21
    || kind == 26
    || kind == 22
    || kind == 23

-- A whole message without its length prefix.
pub record Message : Type 0 where
  pub body : Bytes

abbrev first_or : ℕ → Bytes → ℕ
first_or d [] = d
first_or d (b ∷ bs) = b

unfoldable pub kind : Message → ℕ
kind m = first_or 0 m.body

unfoldable pub payload : Message → Bytes
payload m = drop 1 m.body

unfoldable pub failure : Message
failure = record { body = agent_failure ∷ [] }

-- `u32::to_be_bytes`, of a length cut to 32 bits first (`as u32`).
unfoldable pub to_be_bytes : ℕ → Bytes
to_be_bytes n = n / 2 ^ 24 % 256 ∷ n / 2 ^ 16 % 256 ∷ n / 2 ^ 8 % 256 ∷ n % 256 ∷ []

abbrev pub as_u32 : ℕ → ℕ
as_u32 n = n % 2 ^ 32

unfoldable pub from_be_bytes : Bytes → Option ℕ
from_be_bytes (a ∷ b ∷ c ∷ d ∷ []) = some (a * 2 ^ 24 + b * 2 ^ 16 + c * 2 ^ 8 + d)
from_be_bytes _ = none

-- The bytes that a reader gives before it is closed, or before an I/O error if it is `broken`.
pub record Stream : Type 0 where
  pub bytes : Bytes
  pub broken : Bool

pub data Read : Type 0 where
  message : Message → Stream → Read
  end_of_stream : Read
  invalid_data unexpected_eof io_error : Read

abbrev pub max_message : ℕ
max_message = 256 * 1024

-- The second `read_exact` of `Message::read`, for a body of `len` bytes.
unfoldable pub read_body : ℕ → Bytes → Bool → Read
read_body len bytes broken =
    if leb len (length bytes)
    then message (record { body = take len bytes })
        (record { bytes = drop len bytes; broken = broken })
    else if broken
    then io_error
    else unexpected_eof

-- `Message::read` behind its header of four bytes.
unfoldable pub read_after : Option ℕ → Bytes → Bool → Read
read_after none bytes broken = if broken then io_error else end_of_stream
read_after (some len) bytes broken =
    let body = read_body len bytes broken in
    if len == 0 || ltb max_message len then invalid_data else body

unfoldable pub read : Stream → Read
unfolding read_body read_after from_be_bytes
read r = read_after (from_be_bytes (take 4 r.bytes)) (drop 4 r.bytes) r.broken

unfoldable pub write : Message → Bytes
unfolding to_be_bytes
write m = to_be_bytes (as_u32 (length m.body)) ++ m.body

-- A cursor over a message payload.
pub record Reader : Type 0 where
  pub buf : Bytes
  pub pos : ℕ

abbrev pub new : Bytes → Reader
new buf = record { buf = buf; pos = 0 }

abbrev pub checked_add : ℕ → ℕ → Option ℕ
checked_add a b = if ltb (a + b) (2 ^ 64) then some (a + b) else none

-- `buf.get(pos..end)`
abbrev pub get_range : Bytes → ℕ → ℕ → Option Bytes
get_range buf pos end =
    if leb pos end && leb end (length buf) then some (take (end - pos) (drop pos buf)) else none

unfoldable pub u32 : Reader → Option (ℕ × Reader)
unfolding from_be_bytes
u32 r = do
  end ← checked_add r.pos 4
  word ← get_range r.buf r.pos end
  v ← from_be_bytes word
  some (v, record r { pos = end })

unfoldable pub string : Reader → Option (Bytes × Reader)
unfolding u32
string r = do
  (n, r') ← u32 r
  end ← checked_add r'.pos n
  s ← get_range r'.buf r'.pos end
  some (s, record r' { pos = end })

unfoldable pub put_string : Bytes → Bytes → Bytes
unfolding to_be_bytes
put_string out s = (out ++ to_be_bytes (as_u32 (length s))) ++ s

-- One entry of an identities answer.
pub record Identity : Type 0 where
  pub blob : Bytes
  pub comment : Bytes

-- The loop of `parse_identities`, `n` entries from the end.
unfoldable pub read_identities : ℕ → Reader → Option (List Identity)
read_identities zero r = some []
read_identities (suc n) r = do
  (blob, r₁) ← string r
  (comment, r₂) ← string r₁
  rest ← read_identities n r₂
  some (record { blob = blob; comment = comment } ∷ rest)

unfoldable pub parse_identities : Bytes → Option (List Identity)
unfolding read_identities
parse_identities payload = do
  (n, r) ← u32 (new payload)
  let ids = read_identities n r
  if ltb (length payload / 8 + 1) n then none else ids

unfoldable pub put_identities : Bytes → List Identity → Bytes
unfolding put_string
put_identities body [] = body
put_identities body (id ∷ ids) =
    put_identities (put_string (put_string body id.blob) id.comment) ids

unfoldable pub build_identities : List Identity → Message
unfolding put_identities to_be_bytes
build_identities ids = record {
  body = put_identities (identities_answer ∷ to_be_bytes (as_u32 (length ids))) ids;
}

unfoldable pub sign_request_key : Bytes → Option Bytes
unfolding string
sign_request_key payload = do (key, r) ← string (new payload); some key
