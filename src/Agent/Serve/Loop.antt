-- ===== src/Agent/Serve/Loop.antt =====
-- The loop of `serve` ends, and answers every request.
use nix_os_container_podman.Common.{
  ℕ, zero, suc, ◌+◌, ◌≤◌, ◌<◌, ◌≡◌, ◌≢◌, refl, Bool, true, false, List, [], ◌∷◌, ◌++◌, Option, none,
  some, Bytes, All, length, length-append, length-drop, take, drop, arith, Bool-cases, inl, inr,
}
use nix_os_container_podman.Agent.Proto.{
  Message, Stream, Read, message, end_of_stream, read, read_after, read_body, from_be_bytes, write,
  max_message,
}
use nix_os_container_podman.Agent.Proto.RoundTrip.{read-write}
use nix_os_container_podman.Agent.Policy.{Policy}
use nix_os_container_podman.Agent.Serve.{
  Peers, Conn, End, finished, out_of_fuel, handle, next_round, round, serve_loop, serve, connected,
}
use nix_os_container_podman.Agent.Serve.Reply.{handle-Once, IsHealthy, handle-goes}

read_after_shrinks :
    (o : Option ℕ) (bytes : Bytes) (broken : Bool) (m : Message) (rest : Stream)
    → read_after o bytes broken ≡ message m rest
    → length rest.bytes < length bytes
unfolding read_after read_body
read_after_shrinks none bytes broken m rest h = ground arith
read_after_shrinks (some len) bytes broken m rest h = ground (arith, length-drop len bytes)

-- A message that is read takes more than its header off the stream.
read_shrinks :
    (s : Stream) (m : Message) (rest : Stream)
    → read s ≡ message m rest
    → length rest.bytes < length s.bytes
unfolding read
read_shrinks s m rest h = omega (
  arith,
  length-drop 4 s.bytes,
  read_after_shrinks (from_be_bytes (take 4 s.bytes)) (drop 4 s.bytes) s.broken m rest h,
)

module _ (peers : Peers) (policy : Policy) (allow_ext : Bool) where
  next_round-ends :
      (again : Stream → Conn → End × Conn) (rest : Stream) (r : Option Bool) (c : Conn)
      → ((c : Conn) → (again rest c).0 ≢ out_of_fuel)
      → (next_round again rest (r, c)).0 ≢ out_of_fuel
  unfolding next_round
  next_round-ends again rest none c h e = cc
  next_round-ends again rest (some true) c h e = h c e
  next_round-ends again rest (some false) c h e = cc

  round-ends :
      (again : Stream → Conn → End × Conn) (r : Read) (c : Conn)
      → ((m : Message) (rest : Stream) (c : Conn)
          → r ≡ message m rest
          → (again rest c).0 ≢ out_of_fuel)
      → (round peers policy allow_ext again r c).0 ≢ out_of_fuel
  unfolding round
  round-ends again (message m rest) c h =
      next_round-ends again rest (handle peers policy allow_ext m c).0 _ (λ c. h m rest c refl)
  round-ends again end_of_stream c h = λ e. cc
  round-ends again _ c h = λ e. cc

  serve_loop-ends :
      (fuel : ℕ) (client : Stream) (c : Conn)
      → length client.bytes < fuel
      → (serve_loop peers policy allow_ext fuel client c).0 ≢ out_of_fuel
  unfolding serve_loop
  serve_loop-ends zero client c h = absurd (omega arith)
  serve_loop-ends (suc fuel) client c h =
      round-ends _ (read client) c
        λ m rest c e. serve_loop-ends fuel rest c (omega (arith, read_shrinks client m rest e))

-- The loop ends on every input: the fuel of `serve` is never used up.
pub serve-ends :
    (peers : Peers) (policy : Policy) (allow_ext : Bool) (client : Stream)
    → (serve peers policy allow_ext client).0 ≢ out_of_fuel
unfolding serve
serve-ends peers policy allow_ext client = elim (Bool-cases peers.connects) [
  | inl e ↦ simp e (
      serve_loop-ends peers policy allow_ext (suc (length client.bytes)) client connected
        (omega arith))
  | inr e ↦ simp e (λ h. cc h)
]

abbrev pub IsFrame : Message → Type 0
IsFrame m = (0 < length m.body) × (length m.body ≤ max_message)

abbrev pub frames : List Message → Bytes
frames [] = []
frames (m ∷ ms) = write m ++ frames ms

length-write : (m : Message) → 4 ≤ length (write m)
unfolding write
length-write m = omega arith

module _ (peers : Peers) (healthy : IsHealthy peers) (policy : Policy) (allow_ext : Bool) where
  serve_frames :
      (ms : List Message) (fuel : ℕ) (c : Conn)
      → All IsFrame ms
      → length (frames ms) < fuel
      → ((serve_loop peers policy allow_ext fuel (record { bytes = frames ms; broken = false }) c).0
          ≡ finished)
        × (length
              (serve_loop peers policy allow_ext fuel
                (record { bytes = frames ms; broken = false })
                c).1.to_client
            ≡ length c.to_client + length ms)
  unfolding serve_loop round next_round read
  serve_frames ms zero c f h = absurd (omega arith)
  serve_frames [] (suc fuel) c f h = (refl, omega arith)
  serve_frames (m ∷ ms) (suc fuel) c f h =
      let goes = handle-goes peers policy healthy allow_ext m c in
      let (ends, count) =
        serve_frames ms fuel (handle peers policy allow_ext m c).1 f.1
          (omega (arith, length-append (write m) (frames ms), length-write m)) in
      rw (read-write m (frames ms) false f.0.0 f.0.1, goes, next_round)
        (ends, omega (arith, count, (handle-Once peers policy allow_ext m).at c goes))

-- A client that sends whole frames of 1 to 262144 bytes and closes gets one message for each of them,
-- and `serve` returns `Ok`, if the agent takes the connection, the peers take every write and the
-- agent answers every request.
pub serve_answers :
    (peers : Peers) (policy : Policy) (allow_ext : Bool) (ms : List Message)
    → IsHealthy peers
    → All IsFrame ms
    → ((serve peers policy allow_ext (record { bytes = frames ms; broken = false })).0 ≡ finished)
      × (length
            (serve peers policy allow_ext
              (record { bytes = frames ms; broken = false })).1.to_client
          ≡ length ms)
unfolding serve
serve_answers peers policy allow_ext ms healthy f =
    let (ends, count) =
      serve_frames peers healthy policy allow_ext ms (suc (length (frames ms))) connected f
        (omega arith) in
    simp healthy.accepts (ends, omega (arith, count))
