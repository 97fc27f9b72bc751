-- ===== src/Agent/Serve.antt =====
-- ssh-agent-filter/src/lib.rs: `serve`, one client connection. What the two sockets do is a parameter:
-- `Peers` says, from all that was written to a socket so far, whether the last write succeeds and
-- what the next `Message::read` gives. Diagnostics on stderr are left out.
pub mod Keeps
pub mod Admitted
pub mod Gate
pub mod Quiet
pub mod Reply
pub mod Filtered
pub mod Loop
use nix_os_container_podman.Common.{
  ℕ, zero, suc, Bool, true, false, not, ◌&&◌, ◌||◌, List, [], ◌∷◌, map, Option, none, some, Bytes,
  ◌==◌, any, filter, bytes_eq, length, if◌then◌else◌,
}
use nix_os_container_podman.Agent.Proto.{
  Message, kind, payload, failure, is_mutating, extension, sign_request, request_identities,
  identities_answer, Identity, parse_identities, build_identities, sign_request_key, Stream, Read,
  message, end_of_stream, invalid_data, unexpected_eof, io_error, read,
}
use nix_os_container_podman.Agent.Policy.{Policy, Known, permits, permits_blob}

pub data Received : Type 0 where
  received : Message → Received
  closed broken : Received

-- Every list has the latest message first; `connects` says whether the agent's socket takes a connection.
pub record Peers : Type 0 where
  pub connects : Bool
  pub answer : List Message → Received
  pub upstream_takes : List Message → Bool
  pub client_takes : List Message → Bool

pub record Conn : Type 0 where
  pub known : Known
  pub to_client : List Message
  pub to_upstream : List Message

-- `none` is an `io::Error` that `?` returns.
abbrev pub Io : Type 0 → Type 0
Io A = Conn → Option A × Conn

abbrev pub pure : {A : Type 0} → A → Io A
pure a c = (some a, c)

abbrev pub continue : {A B : Type 0} → Option A → (A → Io B) → Io B
continue none f c = (none, c)
continue (some a) f c = f a c

infixl 5 ◌>>=◌ ◌>>◌
unfoldable pub ◌>>=◌ : {A B : Type 0} → Io A → (A → Io B) → Io B
◌>>=◌ m f c = let (r, c') = m c in continue r f c'

abbrev pub ◌>>◌ : {A B : Type 0} → Io A → Io B → Io B
m >> k = m >>= λ _. k

abbrev done : Bool → Option (Unit {0})
done b = if b then some tt else none

abbrev or_else : {A : Type 0} → Option A → A → A
or_else none a = a
or_else (some b) a = b

-- `r.unwrap_or_default()` of a `Result` with a list.
abbrev or_default : Io Known → Io Known
or_default m c = let (r, c') = m c in (some (or_else r []), c')

module _ (peers : Peers) where
  unfoldable pub send_client : Message → Io (Unit {0})
  send_client m c =
      (done (peers.client_takes (m ∷ c.to_client)), record c { to_client = m ∷ c.to_client })

  unfoldable pub send_upstream : Message → Io (Unit {0})
  send_upstream m c = (
    done (peers.upstream_takes (m ∷ c.to_upstream)),
    record c { to_upstream = m ∷ c.to_upstream },
  )

  -- `Message::read(&mut upstream)?`
  unfoldable pub receive : Io (Option Message)
  receive c = elim (peers.answer c.to_upstream) [
    | received m ↦ (some (some m), c)
    | closed ↦ (some none, c)
    | broken ↦ (none, c)
  ]

abbrev entry : Identity → Bytes × Bytes
entry id = (id.blob, id.comment)

-- The part of `fetch_identities` behind its read.
unfoldable pub listed : Option Message → Known
listed none = []
listed (some resp) =
    if not (kind resp == identities_answer)
    then []
    else map entry (or_else (parse_identities (payload resp)) [])

unfoldable pub knows : Bytes → Known → Bool
knows b known = any (λ e. bytes_eq (e.0) b) known

unfoldable pub set_known : Known → Io (Unit {0})
set_known known c = (some tt, record c { known = known })

module _ (peers : Peers) where
  unfoldable pub fetch_identities : Io Known
  unfolding listed
  fetch_identities = do
    send_upstream peers (record { body = request_identities ∷ [] })
    resp ← receive peers
    pure (listed resp)

  -- Asks upstream about a blob that no answer has listed.
  unfoldable pub refresh : Bytes → Io (Unit {0})
  unfolding fetch_identities knows set_known
  refresh b c =
      if knows b c.known
      then (some tt, c)
      else (do known ← or_default fetch_identities; set_known known) c

  -- `Message::failure().write(&mut client)?; continue`
  unfoldable pub refuse : Io Bool
  refuse = do send_client peers failure; pure true

module _ (peers : Peers) (policy : Policy) where
  -- An identities answer, recorded before it is filtered.
  unfoldable pub answer_identities : Option (List Identity) → Io Bool
  unfolding refuse set_known
  answer_identities none = refuse peers
  answer_identities (some ids) = do
    set_known (map entry ids)
    send_client peers (build_identities (filter (λ id. permits policy id.blob id.comment) ids))
    pure true

  -- Behind the read of the response to `req`; `false` is `return Ok(())`.
  unfoldable pub relay : Message → Option Message → Io Bool
  unfolding answer_identities
  relay req none = pure false
  relay req (some resp) =
      if kind req == request_identities && kind resp == identities_answer
      then answer_identities (parse_identities (payload resp))
      else (do send_client peers resp; pure true)

  unfoldable pub forward : Message → Io Bool
  unfolding relay
  forward req = do send_upstream peers req; resp ← receive peers; relay req resp

  unfoldable pub judge : Message → Bytes → Io Bool
  unfolding forward refuse
  judge req b c = if permits_blob policy b c.known then forward req c else refuse peers c

  unfoldable pub handle_sign : Message → Option Bytes → Io Bool
  unfolding refresh judge refuse
  handle_sign req none = refuse peers
  handle_sign req (some b) = do refresh peers b; judge req b

abbrev pub refused : Bool → Message → Bool
refused allow_ext req = is_mutating (kind req) || (kind req == extension && not allow_ext)

module _ (peers : Peers) (policy : Policy) (allow_ext : Bool) where
  -- One round of the loop; `true` goes on to the next request.
  unfoldable pub handle : Message → Io Bool
  unfolding refuse handle_sign forward
  handle req =
      if refused allow_ext req
      then refuse peers
      else if kind req == sign_request
      then handle_sign peers policy req (sign_request_key (payload req))
      else forward peers policy req

pub data End : Type 0 where
  finished failed out_of_fuel : End

-- The loop's control flow behind one round: `?`, `continue`, `return Ok(())`.
unfoldable pub next_round : (Stream → Conn → End × Conn) → Stream → Option Bool × Conn → End × Conn
next_round again rest (none, c) = (failed, c)
next_round again rest (some true, c) = again rest c
next_round again rest (some false, c) = (finished, c)

module _ (peers : Peers) (policy : Policy) (allow_ext : Bool) where
  -- The loop's body on what `Message::read(&mut client)?` gives.
  unfoldable pub round : (Stream → Conn → End × Conn) → Read → Conn → End × Conn
  unfolding next_round
  round again (message req rest) c = next_round again rest (handle peers policy allow_ext req c)
  round again end_of_stream c = (finished, c)
  round again invalid_data c = (failed, c)
  round again unexpected_eof c = (failed, c)
  round again io_error c = (failed, c)

  -- `while let Some(req) = Message::read(&mut client)?`, on fuel.
  unfoldable pub serve_loop : ℕ → Stream → Conn → End × Conn
  unfolding round
  serve_loop zero client c = (out_of_fuel, c)
  serve_loop (suc fuel) client c = round (serve_loop fuel) (read client) c

abbrev pub connected : Conn
connected = record { known = []; to_client = []; to_upstream = [] }

-- Every request takes bytes off the client's stream, so its length is enough fuel.
unfoldable pub serve : Peers → Policy → Bool → Stream → End × Conn
unfolding serve_loop handle
serve peers policy allow_ext client =
    if peers.connects
    then serve_loop peers policy allow_ext (suc (length client.bytes)) client connected
    else (failed, connected)
