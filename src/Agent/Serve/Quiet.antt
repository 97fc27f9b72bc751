-- ===== src/Agent/Serve/Quiet.antt =====
-- Actions of a connection that write nothing to its client.
use nix_os_container_podman.Common.{
  ◌≡◌, refl, ◌∙◌, true, ◌∷◌, Option, none, some, Bytes, Bool-cases, inl, inr, arith,
}
use nix_os_container_podman.Agent.Proto.{Message}
use nix_os_container_podman.Agent.Policy.{Known}
use nix_os_container_podman.Agent.Serve.{
  Peers, Conn, Io, pure, continue, ◌>>=◌, ◌>>◌, send_client, send_upstream, receive,
  fetch_identities, refresh, set_known, knows, or_default,
}

-- `m` writes nothing to the client.
pub record Quiet {A : Type 0} (m : Io A) : Type 0 where
  pub at : (c : Conn) → (m c).1.to_client ≡ c.to_client

module _ {A : Type 0} where
  pub Quiet-bind :
      {B : Type 0} (m : Io A) (f : A → Io B) → Quiet m → ((a : A) → Quiet (f a)) → Quiet (m >>= f)
  unfolding ◌>>=◌
  Quiet-bind {B} m f q k = record { at = λ c. go (m c).0 (m c).1 ∙ q.at c }
    where
      go : (r : Option A) (c : Conn) → (continue r f c).1.to_client ≡ c.to_client
      go none c = refl
      go (some a) c = (k a).at c

  pub Quiet-pure : (a : A) → Quiet (pure a)
  Quiet-pure a = record { at = λ c. refl }

module _ (peers : Peers) where
  pub send_upstream-Quiet : (m : Message) → Quiet (send_upstream peers m)
  unfolding send_upstream
  send_upstream-Quiet m = record { at = λ c. refl }

  pub receive-Quiet : Quiet (receive peers)
  unfolding receive
  receive-Quiet = record { at = λ c. ground arith }

  pub set_known-Quiet : (k : Known) → Quiet (set_known k)
  unfolding set_known
  set_known-Quiet k = record { at = λ c. refl }

  pub or_default-Quiet : (m : Io Known) → Quiet m → Quiet (or_default m)
  or_default-Quiet m q = record { at = q.at }

  pub ruleset quiet = (
    Quiet-bind, Quiet-pure, send_upstream-Quiet, receive-Quiet, set_known-Quiet, or_default-Quiet,
  )

  pub refresh-Quiet : (b : Bytes) → Quiet (refresh peers b)
  unfolding refresh fetch_identities
  refresh-Quiet b = record {
    at = λ c. elim (Bool-cases (knows b c.known)) [
      | inl seen ↦ rw seen
      | inr unseen ↦ rw unseen (asked.at c)
    ];
  }
    where
      asked : Quiet (do known ← or_default (fetch_identities peers); set_known known)
      asked = search quiet

  pub sent :
      (m : Message) (c : Conn)
      → ((do send_client peers m; pure true) c).1.to_client ≡ m ∷ c.to_client
  unfolding send_client ◌>>=◌
  sent m c = ground arith
