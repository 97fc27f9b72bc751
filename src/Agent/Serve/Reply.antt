-- ===== src/Agent/Serve/Reply.antt =====
-- One answer for each request, and that rounds go on while the peers are healthy.
use nix_os_container_podman.Common.{
  suc, ◌≡◌, ap, ◌∙◌, Bool, true, ◌&&◌, List, ◌∷◌, Option, none, some, Bytes, length, Bool-cases,
  inl, inr, ◌==◌, arith,
}
use nix_os_container_podman.Agent.Proto.{
  Message, Identity, kind, payload, failure, sign_request, request_identities, identities_answer,
  parse_identities,
}
use nix_os_container_podman.Agent.Policy.{Policy, permits_blob}
use nix_os_container_podman.Agent.Serve.{
  Peers, received, Conn, Io, pure, continue, ◌>>=◌, ◌>>◌, send_client, send_upstream, receive,
  refresh, refuse, set_known, answer_identities, relay, forward, judge, handle_sign, handle,
  refused, knows,
}
use nix_os_container_podman.Agent.Serve.Quiet.{
  Quiet, send_upstream-Quiet, receive-Quiet, set_known-Quiet, refresh-Quiet,
}

-- If `m` asks for the next request, it has written one message to the client.
pub record Once (m : Io Bool) : Type 0 where
  pub at : (c : Conn) → (m c).0 ≡ some true → length (m c).1.to_client ≡ suc (length c.to_client)

-- The agent takes the connection, the peers take every write, and the agent answers.
pub record IsHealthy (peers : Peers) : Type 0 where
  pub accepts : peers.connects ≡ true
  pub upstream : (ms : List Message) → peers.upstream_takes ms ≡ true
  pub client : (ms : List Message) → peers.client_takes ms ≡ true
  pub answers : (ms : List Message) → (m : Message) × (peers.answer ms ≡ received m)

module _ {A : Type 0} where
  Once-bind : (m : Io A) (f : A → Io Bool) → Quiet m → ((a : A) → Once (f a)) → Once (m >>= f)
  unfolding ◌>>=◌
  Once-bind m f q k = record {
    at = λ c h. go (m c).0 (m c).1 h ∙ ap (λ ms. suc (length ms)) (q.at c);
  }
    where
      go :
          (r : Option A) (c : Conn)
          → (continue r f c).0 ≡ some true
          → length (continue r f c).1.to_client ≡ suc (length c.to_client)
      go none c h = cc
      go (some a) c h = (k a).at c h

module _ (peers : Peers) where
  send-Once : (m : Message) → Once (do send_client peers m; pure true)
  unfolding send_client ◌>>=◌
  send-Once m = record { at = λ c h. ground arith }

  refuse-Once : Once (refuse peers)
  unfolding refuse
  refuse-Once = send-Once failure

  module _ (policy : Policy) where
    answer_identities-Once : (o : Option (List Identity)) → Once (answer_identities peers policy o)
    unfolding answer_identities
    answer_identities-Once none = refuse-Once
    answer_identities-Once (some ids) = Once-bind _ _ (set_known-Quiet peers _) (λ _. send-Once _)

    relay-Once : (req : Message) (o : Option Message) → Once (relay peers policy req o)
    unfolding relay
    relay-Once req none = record { at = λ c h. cc }
    relay-Once req (some resp) =
        elim (Bool-cases (kind req == request_identities && kind resp == identities_answer)) [
          | inl list ↦ rw list (answer_identities-Once _)
          | inr other ↦ rw other (send-Once resp)
        ]

    forward-Once : (req : Message) → Once (forward peers policy req)
    unfolding forward
    forward-Once req =
        Once-bind _ _ (send_upstream-Quiet peers req)
          (λ _. Once-bind _ _ (receive-Quiet peers) (relay-Once req))

    judge-Once : (req : Message) (b : Bytes) → Once (judge peers policy req b)
    unfolding judge
    judge-Once req b = record {
      at = λ c h. elim (Bool-cases (permits_blob policy b c.known)) [
        | inl permitted ↦ rw permitted ((forward-Once req).at c (rw permitted at h))
        | inr forbidden ↦ rw forbidden (refuse-Once.at c (rw forbidden at h))
      ];
    }

    handle_sign-Once : (req : Message) (o : Option Bytes) → Once (handle_sign peers policy req o)
    unfolding handle_sign
    handle_sign-Once req none = refuse-Once
    handle_sign-Once req (some b) = Once-bind _ _ (refresh-Quiet peers b) (λ _. judge-Once req b)

    pub handle-Once : (allow_ext : Bool) (req : Message) → Once (handle peers policy allow_ext req)
    unfolding handle
    handle-Once allow_ext req = elim (Bool-cases (refused allow_ext req)) [
      | inl no_way ↦ rw no_way refuse-Once
      | inr passed ↦ rw passed (elim (Bool-cases (kind req == sign_request)) [
        | inl sign ↦ rw sign (handle_sign-Once req _)
        | inr other ↦ rw other (forward-Once req)
      ])
    ]

    -- Under healthy peers every round goes on.
    module _ (healthy : IsHealthy peers) where
      send-goes : (m : Message) (c : Conn) → ((do send_client peers m; pure true) c).0 ≡ some true
      unfolding send_client ◌>>=◌
      send-goes m c = rw (healthy.client (m ∷ c.to_client))

      refuse-goes : (c : Conn) → (refuse peers c).0 ≡ some true
      unfolding refuse
      refuse-goes c = send-goes failure c

      answer_identities-goes :
          (o : Option (List Identity)) (c : Conn)
          → (answer_identities peers policy o c).0 ≡ some true
      unfolding answer_identities ◌>>=◌ set_known
      answer_identities-goes none c = refuse-goes c
      answer_identities-goes (some ids) c = send-goes _ _

      relay-goes :
          (req resp : Message) (c : Conn) → (relay peers policy req (some resp) c).0 ≡ some true
      unfolding relay
      relay-goes req resp c =
          elim (Bool-cases (kind req == request_identities && kind resp == identities_answer)) [
            | inl list ↦ rw list (answer_identities-goes (parse_identities (payload resp)) c)
            | inr other ↦ rw other (send-goes resp c)
          ]

      received-goes :
          (req : Message) (c : Conn) → ((receive peers >>= relay peers policy req) c).0 ≡ some true
      unfolding ◌>>=◌ receive
      received-goes req c =
          let (resp, e) = healthy.answers c.to_upstream in
          rw (e, receive, ◌>>=◌) (relay-goes req resp c)

      forward-goes : (req : Message) (c : Conn) → (forward peers policy req c).0 ≡ some true
      unfolding forward ◌>>=◌ send_upstream
      forward-goes req c = rw (healthy.upstream (req ∷ c.to_upstream)) (received-goes req _)

      judge-goes :
          (req : Message) (b : Bytes) (c : Conn) → (judge peers policy req b c).0 ≡ some true
      unfolding judge
      judge-goes req b c = elim (Bool-cases (permits_blob policy b c.known)) [
        | inl permitted ↦ rw permitted (forward-goes req c)
        | inr forbidden ↦ rw forbidden (refuse-goes c)
      ]

      handle_sign-goes :
          (req : Message) (o : Option Bytes) (c : Conn)
          → (handle_sign peers policy req o c).0 ≡ some true
      unfolding handle_sign ◌>>=◌ refresh set_known
      handle_sign-goes req none c = refuse-goes c
      handle_sign-goes req (some b) c = elim (Bool-cases (knows b c.known)) [
        | inl seen ↦ rw seen (judge-goes req b c)
        | inr unseen ↦ rw unseen (judge-goes req b _)
      ]

      pub handle-goes :
          (allow_ext : Bool) (req : Message) (c : Conn)
          → (handle peers policy allow_ext req c).0 ≡ some true
      unfolding handle
      handle-goes allow_ext req c = elim (Bool-cases (refused allow_ext req)) [
        | inl no_way ↦ rw no_way (refuse-goes c)
        | inr passed ↦ rw passed (elim (Bool-cases (kind req == sign_request)) [
          | inl sign ↦ rw sign (handle_sign-goes req _ c)
          | inr other ↦ rw other (forward-goes req c)
        ])
      ]

-- A round that goes on to the next request has written exactly one message to the client.
pub handle_answers_once :
    (peers : Peers) (policy : Policy) (allow_ext : Bool) (req : Message) (c : Conn)
    → (handle peers policy allow_ext req c).0 ≡ some true
    → length (handle peers policy allow_ext req c).1.to_client ≡ suc (length c.to_client)
handle_answers_once peers policy allow_ext req c h = (handle-Once peers policy allow_ext req).at c h
