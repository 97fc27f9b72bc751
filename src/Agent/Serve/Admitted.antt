-- ===== src/Agent/Serve/Admitted.antt =====
-- ssh-agent-filter/src/lib.rs: which requests may reach the agent, and that `forward` keeps to it.
use nix_os_container_podman.Common.{
  ◌≡◌, ◌⊎◌, refl, ◌∙◌, Bool, true, false, ◌&&◌, List, [], ◌∷◌, map, Option, none, some, Bytes,
  Bool-cases, inl, inr, ◌==◌, arith, if◌then◌else◌,
}
use nix_os_container_podman.Agent.Proto.{
  Message, Identity, kind, payload, is_mutating, extension, sign_request, request_identities,
  identities_answer, parse_identities, sign_request_key,
}
use nix_os_container_podman.Agent.Policy.{Policy, Known, permits_blob}
use nix_os_container_podman.Agent.Serve.{
  pure, ◌>>◌, Peers, Received, received, closed, broken, Conn, ◌>>=◌, send_client, send_upstream,
  receive, listed, refuse, set_known, answer_identities, relay, forward, knows, entry,
}
use nix_os_container_podman.Agent.Serve.Keeps.{Keeps, keeps_rules}

abbrev pub own_request : Message
own_request = record { body = request_identities ∷ [] }

-- The identities that an answer lists, if it answers a request for them and can be parsed.
abbrev pub list_in : Message → Received → Option (List Identity)
list_in m (received resp) =
    if kind m == request_identities && kind resp == identities_answer
    then parse_identities (payload resp)
    else none
list_in m closed = none
list_in m broken = none

-- What a fetch makes known.
abbrev pub fetched : Option (List Identity) → Known
fetched none = []
fetched (some ids) = map entry ids

pub listed-fetched :
    (resp : Message) → listed (some resp) ≡ fetched (list_in own_request (received resp))
unfolding listed kind
listed-fetched resp = parsed (parse_identities (payload resp)) refl
  where
    parsed :
        (o : Option (List Identity))
        → parse_identities (payload resp) ≡ o
        → listed (some resp) ≡ fetched (list_in own_request (received resp))
    parsed none e = ground (arith, e)
    parsed (some ids) e = ground (arith, e)

module _ (peers : Peers) where
  -- The identities list that the agent gives for the message `m`, which comes behind the messages `ms`.
  abbrev pub heard : Message → List Message → Option (List Identity)
  heard m ms = if peers.upstream_takes (m ∷ ms) then list_in m (peers.answer (m ∷ ms)) else none

  -- What the messages to the agent, the latest first, and its answers make known: the last list, unless a
  -- later request for one got none.
  pub data MakesKnown : List Message → Known → Type 0 where
    nothing : MakesKnown [] []
    lists :
        {m : Message} {ms : List Message} {known : Known} (ids : List Identity)
        → MakesKnown ms known
        → heard m ms ≡ some ids
        → MakesKnown (m ∷ ms) (map entry ids)
    stays :
        {m : Message} {ms : List Message} {known : Known}
        → MakesKnown ms known
        → heard m ms ≡ none
        → MakesKnown (m ∷ ms) known
    forgets :
        {m : Message} {ms : List Message} {known : Known}
        → MakesKnown ms known
        → heard m ms ≡ none
        → kind m ≡ request_identities
        → MakesKnown (m ∷ ms) []

-- The latest message asks for the identities.
abbrev pub HasAsked : List Message → Type 0
HasAsked [] = ⊥
HasAsked (m ∷ ms) = kind m ≡ request_identities

module _ (peers : Peers) (policy : Policy) (allow_ext : Bool) where
  -- A request that the policy lets through to the agent behind the messages `ms`.
  pub record IsAdmitted (m : Message) (ms : List Message) : Type 0 where
    pub harmless : is_mutating (kind m) ≡ false
    pub extension : kind m ≡ extension → allow_ext ≡ true
    pub signs :
        kind m ≡ sign_request
        → (b : Bytes) × (known : Known) × (sign_request_key (payload m) ≡ some b)
          × MakesKnown peers ms known
          × ((knows b known ≡ true) ⊎ HasAsked ms)
          × (permits_blob policy b known ≡ true)

  -- So is each message, behind those before it.
  abbrev pub AllAdmitted : List Message → Type 0
  AllAdmitted [] = Unit
  AllAdmitted (m ∷ ms) = IsAdmitted m ms × AllAdmitted ms

  abbrev pub IsGuarded : Conn → Type 0
  IsGuarded c = AllAdmitted c.to_upstream × MakesKnown peers c.to_upstream c.known

  send_client-IsGuarded : (m : Message) → Keeps IsGuarded (send_client peers m)
  unfolding send_client
  send_client-IsGuarded m = record { at = λ c h. h }

  ruleset guarded = (keeps_rules, send_client-IsGuarded)

  pub refuse-IsGuarded : Keeps IsGuarded (refuse peers)
  unfolding refuse
  refuse-IsGuarded = search guarded

  send-IsGuarded : (m : Message) → Keeps IsGuarded (do send_client peers m; pure true)
  send-IsGuarded m = search guarded

  unfoldable pub sent : Message → Conn → Conn
  sent m c = record c { to_upstream = m ∷ c.to_upstream }

  list_in-other :
      (req : Message) (resp : Message)
      → (kind req == request_identities && kind resp == identities_answer) ≡ false
      → list_in req (received resp) ≡ none
  list_in-other req resp e = rw e refl

  pub heard-taken :
      (req : Message) (ms : List Message) (r : Received)
      → peers.upstream_takes (req ∷ ms) ≡ true
      → peers.answer (req ∷ ms) ≡ r
      → heard peers req ms ≡ list_in req r
  heard-taken req ms r t e = rw (t, e) refl

  module _ (req : Message) (c : Conn) (g : IsGuarded c) (a : IsAdmitted req c.to_upstream) where
    stays-IsGuarded : heard peers req c.to_upstream ≡ none → IsGuarded (sent req c)
    unfolding sent
    stays-IsGuarded h = ((a, g.0), stays g.1 h)

    answer_identities-IsGuarded :
        (o : Option (List Identity))
        → heard peers req c.to_upstream ≡ o
        → IsGuarded (answer_identities peers policy o (sent req c)).1
    unfolding answer_identities set_known ◌>>=◌ sent
    answer_identities-IsGuarded none h = refuse-IsGuarded.at _ (stays-IsGuarded h)
    answer_identities-IsGuarded (some ids) h = (send-IsGuarded _).at _ ((a, g.0), lists ids g.1 h)

    relay-IsGuarded :
        (resp : Message)
        → heard peers req c.to_upstream ≡ list_in req (received resp)
        → IsGuarded (relay peers policy req (some resp) (sent req c)).1
    unfolding relay
    relay-IsGuarded resp h =
        elim (Bool-cases (kind req == request_identities && kind resp == identities_answer)) [
          | inl list ↦
              rw list
                (answer_identities-IsGuarded (parse_identities (payload resp)) (h ∙ (rw list refl)))
          | inr other ↦
              rw other
                ((send-IsGuarded resp).at _ (stays-IsGuarded (h ∙ list_in-other req resp other)))
        ]

    received-IsGuarded :
        (r : Received)
        → peers.answer (req ∷ c.to_upstream) ≡ r
        → heard peers req c.to_upstream ≡ list_in req r
        → IsGuarded ((receive peers >>= relay peers policy req) (sent req c)).1
    unfolding ◌>>=◌ receive relay sent
    received-IsGuarded (received resp) e h = rw (e, receive, ◌>>=◌) (relay-IsGuarded resp h)
    received-IsGuarded closed e h = rw (e, receive, ◌>>=◌) (stays-IsGuarded h)
    received-IsGuarded broken e h = rw (e, receive, ◌>>=◌) (stays-IsGuarded h)

    pub forward-IsGuarded : IsGuarded (forward peers policy req c).1
    unfolding forward ◌>>=◌ send_upstream sent
    forward-IsGuarded = elim (Bool-cases (peers.upstream_takes (req ∷ c.to_upstream))) [
      | inl t ↦ rw t (
          received-IsGuarded (peers.answer (req ∷ c.to_upstream)) refl
            (heard-taken req c.to_upstream (peers.answer (req ∷ c.to_upstream)) t refl))
      | inr f ↦ rw f (stays-IsGuarded (rw f refl))
    ]
