-- ===== src/Agent/Serve/Gate.antt =====
-- What reaches the upstream agent.
use nix_os_container_podman.Common.{
  ℕ, zero, suc, ◌≡◌, ◌⊎◌, refl, Bool, true, false, List, ◌∷◌, Option, none, some, Bytes, length,
  Bool-cases, inl, inr, ◌==◌, arith,
}
use nix_os_container_podman.Agent.Proto.{
  Message, Identity, kind, payload, is_mutating, sign_request, request_identities, sign_request_key,
  Stream, Read, message, read,
}
use nix_os_container_podman.Agent.Policy.{Policy, Known, permits_blob}
use nix_os_container_podman.Agent.Serve.{
  Peers, Received, received, closed, broken, Conn, ◌>>=◌, send_upstream, receive, fetch_identities,
  refresh, set_known, judge, handle_sign, handle, serve_loop, serve, connected, refused, knows,
  or_default, next_round, round, End,
}
use nix_os_container_podman.Agent.Serve.Admitted.{
  own_request, list_in, fetched, listed-fetched, heard, MakesKnown, nothing, lists, forgets,
  HasAsked, IsAdmitted, AllAdmitted, IsGuarded, refuse-IsGuarded, sent, heard-taken,
  forward-IsGuarded,
}

module _ (peers : Peers) (policy : Policy) (allow_ext : Bool) where
  own_request-IsAdmitted : (ms : List Message) → IsAdmitted peers policy allow_ext own_request ms
  unfolding kind is_mutating
  own_request-IsAdmitted ms = record {
    harmless = refl;
    extension = λ e. absurd (omega arith);
    signs = λ e. absurd (omega arith);
  }

  own_request-asks : kind own_request ≡ request_identities
  unfolding kind
  own_request-asks = refl

  fetched-MakesKnown :
      (ms : List Message) (known : Known) (o : Option (List Identity))
      → MakesKnown peers ms known
      → heard peers own_request ms ≡ o
      → MakesKnown peers (own_request ∷ ms) (fetched o)
  fetched-MakesKnown ms known none makes h = forgets makes h own_request-asks
  fetched-MakesKnown ms known (some ids) makes h = lists ids makes h

  -- What `refresh` ends with.
  abbrev IsFresh : Bytes → Conn → Type 0
  IsFresh b c =
      IsGuarded peers policy allow_ext c × ((knows b c.known ≡ true) ⊎ HasAsked c.to_upstream)

  asked-IsFresh :
      (b : Bytes) (c : Conn) (o : Option (List Identity))
      → IsGuarded peers policy allow_ext c
      → heard peers own_request c.to_upstream ≡ o
      → IsFresh b (record (sent peers policy allow_ext own_request c) { known = fetched o })
  unfolding sent
  asked-IsFresh b c o g h = (
    ((own_request-IsAdmitted c.to_upstream, g.0), fetched-MakesKnown c.to_upstream c.known o g.1 h),
    inr own_request-asks,
  )

  answered-IsFresh :
      (b : Bytes) (c : Conn) (r : Received)
      → IsGuarded peers policy allow_ext c
      → peers.upstream_takes (own_request ∷ c.to_upstream) ≡ true
      → peers.answer (own_request ∷ c.to_upstream) ≡ r
      → IsFresh b ((do known ← or_default (fetch_identities peers); set_known known) c).1
  unfolding ◌>>=◌ fetch_identities set_known receive send_upstream sent
  answered-IsFresh b c (received resp) g t e =
      let h = heard-taken peers policy allow_ext own_request c.to_upstream (received resp) t e in
      rw (t, e, receive, send_upstream, ◌>>=◌, listed-fetched resp)
        (asked-IsFresh b c (list_in own_request (received resp)) g h)
  answered-IsFresh b c closed g t e =
      rw (t, e, receive, send_upstream, ◌>>=◌)
        (asked-IsFresh b c none g
          (heard-taken peers policy allow_ext own_request c.to_upstream closed t e))
  answered-IsFresh b c broken g t e =
      rw (t, e, receive, send_upstream, ◌>>=◌)
        (asked-IsFresh b c none g
          (heard-taken peers policy allow_ext own_request c.to_upstream broken t e))

  refresh-IsFresh :
      (b : Bytes) (c : Conn) → IsGuarded peers policy allow_ext c → IsFresh b (refresh peers b c).1
  unfolding refresh ◌>>=◌ fetch_identities set_known send_upstream sent
  refresh-IsFresh b c g = elim (Bool-cases (knows b c.known)) [
    | inl seen ↦ rw seen (g, inl seen)
    | inr unseen ↦
        rw unseen (elim (Bool-cases (peers.upstream_takes (own_request ∷ c.to_upstream))) [
          | inl t ↦ answered-IsFresh b c (peers.answer (own_request ∷ c.to_upstream)) g t refl
          | inr f ↦ rw f (asked-IsFresh b c none g (rw f refl))
        ])
  ]

  refresh-goes : (b : Bytes) (c : Conn) → (refresh peers b c).0 ≡ some tt
  unfolding refresh ◌>>=◌ set_known
  refresh-goes b c = ground arith

  judge-IsGuarded :
      (req : Message) (b : Bytes) (c : Conn)
      → is_mutating (kind req) ≡ false
      → kind req ≡ sign_request
      → sign_request_key (payload req) ≡ some b
      → IsFresh b c
      → IsGuarded peers policy allow_ext (judge peers policy req b c).1
  unfolding judge
  judge-IsGuarded req b c harmless k e (g, known_or_asked) =
      elim (Bool-cases (permits_blob policy b c.known)) [
        | inl permitted ↦ rw permitted (
            forward-IsGuarded peers policy allow_ext req c g (record {
              harmless = harmless;
              extension = λ e. absurd (omega arith);
              signs = λ _. (b, c.known, e, g.1, known_or_asked, permitted);
            }))
        | inr forbidden ↦ rw forbidden ((refuse-IsGuarded peers policy allow_ext).at c g)
      ]

  handle_sign-IsGuarded :
      (req : Message) (o : Option Bytes) (c : Conn)
      → is_mutating (kind req) ≡ false
      → kind req ≡ sign_request
      → sign_request_key (payload req) ≡ o
      → IsGuarded peers policy allow_ext c
      → IsGuarded peers policy allow_ext (handle_sign peers policy req o c).1
  unfolding handle_sign ◌>>=◌
  handle_sign-IsGuarded req none c harmless k e g = (refuse-IsGuarded peers policy allow_ext).at c g
  handle_sign-IsGuarded req (some b) c harmless k e g =
      rw (refresh-goes b c)
        (judge-IsGuarded req b (refresh peers b c).1 harmless k e (refresh-IsFresh b c g))

  handle-IsGuarded :
      (req : Message) (c : Conn)
      → IsGuarded peers policy allow_ext c
      → IsGuarded peers policy allow_ext (handle peers policy allow_ext req c).1
  unfolding handle
  handle-IsGuarded req c g = elim (Bool-cases (refused allow_ext req)) [
    | inl no_way ↦ rw no_way ((refuse-IsGuarded peers policy allow_ext).at c g)
    | inr passed ↦ rw passed (elim (Bool-cases (kind req == sign_request)) [
      | inl sign ↦ rw sign (handle_sign-IsGuarded req _ c (ground arith) (ground arith) refl g)
      | inr other ↦ rw other (
          forward-IsGuarded peers policy allow_ext req c g (record {
            harmless = ground arith;
            extension = λ e. ground arith;
            signs = λ e. absurd (ground arith);
          }))
    ])
  ]

  next_round-IsGuarded :
      (again : Stream → Conn → End × Conn)
      → ((rest : Stream) (c : Conn)
          → IsGuarded peers policy allow_ext c
          → IsGuarded peers policy allow_ext (again rest c).1)
      → (rest : Stream) (r : Option Bool) (c : Conn) → IsGuarded peers policy allow_ext c
      → IsGuarded peers policy allow_ext (next_round again rest (r, c)).1
  unfolding next_round
  next_round-IsGuarded again keep rest none c h = h
  next_round-IsGuarded again keep rest (some true) c h = keep rest c h
  next_round-IsGuarded again keep rest (some false) c h = h

  round-IsGuarded :
      (again : Stream → Conn → End × Conn)
      → ((rest : Stream) (c : Conn)
          → IsGuarded peers policy allow_ext c
          → IsGuarded peers policy allow_ext (again rest c).1)
      → (r : Read) (c : Conn) → IsGuarded peers policy allow_ext c
      → IsGuarded peers policy allow_ext (round peers policy allow_ext again r c).1
  unfolding round
  round-IsGuarded again keep (message req rest) c h =
      next_round-IsGuarded again keep rest (handle peers policy allow_ext req c).0 _
        (handle-IsGuarded req c h)
  round-IsGuarded again keep _ c h = h

  serve_loop-IsGuarded :
      (fuel : ℕ) (client : Stream) (c : Conn)
      → IsGuarded peers policy allow_ext c
      → IsGuarded peers policy allow_ext (serve_loop peers policy allow_ext fuel client c).1
  unfolding serve_loop
  serve_loop-IsGuarded zero client c h = h
  serve_loop-IsGuarded (suc fuel) client c h =
      round-IsGuarded (serve_loop peers policy allow_ext fuel) (serve_loop-IsGuarded fuel)
        (read client) c h

-- On every connection, whatever the client and the agent send: each message written to the upstream agent
-- is of no mutating kind, is an extension request only if extensions are allowed, and is a sign request
-- only for a key that it names and that the policy permits, given the comments of the agent's last
-- identities list on this connection, or no comments if there was none or a later request for one got none;
-- and either that list has the key or the message right before asked for a list.
pub serve-IsGuarded :
    (peers : Peers) (policy : Policy) (allow_ext : Bool) (client : Stream)
    → AllAdmitted peers policy allow_ext (serve peers policy allow_ext client).1.to_upstream
unfolding serve
serve-IsGuarded peers policy allow_ext client = elim (Bool-cases peers.connects) [
  | inl e ↦
      simp e
        (serve_loop-IsGuarded peers policy allow_ext (suc (length client.bytes)) client connected
          (tt, nothing)).0
  | inr e ↦ simp e tt
]
