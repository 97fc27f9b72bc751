-- ===== src/Agent/Serve/Filtered.antt =====
-- The identities answers that a client gets are filtered.
use nix_os_container_podman.Common.{
  ℕ, ◌≡◌, refl, ap, sym, ◌∙◌, Bool, true, false, not, ◌&&◌, ◌||◌, List, ◌∷◌, filter, Option, none,
  some, All, All-filter, length, Bool-cases, inl, inr, ◌==◌, arith,
}
use nix_os_container_podman.Agent.Proto.{
  Message, Identity, kind, payload, failure, is_mutating, extension, sign_request,
  request_identities, identities_answer, parse_identities, build_identities,
}
use nix_os_container_podman.Agent.Policy.{Policy, permits}
use nix_os_container_podman.Agent.Serve.{
  Peers, Conn, Io, continue, ◌>>=◌, refuse, answer_identities, relay, forward, handle,
}
use nix_os_container_podman.Agent.Serve.Quiet.{
  Quiet, send_upstream-Quiet, receive-Quiet, set_known-Quiet, sent,
}

module _ (peers : Peers) (policy : Policy) where
  abbrev Permitted : Identity → Type 0
  Permitted id = permits policy id.blob id.comment ≡ true

  -- What an action newly writes to the client, if it is an identities answer, lists permitted keys.
  abbrev Filters : Io Bool → Type 0
  Filters m =
      (c : Conn) (msg : Message)
      → (m c).1.to_client ≡ msg ∷ c.to_client
      → kind msg ≡ identities_answer
      → (ids : List Identity) × (msg ≡ build_identities ids) × All Permitted ids

  silent :
      (c : Conn) (ms : List Message) (msg : Message) → ms ≡ c.to_client → ms ≡ msg ∷ c.to_client → ⊥
  silent c ms msg same e = omega (arith, ap length same, ap length e)

  Filters-bind :
      {A : Type 0} (m : Io A) (f : A → Io Bool)
      → Quiet m
      → ((a : A) → Filters (f a))
      → Filters (m >>= f)
  unfolding ◌>>=◌
  Filters-bind {A} m f q k c msg e is_list = go (m c).0 (m c).1 (q.at c) e
    where
      go :
          (r : Option A) (c' : Conn)
          → c'.to_client ≡ c.to_client
          → (continue r f c').1.to_client ≡ msg ∷ c.to_client
          → (ids : List Identity) × (msg ≡ build_identities ids) × All Permitted ids
      go none c' same e = absurd (silent c _ msg same e)
      go (some a) c' same e = k a c' msg (e ∙ ap (λ ms. msg ∷ ms) (sym same)) is_list

  head_eq : {a b : Message} {xs ys : List Message} → a ∷ xs ≡ b ∷ ys → a ≡ b
  head_eq e = cc

  answer_identities-Filters :
      (o : Option (List Identity)) → Filters (answer_identities peers policy o)
  unfolding answer_identities refuse kind failure
  answer_identities-Filters none =
      λ c msg e k. absurd (omega (arith, ap kind (head_eq (sym (sent peers failure c) ∙ e)), k))
  answer_identities-Filters (some ids) = Filters-bind _ _ (set_known-Quiet peers _) λ _ c msg e k. (
    filter (λ id. permits policy id.blob id.comment) ids,
    sym (head_eq (sym (sent peers _ c) ∙ e)),
    All-filter _ ids,
  )

  relay-Filters :
      (req : Message) (o : Option Message)
      → kind req ≡ request_identities
      → Filters (relay peers policy req o)
  unfolding relay
  relay-Filters req none r c msg e k = absurd (silent c _ msg refl e)
  relay-Filters req (some resp) r c msg e k =
      elim (Bool-cases (kind req == request_identities && kind resp == identities_answer)) [
        | inl list ↦
            answer_identities-Filters (parse_identities (payload resp)) c msg (rw list at e) k
        | inr other ↦ absurd (
            ground
              (arith, r, k, ap kind (head_eq (sym (sent peers resp c) ∙ (rw other at e))), other))
      ]

  forward-Filters :
      (req : Message) → kind req ≡ request_identities → Filters (forward peers policy req)
  unfolding forward
  forward-Filters req r =
      Filters-bind _ _ (send_upstream-Quiet peers req)
        λ _. Filters-bind _ _ (receive-Quiet peers) λ resp. relay-Filters req resp r

  -- If the round for a request for the identities writes a message to the client and that message is
  -- an identities answer, then it was built from a list of identities each of which the policy
  -- permits.
  pub handle-Filters :
      (allow_ext : Bool) (req : Message) (c : Conn) (msg : Message)
      → kind req ≡ request_identities
      → (handle peers policy allow_ext req c).1.to_client ≡ msg ∷ c.to_client
      → kind msg ≡ identities_answer
      → (ids : List Identity) × (msg ≡ build_identities ids)
        × All (λ id. permits policy id.blob id.comment ≡ true) ids
  unfolding handle is_mutating
  handle-Filters allow_ext req c msg r e k =
      forward-Filters req r c msg (rw (passed (kind req) r, other (kind req) r) at e) k
    where
      passed :
          (k : ℕ)
          → k ≡ request_identities
          → (is_mutating k || (k == extension && not allow_ext)) ≡ false
      passed k e = rw e

      other : (k : ℕ) → k ≡ request_identities → (k == sign_request) ≡ false
      other k e = rw e
