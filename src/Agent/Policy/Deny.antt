-- ===== src/Agent/Policy/Deny.antt =====
-- Allow lists and deny lists, and a deny list that a comment slips past.
use nix_os_container_podman.Common.{
  ℕ, ◌/◌, ◌^◌, ◌%◌, ◌≡◌, ◌≢◌, refl, ap, true, false, not, List, [], ◌∷◌, ◌++◌, Bytes, Text,
  contains, bytes_eq, bytes_eq→eq, Bool-cases, inl, inr, arith, ◌==◌, ok, err,
}
use nix_os_container_podman.Agent.Sha.{letter, digit, base64_nopad, sha256, fingerprint, prefix}
use nix_os_container_podman.Agent.Sha.Base64.{passes_to, passes_to-le}
use nix_os_container_podman.Agent.Policy.{
  Policy, deny, mutually_exclusive, new_policy, spec_matches, matches, permits, from_utf8_lossy,
}
use nix_os_container_podman.Agent.Policy.Glob.{Matches, IsLiteral}
use nix_os_container_podman.Agent.Policy.Rules.{glob_incomplete}

-- The allow list and the deny list of the same specs permit complementary keys, and a policy with
-- both lists is refused.
pub new_policy_complement :
    (spec : Text) (specs : List Text) (a d : Policy) (blob comment : Bytes) (other : Text)
    (others : List Text)
    → new_policy (spec ∷ specs) [] ≡ ok a
    → new_policy [] (spec ∷ specs) ≡ ok d
    → (permits a blob comment ≡ not (permits d blob comment))
      × (new_policy (spec ∷ specs) (other ∷ others) ≡ err mutually_exclusive)
unfolding new_policy permits matches
new_policy_complement spec specs a d blob comment other others ea ed = (ground arith, refl)

star_table : passes_to (λ i. not (letter i == b'*')) 63 ≡ true
unfolding passes_to
star_table = refl

digit_ne_star : (n shift : ℕ) → (digit n shift == b'*') ≡ false
digit_ne_star n shift = ground (
  arith,
  passes_to-le (λ i. not (letter i == b'*')) 63 (n / 2 ^ shift % 64) star_table (omega arith),
)

base64_nopad-IsLiteral : (bytes : Bytes) → IsLiteral (base64_nopad bytes)
unfolding base64_nopad
base64_nopad-IsLiteral [] = refl
base64_nopad-IsLiteral (a ∷ []) = simp digit_ne_star
base64_nopad-IsLiteral (a ∷ b ∷ []) = simp digit_ne_star
base64_nopad-IsLiteral (a ∷ b ∷ c ∷ rest) = simp digit_ne_star (base64_nopad-IsLiteral rest)

fingerprint-IsLiteral : (blob : Bytes) → IsLiteral (fingerprint blob)
unfolding fingerprint
fingerprint-IsLiteral blob = base64_nopad-IsLiteral (sha256 blob)

ne_of_star : (s t : Text) → contains b'*' s ≡ true → IsLiteral t → bytes_eq s t ≡ false
ne_of_star s t star literal = elim (Bool-cases (bytes_eq s t)) [
  | inl same ↦ cc (ap (contains b'*') (bytes_eq→eq s t same))
  | inr other ↦ other
]

literal-append : (s t : Text) → IsLiteral s → IsLiteral t → IsLiteral (s ++ t)
literal-append [] t hs ht = ht
literal-append (x ∷ s) t hs ht = ground (arith, literal-append s t)

-- A deny list of the one spec `*piece` lets through every key whose comment is the piece written
-- twice, although the spec stands for that comment.
pub deny_misses :
    (piece : Text) (blob comment : Bytes)
    → IsLiteral piece
    → piece ≢ []
    → from_utf8_lossy comment ≡ piece ++ piece
    → Matches (b'*' ∷ piece) (from_utf8_lossy comment)
      × (permits (record { mode = deny; specs = (b'*' ∷ piece) ∷ [] }) blob comment ≡ true)
unfolding permits matches spec_matches
deny_misses piece blob comment l n e =
    let (stands, missed) = glob_incomplete piece l n in
    (
      rw e stands,
      rw (
        e,
        ne_of_star (b'*' ∷ piece) (fingerprint blob) refl (fingerprint-IsLiteral blob),
        ne_of_star (prefix ++ (b'*' ∷ piece)) (fingerprint blob) refl (fingerprint-IsLiteral blob),
        missed,
        ne_of_star (b'*' ∷ piece) (piece ++ piece) refl (literal-append piece piece l l),
      ),
    )
