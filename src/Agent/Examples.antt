-- ===== src/Agent/Examples.antt =====
-- Runs of the ssh-agent filter's parts on concrete inputs.
use nix_os_container_podman.Common.{
  ◌≡◌, ◌≢◌, refl, true, false, List, [], ◌∷◌, ◌++◌, codes, All, length, split, strip_prefix,
  find_after, bytes_eq, arith,
}
use nix_os_container_podman.Agent.Proto.{
  Message, Identity, kind, payload, is_mutating, request_identities, build_identities,
  parse_identities, read, write, message, string, Stream,
}
use nix_os_container_podman.Agent.Proto.RoundTrip.{read-write}
use nix_os_container_podman.Agent.Sha.{fingerprint}
use nix_os_container_podman.Agent.Policy.{Policy, allow, deny, glob, permits, matches, spec_matches}
use nix_os_container_podman.Agent.Policy.Lossy.{from_utf8_lossy}
use nix_os_container_podman.Agent.Policy.Glob.{Matches, IsLiteral}
use nix_os_container_podman.Agent.Policy.Rules.{glob_sound, glob_complete}
use nix_os_container_podman.Agent.Policy.Deny.{deny_misses}
use nix_os_container_podman.Agent.Serve.{
  Peers, received, connected, ◌>>=◌, send_client, send_upstream, receive, handle, serve, finished,
  out_of_fuel,
}
use nix_os_container_podman.Agent.Serve.Admitted.{AllAdmitted}
use nix_os_container_podman.Agent.Serve.Gate.{serve-IsGuarded}
use nix_os_container_podman.Agent.Serve.Reply.{IsHealthy}
use nix_os_container_podman.Agent.Serve.Filtered.{handle-Filters}
use nix_os_container_podman.Agent.Serve.Loop.{frames, serve-ends, serve_answers}

abbrev work_key : Identity
work_key = record { blob = 1 ∷ []; comment = codes "work" }

abbrev listing : Message
listing = build_identities (work_key ∷ [])

abbrev list_request : Message
list_request = record { body = request_identities ∷ [] }

abbrev remove_request : Message
remove_request = record { body = 19 ∷ [] }

-- An agent that always lists the work key.
abbrev lister : Peers
lister = record {
  connects = true;
  answer = λ ms. received listing;
  upstream_takes = λ ms. true;
  client_takes = λ ms. true;
}

abbrev workers : Policy
workers = record { mode = allow; specs = codes "work" ∷ [] }

abbrev two_requests : List Message
two_requests = remove_request ∷ list_request ∷ []

abbrev two_frames : Stream
two_frames = record { bytes = frames two_requests; broken = false }

serve-IsGuarded_example :
    AllAdmitted lister workers false (serve lister workers false two_frames).1.to_upstream
serve-IsGuarded_example = serve-IsGuarded lister workers false two_frames

handle-Filters_example :
    (ids : List Identity) × (listing ≡ build_identities ids)
    × All (λ id. permits workers id.blob id.comment ≡ true) ids
unfolding handle is_mutating kind ◌>>=◌ send_client send_upstream receive build_identities
    parse_identities payload string permits matches spec_matches bytes_eq fingerprint
    from_utf8_lossy
handle-Filters_example =
    handle-Filters lister workers false list_request connected listing refl refl refl

serve-ends_example : (serve lister workers false two_frames).0 ≢ out_of_fuel
serve-ends_example = serve-ends lister workers false two_frames

abbrev lister-IsHealthy : IsHealthy lister
lister-IsHealthy = record {
  accepts = refl;
  upstream = λ ms. refl;
  client = λ ms. refl;
  answers = λ ms. (listing, refl);
}

serve_answers_example :
    ((serve lister workers false two_frames).0 ≡ finished)
    × (length (serve lister workers false two_frames).1.to_client ≡ 2)
serve_answers_example =
    serve_answers lister workers false two_requests lister-IsHealthy
      ((omega arith, omega arith), ((omega arith, omega arith), tt))

glob_sound_example : Matches (codes "w*k") (codes "work")
unfolding glob split strip_prefix find_after
glob_sound_example = glob_sound (codes "w*k") (codes "work") refl

glob_complete_example : glob (codes "wo*") (codes "work") ≡ true
unfolding glob split strip_prefix find_after
glob_complete_example =
    glob_complete (codes "wo*") (codes "work") refl (glob_sound (codes "wo*") (codes "work") refl)

abbrev p-IsLiteral : IsLiteral (codes "p")
p-IsLiteral = refl

deny_misses_example :
    Matches (codes "*p") (from_utf8_lossy (codes "pp"))
    × (permits (record { mode = deny; specs = codes "*p" ∷ [] }) (1 ∷ []) (codes "pp") ≡ true)
unfolding from_utf8_lossy
deny_misses_example = deny_misses (codes "p") (1 ∷ []) (codes "pp") p-IsLiteral (λ e. cc e) refl

read-write_example :
    read (record { bytes = write list_request ++ (9 ∷ []); broken = false })
    ≡ message list_request (record { bytes = 9 ∷ []; broken = false })
read-write_example = read-write list_request (9 ∷ []) false (omega arith) (omega arith)
