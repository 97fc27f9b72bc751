-- ===== src/Agent/Sha/Vectors.antt =====
-- The known vectors of the source's own tests.
use nix_os_container_podman.Common.{◌≡◌, refl, codes, []}
use nix_os_container_podman.Agent.Sha.{sha256, base64_nopad}

empty_vector : base64_nopad (sha256 []) ≡ codes "47DEQpj8HBSa+/TImW+5JCeuQeRkm5NMpJWZG3hSuFU"
unfolding sha256 base64_nopad
empty_vector = refl

abc_vector :
    base64_nopad (sha256 (codes "abc")) ≡ codes "ungWv48Bz+pBQUDeXa4iI7ADYaOWF3qctBD/YfIAFa0"
unfolding sha256 base64_nopad
abc_vector = refl

two_block_vector :
    base64_nopad (sha256 (codes "abcdbcdecdefdefgefghfghighijhijkijkljklmklmnlmnomnopnopq"))
    ≡ codes "JI1qYdIGOLjlwCaTDD5gOaM85Flk/yFn9uzt1BnbBsE"
unfolding sha256 base64_nopad
two_block_vector = refl
